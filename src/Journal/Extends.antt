-- ===== src/Journal/Extends.antt =====
-- Journals of src/journal.rs are append-only: what it is for one to extend another.
use yaoki.Prelude.{[], ◌++◌, ◌≡◌, sym, ◌∙◌, ap, append_assoc, append-nil}
use yaoki.Journal.{Journal}

-- The later journal begins with the whole of the earlier.
abbrev pub Extends : Journal → Journal → Type 0
Extends before after = (more : Journal) × (after ≡ before ++ more)

pub Extends-same : {before after : Journal} → after ≡ before → Extends before after
Extends-same {before = before} e = ([], e ∙ sym (append-nil before))

pub Extends-trans :
    (first second third : Journal)
    → Extends first second
    → Extends second third
    → Extends first third
Extends-trans first second third (more, e) (later, f) =
    (more ++ later, f ∙ ap (λ j. j ++ later) e ∙ append_assoc first more later)
