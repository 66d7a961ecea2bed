-- ===== src/FileStore/Calls.antt =====
-- The `?` of src/stores/file.rs: fallible code that threads the state of the file system.
use yaoki.Prelude.{Result, ok, err, map_err}
use yaoki.Text.{Text}
use yaoki.Journal.{JournalError, io}

-- Fallible code that changes the file system; what was done before an error stays done.
abbrev pub Io : Type 0 → Type 0 → Type 0
Io S A = S → Result A JournalError × S

module _ {S : Type 0} where
  abbrev pub pure : {A : Type 0} → A → Io S A
  pure a s = (ok a, s)

  abbrev pub lift : {A : Type 0} → Result A JournalError → Io S A
  lift r s = (r, s)

  abbrev pub continue_with : {A B : Type 0} → Result A JournalError → (A → Io S B) → Io S B
  continue_with (ok a) f s = f a s
  continue_with (err e) f s = (err e, s)

  infixl 5 ◌>>=◌ ◌>>◌
  unfoldable pub ◌>>=◌ : {A B : Type 0} → Io S A → (A → Io S B) → Io S B
  ◌>>=◌ m f s = let (r, s') = m s in continue_with r f s'

  abbrev pub ◌>>◌ : {A B : Type 0} → Io S A → Io S B → Io S B
  m >> k = m >>= λ _. k

  -- `map_err(io_error)?`
  abbrev pub attempt : {A : Type 0} → (S → Result A Text × S) → Io S A
  attempt call s = let (r, s') = call s in (map_err io r, s')
