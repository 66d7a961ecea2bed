-- ===== src/FileStore/Triple.antt =====
-- Pre- and postconditions of the fallible calls of src/stores/file.rs.
use yaoki.Prelude.{Result, ok, err}
use yaoki.Journal.{JournalError}
use yaoki.FileStore.Calls.{Io, ◌>>=◌, continue_with}

-- What holds of the state that comes with a result, and of the value of a success.
abbrev pub Ends :
    {S A : Type 0} → (A → S → Type 0) → (S → Type 0) → Result A JournalError → S → Type 0
Ends Q F (ok a) s = Q a s
Ends Q F (err e) s = F s

pub record Triple {S A : Type 0} (P : S → Type 0) (m : Io S A) (Q : A → S → Type 0) (F : S → Type 0)
    : Type 0 where
  pub at : (s : S) → P s → Ends Q F (m s).0 (m s).1

continue-Ends :
    {S A B : Type 0} (Q : A → S → Type 0) (R : B → S → Type 0) (F : S → Type 0)
    (r : Result A JournalError) (f : A → Io S B) (s : S)
    → Ends Q F r s
    → ((a : A) → Triple (Q a) (f a) R F)
    → Ends R F (continue_with r f s).0 (continue_with r f s).1
continue-Ends Q R F (ok a) f s h t = (t a).at s h
continue-Ends Q R F (err e) f s h t = h

Ends-weaken :
    {S A : Type 0} (Q R : A → S → Type 0) (F G : S → Type 0) (r : Result A JournalError) (s : S)
    → Ends Q F r s
    → ((a : A) (s : S) → Q a s → R a s)
    → ((s : S) → F s → G s)
    → Ends R G r s
Ends-weaken Q R F G (ok a) s h v w = v a s h
Ends-weaken Q R F G (err e) s h v w = w s h

module _ {S A : Type 0} {P : S → Type 0} {Q : A → S → Type 0} {F : S → Type 0} where
  pub Triple-bind :
      {B : Type 0} {R : B → S → Type 0} (m : Io S A) (f : A → Io S B)
      → Triple P m Q F
      → ((a : A) → Triple (Q a) (f a) R F)
      → Triple P (m >>= f) R F
  unfolding ◌>>=◌
  Triple-bind {R = R} m f tm tf = record {
    at = λ s h. continue-Ends Q R F (m s).0 f (m s).1 (tm.at s h) tf;
  }

  pub Triple-weaken :
      {R : A → S → Type 0} {G : S → Type 0} {m : Io S A}
      → Triple P m Q F
      → ((a : A) (s : S) → Q a s → R a s)
      → ((s : S) → F s → G s)
      → Triple P m R G
  Triple-weaken {R} {G} {m} t v w = record {
    at = λ s h. Ends-weaken Q R F G (m s).0 (m s).1 (t.at s h) v w;
  }

  -- A fact that the precondition has may be used for the whole.
  pub Triple-given :
      {X : Type 0} {m : Io S A} → ((s : S) → P s → X) → (X → Triple P m Q F) → Triple P m Q F
  Triple-given given t = record { at = λ s h. (t (given s h)).at s h }

  pub Triple-assume :
      {R : S → Type 0} {m : Io S A} → ((s : S) → P s → R s) → Triple R m Q F → Triple P m Q F
  Triple-assume assume t = record { at = λ s h. t.at s (assume s h) }
