-- ===== src/FileStore/Steps.antt =====
-- What the calls of src/stores/file.rs to the operating system do to one file and to the locks.
use yaoki.Prelude.{
  ℕ, ◌++◌, ◌≡◌, ◌≢◌, ◌≤◌, ◌⊎◌, inl, inr, ◌∙◌, ap, refl, Result, ok, err, map_err, length, take,
}
use yaoki.Text.{Text, Bytes}
use yaoki.Journal.{io}
use yaoki.FileSystem.{FileSystem, FileLaws, Written, Shortened, Touches, Quiet}
use yaoki.FileStore.Calls.{attempt}
use yaoki.FileStore.Triple.{Triple, Ends}

module _ {S : Type 0} {fs : FileSystem S} (laws : FileLaws fs) (path : Text) (before : S) where
  -- Of all that was before, at most the bytes of the file have changed, and these are now `bytes`.
  pub record Has (bytes : Bytes) (s : S) : Type 0 where
    pub here : laws.contents s path ≡ bytes
    pub others : (other : Text) → other ≢ path → laws.contents s other ≡ laws.contents before other
    pub locks : (other : Text) → laws.locked s other ≡ laws.locked before other

  quiet-Has :
      {bytes : Bytes} {s s' : S} → Has bytes s → Quiet laws.contents laws.locked s s' → Has bytes s'
  quiet-Has h q = record {
    here = q.files path ∙ h.here;
    others = λ other ne. q.files other ∙ h.others other ne;
    locks = λ other. q.locks other ∙ h.locks other;
  }

  touched-Has :
      {bytes after : Bytes} {s s' : S}
      → Has bytes s
      → Touches laws.contents laws.locked path s s'
      → laws.contents s' path ≡ after
      → Has after s'
  touched-Has h t e = record {
    here = e;
    others = λ other ne. t.others other ne ∙ h.others other ne;
    locks = λ other. t.locks other ∙ h.locks other;
  }

  attempt-Ends :
      {A : Type 0} (Q : A → S → Type 0) (F : S → Type 0) (r : Result A Text) (s : S)
      → ((a : A) → r ≡ ok a → Q a s)
      → ((e : Text) → r ≡ err e → F s)
      → Ends Q F (map_err io r) s
  attempt-Ends Q F (ok a) s good bad = good a refl
  attempt-Ends Q F (err e) s good bad = bad e refl

  -- A call that changes nothing.
  pub quiet-Triple :
      {A : Type 0} (bytes : Bytes) (call : S → Result A Text × S)
      → ((s : S) → Quiet laws.contents laws.locked s (call s).1)
      → Triple (Has bytes) (attempt call) (λ _. Has bytes) (Has bytes)
  quiet-Triple bytes call q = record {
    at = λ s h.
        attempt-Ends (λ _. Has bytes) (Has bytes) (call s).0 (call s).1 (λ a e. quiet-Has h (q s))
          (λ a e. quiet-Has h (q s));
  }

  pub read-Triple :
      (bytes : Bytes)
      → Triple
          (Has bytes)
          (attempt (fs.read path))
          (λ found s. (found ≡ bytes) × Has bytes s)
          (Has bytes)
  read-Triple bytes = record {
    at = λ s h.
        attempt-Ends (λ found s. (found ≡ bytes) × Has bytes s) (Has bytes) (fs.read path s).0
          (fs.read path s).1
          (λ found e. (laws.read_lem path s found e ∙ h.here, quiet-Has h (laws.read_quiet path s)))
          (λ a e. quiet-Has h (laws.read_quiet path s));
  }

  pub set_len-Triple :
      (bytes : Bytes) (n : ℕ)
      → Triple
          (Has bytes)
          (attempt (fs.set_len path n))
          (λ _. Has (take n bytes))
          (λ s. Has bytes s ⊎ Has (take n bytes) s)
  set_len-Triple bytes n = record {
    at = λ s h.
        go (fs.set_len path n s).0 (fs.set_len path n s).1 s h (laws.set_len_lem path n s)
          (laws.set_len_touches path n s);
  }
    where
      go :
          (r : Result (Unit {0}) Text) (s' s : S)
          → Has bytes s
          → Shortened (laws.contents s path) n r (laws.contents s' path)
          → Touches laws.contents laws.locked path s s'
          → Ends
              (λ (u : Unit {0}). Has (take n bytes))
              (λ s. Has bytes s ⊎ Has (take n bytes) s)
              (map_err io r)
              s'
      go (ok u) s' s h e t = touched-Has h t (e ∙ ap (take n) h.here)
      go (err x) s' s h (inl e) t = inl (touched-Has h t (e ∙ h.here))
      go (err x) s' s h (inr e) t = inr (touched-Has h t (e ∙ ap (take n) h.here))

  -- The file after a write that may have been cut short.
  abbrev pub HasPart : Bytes → Bytes → S → Type 0
  HasPart bytes written s = (k : ℕ) × (k ≤ length written) × Has (bytes ++ take k written) s

  pub write_all-Triple :
      (bytes written : Bytes)
      → Triple
          (Has bytes)
          (attempt (fs.write_all path written))
          (λ _. Has (bytes ++ written))
          (HasPart bytes written)
  write_all-Triple bytes written = record {
    at = λ s h.
        go (fs.write_all path written s).0 (fs.write_all path written s).1 s h
          (laws.write_all_lem path written s) (laws.write_all_touches path written s);
  }
    where
      go :
          (r : Result (Unit {0}) Text) (s' s : S)
          → Has bytes s
          → Written (laws.contents s path) written r (laws.contents s' path)
          → Touches laws.contents laws.locked path s s'
          → Ends
              (λ (u : Unit {0}). Has (bytes ++ written))
              (HasPart bytes written)
              (map_err io r)
              s'
      go (ok u) s' s h e t = touched-Has h t (e ∙ ap (λ b. b ++ written) h.here)
      go (err x) s' s h (k, le, e) t =
          (k, le, touched-Has h t (e ∙ ap (λ b. b ++ take k written) h.here))
