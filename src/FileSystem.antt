-- ===== src/FileSystem.antt =====
-- The calls to the operating system that src/stores/file.rs makes through `std::fs`, as an interface: the
-- files of one directory, by their names, and the locks on them. A handle is the name of its file. An
-- `io::Error` is its text. The laws are what the documentation of the calls promises; any call
-- may fail, and a failed write may have written a part. The drop of a
-- handle that holds no lock does nothing.
use yaoki.Prelude.{
  ℕ, [], ◌++◌, ◌≡◌, ◌≢◌, ◌≤◌, ◌⊎◌, Bool, true, false, Result, ok, err, length, take, inl, inr,
  Bool-cases, Result-cases,
}
use yaoki.Text.{Text, Bytes}

-- `TryLockError`
pub data TryLockError : Type 0 where
  would_block : TryLockError
  error : Text → TryLockError

pub record FileSystem (S : Type 0) : Type 0 where
  -- `Path::exists`
  pub exists : Text → S → Bool
  -- `fs::read`
  pub read : Text → S → Result Bytes Text × S
  -- `OpenOptions::new().write(true).open`
  pub open_write : Text → S → Result (Unit {0}) Text × S
  -- `OpenOptions::new().create(true).append(true).open`
  pub open_append : Text → S → Result (Unit {0}) Text × S
  -- `OpenOptions::new().read(true).write(true).create(true).truncate(false).open`
  pub open_lock : Text → S → Result (Unit {0}) Text × S
  -- `File::set_len`, `File::sync_all`, and `Write::write_all` at the end of a file
  pub set_len : Text → ℕ → S → Result (Unit {0}) Text × S
  pub sync_all : Text → S → Result (Unit {0}) Text × S
  pub write_all : Text → Bytes → S → Result (Unit {0}) Text × S
  -- `File::try_lock`, `File::unlock` and the drop of the handle
  pub try_lock : Text → S → Result (Unit {0}) TryLockError × S
  pub unlock : Text → S → Result (Unit {0}) Text × S
  pub close : Text → S → S

-- What a write at the end of a file has done: an error may have left a part of the data.
abbrev pub Written : Bytes → Bytes → Result (Unit {0}) Text → Bytes → Type 0
Written before written (ok _) after = after ≡ before ++ written
Written before written (err e) after =
    (k : ℕ) × (k ≤ length written) × (after ≡ before ++ take k written)

abbrev pub Shortened : Bytes → ℕ → Result (Unit {0}) Text → Bytes → Type 0
Shortened before n (ok _) after = after ≡ take n before
Shortened before n (err e) after = (after ≡ before) ⊎ (after ≡ take n before)

-- What `File::try_lock` has done: it is refused with `would_block` where the lock is held.
abbrev pub Locked : Bool → Result (Unit {0}) TryLockError → Bool → Type 0
Locked before (ok _) after = (before ≡ false) × (after ≡ true)
Locked before (err would_block) after = (before ≡ true) × (after ≡ before)
Locked before (err (error e)) after = after ≡ before

module _ {S : Type 0} (contents : S → Text → Bytes) (locked : S → Text → Bool) where
  -- At most the bytes of one file have changed.
  pub record Touches (name : Text) (s s' : S) : Type 0 where
    pub others : (other : Text) → other ≢ name → contents s' other ≡ contents s other
    pub locks : (other : Text) → locked s' other ≡ locked s other

  -- No byte and no lock has changed.
  pub record Quiet (s s' : S) : Type 0 where
    pub files : (name : Text) → contents s' name ≡ contents s name
    pub locks : (name : Text) → locked s' name ≡ locked s name

  -- At most the lock on one file has changed.
  pub record Guards (name : Text) (s s' : S) : Type 0 where
    pub files : (other : Text) → contents s' other ≡ contents s other
    pub others : (other : Text) → other ≢ name → locked s' other ≡ locked s other

-- A file that is not there counts as an empty one.
pub record FileLaws {S : Type 0} (fs : FileSystem S) : Type 0 where
  pub contents : S → Text → Bytes
  pub locked : S → Text → Bool
  -- The metadata of a file cannot be read, for want of a permission, say.
  pub unreadable : S → Text → Bool
  -- Another process has a copy of the handle on a file, which it inherited.
  pub inherited : S → Text → Bool
  -- `Path::exists` is false of a file that is not there, and also where its metadata cannot be read.
  pub exists_lem :
      (name : Text) (s : S)
      → fs.exists name s ≡ false
      → (contents s name ≡ []) ⊎ (unreadable s name ≡ true)
  pub read_lem :
      (name : Text) (s : S) (bytes : Bytes)
      → (fs.read name s).0 ≡ ok bytes
      → bytes ≡ contents s name
  pub read_quiet : (name : Text) (s : S) → Quiet contents locked s (fs.read name s).1
  pub open_write_quiet : (name : Text) (s : S) → Quiet contents locked s (fs.open_write name s).1
  pub open_append_quiet : (name : Text) (s : S) → Quiet contents locked s (fs.open_append name s).1
  pub sync_all_quiet : (name : Text) (s : S) → Quiet contents locked s (fs.sync_all name s).1
  pub set_len_lem :
      (name : Text) (n : ℕ) (s : S)
      → Shortened
          (contents s name)
          n
          (fs.set_len name n s).0
          (contents (fs.set_len name n s).1 name)
  pub set_len_touches :
      (name : Text) (n : ℕ) (s : S) → Touches contents locked name s (fs.set_len name n s).1
  pub write_all_lem :
      (name : Text) (bytes : Bytes) (s : S)
      → Written
          (contents s name)
          bytes
          (fs.write_all name bytes s).0
          (contents (fs.write_all name bytes s).1 name)
  pub write_all_touches :
      (name : Text) (bytes : Bytes) (s : S)
      → Touches contents locked name s (fs.write_all name bytes s).1
  pub open_lock_quiet : (name : Text) (s : S) → Quiet contents locked s (fs.open_lock name s).1
  pub try_lock_lem :
      (name : Text) (s : S)
      → Locked (locked s name) (fs.try_lock name s).0 (locked (fs.try_lock name s).1 name)
  pub try_lock_guards : (name : Text) (s : S) → Guards contents locked name s (fs.try_lock name s).1
  -- An unlock that succeeds frees the lock, and one that fails promises nothing.
  pub unlock_lem :
      (name : Text) (s : S)
      → (fs.unlock name s).0 ≡ ok tt
      → locked (fs.unlock name s).1 name ≡ false
  -- The close of a handle frees the lock once no other process has a copy of it, and takes no lock.
  pub close_lem :
      (name : Text) (s : S) → (locked (fs.close name s) name ≡ false) ⊎ (inherited s name ≡ true)
  pub close_free :
      (name : Text) (s : S) → locked s name ≡ false → locked (fs.close name s) name ≡ false
  pub unlock_guards : (name : Text) (s : S) → Guards contents locked name s (fs.unlock name s).1
  pub close_guards : (name : Text) (s : S) → Guards contents locked name s (fs.close name s)

module _ {S : Type 0} {fs : FileSystem S} (laws : FileLaws fs) where
  -- Where `Path::exists` answers false, the file is empty or not there.
  abbrev pub Stated : Text → S → Type 0
  Stated name s = fs.exists name s ≡ false → laws.contents s name ≡ []

  -- The drop of a lease can free its lock: the unlock succeeds, or no other process has a copy of the handle.
  abbrev pub Frees : Text → S → Type 0
  Frees name s = ((fs.unlock name s).0 ≡ ok tt) ⊎ (laws.inherited (fs.unlock name s).1 name ≡ false)

  -- The drop of a lease may keep its lock: the unlock fails, and another process has a copy of the handle.
  abbrev pub Keeps : Text → S → Type 0
  Keeps name s = ((fs.unlock name s).0 ≢ ok tt) × (laws.inherited (fs.unlock name s).1 name ≡ true)

  pub Frees-cases : (name : Text) (s : S) → Frees name s ⊎ Keeps name s
  Frees-cases name s = elim (Result-cases (fs.unlock name s).0) [
    | inl (u, e) ↦ inl (inl e)
    | inr (x, e) ↦ elim (Bool-cases (laws.inherited (fs.unlock name s).1 name)) [
      | inl copied ↦ inr (λ h. cc (e, h), copied)
      | inr sole ↦ inl (inr sole)
    ]
  ]

  -- The metadata of every file can be read, and every drop of a lease can free its lock.
  pub record Reliable : Type 0 where
    pub readable : (name : Text) (s : S) → laws.unreadable s name ≡ false
    pub frees : (name : Text) (s : S) → Frees name s

  -- `Path::exists` answers false of a file that is not empty only where the metadata cannot be read.
  pub Stated-cases :
      (name : Text) (s : S)
      → Stated name s ⊎ ((fs.exists name s ≡ false) × (laws.unreadable s name ≡ true))
  Stated-cases name s = elim (Bool-cases (fs.exists name s)) [
    | inl e ↦ inl (λ h. cc (e, h))
    | inr e ↦ elim (laws.exists_lem name s e) [
      | inl none_here ↦ inl (λ h. none_here)
      | inr hidden ↦ inr (e, hidden)
    ]
  ]

  pub Stated-readable : (name : Text) (s : S) → laws.unreadable s name ≡ false → Stated name s
  Stated-readable name s plain = elim (Stated-cases name s) [
    | inl stated ↦ stated
    | inr (e, hidden) ↦ cc (plain, hidden)
  ]
