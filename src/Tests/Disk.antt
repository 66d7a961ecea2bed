-- ===== src/Tests/Disk.antt =====
-- A file system whose calls fail by a plan. Laws.antt has that it keeps the laws.
pub mod Laws
use yaoki.Prelude.{
  ℕ, zero, suc, ◌+◌, List, [], ◌∷◌, ◌++◌, ◌≡◌, ◌≢◌, refl, inl, inr, Bool, true, false, Option, none,
  some, get_or, Result, ok, err, length, take, drop, take-append, drop-append, take-length,
  if◌then◌else◌, ◌==◌, list_eq, nat_eq, leb, eq_of_beq, beq_refl, arith, Bool-cases, ap,
}
use yaoki.Text.{Text, Bytes}
use yaoki.Codec.{JournalEventRecord, Messages}
use yaoki.Frames.RoundTrip.{isize_max}
use yaoki.FileSystem.{
  FileSystem, FileLaws, TryLockError, would_block, Touches, Quiet, Guards, Written, Shortened,
  Locked,
}
use yaoki.FileStore.Payload.{Serde}
use yaoki.FileStore.View.{SerdeLaws}

-- Whether the next call works; a write that fails has written some bytes.
pub data Outcome : Type 0 where
  works : Outcome
  fails : ℕ → Outcome

pub record Disk : Type 0 where
  pub files : Text → Option Bytes
  pub locks : Text → Bool
  pub plan : List Outcome

abbrev pub next_outcome : List Outcome → Outcome
next_outcome [] = works
next_outcome (outcome ∷ rest) = outcome

abbrev pub rest_of : List Outcome → List Outcome
rest_of [] = []
rest_of (outcome ∷ rest) = rest

-- A map with one entry changed.
abbrev pub set : {A : Type 0} → (Text → A) → Text → A → Text → A
set f name value other = if other == name then value else f other

abbrev pub bytes_of : Disk → Text → Bytes
bytes_of d name = get_or (d.files name) []

abbrev pub exists_on : Text → Disk → Bool
exists_on name d = elim (d.files name) [ none ↦ false | some bytes ↦ true ]

abbrev pub spent : Disk → Disk
spent d = record d { plan = rest_of d.plan }

abbrev pub with_bytes : Text → Bytes → Disk → Disk
with_bytes name bytes d = record d { files = set d.files name (some bytes); plan = rest_of d.plan }

abbrev pub with_lock : Text → Bool → Disk → Disk
with_lock name held d = record d { locks = set d.locks name held; plan = rest_of d.plan }

-- A call that does something to a file, more or less of it as it works or fails.
abbrev pub attempted :
    (Outcome → Result (Unit {0}) Text × Disk) → Disk → Result (Unit {0}) Text × Disk
attempted act d = act (next_outcome d.plan)

abbrev pub touch : Disk → Text → Outcome → Result (Unit {0}) Text × Disk
touch d name works = (ok tt, with_bytes name (bytes_of d name) d)
touch d name (fails n) = (err [], spent d)

abbrev pub probe : Disk → Outcome → Result (Unit {0}) Text × Disk
probe d works = (ok tt, spent d)
probe d (fails n) = (err [], spent d)

abbrev pub cut_to : Disk → Text → ℕ → Outcome → Result (Unit {0}) Text × Disk
cut_to d name n works = (ok tt, with_bytes name (take n (bytes_of d name)) d)
cut_to d name n (fails _) = (err [], spent d)

abbrev pub write_to : Disk → Text → Bytes → Outcome → Result (Unit {0}) Text × Disk
write_to d name bytes works = (ok tt, with_bytes name (bytes_of d name ++ bytes) d)
write_to d name bytes (fails n) = (
  err [],
  with_bytes name (bytes_of d name ++ take (if leb n (length bytes) then n else 0) bytes) d,
)

abbrev pub try_to_lock : Disk → Text → Outcome → Result (Unit {0}) TryLockError × Disk
try_to_lock d name works =
    if d.locks name then (err would_block, spent d) else (ok tt, with_lock name true d)
try_to_lock d name (fails n) = (err (TryLockError.error []), spent d)

abbrev pub try_to_unlock : Disk → Text → Outcome → Result (Unit {0}) Text × Disk
try_to_unlock d name works = (ok tt, with_lock name false d)
try_to_unlock d name (fails n) = (err [], spent d)

abbrev pub read_from : Disk → Text → Outcome → Result Bytes Text × Disk
read_from d name works = (ok (bytes_of d name), spent d)
read_from d name (fails n) = (err [], spent d)

abbrev pub disk : FileSystem Disk
disk = record {
  exists = exists_on;
  read = λ name d. read_from d name (next_outcome d.plan);
  open_write = λ name d. probe d (next_outcome d.plan);
  open_append = λ name d. touch d name (next_outcome d.plan);
  open_lock = λ name d. touch d name (next_outcome d.plan);
  set_len = λ name n d. cut_to d name n (next_outcome d.plan);
  sync_all = λ name d. probe d (next_outcome d.plan);
  write_all = λ name bytes d. write_to d name bytes (next_outcome d.plan);
  try_lock = λ name d. try_to_lock d name (next_outcome d.plan);
  unlock = λ name d. try_to_unlock d name (next_outcome d.plan);
  close = λ name d. record d { locks = set d.locks name false };
}

pub set_self : {A : Type 0} (f : Text → A) (name : Text) (value : A) → set f name value name ≡ value
set_self f name value = rw (beq_refl name) refl

pub set_other :
    {A : Type 0} (f : Text → A) (name other : Text) (value : A)
    → other ≢ name
    → set f name value other ≡ f other
set_other f name other value ne = elim (Bool-cases (other == name)) [
  | inl e ↦ absurd (ne (eq_of_beq other name e))
  | inr e ↦ rw e refl
]

pub set_same :
    (d : Disk) (name other : Text)
    → get_or (set d.files name (some (bytes_of d name)) other) [] ≡ bytes_of d other
set_same d name other = elim (Bool-cases (other == name)) [
  | inl e ↦ rw e (ap (bytes_of d) (let s : name ≡ other = cc (eq_of_beq other name e) in s))
  | inr e ↦ rw e refl
]

pub with_bytes-Touches :
    (d : Disk) (name : Text) (bytes : Bytes)
    → Touches bytes_of (λ d. d.locks) name d (with_bytes name bytes d)
with_bytes-Touches d name bytes = record {
  others = λ other ne. ap (λ o. get_or o []) (set_other d.files name other (some bytes) ne);
  locks = λ other. refl;
}

pub with_bytes_here :
    (d : Disk) (name : Text) (bytes : Bytes) → bytes_of (with_bytes name bytes d) name ≡ bytes
with_bytes_here d name bytes = ap (λ o. get_or o []) (set_self d.files name (some bytes))
