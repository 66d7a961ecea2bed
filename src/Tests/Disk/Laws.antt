-- ===== src/Tests/Disk/Laws.antt =====
-- The file system that fails by a plan keeps the laws of src/stores/file.rs's file system.
use yaoki.Prelude.{
  ℕ, [], ◌++◌, ◌≡◌, refl, inl, inr, Bool, true, false, Option, none, some, get_or, ok, length, take,
  if◌then◌else◌, leb, arith, Bool-cases, ap, list_eq, nat_eq,
}
use yaoki.Text.{Text, Bytes}
use yaoki.FileSystem.{FileLaws, Touches, Quiet, Guards, Written, Shortened, Locked, Reliable}
use yaoki.Tests.Disk.{
  Disk, Outcome, works, fails, disk, bytes_of, exists_on, spent, next_outcome, with_lock, touch,
  probe, cut_to, write_to, try_to_lock, try_to_unlock, read_from, set_self, set_other, set_same,
  with_bytes-Touches, with_bytes_here,
}

abbrev pub locks_of : Disk → Text → Bool
locks_of d = d.locks

spent-Quiet : (d : Disk) → Quiet bytes_of locks_of d (spent d)
spent-Quiet d = record { files = λ name. refl; locks = λ name. refl }

spent-Touches : (d : Disk) (name : Text) → Touches bytes_of locks_of name d (spent d)
spent-Touches d name = record { others = λ other ne. refl; locks = λ other. refl }

pub exists_same :
    (o : Option Bytes) (d : Disk) (name : Text)
    → d.files name ≡ o
    → exists_on name d ≡ false
    → bytes_of d name ≡ []
exists_same none d name e h = ap (λ o. get_or o []) e
exists_same (some bytes) d name e h = absurd (cc (rw (e, exists_on) at h))

pub read_same :
    (d : Disk) (name : Text) (o : Outcome) (bytes : Bytes)
    → (read_from d name o).0 ≡ ok bytes
    → bytes ≡ bytes_of d name
read_same d name works bytes h = cc
read_same d name (fails n) bytes h = cc

pub read-Quiet :
    (d : Disk) (name : Text) (o : Outcome) → Quiet bytes_of locks_of d (read_from d name o).1
read-Quiet d name works = spent-Quiet d
read-Quiet d name (fails n) = spent-Quiet d

pub probe-Quiet : (d : Disk) (o : Outcome) → Quiet bytes_of locks_of d (probe d o).1
probe-Quiet d works = spent-Quiet d
probe-Quiet d (fails n) = spent-Quiet d

pub touch-Quiet :
    (d : Disk) (name : Text) (o : Outcome) → Quiet bytes_of locks_of d (touch d name o).1
touch-Quiet d name works = record { files = λ other. set_same d name other; locks = λ other. refl }
touch-Quiet d name (fails n) = spent-Quiet d

pub cut-Shortened :
    (d : Disk) (name : Text) (n : ℕ) (o : Outcome)
    → Shortened (bytes_of d name) n (cut_to d name n o).0 (bytes_of (cut_to d name n o).1 name)
cut-Shortened d name n works = with_bytes_here d name (take n (bytes_of d name))
cut-Shortened d name n (fails k) = inl refl

pub cut-Touches :
    (d : Disk) (name : Text) (n : ℕ) (o : Outcome)
    → Touches bytes_of locks_of name d (cut_to d name n o).1
cut-Touches d name n works = with_bytes-Touches d name (take n (bytes_of d name))
cut-Touches d name n (fails k) = spent-Touches d name

pub write-Written :
    (d : Disk) (name : Text) (bytes : Bytes) (o : Outcome)
    → Written
        (bytes_of d name)
        bytes
        (write_to d name bytes o).0
        (bytes_of (write_to d name bytes o).1 name)
write-Written d name bytes works = with_bytes_here d name (bytes_of d name ++ bytes)
write-Written d name bytes (fails n) =
    ((if leb n (length bytes) then n else 0), ground arith, with_bytes_here d name _)

pub write-Touches :
    (d : Disk) (name : Text) (bytes : Bytes) (o : Outcome)
    → Touches bytes_of locks_of name d (write_to d name bytes o).1
write-Touches d name bytes works = with_bytes-Touches d name _
write-Touches d name bytes (fails n) = with_bytes-Touches d name _

pub with_lock-Guards :
    (d : Disk) (name : Text) (held : Bool) → Guards bytes_of locks_of name d (with_lock name held d)
with_lock-Guards d name held = record {
  files = λ other. refl;
  others = λ other ne. set_other d.locks name other held ne;
}

spent-Guards : (d : Disk) (name : Text) → Guards bytes_of locks_of name d (spent d)
spent-Guards d name = record { files = λ other. refl; others = λ other ne. refl }

pub try-Locked :
    (d : Disk) (name : Text) (o : Outcome)
    → Locked (d.locks name) (try_to_lock d name o).0 ((try_to_lock d name o).1.locks name)
try-Locked d name works = elim (Bool-cases (d.locks name)) [
  | inl e ↦ rw e (refl, e)
  | inr e ↦ rw e (refl, set_self d.locks name true)
]
try-Locked d name (fails n) = refl

pub try-Guards :
    (d : Disk) (name : Text) (o : Outcome)
    → Guards bytes_of locks_of name d (try_to_lock d name o).1
try-Guards d name works = elim (Bool-cases (d.locks name)) [
  | inl e ↦ rw e (spent-Guards d name)
  | inr e ↦ rw e (with_lock-Guards d name true)
]
try-Guards d name (fails n) = spent-Guards d name

pub unlock_frees :
    (d : Disk) (name : Text) (o : Outcome)
    → (try_to_unlock d name o).0 ≡ ok tt
    → (try_to_unlock d name o).1.locks name ≡ false
unlock_frees d name works h = set_self d.locks name false
unlock_frees d name (fails n) h = cc

pub unlock-Guards :
    (d : Disk) (name : Text) (o : Outcome)
    → Guards bytes_of locks_of name d (try_to_unlock d name o).1
unlock-Guards d name works = with_lock-Guards d name false
unlock-Guards d name (fails n) = spent-Guards d name

abbrev pub disk_laws : FileLaws disk
disk_laws = record {
  contents = bytes_of;
  locked = locks_of;
  unreadable = λ d name. false;
  inherited = λ d name. false;
  exists_lem = λ name d e. inl (exists_same (d.files name) d name refl e);
  read_lem = λ name d. read_same d name (next_outcome d.plan);
  read_quiet = λ name d. read-Quiet d name (next_outcome d.plan);
  open_write_quiet = λ name d. probe-Quiet d (next_outcome d.plan);
  open_append_quiet = λ name d. touch-Quiet d name (next_outcome d.plan);
  sync_all_quiet = λ name d. probe-Quiet d (next_outcome d.plan);
  set_len_lem = λ name n d. cut-Shortened d name n (next_outcome d.plan);
  set_len_touches = λ name n d. cut-Touches d name n (next_outcome d.plan);
  write_all_lem = λ name bytes d. write-Written d name bytes (next_outcome d.plan);
  write_all_touches = λ name bytes d. write-Touches d name bytes (next_outcome d.plan);
  open_lock_quiet = λ name d. touch-Quiet d name (next_outcome d.plan);
  try_lock_lem = λ name d. try-Locked d name (next_outcome d.plan);
  try_lock_guards = λ name d. try-Guards d name (next_outcome d.plan);
  unlock_lem = λ name d. unlock_frees d name (next_outcome d.plan);
  close_lem = λ name d. inl (set_self d.locks name false);
  close_free = λ name d free. set_self d.locks name false;
  unlock_guards = λ name d. unlock-Guards d name (next_outcome d.plan);
  close_guards = λ name d. record {
    files = λ other. refl;
    others = λ other ne. set_other d.locks name other false ne;
  };
}

-- Its metadata can always be read, and the close of a handle frees its lock.
pub disk-Reliable : Reliable disk_laws
disk-Reliable = record { readable = λ name d. refl; frees = λ name d. inr refl }
