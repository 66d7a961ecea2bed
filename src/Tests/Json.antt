-- ===== src/Tests/Json.antt =====
-- A codec of the records of src/stores/file.rs in the place of `serde_json`: a tag, two numbers and three texts, of which
-- two have their lengths in front.
use yaoki.Prelude.{
  ℕ, zero, suc, [], ◌∷◌, ◌++◌, ◌≡◌, ◌≤◌, refl, inl, inr, Result, ok, err, length, take, drop,
  take-append, drop-append, if◌then◌else◌, leb, arith, Bool-cases,
}
use yaoki.Text.{Text, Bytes}
use yaoki.Codec.{JournalEventRecord, Messages}
use yaoki.Frames.RoundTrip.{isize_max}
use yaoki.FileStore.Payload.{Serde}
use yaoki.FileStore.View.{SerdeLaws}

abbrev pub pack : ℕ → ℕ → ℕ → Text → Text → Bytes → Bytes
pack tag a b x y z = tag ∷ a ∷ b ∷ length x ∷ length y ∷ (x ++ (y ++ z))

unfoldable pub write : JournalEventRecord → Bytes
write (JournalEventRecord.execution_started workflow version input) =
    pack 0 0 0 workflow version input
write (JournalEventRecord.step_scheduled seq name) = pack 1 seq 0 name [] []
write (JournalEventRecord.step_started seq attempt) = pack 2 seq attempt [] [] []
write (JournalEventRecord.step_completed seq result) = pack 3 seq 0 [] [] result
write (JournalEventRecord.step_failed seq attempt error) = pack 4 seq attempt error [] []
write (JournalEventRecord.now_recorded seq value) = pack 5 seq value [] [] []
write (JournalEventRecord.random_recorded seq value) = pack 6 seq 0 [] [] value
write (JournalEventRecord.timer_scheduled seq deadline) = pack 7 seq deadline [] [] []
write (JournalEventRecord.timer_fired seq) = pack 8 seq 0 [] [] []
write (JournalEventRecord.execution_completed output) = pack 9 0 0 [] [] output
write (JournalEventRecord.execution_failed error) = pack 10 0 0 error [] []

abbrev pub of_fields : ℕ → ℕ → ℕ → Text → Text → Bytes → Result JournalEventRecord Text
of_fields zero a b x y z = ok (JournalEventRecord.execution_started x y z)
of_fields (suc zero) a b x y z = ok (JournalEventRecord.step_scheduled a x)
of_fields (suc (suc zero)) a b x y z = ok (JournalEventRecord.step_started a b)
of_fields (suc (suc (suc zero))) a b x y z = ok (JournalEventRecord.step_completed a z)
of_fields (suc (suc (suc (suc zero)))) a b x y z = ok (JournalEventRecord.step_failed a b x)
of_fields (suc (suc (suc (suc (suc zero))))) a b x y z = ok (JournalEventRecord.now_recorded a b)
of_fields (suc (suc (suc (suc (suc (suc zero)))))) a b x y z =
    ok (JournalEventRecord.random_recorded a z)
of_fields (suc (suc (suc (suc (suc (suc (suc zero))))))) a b x y z =
    ok (JournalEventRecord.timer_scheduled a b)
of_fields (suc (suc (suc (suc (suc (suc (suc (suc zero)))))))) a b x y z =
    ok (JournalEventRecord.timer_fired a)
of_fields (suc (suc (suc (suc (suc (suc (suc (suc (suc zero))))))))) a b x y z =
    ok (JournalEventRecord.execution_completed z)
of_fields _ a b x y z = ok (JournalEventRecord.execution_failed x)

unfoldable pub read : Bytes → Result JournalEventRecord Text
read (tag ∷ a ∷ b ∷ n ∷ m ∷ rest) =
    of_fields tag a b (take n rest) (take m (drop n rest)) (drop m (drop n rest))
read _ = err []

read-pack :
    (tag a b : ℕ) (x y : Text) (z : Bytes) → read (pack tag a b x y z) ≡ of_fields tag a b x y z
unfolding read
read-pack tag a b x y z =
    rw (take-append x (y ++ z), drop-append x (y ++ z), take-append y z, drop-append y z) refl

pub read-write : (r : JournalEventRecord) → read (write r) ≡ ok r
unfolding write
read-write (JournalEventRecord.execution_started workflow version input) =
    read-pack 0 0 0 workflow version input
read-write (JournalEventRecord.step_scheduled seq name) = read-pack 1 seq 0 name [] []
read-write (JournalEventRecord.step_started seq attempt) = read-pack 2 seq attempt [] [] []
read-write (JournalEventRecord.step_completed seq result) = read-pack 3 seq 0 [] [] result
read-write (JournalEventRecord.step_failed seq attempt error) = read-pack 4 seq attempt error [] []
read-write (JournalEventRecord.now_recorded seq value) = read-pack 5 seq value [] [] []
read-write (JournalEventRecord.random_recorded seq value) = read-pack 6 seq 0 [] [] value
read-write (JournalEventRecord.timer_scheduled seq deadline) = read-pack 7 seq deadline [] [] []
read-write (JournalEventRecord.timer_fired seq) = read-pack 8 seq 0 [] [] []
read-write (JournalEventRecord.execution_completed output) = read-pack 9 0 0 [] [] output
read-write (JournalEventRecord.execution_failed error) = read-pack 10 0 0 error [] []

abbrev pub messages : Messages
messages = record {
  of_name = λ e. [];
  of_version = λ e. [];
  of_step = λ e. [];
  of_attempt = λ e. [];
}

-- What does not fit a vector is refused.
unfoldable pub checked : Bytes → Result Bytes Text
checked bytes = if leb (length bytes) isize_max then ok bytes else err []

abbrev pub json : Serde
json = record { to_vec = λ r. checked (write r); from_slice = read; messages = messages }

pub checked_lem :
    (bytes payload : Bytes)
    → checked bytes ≡ ok payload
    → (payload ≡ bytes) × (length payload ≤ isize_max)
unfolding checked
checked_lem bytes payload h = elim (Bool-cases (leb (length bytes) isize_max)) [
  | inl e ↦ (let same : payload ≡ bytes = cc (h, e) in (same, rw same (ground (arith, e))))
  | inr e ↦ cc (h, e)
]

abbrev pub json_laws : SerdeLaws json
json_laws = record {
  round_trip = λ r payload h. rw ((checked_lem (write r) payload h).0) (read-write r);
  fits = λ r payload h. (checked_lem (write r) payload h).1;
}
