-- ===== src/History/Walk.antt =====
-- Reading a journal in parts: how `walk` and `scan` of src/history.rs meet concatenation.
use yaoki.Prelude.{
  ℕ, suc, ◌+◌, List, [], ◌∷◌, ◌++◌, ◌≡◌, refl, ◌∙◌, ap, ok, length, arith, >>=-eq-ok, bind_ok,
}
use yaoki.Seq
use yaoki.Journal.{JournalEvent, Journal, execution_started}
use yaoki.History.{HistoryState, ready, advance, walk, scan}

-- After a legal first part, a walk goes on from its state and offset.
pub walk-append :
    (i : ℕ) (q q' : HistoryState) (xs ys : List JournalEvent)
    → walk i q xs ≡ ok q'
    → walk i q (xs ++ ys) ≡ walk (i + length xs) q' ys
unfolding walk
walk-append i q q' [] ys h = cc (ap (λ k. walk k q ys) (let e : i ≡ i + 0 = omega arith in e))
walk-append i q q' (x ∷ xs) ys h =
    let (q1, e1, e2) = >>=-eq-ok (advance q x i) (λ s. walk (suc i) s xs) h in
    rw e1 (
      walk-append (suc i) q1 q' xs ys e2
      ∙ ap (λ k. walk k q' ys) (let e : suc i + length xs ≡ i + suc (length xs) = omega arith in e))

-- A walk over a concatenation that succeeds has succeeded over the first part.
pub walk-prefix :
    (i : ℕ) (q : HistoryState) {q' : HistoryState} (xs ys : List JournalEvent)
    → walk i q (xs ++ ys) ≡ ok q'
    → (p : HistoryState) × (walk i q xs ≡ ok p)
unfolding walk
walk-prefix i q [] ys h = (q, refl)
walk-prefix i q (x ∷ xs) ys h =
    let (q1, e1, e2) = >>=-eq-ok (advance q x i) (λ s. walk (suc i) s (xs ++ ys)) h in
    let (p, e) = walk-prefix (suc i) q1 xs ys e2 in (p, rw e1 e)

-- When the grammar accepts a first part of a journal, reading the whole is reading the rest from
-- the state and the offset behind that part.
pub scan-append :
    (q : HistoryState) (xs ys : Journal) → scan xs ≡ ok q → scan (xs ++ ys) ≡ walk (length xs) q ys
unfolding scan
scan-append q [] ys h = cc
scan-append q (execution_started w v p ∷ xs) ys h =
    walk-append 1 (ready Seq.zero) q xs ys h
    ∙ ap (λ k. walk k q ys) (let e : 1 + length xs ≡ suc (length xs) = omega arith in e)
scan-append q (_ ∷ xs) ys h = cc

pub scan-prefix :
    {q : HistoryState} (x : JournalEvent) (xs ys : Journal)
    → scan ((x ∷ xs) ++ ys) ≡ ok q
    → (p : HistoryState) × (scan (x ∷ xs) ≡ ok p)
unfolding scan
scan-prefix (execution_started w v p) xs ys h = walk-prefix 1 (ready Seq.zero) xs ys h
scan-prefix _ xs ys h = absurd (cc)

-- One more legal event.
pub scan-snoc :
    (q : HistoryState) (event : JournalEvent) (xs : Journal)
    → scan xs ≡ ok q
    → scan (xs ++ event ∷ []) ≡ advance q event (length xs)
unfolding walk
scan-snoc q event xs h = scan-append q xs (event ∷ []) h ∙ walk_one
  where
    walk_one : walk (length xs) q (event ∷ []) ≡ advance q event (length xs)
    walk_one = bind_ok (advance q event (length xs))
