-- ===== src/Equivalence/Duplicate.antt =====
-- What `SingleAdjacentDuplicate` of src/equivalence.rs decides.
use yaoki.Prelude.{
  ℕ, suc, ◌+◌, [], ◌∷◌, ◌++◌, true, ◌≡◌, refl, sym, ◌∙◌, ap, ◌↔◌, ◌⊎◌, inl, inr, length,
  length-append, append_assoc, arith, ◌==◌, list_eq, eq_of_beq, beq_refl, Bool-cases,
}
use yaoki.Equivalence.{
  EffectRecord, record_eq, EffectTrace, insert, any_duplicated, is_one, checked_sub,
  single_adjacent_duplicate,
}

-- The observed trace is the reference, with one record twice in a row.
abbrev pub DuplicatesOne : EffectTrace → EffectTrace → Type 0
DuplicatesOne observed reference =
    (before : EffectTrace) × (r : EffectRecord) × (after : EffectTrace) × (reference
      ≡ before ++ r ∷ after)
    × (observed ≡ before ++ r ∷ r ∷ after)

insert-append :
    (done rest : EffectTrace) (r : EffectRecord)
    → insert (length done) r (done ++ rest) ≡ done ++ r ∷ rest
unfolding insert
insert-append [] rest r = refl
insert-append (x ∷ done) rest r = ap (λ t. x ∷ t) (insert-append done rest r)

-- The search, from the records behind `done` on.
-- A record in front of the list that follows `done`.
moved : (done rest : EffectTrace) (x : EffectRecord) → done ++ x ∷ rest ≡ (done ++ x ∷ []) ++ rest
moved done rest x = sym (append_assoc done (x ∷ []) rest)

any_duplicated_found :
    (observed done rest reference : EffectTrace) (index : ℕ)
    → reference ≡ done ++ rest
    → index ≡ length done
    → any_duplicated observed reference index rest ≡ true
    → DuplicatesOne observed reference
unfolding any_duplicated
any_duplicated_found observed done [] reference index e i h = cc
any_duplicated_found observed done (r ∷ rest) reference index e i h =
    elim (Bool-cases (insert index r reference == observed)) [
      | inl t ↦ (
        done,
        r,
        rest,
        e,
        sym (eq_of_beq (insert index r reference) observed t)
            ∙ (rw (i, e) (insert-append done (r ∷ rest) r)),
      )
      | inr t ↦
          any_duplicated_found observed (done ++ r ∷ []) rest reference (suc index)
            (e ∙ moved done rest r) (omega (arith, i, length-append done (r ∷ []))) (rw t at h)
    ]

any_duplicated_finds :
    (observed done before after reference : EffectTrace) (r : EffectRecord) (index : ℕ)
    → reference ≡ done ++ (before ++ r ∷ after)
    → index ≡ length done
    → observed ≡ done ++ (before ++ r ∷ r ∷ after)
    → any_duplicated observed reference index (before ++ r ∷ after) ≡ true
unfolding any_duplicated
any_duplicated_finds observed done [] after reference r index e i o =
    let same : insert index r reference ≡ observed =
      (rw (i, e) (insert-append done (r ∷ after) r)) ∙ sym o in
    ground (arith, ap (λ t. t == observed) same, beq_refl observed)
any_duplicated_finds observed done (x ∷ before) after reference r index e i o =
    let found : any_duplicated observed reference (suc index) (before ++ r ∷ after) ≡ true =
      any_duplicated_finds observed (done ++ x ∷ []) before after reference r (suc index)
        (e ∙ moved done (before ++ r ∷ after) x) (omega (arith, i, length-append done (x ∷ [])))
        (o ∙ moved done (before ++ r ∷ r ∷ after) x) in
    ground (arith, found)

-- One record more.
longer :
    (observed reference : EffectTrace)
    → DuplicatesOne observed reference
    → is_one (checked_sub (length observed) (length reference)) ≡ true
longer observed reference (before, r, after, e, o) =
    let n : length reference ≡ length before + suc (length after) =
      ap length e ∙ length-append before (r ∷ after) in
    let m : length observed ≡ length before + suc (suc (length after)) =
      ap length o ∙ length-append before (r ∷ r ∷ after) in
    ground (arith, n, m)

-- The predicate holds exactly when the traces are equal, or the observed trace is the reference
-- with one of its records twice in a row.
pub single_adjacent_duplicate_iff :
    (observed reference : EffectTrace)
    → (single_adjacent_duplicate observed reference ≡ true)
      ↔ ((observed ≡ reference) ⊎ DuplicatesOne observed reference)
unfolding single_adjacent_duplicate
single_adjacent_duplicate_iff observed reference = (holds, decides)
  where
    holds :
        single_adjacent_duplicate observed reference ≡ true
        → (observed ≡ reference) ⊎ DuplicatesOne observed reference
    holds h = elim (Bool-cases (observed == reference)) [
      | inl t ↦ inl (eq_of_beq observed reference t)
      | inr t ↦ elim (Bool-cases (is_one (checked_sub (length observed) (length reference)))) [
        | inl n ↦
            inr (any_duplicated_found observed [] reference reference 0 refl refl (rw (t, n) at h))
        | inr n ↦ absurd (cc (rw (t, n) at h))
      ]
    ]

    decides :
        (observed ≡ reference) ⊎ DuplicatesOne observed reference
        → single_adjacent_duplicate observed reference ≡ true
    decides (inl e) = rw (e, beq_refl reference) refl
    decides (inr (before, r, after, e, o)) =
        let found : any_duplicated observed reference 0 reference ≡ true =
          ap (any_duplicated observed reference 0) e
          ∙ any_duplicated_finds observed [] before after reference r 0 e refl o in
        ground (arith, found, longer observed reference (before, r, after, e, o))
