-- ===== src/Equivalence/Ordered.antt =====
-- What `OrderedRetries` of src/equivalence.rs decides.
use yaoki.Prelude.{
  ℕ, suc, ◌+◌, ◌<◌, ◌≤◌, [], ◌∷◌, ◌++◌, true, false, some, ◌≡◌, refl, sym, ◌∙◌, ap, ◌↔◌, subst, inl,
  inr, length, length-append, append_assoc, append-nil, arith, ◌==◌, nat_eq, eq_of_beq, beq_refl,
  Bool-cases, Option-cases, ltb,
}
use native.Mathlib.Decide.{dec_lt}
use yaoki.Equivalence.{EffectRecord, EffectTrace, record_eq}
use yaoki.Equivalence.Retries.{Operations, get, index_operations, match_retries, ordered_retries}
use yaoki.Equivalence.FirstAppearances.{
  UniqueKeys, elem, first_appearances, table, get-append, get_found, UniqueKeys-front, elem-split,
  elem-LacksKey,
}
use yaoki.Equivalence.Indexed.{length-snoc, moved, index_unique, index-UniqueKeys}

-- A record of the reference in front of the position that is to appear next has been seen.
split-elem :
    (before after done todo : EffectTrace) (r : EffectRecord)
    → before ++ r ∷ after ≡ done ++ todo
    → length before < length done
    → elem r done ≡ true
split-elem before after [] todo r e h = absurd (omega (arith, h))
split-elem [] after (d ∷ done) todo r e h =
    rw (let same : r ≡ d = cc in same) (rw (beq_refl d) refl)
split-elem (x ∷ before) after (d ∷ done) todo r e h =
    let seen =
      split-elem before after done todo r (let t : before ++ r ∷ after ≡ done ++ todo = cc in t)
        (omega (arith, h)) in
    rw seen (ground arith)

split-same :
    (before after done todo : EffectTrace) (r : EffectRecord)
    → before ++ r ∷ after ≡ done ++ todo
    → length before ≡ length done
    → (before ≡ done) × (todo ≡ r ∷ after)
split-same [] after [] todo r e h = (refl, sym e)
split-same [] after (d ∷ done) todo r e h = absurd (omega (arith, h))
split-same (x ∷ before) after [] todo r e h = absurd (omega (arith, h))
split-same (x ∷ before) after (d ∷ done) todo r e h =
    let (same, rest) =
      split-same before after done todo r (let t : before ++ r ∷ after ≡ done ++ todo = cc in t)
        (omega (arith, h)) in
    (cc, rest)

-- One turn of the loop over the observed trace.
match_seen :
    (operations : Operations) (next i : ℕ) (r : EffectRecord) (rest : EffectTrace)
    → get r.operation operations ≡ some (i, r)
    → i < next
    → match_retries operations next (r ∷ rest) ≡ match_retries operations next rest
unfolding match_retries
match_seen operations next i r rest e lt =
    rw (e, match_retries)
      (rw
        (
          beq_refl r,
          (let t : ltb next i ≡ false = ground (arith, lt) in t),
          (let t : (i == next) ≡ false = ground (arith, lt) in t),
        )
        refl)

match_next :
    (operations : Operations) (next : ℕ) (r : EffectRecord) (rest : EffectTrace)
    → get r.operation operations ≡ some (next, r)
    → match_retries operations next (r ∷ rest) ≡ match_retries operations (suc next) rest
unfolding match_retries
match_next operations next r rest e =
    rw (e, match_retries)
      (rw (beq_refl r, (let t : ltb next next ≡ false = ground arith in t), beq_refl next)
        (ap (λ n. match_retries operations n rest)
          (let e : next + 1 ≡ suc next = omega arith in e)))

match_inv :
    (operations : Operations) (next i m : ℕ) (r expected : EffectRecord) (rest : EffectTrace)
    → get r.operation operations ≡ some (i, expected)
    → match_retries operations next (r ∷ rest) ≡ some m
    → (r ≡ expected) × (i ≤ next)
unfolding match_retries
match_inv operations next i m r expected rest e h =
    let turned = rw (e, match_retries) at h in
    elim (Bool-cases (r == expected)) [
      | inr f ↦ cc (rw f at turned)
      | inl f ↦ elim (Bool-cases (ltb next i)) [
        | inl g ↦ cc (rw (f, g) at turned)
        | inr g ↦ (eq_of_beq r expected f, ground (arith, g))
      ]
    ]

-- The loop has met the record that is to appear next: what it does with the rest, seen from behind that record.
match_moved :
    (done todo after rest : EffectTrace) (r : EffectRecord)
    → UniqueKeys (done ++ todo)
    → todo ≡ r ∷ after
    → (match_retries (table 0 (done ++ todo)) (length done) (r ∷ rest)
        ≡ some (length (done ++ todo)))
      ≡ (match_retries (table 0 ((done ++ r ∷ []) ++ after)) (length (done ++ r ∷ [])) rest
          ≡ some (length ((done ++ r ∷ []) ++ after)))
match_moved done todo after rest r unique next =
    ap (λ x. x ≡ some (length (done ++ todo)))
      (match_next (table 0 (done ++ todo)) (length done) r rest found)
    ∙ ap (λ w. match_retries (table 0 w) (suc (length done)) rest ≡ some (length w)) split
    ∙ ap
        (λ n.
          match_retries (table 0 ((done ++ r ∷ []) ++ after)) n rest
          ≡ some (length ((done ++ r ∷ []) ++ after)))
        (sym (length-snoc done r))
  where
    whole : done ++ todo ≡ done ++ r ∷ after
    whole = ap (λ t. done ++ t) next

    split : done ++ todo ≡ (done ++ r ∷ []) ++ after
    split = whole ∙ moved done after r

    found : get r.operation (table 0 (done ++ todo)) ≡ some (length done, r)
    found =
        ap (λ x. get r.operation (table 0 x)) whole
        ∙ get-append 0 done r after (UniqueKeys-front done r after (subst UniqueKeys whole unique))
        ∙ ap (λ n. some (n, r)) (omega arith)

-- What the loop over the observed trace finds, from the position behind `done` on.
match-first_appearances :
    (observed done todo : EffectTrace)
    → UniqueKeys (done ++ todo)
    → match_retries (table 0 (done ++ todo)) (length done) observed ≡ some (length (done ++ todo))
    → first_appearances done observed ≡ todo
unfolding match_retries first_appearances
match-first_appearances [] done [] unique h = refl
match-first_appearances [] done (x ∷ todo) unique h = absurd (
    omega (
      arith,
      (let n : length done ≡ length (done ++ x ∷ todo) = cc in n),
      length-append done (x ∷ todo),
    ))
match-first_appearances (r ∷ rest) done todo unique h =
    elim (Option-cases (get r.operation (table 0 (done ++ todo)))) [
      | inl e ↦ cc (rw (e, match_retries) at h)
      | inr ((i, expected), e) ↦
          (let (same, le) =
              match_inv (table 0 (done ++ todo)) (length done) i (length (done ++ todo)) r expected
                rest e h in
            let (before, after, whole, place) =
              get_found r.operation 0 (done ++ todo) i expected e in
            let stands : before ++ r ∷ after ≡ done ++ todo =
              ap (λ x. before ++ x ∷ after) same ∙ sym whole in
            elim (dec_lt (length before) (length done)) [
              | yes lt ↦
                  (let seen = split-elem before after done todo r stands lt in
                    rw seen (
                      match-first_appearances rest done todo unique (
                        sym (
                          match_seen (table 0 (done ++ todo)) (length done) i r rest
                            (e ∙ ap (λ x. some (i, x)) (sym same)) (omega (arith, lt, place)))
                        ∙ h)))
              | no ge ↦
                  (let (_, next) =
                      split-same before after done todo r stands (omega (arith, ge, le, place)) in
                    let unique' = subst (λ t. UniqueKeys (done ++ t)) next unique in
                    rw (elem-LacksKey r done (UniqueKeys-front done r after unique')) (
                      ap (λ t. r ∷ t)
                        (match-first_appearances rest (done ++ r ∷ []) after
                          (subst UniqueKeys (moved done after r) unique')
                          (subst (λ X. X) (match_moved done todo after rest r unique next) h))
                      ∙ sym next))
            ])
    ]

-- The loop over the observed trace, once its first appearances are known.
match_found :
    (observed done todo : EffectTrace)
    → UniqueKeys (done ++ todo)
    → first_appearances done observed ≡ todo
    → match_retries (table 0 (done ++ todo)) (length done) observed ≡ some (length (done ++ todo))
unfolding match_retries first_appearances
match_found [] done todo unique h = rw (sym h) (ap (λ t. some (length t)) (sym (append-nil done)))
match_found (r ∷ rest) done todo unique h = elim (Bool-cases (elem r done)) [
  | inl t ↦
      (let (before, after, whole) = elem-split r done t in
        let split : done ++ todo ≡ before ++ r ∷ (after ++ todo) =
          ap (λ x. x ++ todo) whole ∙ append_assoc before (r ∷ after) todo in
        let found : get r.operation (table 0 (done ++ todo)) ≡ some (0 + length before, r) =
          ap (λ x. get r.operation (table 0 x)) split
          ∙ get-append 0 before r (after ++ todo)
              (UniqueKeys-front before r (after ++ todo) (subst UniqueKeys split unique)) in
        match_seen (table 0 (done ++ todo)) (length done) (0 + length before) r rest found
          (omega (arith, ap length whole, length-append before (r ∷ after)))
        ∙ match_found rest done todo unique (rw (t, first_appearances) at h))
  | inr t ↦
      (let next : todo ≡ r ∷ first_appearances (done ++ r ∷ []) rest =
          sym (rw (t, first_appearances) at h) in
        subst (λ X. X)
          (sym (match_moved done todo (first_appearances (done ++ r ∷ []) rest) rest r unique next))
          (match_found rest (done ++ r ∷ []) (first_appearances (done ++ r ∷ []) rest)
            (subst UniqueKeys (moved done (first_appearances (done ++ r ∷ []) rest) r)
              (subst (λ t. UniqueKeys (done ++ t)) next unique))
            refl))
]

-- `OrderedRetries` accepts an observed trace for a reference exactly when each operation key occurs once in the
-- reference and the records that appear in the observed trace for the first time, in their order, are the
-- reference.
pub ordered_retries_iff :
    (observed reference : EffectTrace)
    → (ordered_retries observed reference ≡ true)
      ↔ (UniqueKeys reference × (first_appearances [] observed ≡ reference))
unfolding ordered_retries table
ordered_retries_iff observed reference = (accepts, accepted)
  where
    indexed : UniqueKeys reference → index_operations 0 reference [] ≡ some (table 0 reference)
    indexed unique = index_unique [] reference unique

    accepts :
        ordered_retries observed reference ≡ true
        → UniqueKeys reference × (first_appearances [] observed ≡ reference)
    accepts h = elim (Option-cases (index_operations 0 reference [])) [
      | inl e ↦ cc (rw (e, ordered_retries) at h)
      | inr (operations, e) ↦
          (let unique = index-UniqueKeys [] reference operations tt e in
            let h' = rw (indexed unique, ordered_retries) at h in
            elim (Option-cases (match_retries (table 0 reference) 0 observed)) [
              | inl f ↦ cc (rw f at h')
              | inr (next, f) ↦
                  (let all : next ≡ length reference =
                      eq_of_beq next (length reference) (rw f at h') in
                    (
                      unique,
                      match-first_appearances observed [] reference unique (f ∙ ap some all),
                    ))
            ])
    ]

    accepted :
        UniqueKeys reference × (first_appearances [] observed ≡ reference)
        → ordered_retries observed reference ≡ true
    accepted (unique, h) =
        rw (indexed unique, ordered_retries)
          (rw (match_found observed [] reference unique h) (beq_refl (length reference)))
