-- ===== src/Equivalence/Indexed.antt =====
-- The loop of `OrderedRetries` of src/equivalence.rs over the reference.
use yaoki.Prelude.{
  ℕ, suc, ◌+◌, [], ◌∷◌, ◌++◌, some, ◌≡◌, sym, ◌∙◌, ap, subst, inl, inr, length, length-append,
  append_assoc, append-nil, arith, nat_eq, Option-cases,
}
use yaoki.Equivalence.{EffectRecord, EffectTrace, record_eq}
use yaoki.Equivalence.Retries.{Operations, get, index_operations}
use yaoki.Equivalence.FirstAppearances.{
  LacksKey, UniqueKeys, table, get-none, UniqueKeys-front, UniqueKeys-snoc,
}

table-snoc :
    (index : ℕ) (done : EffectTrace) (r : EffectRecord)
    → table index done ++ (r.operation, index + length done, r) ∷ [] ≡ table index (done ++ r ∷ [])
unfolding table
table-snoc index [] r =
    ap (λ n. (r.operation, n, r) ∷ []) (let e : index + 0 ≡ index = omega arith in e)
table-snoc index (x ∷ done) r =
    ap (λ t. (x.operation, index, x) ∷ t)
      (ap (λ n. table (suc index) done ++ (r.operation, n, r) ∷ [])
          (let e : index + suc (length done) ≡ suc index + length done = omega arith in e)
        ∙ table-snoc (suc index) done r)

pub length-snoc :
    (done : EffectTrace) (r : EffectRecord) → length (done ++ r ∷ []) ≡ suc (length done)
length-snoc done r = omega (arith, length-append done (r ∷ []))

pub moved :
    (done rest : EffectTrace) (x : EffectRecord) → done ++ x ∷ rest ≡ (done ++ x ∷ []) ++ rest
moved done rest x = sym (append_assoc done (x ∷ []) rest)

-- The loop over the reference succeeds exactly on unique keys, with the table of all.
index-step :
    (done : EffectTrace) (r : EffectRecord) (rest : EffectTrace)
    → LacksKey r.operation done
    → index_operations (length done) (r ∷ rest) (table 0 done)
      ≡ index_operations (length (done ++ r ∷ [])) rest (table 0 (done ++ r ∷ []))
unfolding index_operations
index-step done r rest lacks =
    rw ((get-none r.operation 0 done).1 lacks, index_operations)
      (ap (λ t. index_operations (suc (length done)) rest t)
          (ap (λ n. table 0 done ++ (r.operation, n, r) ∷ [])
              (let e : length done ≡ 0 + length done = omega arith in e)
            ∙ table-snoc 0 done r)
        ∙ ap (λ n. index_operations n rest (table 0 (done ++ r ∷ []))) (sym (length-snoc done r)))

pub index_unique :
    (done rest : EffectTrace)
    → UniqueKeys (done ++ rest)
    → index_operations (length done) rest (table 0 done) ≡ some (table 0 (done ++ rest))
unfolding index_operations
index_unique done [] unique = ap (λ t. some (table 0 t)) (sym (append-nil done))
index_unique done (r ∷ rest) unique =
    index-step done r rest (UniqueKeys-front done r rest unique)
    ∙ index_unique (done ++ r ∷ []) rest (subst UniqueKeys (moved done rest r) unique)
    ∙ ap (λ t. some (table 0 t)) (sym (moved done rest r))

pub index-UniqueKeys :
    (done rest : EffectTrace) (operations : Operations)
    → UniqueKeys done
    → index_operations (length done) rest (table 0 done) ≡ some operations
    → UniqueKeys (done ++ rest)
unfolding index_operations
index-UniqueKeys done [] operations unique h = subst UniqueKeys (sym (append-nil done)) unique
index-UniqueKeys done (r ∷ rest) operations unique h =
    elim (Option-cases (get r.operation (table 0 done))) [
      | inr (old, e) ↦ cc (rw (e, index_operations) at h)
      | inl e ↦
          (let lacks = (get-none r.operation 0 done).0 e in
            subst UniqueKeys (sym (moved done rest r)) (
              index-UniqueKeys (done ++ r ∷ []) rest operations
                (UniqueKeys-snoc done r unique lacks) (sym (index-step done r rest lacks) ∙ h)))
    ]
