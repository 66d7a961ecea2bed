-- ===== src/Context/Random/Replayed.antt =====
-- What `random` of src/context.rs returns from its record, beside the bytes that it drew.
use yaoki.Prelude.{
  ◌+◌, ◌<◌, List, ◌∷◌, ◌++◌, ◌≡◌, ◌∙◌, ap, subst, inl, inr, ok, err, Result-cases, length, drop,
  ltb, true, arith, refl,
}
use yaoki.Execution.{ExecutionId}
use yaoki.Seq
use yaoki.Seq.{Seq, u64_max, EventOffset}
use yaoki.Random.{RandomBytes}
use yaoki.Journal.{JournalEvent, JournalError, random_recorded}
use yaoki.Journal.Store.{JournalStore, Contract}
use yaoki.Context.Cursor
use yaoki.Context.Cursor.{ReplayCursor}
use yaoki.Context.State
use yaoki.Context.State.{Environment}
use yaoki.Context.Monad.{
  ◌>>=◌, take_seq, decide, lift, healthy_only, retain, retain_engine_result, go_live, append, draw,
  pure,
}
use yaoki.Context.Random.{random, resolve_random, decide_random, match_random, answer_random}
use yaoki.Context.Replayed.{live_ctx, replay_ctx, new_event}
use yaoki.Context.Step.Replayed.{Ahead, peek-Ahead, advance-Ahead}

module _ {S W : Type 0} (store : JournalStore S) (env : Environment W) (s : S) (w : W)
    (id : ExecutionId) (seq : Seq) where
  -- A live `random`, by what its append answers.
  random_appended :
      (n : Seq) (offset : EventOffset)
      → Seq.next seq ≡ ok n
      → (store.append id (random_recorded seq (env.next_bytes w).0) s).0 ≡ ok offset
      → random store env (live_ctx s w id seq) ≡ (
        ok (env.next_bytes w).0,
        live_ctx
            (store.append id (random_recorded seq (env.next_bytes w).0) s).1
            (env.next_bytes w).1
            id
            n,
      )
  unfolding random healthy_only State.ensure_healthy retain resolve_random take_seq decide_random
      answer_random decide go_live draw append pure retain_engine_result ◌>>=◌
  random_appended n offset e a =
      rw
        (
          e, a, retain, resolve_random, ◌>>=◌, take_seq, decide, decide_random, answer_random,
          go_live, draw, append, pure, retain_engine_result,
        )
        refl

  random_not_appended :
      (n : Seq) (x : JournalError)
      → Seq.next seq ≡ ok n
      → (store.append id (random_recorded seq (env.next_bytes w).0) s).0 ≡ err x
      → (random store env (live_ctx s w id seq)).0 ≡ err (State.journal x)
  unfolding random healthy_only State.ensure_healthy retain resolve_random take_seq decide_random
      answer_random decide go_live draw append pure retain_engine_result ◌>>=◌
  random_not_appended n x e a =
      rw
        (
          e, a, retain, resolve_random, ◌>>=◌, take_seq, decide, decide_random, answer_random,
          go_live, draw, append, pure, retain_engine_result,
        )
        refl

  random_exhausted :
      (x : Seq.SeqError)
      → Seq.next seq ≡ err x
      → (random store env (live_ctx s w id seq)).0 ≡ err (State.sequence x)
  unfolding random healthy_only State.ensure_healthy retain resolve_random take_seq
      retain_engine_result ◌>>=◌
  random_exhausted x e = rw (e, retain, resolve_random, ◌>>=◌, take_seq, retain_engine_result) refl

  -- A success of a live `random` has appended what it returns.
  random-live :
      (value : RandomBytes)
      → (random store env (live_ctx s w id seq)).0 ≡ ok value
      → (offset : EventOffset) × ((store.append id (random_recorded seq value) s).0 ≡ ok offset)
        × ((random store env (live_ctx s w id seq)).1.store
            ≡ (store.append id (random_recorded seq value) s).1)
  random-live value h = elim (Result-cases (Seq.next seq)) [
    | inr (x, e) ↦ cc (random_exhausted x e, h)
    | inl (n, e) ↦
        elim (Result-cases (store.append id (random_recorded seq (env.next_bytes w).0) s).0) [
          | inr (x, a) ↦ cc (random_not_appended n x e a, h)
          | inl (offset, a) ↦
              (let whole = random_appended n offset e a in
                let same : (env.next_bytes w).0 ≡ value = cc (ap (λ r. r.0) whole, h) in
                subst
                  (λ v.
                    (offset : EventOffset) × ((store.append id (random_recorded seq v) s).0
                      ≡ ok offset)
                    × ((random store env (live_ctx s w id seq)).1.store
                        ≡ (store.append id (random_recorded seq v) s).1))
                  same (offset, a, ap (λ r. r.1.store) whole))
        ]
  ]

  random-recorded :
      (cursor : ReplayCursor) (m : Seq) (value : RandomBytes) (rest : List JournalEvent)
      → seq < u64_max
      → Ahead cursor (random_recorded m value ∷ rest)
      → random store env (replay_ctx s w id seq cursor)
        ≡ (ok value, record (replay_ctx s w id seq (Cursor.advance cursor)) { seq = seq + 1 })
  unfolding random healthy_only State.ensure_healthy retain resolve_random take_seq decide_random
      answer_random decide lift retain_engine_result ◌>>=◌ Seq.next match_random
  random-recorded cursor m value rest room h =
      rw
        (
          (let t : ltb seq u64_max ≡ true = ground (arith, room) in t),
          peek-Ahead cursor (random_recorded m value) rest h,
          retain,
          resolve_random,
          ◌>>=◌,
          take_seq,
          decide,
          decide_random,
          match_random,
        )
        refl

module _ {S W : Type 0} {store : JournalStore S} (contract : Contract store)
    (env env' : Environment W) where
  -- For a store that keeps the contract: when a live `random` of a healthy context has returned bytes, every
  -- healthy context that replays, whose position is not the last and whose cursor has consumed the journal as it
  -- was before that draw, returns the same bytes from the journal that the call left, whatever was appended since
  -- and whatever its source of bytes gives. It then touches neither the store nor the world; only its position and
  -- its cursor move.
  pub random-replay :
      (s s' : S) (w w' : W) (id id' : ExecutionId) (seq seq' : Seq) (value : RandomBytes)
      (cursor : ReplayCursor) (rest : List JournalEvent)
      → (random store env (live_ctx s w id seq)).0 ≡ ok value
      → seq' < u64_max
      → Ahead cursor (
          drop
            (length (contract.journal_of s id))
            (contract.journal_of (random store env (live_ctx s w id seq)).1.store id)
          ++ rest)
      → (random store env' (replay_ctx s' w' id' seq' cursor) ≡ (
        ok value,
        record (replay_ctx s' w' id' seq' (Cursor.advance cursor)) { seq = seq' + 1 },
      ))
        × Ahead (Cursor.advance cursor) rest
  random-replay s s' w w' id id' seq seq' value cursor rest done room h =
      let (offset, a, left) = random-live store env s w id seq value done in
      let new = new_event contract id (random_recorded seq value) s _ offset tt a left in
      let shown : Ahead cursor (random_recorded seq value ∷ rest) = h ∙ ap (λ t. t ++ rest) new in
      (
        random-recorded store env' s' w' id' seq' cursor seq value rest room shown,
        advance-Ahead cursor (random_recorded seq value) rest shown,
      )
