-- ===== src/Context/Now/Replayed.antt =====
-- What `now` of src/context.rs returns from its record, beside what it returned when it read the clock.
use yaoki.Prelude.{
  ◌+◌, ◌<◌, List, ◌∷◌, ◌++◌, ◌≡◌, ◌∙◌, ap, subst, inl, inr, ok, err, Result-cases, length, drop,
  ltb, true, arith, refl,
}
use yaoki.Execution.{ExecutionId}
use yaoki.Seq
use yaoki.Seq.{Seq, u64_max, EventOffset}
use yaoki.Time.{Timestamp}
use yaoki.Journal.{JournalEvent, JournalError, now_recorded}
use yaoki.Journal.Store.{JournalStore, Contract}
use yaoki.Context.Cursor
use yaoki.Context.Cursor.{ReplayCursor}
use yaoki.Context.State
use yaoki.Context.State.{Environment}
use yaoki.Context.Monad.{
  ◌>>=◌, take_seq, decide, lift, healthy_only, retain, retain_engine_result, go_live, append,
  read_clock, pure,
}
use yaoki.Context.Now.{now, resolve_now, decide_now, match_now, answer_now}
use yaoki.Context.Replayed.{live_ctx, replay_ctx, new_event}
use yaoki.Context.Step.Replayed.{Ahead, peek-Ahead, advance-Ahead}

module _ {S W : Type 0} (store : JournalStore S) (env : Environment W) (s : S) (w : W)
    (id : ExecutionId) (seq : Seq) where
  -- A live `now`, by what its append answers.
  now_appended :
      (n : Seq) (offset : EventOffset)
      → Seq.next seq ≡ ok n
      → (store.append id (now_recorded seq (env.now w).0) s).0 ≡ ok offset
      → now store env (live_ctx s w id seq) ≡ (
        ok (env.now w).0,
        live_ctx (store.append id (now_recorded seq (env.now w).0) s).1 (env.now w).1 id n,
      )
  unfolding now healthy_only State.ensure_healthy retain resolve_now take_seq decide_now answer_now
      decide go_live read_clock append pure retain_engine_result ◌>>=◌
  now_appended n offset e a =
      rw
        (
          e, a, retain, resolve_now, ◌>>=◌, take_seq, decide, decide_now, answer_now, go_live,
          read_clock, append, pure, retain_engine_result,
        )
        refl

  now_not_appended :
      (n : Seq) (x : JournalError)
      → Seq.next seq ≡ ok n
      → (store.append id (now_recorded seq (env.now w).0) s).0 ≡ err x
      → (now store env (live_ctx s w id seq)).0 ≡ err (State.journal x)
  unfolding now healthy_only State.ensure_healthy retain resolve_now take_seq decide_now answer_now
      decide go_live read_clock append pure retain_engine_result ◌>>=◌
  now_not_appended n x e a =
      rw
        (
          e, a, retain, resolve_now, ◌>>=◌, take_seq, decide, decide_now, answer_now, go_live,
          read_clock, append, pure, retain_engine_result,
        )
        refl

  now_exhausted :
      (x : Seq.SeqError)
      → Seq.next seq ≡ err x
      → (now store env (live_ctx s w id seq)).0 ≡ err (State.sequence x)
  unfolding now healthy_only State.ensure_healthy retain resolve_now take_seq retain_engine_result
      ◌>>=◌
  now_exhausted x e = rw (e, retain, resolve_now, ◌>>=◌, take_seq, retain_engine_result) refl

  -- A success of a live `now` has appended what it returns.
  now-live :
      (value : Timestamp)
      → (now store env (live_ctx s w id seq)).0 ≡ ok value
      → (offset : EventOffset) × ((store.append id (now_recorded seq value) s).0 ≡ ok offset)
        × ((now store env (live_ctx s w id seq)).1.store
            ≡ (store.append id (now_recorded seq value) s).1)
  now-live value h = elim (Result-cases (Seq.next seq)) [
    | inr (x, e) ↦ cc (now_exhausted x e, h)
    | inl (n, e) ↦ elim (Result-cases (store.append id (now_recorded seq (env.now w).0) s).0) [
      | inr (x, a) ↦ cc (now_not_appended n x e a, h)
      | inl (offset, a) ↦
          (let whole = now_appended n offset e a in
            let same : (env.now w).0 ≡ value = cc (ap (λ r. r.0) whole, h) in
            subst
              (λ v.
                (offset : EventOffset) × ((store.append id (now_recorded seq v) s).0 ≡ ok offset)
                × ((now store env (live_ctx s w id seq)).1.store
                    ≡ (store.append id (now_recorded seq v) s).1))
              same (offset, a, ap (λ r. r.1.store) whole))
    ]
  ]

  now-recorded :
      (cursor : ReplayCursor) (m : Seq) (value : Timestamp) (rest : List JournalEvent)
      → seq < u64_max
      → Ahead cursor (now_recorded m value ∷ rest)
      → now store env (replay_ctx s w id seq cursor)
        ≡ (ok value, record (replay_ctx s w id seq (Cursor.advance cursor)) { seq = seq + 1 })
  unfolding now healthy_only State.ensure_healthy retain resolve_now take_seq decide_now answer_now
      decide lift retain_engine_result ◌>>=◌ Seq.next match_now
  now-recorded cursor m value rest room h =
      rw
        (
          (let t : ltb seq u64_max ≡ true = ground (arith, room) in t),
          peek-Ahead cursor (now_recorded m value) rest h,
          retain,
          resolve_now,
          ◌>>=◌,
          take_seq,
          decide,
          decide_now,
          match_now,
        )
        refl

module _ {S W : Type 0} {store : JournalStore S} (contract : Contract store)
    (env env' : Environment W) where
  -- For a store that keeps the contract: when a live `now` of a healthy context has returned a reading, every
  -- healthy context that replays, whose position is not the last and whose cursor has consumed the journal as it
  -- was before that reading, returns the same reading from the journal that the call left, whatever was appended
  -- since and whatever its clock says. It then touches neither the store nor the world; only its position and its
  -- cursor move.
  pub now-replay :
      (s s' : S) (w w' : W) (id id' : ExecutionId) (seq seq' : Seq) (value : Timestamp)
      (cursor : ReplayCursor) (rest : List JournalEvent)
      → (now store env (live_ctx s w id seq)).0 ≡ ok value
      → seq' < u64_max
      → Ahead cursor (
          drop
            (length (contract.journal_of s id))
            (contract.journal_of (now store env (live_ctx s w id seq)).1.store id)
          ++ rest)
      → (now store env' (replay_ctx s' w' id' seq' cursor) ≡ (
        ok value,
        record (replay_ctx s' w' id' seq' (Cursor.advance cursor)) { seq = seq' + 1 },
      ))
        × Ahead (Cursor.advance cursor) rest
  now-replay s s' w w' id id' seq seq' value cursor rest done room h =
      let (offset, a, left) = now-live store env s w id seq value done in
      let new = new_event contract id (now_recorded seq value) s _ offset tt a left in
      let shown : Ahead cursor (now_recorded seq value ∷ rest) = h ∙ ap (λ t. t ++ rest) new in
      (
        now-recorded store env' s' w' id' seq' cursor seq value rest room shown,
        advance-Ahead cursor (now_recorded seq value) rest shown,
      )
