-- ===== src/Tests/Replays.antt =====
-- The library's theorems on records that are replayed: a clock is read and bytes are drawn behind the start of an
-- execution, and both are replayed where the clock and the source of bytes say something else.
use yaoki.Prelude.{
  ◌+◌, [], ◌∷◌, ◌++◌, ◌≡◌, refl, ok, none, some, if◌then◌else◌, ◌==◌, list_eq, nat_eq, length, drop,
  false, arith,
}
use yaoki.Seq
use yaoki.Journal.{JournalEvent, Journal, execution_started, step_scheduled}
use yaoki.Memory.{MemoryJournal}
use yaoki.Memory
use yaoki.Memory.Contract.{memory_contract, journal_of}
use yaoki.Context.State
use yaoki.Context.State.{Environment}
use yaoki.Context.Monad
use yaoki.Context.Cursor
use yaoki.Context.Cursor.{ReplayCursor}
use yaoki.Context.Now.{now, resolve_now, decide_now, answer_now}
use yaoki.Context.Random.{random, resolve_random, decide_random, answer_random}
use yaoki.Context.Replayed.{live_ctx, replay_ctx}
use yaoki.Context.Now.Replayed.{now-replay}
use yaoki.Context.Random.Replayed.{random-replay}
use yaoki.Context.Step.Replayed.{Ahead}
use yaoki.Tests.{World, environment, world, charge_renewal, id}

-- Behind the start of an execution.
abbrev begun : Journal
begun = execution_started (b'w' ∷ []) (b'1' ∷ []) (3 ∷ []) ∷ []

abbrev holding_begun : MemoryJournal
holding_begun = record {
  executions = λ other. if other == id then some begun else none;
  owners = λ other. false;
  executions_poisoned = false;
  owners_poisoned = false;
}

abbrev behind_start : JournalEvent → ReplayCursor
behind_start event = record {
  source =
      Cursor.validated (record { journal = begun ++ event ∷ step_scheduled 1 charge_renewal ∷ [] });
  position = 1;
}

-- Another clock and another source of bytes.
abbrev later : World
later = record world { clock = 1000 }

abbrev elsewhere : Environment World
elsewhere = record environment { next_bytes = λ w. (9 ∷ [], w) }

now_read : (now Memory.memory environment (live_ctx holding_begun world id 0)).0 ≡ ok 5
unfolding now Monad.healthy_only State.ensure_healthy Monad.retain resolve_now Monad.take_seq
    Seq.next decide_now answer_now Monad.decide Monad.go_live Monad.read_clock Monad.append
    Monad.pure Monad.retain_engine_result Monad.◌>>=◌ Memory.append
now_read = refl

now-Ahead : Ahead (behind_start (JournalEvent.now_recorded 0 5)) (
    drop
      (length (journal_of holding_begun id))
      (journal_of (now Memory.memory environment (live_ctx holding_begun world id 0)).1.store id)
    ++ step_scheduled 1 charge_renewal ∷ [])
unfolding now Monad.healthy_only State.ensure_healthy Monad.retain resolve_now Monad.take_seq
    Seq.next decide_now answer_now Monad.decide Monad.go_live Monad.read_clock Monad.append
    Monad.pure Monad.retain_engine_result Monad.◌>>=◌ Memory.append
now-Ahead = refl

now-replay_example :
    (now Memory.memory elsewhere
        (replay_ctx Memory.new later id 0 (behind_start (JournalEvent.now_recorded 0 5)))
      ≡ (
        ok 5,
        record (replay_ctx Memory.new later id 0
            (Cursor.advance (behind_start (JournalEvent.now_recorded 0 5)))) { seq = 0 + 1 },
      ))
    × Ahead
        (Cursor.advance (behind_start (JournalEvent.now_recorded 0 5)))
        (step_scheduled 1 charge_renewal ∷ [])
now-replay_example =
    now-replay memory_contract environment elsewhere holding_begun Memory.new world later id id 0 0
      5 (behind_start (JournalEvent.now_recorded 0 5)) (step_scheduled 1 charge_renewal ∷ [])
      now_read (omega arith) now-Ahead

random_read : (random Memory.memory environment (live_ctx holding_begun world id 0)).0 ≡ ok (7 ∷ [])
unfolding random Monad.healthy_only State.ensure_healthy Monad.retain resolve_random Monad.take_seq
    Seq.next decide_random answer_random Monad.decide Monad.go_live Monad.draw Monad.append
    Monad.pure Monad.retain_engine_result Monad.◌>>=◌ Memory.append
random_read = refl

random-Ahead : Ahead (behind_start (JournalEvent.random_recorded 0 (7 ∷ []))) (
    drop
      (length (journal_of holding_begun id))
      (journal_of (random Memory.memory environment (live_ctx holding_begun world id 0)).1.store id)
    ++ step_scheduled 1 charge_renewal ∷ [])
unfolding random Monad.healthy_only State.ensure_healthy Monad.retain resolve_random Monad.take_seq
    Seq.next decide_random answer_random Monad.decide Monad.go_live Monad.draw Monad.append
    Monad.pure Monad.retain_engine_result Monad.◌>>=◌ Memory.append
random-Ahead = refl

random-replay_example :
    (random Memory.memory elsewhere
        (replay_ctx Memory.new later id 0 (behind_start (JournalEvent.random_recorded 0 (7 ∷ []))))
      ≡ (
        ok (7 ∷ []),
        record (replay_ctx Memory.new later id 0
            (Cursor.advance (behind_start (JournalEvent.random_recorded 0 (7 ∷ []))))) {
              seq = 0 + 1;
            },
      ))
    × Ahead
        (Cursor.advance (behind_start (JournalEvent.random_recorded 0 (7 ∷ []))))
        (step_scheduled 1 charge_renewal ∷ [])
random-replay_example =
    random-replay memory_contract environment elsewhere holding_begun Memory.new world later id id 0
      0 (7 ∷ []) (behind_start (JournalEvent.random_recorded 0 (7 ∷ [])))
      (step_scheduled 1 charge_renewal ∷ []) random_read (omega arith) random-Ahead
