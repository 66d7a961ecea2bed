-- ===== src/History/Parse.antt =====
-- What `ValidatedHistory::parse` and `into_recovery` of src/history.rs establish.
use yaoki.Prelude.{◌-◌, ◌≡◌, ok, ◌>>◌, length, >>=-eq-ok, arith}
use yaoki.Journal.{Journal}
use yaoki.History.{
  ValidatedHistory, ReplayHistory, running, scan, parse, ensure_resumable, into_recovery,
}

-- A history that `parse` accepts is the journal that was parsed, with the state that the grammar
-- reaches at its end.
pub parse_ok :
    (journal : Journal) (v : ValidatedHistory)
    → parse journal ≡ ok v
    → (scan journal ≡ ok v.end) × (v.journal ≡ journal)
unfolding parse
parse_ok journal v h =
    let (end, read, rest) =
      >>=-eq-ok (scan journal)
        (λ end.
          ensure_resumable end (length journal - 1) >> ok (record { journal = journal; end = end }))
        h in
    let (_, _, e) =
      >>=-eq-ok (ensure_resumable end (length journal - 1))
        (λ _. ok (record { journal = journal; end = end })) rest in
    (ground (arith, read, e), ground (arith, e))

-- The journals that a nonterminal history keeps are those that were parsed.
pub into_recovery_running :
    (v : ValidatedHistory) (rest : ReplayHistory)
    → into_recovery v ≡ running rest
    → rest ≡ record { journal = v.journal }
unfolding into_recovery
into_recovery_running v rest h = ground arith
