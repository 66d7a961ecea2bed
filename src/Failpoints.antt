-- ===== src/Failpoints.antt =====
-- src/failpoints.rs: the windows in which the engine can die, and the policies that decide whether
-- it does. A policy's interior flag is its state, which `at` threads.
use yaoki.Prelude.{Bool, true, false, ◌&&◌, not, if◌then◌else◌, ◌==◌, nat_eq, Eq, ◌≡◌, ◌↔◌, arith}
use yaoki.Seq.{Seq}

pub data CrashPoint : Type 0 where
  before_step_scheduled : Seq → CrashPoint
  after_step_scheduled : Seq → CrashPoint
  after_step_started : Seq → CrashPoint
  after_side_effect : Seq → CrashPoint
  after_step_completed : Seq → CrashPoint
  after_timer_scheduled : Seq → CrashPoint
  after_timer_fired : Seq → CrashPoint

-- `CrashPoint::seq`
unfoldable pub position : CrashPoint → Seq
position (before_step_scheduled seq) = seq
position (after_step_scheduled seq) = seq
position (after_step_started seq) = seq
position (after_side_effect seq) = seq
position (after_step_completed seq) = seq
position (after_timer_scheduled seq) = seq
position (after_timer_fired seq) = seq

-- The derived `PartialEq`.
unfoldable pub point_beq : CrashPoint → CrashPoint → Bool
point_beq (before_step_scheduled a) (before_step_scheduled b) = a == b
point_beq (after_step_scheduled a) (after_step_scheduled b) = a == b
point_beq (after_step_started a) (after_step_started b) = a == b
point_beq (after_side_effect a) (after_side_effect b) = a == b
point_beq (after_step_completed a) (after_step_completed b) = a == b
point_beq (after_timer_scheduled a) (after_timer_scheduled b) = a == b
point_beq (after_timer_fired a) (after_timer_fired b) = a == b
point_beq _ _ = false

pub point_beq_iff : (p q : CrashPoint) → (point_beq p q ≡ true) ↔ (p ≡ q)
unfolding point_beq
point_beq_iff p q = ground arith

instance abbrev pub point_eq : Eq CrashPoint
point_eq = record { equal = point_beq; equal_iff = point_beq_iff }

pub data FailpointDecision : Type 0 where
  continue crash : FailpointDecision

-- Production policy.
unfoldable pub never_crash {ℓ} : {W : Type ℓ} → CrashPoint → W → FailpointDecision × W
never_crash point w = (continue, w)

-- Test policy: crashes the first time the engine reaches `target`.
pub record CrashOnce : Type 0 where
  pub target : CrashPoint
  pub fired : Bool

unfoldable pub crash_once : CrashPoint → CrashOnce
crash_once target = record { target = target; fired = false }

unfoldable pub crash_once_at : CrashPoint → CrashOnce → FailpointDecision × CrashOnce
crash_once_at point policy =
    if point == policy.target && not policy.fired
    then (crash, record policy { fired = true })
    else (continue, policy)

pub data CrashStatus : Type 0 where
  intact : CrashStatus
  crashed : CrashPoint → CrashStatus
