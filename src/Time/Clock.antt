-- ===== src/Time/Clock.antt =====
-- The clocks of src/time.rs. `SystemClock` is over the two calls to the operating system that it makes, `TestClock`
-- holds its instant.
use yaoki.Prelude.{
  ℕ, ◌+◌, ◌-◌, ◌%◌, ◌^◌, ◌≤◌, ◌<◌, ◌≡◌, refl, Option, none, some, get_or, ltb, leb, if◌then◌else◌,
  arith, ap, Bool-cases, inl, inr,
}
use yaoki.Seq.{u64_max}
use yaoki.Time.{Timestamp}

-- `SystemTime::now` in milliseconds since the epoch, or nothing before it, and `thread::sleep`.
pub record Os (W : Type 0) : Type 0 where
  pub since_epoch : W → Option ℕ
  pub sleep : ℕ → W → W

-- The clock stands at these milliseconds or behind them, and not before the epoch.
abbrev pub Reached : ℕ → Option ℕ → Type 0
Reached millis none = ⊥
Reached millis (some reading) = millis ≤ reading

module _ {W : Type 0} (os : Os W) where
  -- The milliseconds are cast to a `u64`.
  unfoldable pub system_now : W → Timestamp
  system_now w = get_or (os.since_epoch w) 0 % 2 ^ 64

  unfoldable pub system_sleep_until : Timestamp → W → W
  unfolding system_now
  system_sleep_until deadline w =
      let now = system_now w in if ltb now deadline then os.sleep (deadline - now) w else w

  -- A clock that has reached the epoch is not set back in a sleep, and the sleep is as long as it is asked to be.
  abbrev pub Passes : Type 0
  Passes =
      (millis reading : ℕ) (w : W)
      → os.since_epoch w ≡ some reading
      → Reached (reading + millis) (os.since_epoch (os.sleep millis w))

  -- The reading of the clock is a `u64`.
  abbrev pub Fits : W → Type 0
  Fits w = get_or (os.since_epoch w) 0 < 2 ^ 64

pub record TestClock : Type 0 where
  pub now : Timestamp

-- `+` on `u64`; nothing where the sum overflows, which a build for tests answers with a panic.
unfoldable pub advance_millis : ℕ → TestClock → Option TestClock
advance_millis millis clock =
    if leb (clock.now + millis) u64_max then some (record { now = clock.now + millis }) else none

-- The clock for tests does not wait.
unfoldable pub test_sleep_until : Timestamp → TestClock → TestClock
test_sleep_until deadline clock = clock

reached : (millis : ℕ) (o : Option ℕ) → Reached millis o → millis ≤ get_or o 0
reached millis none h = absurd h
reached millis (some reading) h = h

-- Called at a clock that is not before the epoch, `SystemClock::sleep_until` returns at a reading that is not before
-- the deadline, and does nothing when the deadline has passed already; provided that a clock that has reached the
-- epoch is not set back in a sleep, that a sleep is as long as it is asked to be, and that the readings before and
-- after are `u64`s. Of a clock before the epoch, whose reading is clamped to it, nothing is said.
pub system_sleep_until-now :
    {W : Type 0} (os : Os W) (deadline : Timestamp) (w : W) (reading : ℕ)
    → Passes os
    → os.since_epoch w ≡ some reading
    → Fits os w
    → Fits os (system_sleep_until os deadline w)
    → (deadline ≤ system_now os (system_sleep_until os deadline w))
      × (deadline ≤ system_now os w → system_sleep_until os deadline w ≡ w)
unfolding system_sleep_until
system_sleep_until-now os deadline w reading passes at_epoch fits after =
    elim (Bool-cases (ltb (system_now os w) deadline)) [
      | inl e ↦
          rw (e, system_sleep_until)
            (
              (let after' = rw (e, system_sleep_until) at after in
                  let slept =
                    reached _ _ (passes (deadline - system_now os w) reading w at_epoch) in
                  let read : get_or (os.since_epoch w) 0 ≡ reading =
                    ap (λ o. get_or o 0) at_epoch in
                  omega (arith, slept, read, fits, after')),
              (λ h. ground (arith, h, e)),
            )
      | inr e ↦ rw (e, system_sleep_until) (ground (arith, e), λ h. refl)
    ]
