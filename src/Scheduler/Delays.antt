-- ===== src/Scheduler/Delays.antt =====
-- The bounds of the scheduler's delays.
use native.Mathlib.Nat.{one-le-pow, pow-le-pow_right}
use activity_relay.Base.{ℕ, ◌+◌, ◌-◌, ◌^◌, ◌≤◌, ◌<◌, String, ◌⊎◌, arith}
use activity_relay.Negotiation.{time_second, time_minute}
use activity_relay.Scheduler.{
  maximum_local_retry, initial_retry, maximum_attempt, maximum_stable_jitter,
  nominal_heartbeat_interval, next_wake_delay, monotonic_now, stable_jitter, next_heartbeat_attempt,
  retry_delay, truncate,
}

-- With a next attempt, the scheduler sleeps between a second and a minute, and past the next attempt only where that is
-- less than a second away.
pub next_wake_delay_bounds :
    (now next_attempt : ℕ)
    → 0 < next_attempt
    → (time_second ≤ next_wake_delay now next_attempt)
      × (next_wake_delay now next_attempt ≤ time_minute)
      × ((now + next_wake_delay now next_attempt ≤ next_attempt)
          ⊎ (next_attempt < now + time_second))
unfolding next_wake_delay
next_wake_delay_bounds now next_attempt planned = ground arith

-- Whatever the clock reads, time does not go back behind what the process has seen or another one
-- has stored.
pub monotonic_now_bounds :
    (clock last_now persisted : ℕ)
    → (last_now ≤ monotonic_now clock last_now persisted)
      × (persisted ≤ monotonic_now clock last_now persisted)
      × (truncate clock ≤ monotonic_now clock last_now persisted)
unfolding monotonic_now
monotonic_now_bounds clock last_now persisted = ground arith

module _ (sha256_head : String → ℕ) (itoa : ℕ → String) (relay_actor origin : String) where
  stable_jitter_bound : stable_jitter sha256_head itoa relay_actor origin ≤ maximum_stable_jitter
  unfolding stable_jitter
  stable_jitter_bound = omega arith

  -- After a completion at a time that is not zero, the next heartbeat is due between a second less than 24 hours and 26 hours later.
  pub next_heartbeat_attempt_bounds :
      (completed_at : ℕ)
      → 0 < completed_at
      → (completed_at + nominal_heartbeat_interval
          < next_heartbeat_attempt sha256_head itoa relay_actor origin completed_at + time_second)
        × (next_heartbeat_attempt sha256_head itoa relay_actor origin completed_at
            ≤ completed_at + nominal_heartbeat_interval + maximum_stable_jitter)
  unfolding next_heartbeat_attempt
  next_heartbeat_attempt_bounds completed_at started = ground (arith, stable_jitter_bound)

  shift_bounds : (k : ℕ) → k ≤ 15 → (1 ≤ 2 ^ k) × (2 ^ k ≤ 32768)
  shift_bounds k h = (one-le-pow k 2 (omega arith), pow-le-pow_right (omega arith) h)

  -- A retry of the attempts that the scheduler counts waits for at least 30 seconds and at most 15
  -- minutes; the shift does not overflow.
  pub retry_delay_bounds :
      (attempt : ℕ)
      → attempt ≤ maximum_attempt
      → (initial_retry ≤ retry_delay sha256_head itoa relay_actor origin attempt)
        × (retry_delay sha256_head itoa relay_actor origin attempt ≤ maximum_local_retry)
  unfolding retry_delay
  retry_delay_bounds attempt few = ground (arith, shift_bounds 0, shift_bounds (attempt - 1))
