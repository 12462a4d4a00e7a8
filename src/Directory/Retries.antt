-- ===== src/Directory/Retries.antt =====
-- The retries of the directory commands (internal/directorycommand/retry.go). An operation and the
-- wait between two attempts are parameters, over the state of the world.
use activity_relay.Base.{
  ℕ, suc, zero, ◌+◌, ◌*◌, ◌^◌, ◌≤◌, Bool, true, false, Bool-cases, Option-cases, Result-cases, inl,
  inr, ◌≡◌, Option, none, some, Result, ok, err, ltb, if◌then◌else◌, arith,
}
use activity_relay.Negotiation.{time_second}
use activity_relay.Negotiation.Store.{millisecond}
use activity_relay.Directory.{
  ClientError, transport_failed, protocol_error, rate_limited, internal_error,
}

abbrev pub maximum_attempts : ℕ
maximum_attempts = 3

abbrev pub initial_backoff : ℕ
initial_backoff = 250 * millisecond

abbrev pub maximum_command_retry_wait : ℕ
maximum_command_retry_wait = 30 * time_second

abbrev pub backoff : ℕ → ℕ
backoff attempt = initial_backoff * 2 ^ attempt

abbrev pub asked_delay : ℕ → ℕ → Option ℕ
asked_delay retry_after attempt =
    if ltb maximum_command_retry_wait retry_after
    then none
    else some (if ltb 0 retry_after then retry_after else backoff attempt)

-- retryDelay of the commands; no retry is `none`.
unfoldable pub command_retry_delay : ClientError → ℕ → Option ℕ
command_retry_delay transport_failed attempt = some (backoff attempt)
command_retry_delay (protocol_error status rate_limited retry_after) attempt =
    asked_delay retry_after attempt
command_retry_delay (protocol_error status internal_error retry_after) attempt =
    asked_delay retry_after attempt
command_retry_delay _ attempt = none

-- How a sequence of attempts went: the errors that were followed by a wait, with the waits; the
-- result, which is that of the last attempt unless the wait was cut short.
pub data Retried (A : Type 0) : Type 0 where
  finished : Result ClientError A → Retried A
  cut_short : ClientError → ℕ → Retried A
  waited : ClientError → ℕ → Retried A → Retried A

module _ {A S : Type 0} (operation : S → Result ClientError A × S) (sleep : ℕ → S → Bool × S) where
  -- retryLifecycle and retryStatus: with so many attempts left after the present one
  unfoldable pub retry_from : ℕ → ℕ → S → Retried A
  retry_from zero attempt s = finished (operation s).0
  retry_from (suc left) attempt s =
      let (answer, s') = operation s in
      elim answer [
        | ok a ↦ finished (ok a)
        | err e ↦ elim (command_retry_delay e attempt) [
          | none ↦ finished (err e)
          | some delay ↦
              let (slept, s'') = sleep delay s' in
              let rest = retry_from left (attempt + 1) s'' in
              if slept then waited e delay rest else cut_short e delay
        ]
      ]

  abbrev pub retry_lifecycle : S → Retried A
  retry_lifecycle s = retry_from 2 0 s

abbrev pub attempts : {A : Type 0} → Retried A → ℕ
attempts (finished answer) = 1
attempts (cut_short e delay) = 1
attempts (waited e delay rest) = suc (attempts rest)

-- An error after which another attempt may be made
abbrev pub is_temporary : ClientError → Bool
is_temporary transport_failed = true
is_temporary (protocol_error status rate_limited retry_after) = true
is_temporary (protocol_error status internal_error retry_after) = true
is_temporary _ = false

-- The RetryAfter of an error
abbrev pub asked_by : ClientError → ℕ
asked_by (protocol_error status code retry_after) = retry_after
asked_by _ = 0

-- Each wait follows a temporary error and is no longer than a command may wait; it is as long as the
-- directory asked for.
abbrev pub IsFitting : ClientError → ℕ → Type 0
IsFitting e delay =
    (is_temporary e ≡ true) × (delay ≤ maximum_command_retry_wait) × (asked_by e ≤ delay)

abbrev pub AreFitting : {A : Type 0} → Retried A → Type 0
AreFitting (finished answer) = Unit {0}
AreFitting (cut_short e delay) = IsFitting e delay
AreFitting (waited e delay rest) = IsFitting e delay × AreFitting rest

backoff-le : (attempt : ℕ) → attempt ≤ 2 → backoff attempt ≤ maximum_command_retry_wait
backoff-le zero h = omega arith
backoff-le (suc zero) h = omega arith
backoff-le (suc (suc zero)) h = omega arith
backoff-le (suc (suc (suc n))) h = omega arith

command_retry_delay-IsFitting :
    (e : ClientError) (attempt delay : ℕ)
    → attempt ≤ 2
    → command_retry_delay e attempt ≡ some delay
    → IsFitting e delay
unfolding command_retry_delay
command_retry_delay-IsFitting e attempt delay few h = ground (arith, backoff-le attempt few)

module _ {A S : Type 0} (operation : S → Result ClientError A × S) (sleep : ℕ → S → Bool × S) where
  retry_from-AreFitting :
      (left attempt : ℕ) (s : S)
      → attempt + left ≤ 2
      → AreFitting (retry_from operation sleep left attempt s)
        × (attempts (retry_from operation sleep left attempt s) ≤ suc left)
  unfolding retry_from
  retry_from-AreFitting zero attempt s h = (tt, omega arith)
  retry_from-AreFitting (suc left) attempt s h = elim (Result-cases (operation s).0) [
    | inr (a, done) ↦ rw (retry_from, done) (tt, omega arith)
    | inl (e, refused) ↦ elim (Option-cases (command_retry_delay e attempt)) [
      | inl ends ↦ rw (retry_from, refused, ends) (tt, omega arith)
      | inr (delay, waits) ↦
          let fitting = command_retry_delay-IsFitting e attempt delay (omega (arith, h)) waits in
          let s'' = (sleep delay (operation s).1).1 in
          let (rest, few) = retry_from-AreFitting left (attempt + 1) s'' (omega (arith, h)) in
          elim (Bool-cases (sleep delay (operation s).1).0) [
            | inl slept ↦
                rw (retry_from, refused, waits, slept) ((fitting, rest), omega (arith, few))
            | inr woken ↦ rw (retry_from, refused, waits, woken) (fitting, omega arith)
          ]
    ]
  ]

  -- A command's operation is attempted at most three times, whatever it and the waits give; each wait
  -- follows a transport failure, a rate limit or an internal error, lasts at most 30 seconds, and at
  -- least as long as the directory asked for.
  pub retry_lifecycle-AreFitting :
      (s : S)
      → AreFitting (retry_lifecycle operation sleep s)
        × (attempts (retry_lifecycle operation sleep s) ≤ maximum_attempts)
  retry_lifecycle-AreFitting s = retry_from-AreFitting 2 0 s (omega arith)
