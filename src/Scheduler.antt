-- ===== src/Scheduler.antt =====
-- The scheduler of directory registrations: internal/directoryscheduler/scheduler.go, with the
-- predicates of store.go. A `time.Time` is its nanoseconds since Go's zero time and a `Duration` a
-- number of them. The first eight bytes of a SHA-256 as a number (`sha256_head`) and `strconv.Itoa`
-- are parameters.
pub mod Turn
pub mod Delays
pub mod Saved
pub mod Called
pub mod Cycle
pub mod Store
use activity_relay.Base.{
  ℕ, ◌+◌, ◌-◌, ◌*◌, ◌/◌, ◌%◌, ◌^◌, String, str_append, Bool, true, false, ◌&&◌, ◌||◌, not, Option,
  none, some, List, [], ◌∷◌, member, ltb, leb, ◌==◌, str_eq, if◌then◌else◌,
}
use activity_relay.Negotiation.{time_second, time_minute, time_hour}

abbrev pub nominal_heartbeat_interval : ℕ
nominal_heartbeat_interval = 24 * time_hour

abbrev pub maximum_stable_jitter : ℕ
maximum_stable_jitter = 2 * time_hour

abbrev pub scheduler_poll_interval : ℕ
scheduler_poll_interval = time_minute

abbrev pub minimum_scheduler_sleep : ℕ
minimum_scheduler_sleep = time_second

abbrev pub initial_retry : ℕ
initial_retry = 30 * time_second

abbrev pub maximum_local_retry : ℕ
maximum_local_retry = 15 * time_minute

-- internal/directoryclient/client.go
abbrev pub maximum_retry_after : ℕ
maximum_retry_after = 24 * time_hour

abbrev pub maximum_attempt : ℕ
maximum_attempt = 16

-- The type State of store.go
pub record State : Type 0 where
  pub registered : Bool
  pub last_success : ℕ
  pub next_attempt : ℕ
  pub last_outcome : String
  pub diagnostic : String
  pub attempt : ℕ
  pub last_observed : ℕ
  pub profile_digest : String
  pub profile_protocol_version : ℕ

-- validOutcome, validDiagnostic
abbrev pub valid_outcome : String → Bool
valid_outcome value = member value (
    "" ∷ "registered" ∷ "heartbeat" ∷ "retrying" ∷ "authentication" ∷ "policy" ∷ "suspended"
    ∷ "malformed" ∷ "disabled" ∷ [])

abbrev pub valid_diagnostic : String → Bool
valid_diagnostic value = member value (
    "" ∷ "none" ∷ "transport" ∷ "internal" ∷ "rate_limited" ∷ "authentication" ∷ "enrollment"
    ∷ "suspended" ∷ "lifecycle" ∷ "malformed" ∷ "lease_lost" ∷ "disabled" ∷ [])

-- The codes of a ProtocolError that the scheduler tells apart.
pub data Code : Type 0 where
  rate_limited internal authentication_failed relay_suspended : Code
  enrollment_closed lifecycle_unavailable any_other_code : Code

-- An error of the client: that it is ErrDirectoryTransport, a ProtocolError with its code and its
-- RetryAfter, or anything else.
pub data DirectoryError : Type 0 where
  transport : DirectoryError
  protocol : Code → ℕ → DirectoryError
  unclassified : DirectoryError

-- `Truncate(time.Second)`
abbrev pub truncate : ℕ → ℕ
truncate t = t / time_second * time_second

-- startupReconciliationDue
unfoldable pub startup_reconciliation_due : State → ℕ → Bool
startup_reconciliation_due state startup_boundary =
    if startup_boundary == 0
      || not (state.last_observed == 0) && leb startup_boundary state.last_observed
    then false
    else member state.last_outcome ("" ∷ "registered" ∷ "heartbeat" ∷ [])

-- monotonicNow: the reading of the clock, the field `lastNow` and the persisted time. The result is
-- the new `lastNow` too.
unfoldable pub monotonic_now : ℕ → ℕ → ℕ → ℕ
monotonic_now clock last_now persisted =
    let now = truncate clock in
    let forward = if ltb now last_now then last_now else now in
    if ltb forward persisted then persisted else forward

-- nextWakeDelay, at what `monotonicNow` answers. The difference of two times may be negative, and
-- the least sleep stands in for it.
unfoldable pub next_wake_delay : ℕ → ℕ → ℕ
next_wake_delay now next_attempt =
    let until = if ltb now next_attempt then next_attempt - now else 0 in
    let delay =
      if not (next_attempt == 0) && ltb until scheduler_poll_interval
      then until
      else scheduler_poll_interval in
    if ltb delay minimum_scheduler_sleep then minimum_scheduler_sleep else delay

-- The outcome and the diagnostic that `applyFailure` records.
abbrev pub classify : DirectoryError → String × String
classify transport = ("retrying", "transport")
classify (protocol rate_limited after) = ("retrying", "rate_limited")
classify (protocol internal after) = ("retrying", "internal")
classify (protocol authentication_failed after) = ("authentication", "authentication")
classify (protocol relay_suspended after) = ("suspended", "suspended")
classify (protocol enrollment_closed after) = ("policy", "enrollment")
classify (protocol lifecycle_unavailable after) = ("policy", "lifecycle")
classify _ = ("malformed", "malformed")

-- `RetryAfter` of the ProtocolError, if the error is one.
abbrev pub retry_after_of : DirectoryError → Option ℕ
retry_after_of (protocol code after) = some after
retry_after_of _ = none

abbrev pub clamp : ℕ → ℕ → ℕ
clamp limit n = if ltb limit n then limit else n

module _ (sha256_head : String → ℕ) (itoa : ℕ → String) (relay_actor origin : String) where
  -- stableJitter
  unfoldable pub stable_jitter : ℕ
  stable_jitter =
      sha256_head (str_append relay_actor (str_append "\0" (str_append origin "\0daily")))
      % (maximum_stable_jitter / time_second + 1)
      * time_second

  -- NextHeartbeatAttempt
  unfoldable pub next_heartbeat_attempt : ℕ → ℕ
  unfolding stable_jitter
  next_heartbeat_attempt completed_at =
      if completed_at == 0
      then 0
      else truncate completed_at + (nominal_heartbeat_interval + stable_jitter)

  -- retryDelay. The shift is on 64 bits in two's complement: from 2 ^ 63 a base is negative, and is
  -- returned as it is.
  unfoldable pub retry_delay : ℕ → ℕ
  retry_delay attempt =
      let counted = if ltb attempt 1 then 1 else attempt in
      let shifted = initial_retry * 2 ^ (counted - 1) % 2 ^ 64 in
      let negative = leb (2 ^ 63) shifted in
      let base =
        if not negative && ltb maximum_local_retry shifted then maximum_local_retry else shifted in
      let digest = sha256_head (
        str_append relay_actor
          (str_append "\0" (str_append origin (str_append "\0retry\0" (itoa counted))))) in
      let delay = base + digest % (base / 5 / time_second + 1) * time_second in
      if negative || base / 5 == 0
      then base
      else if ltb maximum_local_retry delay
      then maximum_local_retry
      else delay

  -- The delay of a retry: the local one, or what the directory asks for if that is longer.
  abbrev pub failure_delay : DirectoryError → ℕ → ℕ
  failure_delay error attempt =
      let local_delay = retry_delay attempt in
      elim (retry_after_of error) [
        | none ↦ clamp maximum_retry_after local_delay
        | some after ↦
            clamp maximum_retry_after (if ltb local_delay after then after else local_delay)
      ]

  -- applyFailure
  unfoldable pub apply_failure : State → ℕ → DirectoryError → State
  unfolding next_heartbeat_attempt retry_delay
  apply_failure state now error =
      let (outcome, diagnostic) = classify error in
      let seen = record state {
        last_observed = now;
        last_outcome = outcome;
        diagnostic = diagnostic;
      } in
      let attempt = clamp maximum_attempt (state.attempt + 1) in
      if not (str_eq outcome "retrying")
      then record seen { attempt = 0; next_attempt = next_heartbeat_attempt now }
      else record seen { attempt = attempt; next_attempt = now + failure_delay error attempt }
