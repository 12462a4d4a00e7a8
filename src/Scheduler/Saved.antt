-- ===== src/Scheduler/Saved.antt =====
-- What a turn may store, and when it calls the directory.
use activity_relay.Base.{
  ℕ, ◌+◌, ◌≤◌, ◌<◌, String, Bool, true, false, ◌≡◌, refl, Option, none, some, Result, ok, err, List,
  [], arith, if◌then◌else◌,
}
use activity_relay.Negotiation.{time_second}
use activity_relay.Scheduler.{
  State, DirectoryError, transport, protocol, unclassified, rate_limited, internal,
  authentication_failed, relay_suspended, enrollment_closed, lifecycle_unavailable, any_other_code,
  initial_retry, nominal_heartbeat_interval, maximum_stable_jitter, maximum_attempt,
  maximum_retry_after, valid_outcome, valid_diagnostic, monotonic_now, next_heartbeat_attempt,
  apply_failure, failure_delay, clamp,
}
use activity_relay.Scheduler.Delays.{
  monotonic_now_bounds, next_heartbeat_attempt_bounds, retry_delay_bounds,
}
use activity_relay.Scheduler.Turn.{
  Operation, register, heartbeat, Response, Client, Answers, Turned, profile_changed, save_owned,
  reconcile, succeed, conclude, run_client, run_owned, recheck, with_lease, check_due,
  run_directory,
}

-- The state says that it was observed at `now`, is one that `validateState` accepts as far as its
-- attempt, outcome and diagnostic go, and plans the next attempt between 30 seconds and 26 hours on.
unfoldable pub IsPlannedFrom : ℕ → State → Type 0
IsPlannedFrom now state =
    (state.last_observed ≡ now)
    × (state.attempt ≤ maximum_attempt)
    × (valid_outcome state.last_outcome ≡ true)
    × (valid_diagnostic state.diagnostic ≡ true)
    × (now + initial_retry ≤ state.next_attempt)
    × (state.next_attempt ≤ now + nominal_heartbeat_interval + maximum_stable_jitter)

module _ (sha256_head : String → ℕ) (itoa : ℕ → String) (relay_actor origin : String) where
  failure_delay_bounds :
      (error : DirectoryError) (attempt : ℕ)
      → attempt ≤ maximum_attempt
      → (initial_retry ≤ failure_delay sha256_head itoa relay_actor origin error attempt)
        × (failure_delay sha256_head itoa relay_actor origin error attempt ≤ maximum_retry_after)
  failure_delay_bounds transport attempt few =
      ground (arith, retry_delay_bounds sha256_head itoa relay_actor origin attempt few)
  failure_delay_bounds (protocol code after) attempt few =
      ground (arith, retry_delay_bounds sha256_head itoa relay_actor origin attempt few)
  failure_delay_bounds unclassified attempt few =
      ground (arith, retry_delay_bounds sha256_head itoa relay_actor origin attempt few)

  heartbeat_planned :
      (now : ℕ)
      → 0 < now
      → (now + initial_retry ≤ next_heartbeat_attempt sha256_head itoa relay_actor origin now)
        × (next_heartbeat_attempt sha256_head itoa relay_actor origin now
            ≤ now + nominal_heartbeat_interval + maximum_stable_jitter)
  heartbeat_planned now started =
      let b = next_heartbeat_attempt_bounds sha256_head itoa relay_actor origin now started in
      (omega (arith, b), omega (arith, b))

  retry_planned :
      (state : State) (now : ℕ) (error : DirectoryError)
      → (now + initial_retry
          ≤ now
            + failure_delay sha256_head itoa relay_actor origin error
                (clamp maximum_attempt (state.attempt + 1)))
        × (now
              + failure_delay sha256_head itoa relay_actor origin error
                  (clamp maximum_attempt (state.attempt + 1))
            ≤ now + nominal_heartbeat_interval + maximum_stable_jitter)
        × (clamp maximum_attempt (state.attempt + 1) ≤ maximum_attempt)
  retry_planned state now error =
      let few : clamp maximum_attempt (state.attempt + 1) ≤ maximum_attempt = ground arith in
      let b = failure_delay_bounds error (clamp maximum_attempt (state.attempt + 1)) few in
      (omega (arith, b), omega (arith, b), few)

  -- At a time that is not zero every failure is recorded as a state with a valid attempt, outcome
  -- and diagnostic, observed now, whose next attempt is between 30 seconds and 26 hours later,
  -- whatever the directory asks for and however many failures there were before.
  pub apply_failure_planned :
      (state : State) (now : ℕ) (error : DirectoryError)
      → 0 < now
      → IsPlannedFrom now (apply_failure sha256_head itoa relay_actor origin state now error)
  unfolding apply_failure IsPlannedFrom
  apply_failure_planned state now transport started =
      let (a, b, c) = retry_planned state now transport in (refl, c, refl, refl, a, b)
  apply_failure_planned state now (protocol rate_limited after) started =
      let (a, b, c) = retry_planned state now (protocol rate_limited after) in
      (refl, c, refl, refl, a, b)
  apply_failure_planned state now (protocol internal after) started =
      let (a, b, c) = retry_planned state now (protocol internal after) in
      (refl, c, refl, refl, a, b)
  apply_failure_planned state now (protocol authentication_failed after) started =
      let (a, b) = heartbeat_planned now started in (refl, omega arith, refl, refl, a, b)
  apply_failure_planned state now (protocol relay_suspended after) started =
      let (a, b) = heartbeat_planned now started in (refl, omega arith, refl, refl, a, b)
  apply_failure_planned state now (protocol enrollment_closed after) started =
      let (a, b) = heartbeat_planned now started in (refl, omega arith, refl, refl, a, b)
  apply_failure_planned state now (protocol lifecycle_unavailable after) started =
      let (a, b) = heartbeat_planned now started in (refl, omega arith, refl, refl, a, b)
  apply_failure_planned state now (protocol any_other_code after) started =
      let (a, b) = heartbeat_planned now started in (refl, omega arith, refl, refl, a, b)
  apply_failure_planned state now unclassified started =
      let (a, b) = heartbeat_planned now started in (refl, omega arith, refl, refl, a, b)

  outcome_valid :
      (operation : Operation)
      → valid_outcome (
          if (elim operation [ register ↦ true | heartbeat ↦ false ])
          then "registered"
          else "heartbeat")
        ≡ true
  outcome_valid register = refl
  outcome_valid heartbeat = refl

  conclude_planned :
      (state : State) (client : Client) (now : ℕ) (answer : Result DirectoryError Response)
      → 0 < now
      → IsPlannedFrom now (conclude sha256_head itoa relay_actor origin state client now answer).0
  unfolding succeed IsPlannedFrom
  conclude_planned state client now (err e) started = apply_failure_planned state now e started
  conclude_planned state client now (ok response) started =
      let (a, b) = heartbeat_planned now started in
      (refl, omega arith, outcome_valid response.operation, refl, a, b)

  -- What a turn's state is, if it offers one: observed no earlier than anything known before.
  abbrev pub Offers : ℕ → Turned → Type 0
  Offers last_now turned =
      (state : State)
      → turned.offered ≡ some state
      → (last_now ≤ turned.last_now) × IsPlannedFrom turned.last_now state

  save_owned-Offers :
      (answers : Answers) (called : List Operation) (state : State) (result : String × String)
      (last_now now : ℕ)
      → last_now ≤ now
      → IsPlannedFrom now state
      → Offers last_now (save_owned answers called state result now)
  unfolding save_owned
  save_owned-Offers answers called state result last_now now later planned state' h = ground arith

  run_client-Offers :
      (answers : Answers) (state : State) (client : Client) (changed : Bool) (last_now : ℕ)
      → 0 < last_now
      → Offers last_now
          (run_client sha256_head itoa relay_actor origin answers state client changed last_now)
  unfolding run_client
  run_client-Offers answers state client changed last_now started state' h =
      let now = monotonic_now answers.completed_clock last_now state.last_observed in
      let later : last_now ≤ now =
        (monotonic_now_bounds answers.completed_clock last_now state.last_observed).0 in
      let (called, answer) = reconcile client state changed in
      let sure = conclude_planned state client now answer (omega (arith, later, started)) in
      ground (
        arith,
        save_owned-Offers answers called
            (conclude sha256_head itoa relay_actor origin state client now answer).0
            (conclude sha256_head itoa relay_actor origin state client now answer).1 last_now now
            later sure state',
      )

  run_owned-Offers :
      (answers : Answers) (state : State) (startup_boundary now : ℕ) (client : Option Client)
      → 0 < now
      → Offers now
          (run_owned sha256_head itoa relay_actor origin answers state startup_boundary now client)
  unfolding run_owned
  run_owned-Offers answers state startup_boundary now none started state' h =
      save_owned-Offers answers [] _ _ now now (omega arith)
        (apply_failure_planned state now unclassified started) state' h
  run_owned-Offers answers state startup_boundary now (some client) started state' h = ground (
    arith,
    run_client-Offers answers state client (profile_changed state (some client)) now started state',
  )

  recheck-Offers :
      (answers : Answers) (startup_boundary last_now : ℕ) (loaded : Option State)
      → time_second ≤ answers.owned_clock
      → Offers last_now
          (recheck sha256_head itoa relay_actor origin answers startup_boundary last_now loaded)
  unfolding recheck
  recheck-Offers answers startup_boundary last_now none started state' h = ground arith
  recheck-Offers answers startup_boundary last_now (some state) started state' h =
      let b = monotonic_now_bounds answers.owned_clock last_now state.last_observed in
      let now = monotonic_now answers.owned_clock last_now state.last_observed in
      ground (
        arith,
        b,
        run_owned-Offers answers state startup_boundary now answers.client
            (omega (arith, b, started)) state',
      )

  with_lease-Offers :
      (answers : Answers) (startup_boundary last_now : ℕ) (acquired : Option Bool)
      → time_second ≤ answers.owned_clock
      → Offers last_now (
          with_lease sha256_head itoa relay_actor origin answers startup_boundary last_now acquired)
  unfolding with_lease
  with_lease-Offers answers startup_boundary last_now none started state' h = ground arith
  with_lease-Offers answers startup_boundary last_now (some false) started state' h = ground arith
  with_lease-Offers answers startup_boundary last_now (some true) started state' h =
      recheck-Offers answers startup_boundary last_now answers.owned_loaded started state' h

  check_due-Offers :
      (answers : Answers) (startup_boundary last_now : ℕ) (loaded : Option State)
      → time_second ≤ answers.owned_clock
      → Offers last_now
          (check_due sha256_head itoa relay_actor origin answers startup_boundary last_now loaded)
  unfolding check_due
  check_due-Offers answers startup_boundary last_now none started state' h = ground arith
  check_due-Offers answers startup_boundary last_now (some state) started state' h =
      let now = monotonic_now answers.clock last_now state.last_observed in
      ground (
        arith,
        monotonic_now_bounds answers.clock last_now state.last_observed,
        with_lease-Offers answers startup_boundary now answers.acquired started state',
      )

  -- Whatever the directory and the store answer, a state that a turn offers for storing is observed
  -- at the turn's last time, no earlier than what the process has seen; its attempt, outcome and
  -- diagnostic are valid, and it plans the next attempt between 30 seconds and 26 hours later. The
  -- clock must read a second or more past Go's zero time.
  pub run_directory_planned :
      (answers : Answers) (startup_boundary last_now : ℕ) (state : State)
      → time_second ≤ answers.owned_clock
      → (run_directory sha256_head itoa relay_actor origin answers startup_boundary
          last_now).offered
        ≡ some state
      → (last_now
          ≤ (run_directory sha256_head itoa relay_actor origin answers startup_boundary
              last_now).last_now)
        × IsPlannedFrom
            (run_directory sha256_head itoa relay_actor origin answers startup_boundary
              last_now).last_now
            state
  unfolding run_directory
  run_directory_planned answers startup_boundary last_now state' started h =
      ground
        (arith, check_due-Offers answers startup_boundary last_now answers.loaded started state')
