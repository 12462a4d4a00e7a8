-- ===== src/Examples/Scheduling.antt =====
-- Runs of the scheduler.
use activity_relay.Base.{
  ℕ, ◌≤◌, ◌<◌, ◌+◌, ◌*◌, String, true, false, ◌≡◌, ◌⊎◌, refl, none, some, ok, [], ◌∷◌, All, arith,
}
use activity_relay.Negotiation.{time_second, time_minute, time_hour}
use activity_relay.Scheduler.{
  State, protocol, rate_limited, initial_retry, maximum_local_retry, nominal_heartbeat_interval,
  maximum_stable_jitter, truncate, monotonic_now, next_wake_delay, next_heartbeat_attempt,
  retry_delay, apply_failure, startup_reconciliation_due, stable_jitter,
}
use activity_relay.Scheduler.Delays.{
  next_wake_delay_bounds, monotonic_now_bounds, next_heartbeat_attempt_bounds, retry_delay_bounds,
}
use activity_relay.Scheduler.Turn.{
  register, Client, Answers, Turned, run_directory, run_cycle, check_due, with_lease, recheck,
  run_owned, run_client, save_owned, succeed, reconcile,
}
use activity_relay.Scheduler.Saved.{IsPlannedFrom, apply_failure_planned, run_directory_planned}
use activity_relay.Scheduler.Called.{IsDue, CallsLawfully, run_directory_called}
use activity_relay.Scheduler.Cycle.{NotBefore, any_at, any_failed, turns_of, run_cycle_earliest}

abbrev sha256_head : String → ℕ
sha256_head text = 7

abbrev itoa : ℕ → String
itoa n = "n"

abbrev relay : String
relay = "https://relay.example/actor"

abbrev directory : String
directory = "https://directory.example"

abbrev unseen : State
unseen = record {
  registered = false;
  last_success = 0;
  next_attempt = 0;
  last_outcome = "";
  diagnostic = "";
  attempt = 0;
  last_observed = 0;
  profile_digest = "";
  profile_protocol_version = 0;
}

abbrev client : Client
client = record {
  profile_digest = none;
  register_answer = ok (record { operation = register; protocol_version = 1 });
  heartbeat_answer = ok (record { operation = register; protocol_version = 1 });
}

abbrev answers : Answers
answers = record {
  enabled = some true;
  loaded = some unseen;
  clock = 5 * time_second;
  preview = some client;
  acquired = some true;
  owned_loaded = some unseen;
  owned_clock = 6 * time_second;
  owned_enabled = some true;
  client = some client;
  lost = false;
  cancelled = false;
  completed_clock = 7 * time_second;
  saved = some true;
}

abbrev turn : ℕ → Turned
turn = run_directory sha256_head itoa relay directory answers 0

abbrev stored : State
stored = record {
  registered = true;
  last_success = 7 * time_second;
  next_attempt = 7 * time_second + (24 * time_hour + 7 * time_second);
  last_outcome = "registered";
  diagnostic = "none";
  attempt = 0;
  last_observed = 7 * time_second;
  profile_digest = "";
  profile_protocol_version = 0;
}

next_wake_delay_bounds_example :
    (time_second ≤ next_wake_delay 3 9)
    × (next_wake_delay 3 9 ≤ time_minute)
    × ((3 + next_wake_delay 3 9 ≤ 9) ⊎ (9 < 3 + time_second))
next_wake_delay_bounds_example = next_wake_delay_bounds 3 9 (omega arith)

monotonic_now_bounds_example :
    (4 ≤ monotonic_now 9 4 5) × (5 ≤ monotonic_now 9 4 5) × (truncate 9 ≤ monotonic_now 9 4 5)
monotonic_now_bounds_example = monotonic_now_bounds 9 4 5

next_heartbeat_attempt_bounds_example :
    (9 + nominal_heartbeat_interval
      < next_heartbeat_attempt sha256_head itoa relay directory 9 + time_second)
    × (next_heartbeat_attempt sha256_head itoa relay directory 9
        ≤ 9 + nominal_heartbeat_interval + maximum_stable_jitter)
next_heartbeat_attempt_bounds_example =
    next_heartbeat_attempt_bounds sha256_head itoa relay directory 9 (omega arith)

retry_delay_bounds_example :
    (initial_retry ≤ retry_delay sha256_head itoa relay directory 3)
    × (retry_delay sha256_head itoa relay directory 3 ≤ maximum_local_retry)
retry_delay_bounds_example = retry_delay_bounds sha256_head itoa relay directory 3 (omega arith)

apply_failure_planned_example :
    IsPlannedFrom 9
      (apply_failure sha256_head itoa relay directory unseen 9 (protocol rate_limited time_hour))
apply_failure_planned_example =
    apply_failure_planned sha256_head itoa relay directory unseen 9
      (protocol rate_limited time_hour) (omega arith)

run_directory_planned_example : (0 ≤ (turn 0).last_now) × IsPlannedFrom (turn 0).last_now stored
unfolding run_directory check_due with_lease recheck run_owned run_client save_owned succeed
    reconcile next_heartbeat_attempt stable_jitter monotonic_now startup_reconciliation_due
run_directory_planned_example =
    run_directory_planned sha256_head itoa relay directory answers 0 0 stored (omega arith) refl

run_directory_called_example :
    (answers.enabled ≡ some true)
    × (answers.acquired ≡ some true)
    × IsDue answers 0 0
    × CallsLawfully sha256_head itoa relay directory answers (turn 0)
unfolding run_directory check_due with_lease recheck run_owned run_client save_owned succeed
    reconcile next_heartbeat_attempt stable_jitter monotonic_now startup_reconciliation_due
run_directory_called_example =
    run_directory_called sha256_head itoa relay directory answers 0 0 register [] refl

run_cycle_earliest_example :
    All
      (NotBefore (run_cycle ((true, turn) ∷ (false, turn) ∷ []) 0 false 0).0)
      (turns_of ((true, turn) ∷ (false, turn) ∷ []) 0)
    × (((run_cycle ((true, turn) ∷ (false, turn) ∷ []) 0 false 0).0 ≡ 0)
        ⊎ (any_at
              (run_cycle ((true, turn) ∷ (false, turn) ∷ []) 0 false 0).0
              (turns_of ((true, turn) ∷ (false, turn) ∷ []) 0)
            ≡ true))
    × ((run_cycle ((true, turn) ∷ (false, turn) ∷ []) 0 false 0).1
        ≡ any_failed (turns_of ((true, turn) ∷ (false, turn) ∷ []) 0))
run_cycle_earliest_example = run_cycle_earliest ((true, turn) ∷ (false, turn) ∷ []) 0
