-- ===== src/Scheduler/Turn.antt =====
-- One turn of the scheduler for a directory (`runDirectory` and `saveOwned`), and a cycle over all of
-- them (`runCycle`). What the turn asks for is a record of answers; what it does is a record too.
use activity_relay.Base.{
  ℕ, String, Bool, true, false, ◌&&◌, ◌||◌, not, Option, none, some, Result, ok, err, List, [], ◌∷◌,
  ltb, leb, ◌==◌, str_eq, if◌then◌else◌,
}
use activity_relay.Scheduler.{
  State, DirectoryError, unclassified, startup_reconciliation_due, monotonic_now,
  next_heartbeat_attempt, apply_failure,
}

pub data Operation : Type 0 where
  register heartbeat : Operation

pub record Response : Type 0 where
  pub operation : Operation
  pub protocol_version : ℕ

-- A client: `clientProfileDigest` (`none` if it has none), and the answers that the directory gives.
pub record Client : Type 0 where
  pub profile_digest : Option String
  pub register_answer : Result DirectoryError Response
  pub heartbeat_answer : Result DirectoryError Response

-- What the turn is answered, in the order of the code. `none` is an error; the fields with `owned`
-- are asked for under the lease. `saved` is what `SaveOwned` answers.
pub record Answers : Type 0 where
  pub enabled : Option Bool
  pub loaded : Option State
  pub clock : ℕ
  pub preview : Option Client
  pub acquired : Option Bool
  pub owned_loaded : Option State
  pub owned_clock : ℕ
  pub owned_enabled : Option Bool
  pub client : Option Client
  pub lost : Bool
  pub cancelled : Bool
  pub completed_clock : ℕ
  pub saved : Option Bool

-- What the turn leaves: the next attempt (0 for none), whether it fails, the new `lastNow`, the
-- calls to the directory, the state it offers to `SaveOwned`, what it records, and whether it
-- releases the lease.
pub record Turned : Type 0 where
  pub next : ℕ
  pub failed : Bool
  pub last_now : ℕ
  pub called : List Operation
  pub offered : Option State
  pub recorded : List (String × String)
  pub released : Bool

-- A return without calls.
abbrev pub ends : ℕ → Bool → List (String × String) → Bool → ℕ → Turned
ends next failed recorded released last_now = record {
  next = next;
  failed = failed;
  last_now = last_now;
  called = [];
  offered = none;
  recorded = recorded;
  released = released;
}

abbrev pub internal_failure : List (String × String)
internal_failure = ("failure", "internal") ∷ []

-- An error or `false` of `enabled` and of `Acquire`: the first is recorded.
abbrev pub stops : Option Bool → Bool → ℕ → Turned
stops none released last_now = ends 0 true internal_failure released last_now
stops (some answer) released last_now = ends 0 false [] released last_now

-- Whether the profile of a registered relay is another than the client's.
abbrev pub profile_changed : State → Option Client → Bool
profile_changed state none = false
profile_changed state (some client) = state.registered && (elim client.profile_digest [
  | none ↦ false
  | some digest ↦ not (str_eq state.profile_digest digest)
])

-- The condition under which the turn does nothing yet.
abbrev pub not_due : Bool → Bool → State → ℕ → Bool
not_due startup_due changed state now =
    not startup_due && not changed && not (state.next_attempt == 0) && ltb now state.next_attempt

-- saveOwned with the returns that follow it.
unfoldable pub save_owned : Answers → List Operation → State → String × String → ℕ → Turned
save_owned answers called state result last_now = elim answers.saved [
  | some true ↦ record {
    next = state.next_attempt;
    failed = false;
    last_now = last_now;
    called = called;
    offered = some state;
    recorded = result ∷ [];
    released = true;
  }
  | refused ↦ record {
    next = 0;
    failed = true;
    last_now = last_now;
    called = called;
    offered = some state;
    recorded = ("failure", elim refused [ none ↦ "internal" | some answer ↦ "lease_lost" ]) ∷ [];
    released = true;
  }
]

-- The calls of the client and the last answer: a heartbeat of a registered relay, a registration
-- otherwise, and a registration after a heartbeat under a newer protocol.
unfoldable pub reconcile : Client → State → Bool → List Operation × Result DirectoryError Response
reconcile client state changed =
    if not (state.registered && not changed)
    then (register ∷ [], client.register_answer)
    else elim client.heartbeat_answer [
      | err e ↦ (heartbeat ∷ [], err e)
      | ok response ↦
          (if (elim response.operation [ heartbeat ↦ true | register ↦ false ])
              && leb 2 response.protocol_version
              && not (state.profile_protocol_version == response.protocol_version)
            then (heartbeat ∷ register ∷ [], client.register_answer)
            else (heartbeat ∷ [], ok response))
    ]

module _ (sha256_head : String → ℕ) (itoa : ℕ → String) (relay_actor origin : String) where
  -- The state after a successful call.
  unfoldable pub succeed : State → Client → Response → ℕ → State
  succeed state client response completed_at =
      let registers : Bool = elim response.operation [ register ↦ true | heartbeat ↦ false ] in
      let kept : String × ℕ = (state.profile_digest, state.profile_protocol_version) in
      let known : String × ℕ = elim client.profile_digest [
        | none ↦ kept
        | some digest ↦ (digest, response.protocol_version)
      ] in
      let (digest, version) = if registers then known else kept in
      record {
        registered = true;
        last_success = completed_at;
        next_attempt = next_heartbeat_attempt sha256_head itoa relay_actor origin completed_at;
        last_outcome = if registers then "registered" else "heartbeat";
        diagnostic = "none";
        attempt = 0;
        last_observed = completed_at;
        profile_digest = digest;
        profile_protocol_version = version;
      }

  -- The state and the record of the answer.
  abbrev pub conclude :
      State → Client → ℕ → Result DirectoryError Response → State × (String × String)
  conclude state client now (ok response) = (succeed state client response now, ("success", "none"))
  conclude state client now (err e) =
      let failed = apply_failure sha256_head itoa relay_actor origin state now e in
      (failed, ("failure", failed.diagnostic))

  -- From the call of the client on.
  unfoldable pub run_client : Answers → State → Client → Bool → ℕ → Turned
  unfolding reconcile save_owned
  run_client answers state client changed last_now =
      let (called, answer) = reconcile client state changed in
      let completed_at = monotonic_now answers.completed_clock last_now state.last_observed in
      let (concluded, result) = conclude state client completed_at answer in
      if answers.lost
      then record (ends 0 true (("failure", "lease_lost") ∷ []) true last_now) { called = called }
      else if answers.cancelled
      then record (ends 0 true [] true last_now) { called = called }
      else save_owned answers called concluded result completed_at

  -- From the client on, with the state that was loaded under the lease, at the time `now`.
  unfoldable pub run_owned : Answers → State → ℕ → ℕ → Option Client → Turned
  unfolding run_client save_owned
  run_owned answers state startup_boundary now none =
      let failed = apply_failure sha256_head itoa relay_actor origin state now unclassified in
      save_owned answers [] failed ("failure", failed.diagnostic) now
  run_owned answers state startup_boundary now (some client) =
      let changed = profile_changed state (some client) in
      if not_due (startup_reconciliation_due state startup_boundary) changed state now
      then ends state.next_attempt false [] true now
      else run_client answers state client changed now

  -- From the second load on, under the lease.
  unfoldable pub recheck : Answers → ℕ → ℕ → Option State → Turned
  unfolding run_owned
  recheck answers startup_boundary last_now none = ends 0 true internal_failure true last_now
  recheck answers startup_boundary last_now (some state) =
      let now = monotonic_now answers.owned_clock last_now state.last_observed in
      elim answers.owned_enabled [
        | some true ↦ run_owned answers state startup_boundary now answers.client
        | refused ↦ stops refused true now
      ]

  -- From the answer of `Acquire` on.
  unfoldable pub with_lease : Answers → ℕ → ℕ → Option Bool → Turned
  unfolding recheck
  with_lease answers startup_boundary last_now (some true) =
      recheck answers startup_boundary last_now answers.owned_loaded
  with_lease answers startup_boundary last_now refused = stops refused false last_now

  -- The first check of the loaded state.
  unfoldable pub check_due : Answers → ℕ → ℕ → Option State → Turned
  unfolding with_lease
  check_due answers startup_boundary last_now none = ends 0 true internal_failure false last_now
  check_due answers startup_boundary last_now (some state) =
      let now = monotonic_now answers.clock last_now state.last_observed in
      let changed = profile_changed state answers.preview in
      if not_due (startup_reconciliation_due state startup_boundary) changed state now
      then ends state.next_attempt false [] false now
      else with_lease answers startup_boundary now answers.acquired

  -- runDirectory
  unfoldable pub run_directory : Answers → ℕ → ℕ → Turned
  unfolding check_due
  run_directory answers startup_boundary last_now = elim answers.enabled [
    | some true ↦ check_due answers startup_boundary last_now answers.loaded
    | refused ↦ stops refused false last_now
  ]

-- The loop of runCycle over the directories, each with `Enabled` and with what a turn does from a
-- given `lastNow`: the earliest next attempt, whether any fails, and the new `lastNow`.
unfoldable pub run_cycle : List (Bool × (ℕ → Turned)) → ℕ → Bool → ℕ → ℕ × Bool × ℕ
run_cycle [] earliest failed last_now = (earliest, failed, last_now)
run_cycle ((enabled, turn) ∷ rest) earliest failed last_now =
    let turned = turn last_now in
    let sooner =
      if not (turned.next == 0) && (earliest == 0 || ltb turned.next earliest)
      then turned.next
      else earliest in
    if enabled
    then run_cycle rest sooner (failed || turned.failed) turned.last_now
    else run_cycle rest earliest failed last_now
