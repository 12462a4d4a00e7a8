-- ===== src/Fanout.antt =====
-- The fan-out of one relay-authored or forwarded body (api/resolver.go): `normalizedStoredDomain`,
-- the tasks, and `enqueueActivityExcept` with the helpers that call it. Planning a signature, the
-- broker and `tasks.NewGroup` are parameters: the first is the signer of internal/httpsignature, the
-- others belong to machinery.
pub mod Targets
pub mod Enqueue
pub mod Split
use activity_relay.Base.{
  ℕ, ◌+◌, String, str_append, Bool, true, false, not, Option, none, some, Result, ok, err, is_ok,
  List, [], ◌∷◌, map, member, length, ltb, str_eq, if◌then◌else◌, trim_space, trim_suffix,
}
use activity_relay.Go.{Url, Runtime}
use activity_relay.Origin.{normalize_destination_origin}
use activity_relay.Negotiation.{Profile}
use activity_relay.State.{Subscriber, Follower}
use activity_relay.Redis.{Redis, Outcome}
use activity_relay.Queue.{
  AdmissionReason, accepted, redis_failed, capacity, reserve_queue_capacity, release_queue_capacity,
}
use activity_relay.Activity.{store_relay_activity}

-- normalizedStoredDomain
unfoldable pub normalized_stored_domain : Runtime → String → String
normalized_stored_domain go stored =
    let domain = trim_space stored in
    let plain = go.to_lower (trim_suffix "." domain) in
    if str_eq domain "" then "" else elim (go.parse_url (str_append "//" domain)) [
      | none ↦ plain
      | some u ↦ (if str_eq u.hostname "" then plain else go.to_lower (trim_suffix "." u.hostname))
    ]

-- The set `excluded`, as the list of what was put into it.
unfoldable pub excluded_set : Runtime → List String → List String
excluded_set go [] = []
excluded_set go (domain ∷ domains) =
    let normalized = normalized_stored_domain go domain in
    let rest = excluded_set go domains in if str_eq normalized "" then rest else normalized ∷ rest

-- The variable `dedupeKey`.
unfoldable pub dedupe_key : Runtime → Subscriber → String
dedupe_key go s =
    let domain = normalized_stored_domain go s.domain in
    if str_eq domain "" then go.to_lower (trim_space s.inbox_url) else domain

-- The checks of the loop before `append`: `none` is `continue`, otherwise the new `seen`.
unfoldable pub admit_target :
    Runtime → List String → List String → Subscriber → Option (List String)
admit_target go excluded seen s =
    let key = dedupe_key go s in
    if member (normalized_stored_domain go s.domain) excluded
    then none
    else if not (is_ok (normalize_destination_origin go s.inbox_url))
    then none
    else if str_eq key ""
    then some seen
    else if member key seen
    then none
    else some (key ∷ seen)

-- The loop over the subscriptions.
unfoldable pub select_targets :
    Runtime → List String → List String → List Subscriber → List Subscriber
select_targets go excluded seen [] = []
select_targets go excluded seen (s ∷ rest) = elim (admit_target go excluded seen s) [
  | none ↦ select_targets go excluded seen rest
  | some seen' ↦ s ∷ select_targets go excluded seen' rest
]

unfoldable pub fanout_targets : Runtime → List Subscriber → List String → List Subscriber
fanout_targets go subscriptions excluded_domains =
    select_targets go (excluded_set go excluded_domains) [] subscriptions

-- tasks.Signature, with its three arguments
pub record Task : Type 0 where
  pub name : String
  pub retry_count : ℕ
  pub retry_timeout : ℕ
  pub inbox_url : String
  pub activity_id : String
  pub signature_profile : Profile

-- internal/deliverypolicy/policy.go
abbrev pub retry_count : ℕ
retry_count = 5

abbrev pub initial_retry_timeout_seconds : ℕ
initial_retry_timeout_seconds = 5

-- relayTaskWithProfile
unfoldable pub relay_task_with_profile : String → String → Profile → Task
relay_task_with_profile inbox_url activity_id profile = record {
  name = "relay-v2";
  retry_count = retry_count;
  retry_timeout = initial_retry_timeout_seconds;
  inbox_url = inbox_url;
  activity_id = activity_id;
  signature_profile = profile;
}

-- The loop over the targets that builds the tasks; a target whose signature cannot be planned is
-- skipped. `planned` is `plannedDeliveryProfile`.
unfoldable pub plan_tasks :
    {E : Type 0} → (String → Result E Profile) → String → List Subscriber → List Task
unfolding relay_task_with_profile
plan_tasks planned activity_id [] = []
plan_tasks planned activity_id (s ∷ rest) =
    let tasks = plan_tasks planned activity_id rest in
    elim (planned s.inbox_url) [
      | err e ↦ tasks
      | ok profile ↦ relay_task_with_profile s.inbox_url activity_id profile ∷ tasks
    ]

pub data Admission : Type 0 where
  fanout_limit no_targets signature_plan store_failed group_failed broker_failed queued : Admission
  not_reserved : AdmissionReason → Admission

-- What a call of `enqueueActivityExcept` leaves: its result, the database, the tasks that it handed
-- to the broker, and what it recorded, with the number of targets for the fan-out metric.
pub record Enqueued (Db : Type 0) : Type 0 where
  pub accepted : Bool
  pub db : Db
  pub offered : List Task
  pub admission : Admission
  pub counted : ℕ

module _ (r : Redis) where
  open r use {Db}

  -- The environment of one call: the configured limits, the UUID, what becomes of the calls to
  -- Redis, and machinery's `NewGroup` and `SendGroup`.
  pub record Environment : Type 0 where
    pub max_fanout_targets : ℕ
    pub max_queue_jobs : ℕ
    pub uuid : String
    pub reserve_net : Outcome
    pub store_net : Outcome
    pub release_net : Outcome
    pub new_group : List Task → Bool
    pub send_group : List Task → ℕ → Db → Bool × Db

  -- The end of the function, under the reservation: store, group, send.
  unfoldable pub send_reserved : Environment → String → List Task → Db → Enqueued Db
  send_reserved env body tasks d =
      let (stored, d') = store_relay_activity r env.store_net env.uuid body (length tasks) d in
      let concurrency = if ltb 16 (length tasks) then 16 else length tasks in
      let (sent, d'') = env.send_group tasks concurrency d' in
      if not stored
      then record {
        accepted = false;
        db = d';
        offered = [];
        admission = store_failed;
        counted = length tasks;
      }
      else if not (env.new_group tasks)
      then record {
        accepted = false;
        db = d';
        offered = [];
        admission = group_failed;
        counted = length tasks;
      }
      else record {
        accepted = sent;
        db = d'';
        offered = tasks;
        admission = if sent then queued else broker_failed;
        counted = length tasks;
      }

  unfoldable pub refuse : Admission → ℕ → Db → Enqueued Db
  refuse admission counted d = record {
    accepted = false;
    db = d;
    offered = [];
    admission = admission;
    counted = counted;
  }

  -- What follows the answer of `reserveQueueCapacityWithReason`; the `defer` releases on every path.
  unfoldable pub enqueue_reserved :
      Environment → String → List Task → AdmissionReason → Db → Enqueued Db
  unfolding send_reserved refuse
  enqueue_reserved env body tasks accepted d =
      let result = send_reserved env body tasks d in
      record result { db = release_queue_capacity r env.release_net (length tasks) result.db }
  enqueue_reserved env body tasks reason d = refuse (not_reserved reason) (length tasks) d

  unfoldable pub enqueue_tasks : Environment → String → List Task → Db → Enqueued Db
  unfolding enqueue_reserved
  enqueue_tasks env body tasks d =
      let (reason, d') =
        reserve_queue_capacity r env.reserve_net env.max_queue_jobs (length tasks) d in
      enqueue_reserved env body tasks reason d'

  -- enqueueActivityExcept
  unfoldable pub enqueue_activity_except :
      {E : Type 0}
      → Runtime
      → Environment
      → (String → Result E Profile)
      → List Subscriber
      → String
      → List String
      → Db
      → Enqueued Db
  unfolding enqueue_tasks
  enqueue_activity_except go env planned subscriptions body excluded_domains d =
      let targets = fanout_targets go subscriptions excluded_domains in
      let tasks = plan_tasks planned env.uuid targets in
      if ltb env.max_fanout_targets (length targets)
      then refuse fanout_limit (length targets) d
      else if ltb (length targets) 1
      then record (refuse no_targets 0 d) { accepted = true }
      else if ltb (length tasks) 1
      then refuse signature_plan (length targets) d
      else enqueue_tasks env body tasks d
