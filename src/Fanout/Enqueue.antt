-- ===== src/Fanout/Enqueue.antt =====
-- What `enqueueActivityExcept` hands to the broker, and that it gives its reservation back.
use activity_relay.Base.{
  ℕ, ◌+◌, ◌≤◌, ◌<◌, String, Bool, true, ◌≡◌, ap, ◌∙◌, some, Result, List, [], ◌∷◌, length, ltb,
  arith, eq_refl, if◌then◌else◌, inl, inr,
}
use activity_relay.Base.Int.{pos}
use activity_relay.Go.{Runtime}
use activity_relay.Negotiation.{Profile}
use activity_relay.State.{Subscriber}
use activity_relay.Redis.{Redis, Outcome, answered, text, number}
use activity_relay.Queue.{AdmissionReason, accepted, redis_failed, capacity, queue_reservation_key}
use activity_relay.Queue.Reservation.{Reserved, reserve-answered, release-answered}
use activity_relay.Activity.{activity_key, store_relay_activity}
use activity_relay.Fanout.{
  Task, Enqueued, Environment, plan_tasks, fanout_targets, send_reserved, enqueue_reserved,
  enqueue_tasks, enqueue_activity_except,
}

length-plan_tasks :
    {E : Type 0} (planned : String → Result E Profile) (id : String) (subs : List Subscriber)
    → length (plan_tasks planned id subs) ≤ length subs
unfolding plan_tasks
length-plan_tasks planned id [] = omega arith
length-plan_tasks planned id (s ∷ rest) = ground (arith, length-plan_tasks planned id rest)

module _ (r : Redis) where
  open r use {Db, get, hget, hget-hset, hget-expire, get-hset, get-expire}

  -- The database holds the body under the activity's key, with so many targets.
  abbrev pub HoldsPayload : String → String → ℕ → Db → Type 0
  HoldsPayload id body n d =
      (hget d (activity_key id) "body" ≡ some (text body))
      × (hget d (activity_key id) "remain_count" ≡ some (number (pos n)))

  store-HoldsPayload :
      (id body : String) (n : ℕ) (d : Db)
      → HoldsPayload id body n (store_relay_activity r answered id body n d).1
  unfolding store_relay_activity
  store-HoldsPayload id body n d = grind (arith, hget-hset, hget-expire, eq_refl)

  get-store :
      (net : Outcome) (id body key : String) (n : ℕ) (d : Db)
      → get (store_relay_activity r net id body n d).1 key ≡ get d key
  unfolding store_relay_activity
  get-store net id body key n d = grind (arith, get-hset, get-expire)

  abbrev concurrency : ℕ → ℕ
  concurrency n = if ltb 16 n then 16 else n

  module _ (env : Environment r) (body : String) where
    -- The database in which the broker was asked to send the tasks.
    abbrev pub Sent : List Task → Bool → Type 0
    Sent tasks result =
        (d : Db) × HoldsPayload env.uuid body (length tasks) d
        × ((env.send_group tasks (concurrency (length tasks)) d).0 ≡ result)

    store_succeeds :
        (n : ℕ) (d : Db)
        → (store_relay_activity r env.store_net env.uuid body n d).0 ≡ true
        → env.store_net ≡ answered
    unfolding store_relay_activity
    store_succeeds n d h = ground arith

    stored_payload :
        (n : ℕ) (d : Db)
        → (store_relay_activity r env.store_net env.uuid body n d).0 ≡ true
        → HoldsPayload env.uuid body n (store_relay_activity r env.store_net env.uuid body n d).1
    stored_payload n d h = rw (store_succeeds n d h) (store-HoldsPayload env.uuid body n d)

    send_reserved_offered :
        (tasks : List Task) (d : Db) (t : Task) (ts : List Task)
        → (send_reserved r env body tasks d).offered ≡ t ∷ ts
        → ((send_reserved r env body tasks d).offered ≡ tasks)
          × Sent tasks (send_reserved r env body tasks d).accepted
    unfolding send_reserved
    send_reserved_offered tasks d t ts h = (
      ground arith,
      (
        (store_relay_activity r env.store_net env.uuid body (length tasks) d).1,
        stored_payload (length tasks) d (ground arith),
        ground arith,
      ),
    )

    enqueue_reserved_offered :
        (tasks : List Task) (reason : AdmissionReason) (d : Db) (t : Task) (ts : List Task)
        → (enqueue_reserved r env body tasks reason d).offered ≡ t ∷ ts
        → ((enqueue_reserved r env body tasks reason d).offered ≡ tasks)
          × Sent tasks (enqueue_reserved r env body tasks reason d).accepted
    enqueue_reserved_offered tasks accepted d t ts h =
        unfold enqueue_reserved in send_reserved_offered tasks d t ts h
    enqueue_reserved_offered tasks redis_failed d t ts h = unfold enqueue_reserved in cc
    enqueue_reserved_offered tasks capacity d t ts h = unfold enqueue_reserved in cc

    enqueue_tasks_offered :
        (tasks : List Task) (d : Db) (t : Task) (ts : List Task)
        → (enqueue_tasks r env body tasks d).offered ≡ t ∷ ts
        → ((enqueue_tasks r env body tasks d).offered ≡ tasks)
          × Sent tasks (enqueue_tasks r env body tasks d).accepted
    unfolding enqueue_tasks
    enqueue_tasks_offered tasks d = enqueue_reserved_offered tasks _ _

    -- The broker does not touch the counter of reservations.
    abbrev pub BrokerKeepsCounter : Type 0
    BrokerKeepsCounter =
        (tasks : List Task) (n : ℕ) (d : Db)
        → get (env.send_group tasks n d).1 queue_reservation_key ≡ get d queue_reservation_key

    get-send_reserved :
        (ts : List Task) (d : Db)
        → BrokerKeepsCounter
        → get (send_reserved r env body ts d).db queue_reservation_key ≡ get d queue_reservation_key
    unfolding send_reserved
    get-send_reserved ts d keeps = ground (
      arith,
      get-store env.store_net env.uuid body queue_reservation_key (length ts) d,
      keeps ts (concurrency (length ts))
          (store_relay_activity r env.store_net env.uuid body (length ts) d).1,
    )

    enqueue_reserved_gives_back :
        (ts : List Task) (n : ℕ) (d : Db)
        → 0 < length ts
        → env.release_net ≡ answered
        → BrokerKeepsCounter
        → Reserved r d (n + length ts)
        → Reserved r (enqueue_reserved r env body ts accepted d).db n
    unfolding enqueue_reserved
    enqueue_reserved_gives_back ts n d some_tasks releases keeps held =
        rw releases
          (release-answered r (length ts) n _ some_tasks (rw (get-send_reserved ts d keeps) held))

    enqueue_tasks_gives_back :
        (ts : List Task) (n : ℕ) (d : Db)
        → 0 < length ts
        → env.reserve_net ≡ answered
        → env.release_net ≡ answered
        → BrokerKeepsCounter
        → Reserved r d n
        → Reserved r (enqueue_tasks r env body ts d).db n
    unfolding enqueue_tasks
    enqueue_tasks_gives_back ts n d some_tasks reserves releases keeps held =
        rw reserves (elim (reserve-answered r env.max_queue_jobs (length ts) n d some_tasks held) [
          | inl (fits, taken, counted) ↦
              rw taken (enqueue_reserved_gives_back ts n _ some_tasks releases keeps counted)
          | inr (full, refused, same) ↦ rw refused (unfold enqueue_reserved in same)
        ])

    module _ {E : Type 0} (go : Runtime) (planned : String → Result E Profile)
        (subscriptions : List Subscriber) (excluded : List String) (d : Db) where
      abbrev result : Enqueued Db
      result = enqueue_activity_except r go env planned subscriptions body excluded d

      abbrev tasks : List Task
      tasks = plan_tasks planned env.uuid (fanout_targets go subscriptions excluded)

      offered_past_checks :
          (t : Task) (ts : List Task)
          → result.offered ≡ t ∷ ts
          → (result ≡ enqueue_tasks r env body tasks d)
            × (length (fanout_targets go subscriptions excluded) ≤ env.max_fanout_targets)
      unfolding enqueue_activity_except
      offered_past_checks t ts h = ground arith

      -- If anything is handed to the broker, it is every planned task and no more than
      -- `max_fanout_targets`, and when the broker was called the database held the body under the
      -- tasks' activity with their number as its count of targets. The call succeeds exactly when
      -- the broker does.
      pub enqueue_offered :
          (t : Task) (ts : List Task)
          → result.offered ≡ t ∷ ts
          → (result.offered ≡ tasks)
            × (length result.offered ≤ env.max_fanout_targets)
            × Sent result.offered result.accepted
      enqueue_offered t ts h =
          let (past, within) = offered_past_checks t ts h in
          let (all_tasks, sent) = enqueue_tasks_offered tasks d t ts (rw past at h) in
          let all_offered : result.offered ≡ tasks =
            ap (λ (q : Enqueued Db). q.offered) past ∙ all_tasks in
          (
            all_offered,
            omega (
              arith,
              ap (λ (q : List Task). length q) all_offered,
              length-plan_tasks planned env.uuid (fanout_targets go subscriptions excluded),
            ),
            rw (all_offered, past) sent,
          )

      -- Every path gives back what it reserved: if the calls that reserve and release are answered,
      -- the broker leaves the counter alone and `n` reservations are counted before, `n` are counted
      -- afterwards, whether the fan-out was refused by a
      -- limit, failed on the way, or was sent.
      pub enqueue_gives_back :
          (n : ℕ)
          → env.reserve_net ≡ answered
          → env.release_net ≡ answered
          → BrokerKeepsCounter
          → Reserved r d n
          → Reserved r result.db n
      unfolding enqueue_activity_except
      enqueue_gives_back n reserves releases keeps held =
          let sends : 0 < length tasks → Reserved r (enqueue_tasks r env body tasks d).db n =
            λ some_tasks.
              enqueue_tasks_gives_back tasks n d some_tasks reserves releases keeps held in
          ground arith
