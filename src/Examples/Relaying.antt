-- ===== src/Examples/Relaying.antt =====
-- Runs of the fan-out, of the handlers and of the inbox.
use mathlib.Core.List.{Memᴰ}
use activity_relay.Base.{
  ◌≤◌, String, true, false, ◌≡◌, inl, refl, Option, none, some, List, [], ◌∷◌, map, member, length,
  trim_space, trim_suffix, All, ◌&&◌, ◌||◌,
}
use activity_relay.Origin.{normalize_destination_origin}
use activity_relay.Base.Int.{◌+ℤ◌}
use activity_relay.Negotiation.{legacy}
use activity_relay.Redis.{answered}
use activity_relay.Queue.Reservation.{Reserved}
use activity_relay.Queue.{reserve_queue_capacity, release_queue_capacity}
use activity_relay.Activity.{store_relay_activity}
use activity_relay.State.{Subscriber, is_blocked}
use activity_relay.Fanout.{
  normalized_stored_domain, excluded_set, dedupe_key, fanout_targets, Task, Enqueued, Environment,
  plan_tasks, enqueue_activity_except, select_targets, admit_target,
}
use activity_relay.Fanout.Targets.{
  Distinct, DistinctKeys, IsAdmissible, fanout_targets_sound, fanout_targets_complete,
}
use activity_relay.Fanout.Enqueue.{Sent, enqueue_offered, enqueue_gives_back}
use activity_relay.Relay.{Actor, Activity, actor_domain}
use activity_relay.Relay.Forward.{
  execute_relay_activity, execute_embedded_announce, execute_announce_activity,
}
use activity_relay.Relay.Forward.Routes.{all_receivers, relay_once}
use activity_relay.Relay.Forward.Blocked.{
  RelaysLawfully, relay-ForwardsLawfully, refusal, forwards_nothing,
}
use activity_relay.Relay.Follow.{execute_following}
use activity_relay.Relay.Follow.Requests.{FollowLawfully, following_lawful}
use activity_relay.Policy.{
  public_and_unlisted, parse_policy, allows, excludes_public_only_in_cc, contains_public_address,
  policy_partition,
}
use activity_relay.Inbox.{handle_inbox_post}
use activity_relay.Inbox.Answers.{IsAnswered, post-IsAnswered}
use activity_relay.Examples.Memory.{Keyspace, memory, empty, push_many}
use activity_relay.Examples.Fixtures.{
  go, server_a, server_b, surroundings, actor_at, public_address, activity_of, planned_legacy,
}

abbrev subscriptions : List Subscriber
subscriptions = server_a ∷ server_b ∷ server_a ∷ []

fanout_targets_sound_example :
    DistinctKeys go (fanout_targets go subscriptions ("b.example" ∷ []))
    × All
        (IsAdmissible go (excluded_set go ("b.example" ∷ [])))
        (fanout_targets go subscriptions ("b.example" ∷ []))
fanout_targets_sound_example = fanout_targets_sound go subscriptions ("b.example" ∷ [])

fanout_targets_complete_example :
    member
      (dedupe_key go server_a)
      (map (dedupe_key go) (fanout_targets go subscriptions ("b.example" ∷ [])))
    ≡ true
unfolding normalized_stored_domain excluded_set dedupe_key normalize_destination_origin trim_space
    trim_suffix
fanout_targets_complete_example =
    fanout_targets_complete go subscriptions ("b.example" ∷ []) server_a (Memᴰ.head refl)
      (refl, refl) refl

abbrev environment : Environment memory
environment = record {
  max_fanout_targets = 10;
  max_queue_jobs = 100;
  uuid = "u";
  reserve_net = answered;
  store_net = answered;
  release_net = answered;
  new_group = λ tasks. true;
  send_group = λ tasks n d. (true, push_many d "relay" (length tasks));
}

abbrev enqueued : Enqueued Keyspace
enqueued =
    enqueue_activity_except memory go environment planned_legacy subscriptions "payload"
      ("b.example" ∷ []) empty

abbrev task_for_a : Task
task_for_a = record {
  name = "relay-v2";
  retry_count = 5;
  retry_timeout = 5;
  inbox_url = "https://a.example/inbox";
  activity_id = "u";
  signature_profile = legacy;
}

enqueue_offered_example :
    (enqueued.offered
      ≡ plan_tasks planned_legacy "u" (fanout_targets go subscriptions ("b.example" ∷ [])))
    × (length enqueued.offered ≤ 10)
    × Sent memory environment "payload" enqueued.offered enqueued.accepted
unfolding enqueue_activity_except store_relay_activity reserve_queue_capacity release_queue_capacity
    plan_tasks fanout_targets select_targets admit_target normalized_stored_domain excluded_set
    dedupe_key normalize_destination_origin ◌+ℤ◌
enqueue_offered_example =
    enqueue_offered memory environment "payload" go planned_legacy subscriptions ("b.example" ∷ [])
      empty task_for_a [] refl

enqueue_gives_back_example : Reserved memory enqueued.db 0
enqueue_gives_back_example =
    enqueue_gives_back memory environment "payload" go planned_legacy subscriptions
      ("b.example" ∷ []) empty 0 refl refl (λ tasks n d. refl) refl

relay_once_example : Distinct (
    all_receivers go
      (execute_relay_activity go surroundings
        (activity_of "Create" "https://a.example/note")
        (actor_at "a.example" none)
        "bytes").1)
unfolding normalized_stored_domain trim_space trim_suffix
relay_once_example =
    relay_once go surroundings (activity_of "Create" "https://a.example/note")
      (actor_at "a.example" none) "bytes" (refl, (refl, tt)) (refl, tt)

relay-ForwardsLawfully_example :
    RelaysLawfully go surroundings
      (activity_of "Create" "https://a.example/note")
      (actor_at "a.example" none)
      "bytes"
      (execute_relay_activity go surroundings
        (activity_of "Create" "https://a.example/note")
        (actor_at "a.example" none)
        "bytes").1
relay-ForwardsLawfully_example =
    relay-ForwardsLawfully go surroundings (activity_of "Create" "https://a.example/note")
      (actor_at "a.example" none) "bytes"

abbrev blocked_actor : Actor
blocked_actor = actor_at "b.example" none

forwards_nothing_example :
    let turned_away =
      refusal go surroundings
        (activity_of "Create" "https://b.example/note")
        blocked_actor
        "bytes" in
    (execute_relay_activity go surroundings
        (activity_of "Create" "https://b.example/note")
        blocked_actor
        "bytes"
      ≡ turned_away)
    × (execute_embedded_announce go surroundings
          (activity_of "Create" "https://b.example/note")
          blocked_actor
        ≡ turned_away)
    × (execute_announce_activity go surroundings
          (activity_of "Create" "https://b.example/note")
          blocked_actor
          "a.example"
        ≡ turned_away)
unfolding actor_domain is_blocked trim_suffix
forwards_nothing_example =
    forwards_nothing go surroundings (activity_of "Create" "https://b.example/note") blocked_actor
      "bytes" "a.example" refl (inl refl)

following_lawful_example :
    All
      (FollowLawfully go surroundings
        (activity_of "Follow" public_address)
        (actor_at "a.example" (some "https://a.example/inbox")))
      (execute_following go surroundings
        (activity_of "Follow" public_address)
        (actor_at "a.example" (some "https://a.example/inbox"))).1
following_lawful_example =
    following_lawful go surroundings (activity_of "Follow" public_address)
      (actor_at "a.example" (some "https://a.example/inbox"))

policy_partition_example :
    ((allows public_and_unlisted [] (public_address ∷ [])
        || excludes_public_only_in_cc public_and_unlisted [] (public_address ∷ []))
      ≡ (contains_public_address [] || contains_public_address (public_address ∷ [])))
    × ((allows public_and_unlisted [] (public_address ∷ [])
          && excludes_public_only_in_cc public_and_unlisted [] (public_address ∷ []))
        ≡ false)
unfolding parse_policy trim_space
policy_partition_example =
    policy_partition go "public_and_unlisted" public_and_unlisted [] (public_address ∷ []) refl

abbrev fetch_nothing : String → Option (Activity × Actor)
fetch_nothing address = none

post-IsAnswered_example :
    IsAnswered
      (handle_inbox_post go surroundings fetch_nothing public_and_unlisted (
        some (
          activity_of "Follow" public_address,
          actor_at "a.example" (some "https://a.example/inbox"),
          "bytes",
        ))).0
post-IsAnswered_example =
    post-IsAnswered go surroundings fetch_nothing (activity_of "Follow" public_address)
      (actor_at "a.example" (some "https://a.example/inbox"))
      (record {
        scheme = "https";
        host = "a.example";
        hostname = "a.example";
        port = "";
        path = "/actor";
        has_user = false;
      })
      "https://a.example/inbox" refl refl public_and_unlisted "bytes"
