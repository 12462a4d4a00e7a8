-- ===== src/Relay/Follow.antt =====
-- The handlers of follow requests and answers (api/resolver.go).
pub mod Requests
use activity_relay.Base.{
  String, Bool, true, false, not, ◌&&◌, Option, none, some, List, [], ◌∷◌, ◌++◌, str_eq,
  if◌then◌else◌,
}
use activity_relay.Go.{Url, Runtime}
use activity_relay.State.{Subscriber, Follower, is_blocked, is_limited, is_follower}
use activity_relay.Relay.{
  Actor, Object, Activity, object_is, normalized_actor_domain, is_actor_able_to_be_follower, Reply,
  accept, reject, follow, Effect, save_pending, add_subscriber, add_follower, del_subscriber,
  del_follower, update_follower, register, Failure, blocked, not_stored, not_followable, End,
  returned, failed, panicked, Handled, Surroundings, actor_domain,
}

abbrev pub public_address : String
public_address = "https://www.w3.org/ns/activitystreams#Public"

abbrev pub follower_of : Activity → Actor → Url → Follower
follower_of activity actor u = record {
  domain = u.host;
  inbox_url = actor.inbox;
  activity_id = activity.id;
  actor_id = actor.id;
  mutually_follow = false;
}

-- executeMutuallyFollow
unfoldable pub execute_mutually_follow : Runtime → Surroundings → Follower → List Effect
execute_mutually_follow go w follower =
    if is_limited w.state (actor_domain go follower.actor_id)
    then []
    else register follower.inbox_url follow ∷ []

-- The case of `executeFollowing` for the public collection. `actor.Endpoints.SharedInbox` is read
-- without a test for nil: under manual approval before anything is done, otherwise after the Accept
-- is on its way.
unfoldable pub follow_public : Surroundings → Activity → Actor → Url → Handled
follow_public w activity actor u =
    if w.state.manually_accept
    then elim actor.endpoints [
      | none ↦ (panicked, [])
      | some shared_inbox ↦ (returned, save_pending u.host ∷ [])
    ]
    else elim actor.endpoints [
      | none ↦ (panicked, register actor.inbox accept ∷ [])
      | some shared_inbox ↦ (
        returned,
        register actor.inbox accept
            ∷ add_subscriber (record {
              domain = u.host;
              inbox_url = shared_inbox;
              activity_id = activity.id;
              actor_id = actor.id;
            })
            ∷ [],
      )
    ]

-- The case of `executeFollowing` for the relay's actor.
unfoldable pub follow_relay : Runtime → Surroundings → Activity → Actor → Url → Handled
unfolding execute_mutually_follow
follow_relay go w activity actor u =
    let follower = follower_of activity actor u in
    if w.state.manually_accept
    then (returned, save_pending u.host ∷ [])
    else if w.follower_stored follower
    then (
      returned,
      add_follower follower ∷ register actor.inbox accept ∷ execute_mutually_follow go w follower,
    )
    else (failed not_stored, [])

-- executeFollowing. A nil URL is dereferenced where the host is read.
unfoldable pub execute_following : Runtime → Surroundings → Activity → Actor → Handled
unfolding follow_public follow_relay
execute_following go w activity actor =
    if is_blocked w.state (actor_domain go actor.id)
    then (elim (go.parse_url actor.id) [ none ↦ (panicked, []) | some u ↦ (failed blocked, []) ])
    else if object_is activity.object public_address
    then (elim (go.parse_url actor.id) [
      | none ↦ (panicked, if w.state.manually_accept then [] else register actor.inbox accept ∷ [])
      | some u ↦ follow_public w activity actor u
    ])
    else if object_is activity.object w.relay_id && is_actor_able_to_be_follower go actor
    then (elim (go.parse_url actor.id) [
      | none ↦ (panicked, [])
      | some u ↦ follow_relay go w activity actor u
    ])
    else (failed not_followable, [])

-- executeUnfollowing
unfoldable pub execute_unfollowing : Runtime → Surroundings → Activity → Actor → Handled
execute_unfollowing go w activity actor =
    if object_is activity.object public_address
    then (elim (go.parse_url actor.id) [
      | none ↦ (panicked, [])
      | some u ↦ (returned, del_subscriber u.host ∷ [])
    ])
    else if object_is activity.object w.relay_id && is_actor_able_to_be_follower go actor
    then (elim (go.parse_url actor.id) [
      | none ↦ (panicked, [])
      | some u ↦ (returned, del_follower u.host ∷ [])
    ])
    else (failed not_followable, [])

-- finalizeMutuallyFollow; `accepted` is `activityType == "Accept"`.
unfoldable pub finalize_mutually_follow : Runtime → Surroundings → Activity → Actor → Bool → Handled
finalize_mutually_follow go w activity actor accepted =
    if str_eq activity.actor w.relay_id
      && object_is activity.object actor.id
      && is_follower w.state (actor_domain go actor.id)
    then (elim (go.parse_url actor.id) [
      | none ↦ (panicked, [])
      | some u ↦ (returned, update_follower u.host accepted ∷ [])
    ])
    else (returned, [])

-- A failure is answered with a Reject (`executeRejectRequest`).
unfoldable pub or_reject : Actor → Handled → Handled
or_reject actor (failed e, effects) = (returned, effects ++ register actor.inbox reject ∷ [])
or_reject actor (end, effects) = (end, effects)
