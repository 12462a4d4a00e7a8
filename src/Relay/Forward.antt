-- ===== src/Relay/Forward.antt =====
-- The handlers of api/resolver.go that record a publisher and fan an activity out.
pub mod Routes
pub mod Blocked
use activity_relay.Base.{
  String, Bool, true, false, not, Option, none, some, List, [], ◌∷◌, ◌++◌, map, str_eq,
  if◌then◌else◌,
}
use activity_relay.Go.{Runtime}
use activity_relay.State.{
  Subscriber, Follower, Publisher, is_blocked, follower_target, subscribers_and_followers,
}
use activity_relay.Relay.{
  Actor, Activity, unwrap_inner_object_id, actor_domain, is_actor_able_to_relay, publisher_inbox,
  Body, source, announce, Effect, record_publisher, fan_out, fan_out_or_release, release, Failure,
  invalid_actor, blocked, not_stored, no_object_id, not_marshalled, End, returned, failed, Handled,
  Surroundings, has_ld_signature,
}

abbrev pub publisher_of : Runtime → Activity → Actor → Publisher
publisher_of go activity actor = record {
  domain = actor_domain go actor.id;
  actor_id = actor.id;
  inbox_url = publisher_inbox actor;
  last_activity_id = activity.id;
  last_activity_type = activity.type;
}

-- recordPublisherActivity
unfoldable pub record_publisher_activity : Runtime → Surroundings → Activity → Actor → Handled
record_publisher_activity go w activity actor =
    let publisher = publisher_of go activity actor in
    if str_eq (actor_domain go actor.id) ""
    then (failed invalid_actor, [])
    else if is_blocked w.state (actor_domain go actor.id)
    then (failed blocked, [])
    else if not (is_actor_able_to_relay go w.state actor)
    then (returned, [])
    else if w.publisher_stored publisher
    then (returned, record_publisher publisher ∷ [])
    else (failed not_stored, [])

-- `if err := f(); err != nil { return err }`, with the effects of `f`
unfoldable pub and_then : Handled → Handled → Handled
and_then (returned, effects) (end, later) = (end, effects ++ later)
and_then (end, effects) _ = (end, effects)

-- The checks with which the handlers below begin; the last argument is what follows them.
unfoldable pub if_relayable : Runtime → Surroundings → Actor → Handled → Handled
if_relayable go w actor rest =
    if str_eq (actor_domain go actor.id) ""
    then (failed invalid_actor, [])
    else if is_blocked w.state (actor_domain go actor.id)
    then (failed blocked, [])
    else if not (is_actor_able_to_relay go w.state actor)
    then (returned, [])
    else rest

-- executeEmbeddedAnnounceActivity
unfoldable pub execute_embedded_announce : Runtime → Surroundings → Activity → Actor → Handled
execute_embedded_announce go w activity actor =
    if_relayable go w actor (elim (unwrap_inner_object_id activity) [
      | none ↦ (failed no_object_id, [])
      | some object_id ↦ and_then (record_publisher_activity go w activity actor) (
          if w.marshals
          then (
            returned,
            fan_out (subscribers_and_followers w.state) (announce object_id)
                  (actor_domain go actor.id ∷ [])
                ∷ [],
          )
          else (failed not_marshalled, []))
    ])

-- The fan-out of the exact bytes, where they carry a Linked-Data signature.
unfoldable pub preserved_fan_out : Runtime → Surroundings → Actor → String → List Effect
unfolding has_ld_signature
preserved_fan_out go w actor body =
    if has_ld_signature w body
    then fan_out w.state.subscribers (source body) (actor_domain go actor.id ∷ []) ∷ []
    else []

-- The fan-out of the relay's Announce: to the followers alone, and to none whose domain is also a
-- subscriber's, where the bytes were preserved; to all otherwise.
unfoldable pub announce_fan_out : Runtime → Surroundings → Actor → String → String → Effect
unfolding has_ld_signature
announce_fan_out go w actor body object_id =
    if has_ld_signature w body
    then fan_out (map follower_target w.state.followers) (announce object_id)
        (actor_domain go actor.id ∷ map (λ (s : Subscriber). s.domain) w.state.subscribers)
    else fan_out (subscribers_and_followers w.state) (announce object_id)
        (actor_domain go actor.id ∷ [])

-- The end of `executeRelayActivity`, once the publisher is recorded; the last argument is the answer
-- of `UnwrapInnerObjectId`.
unfoldable pub relay_fan_outs : Runtime → Surroundings → Actor → String → Option String → Handled
relay_fan_outs go w actor body none = (returned, preserved_fan_out go w actor body)
relay_fan_outs go w actor body (some object_id) =
    let preserved = preserved_fan_out go w actor body in
    if w.marshals
    then (returned, preserved ++ announce_fan_out go w actor body object_id ∷ [])
    else (failed not_marshalled, preserved)

-- executeRelayActivity
unfoldable pub execute_relay_activity : Runtime → Surroundings → Activity → Actor → String → Handled
execute_relay_activity go w activity actor body = if_relayable go w actor (
    and_then (record_publisher_activity go w activity actor)
      (relay_fan_outs go w actor body (unwrap_inner_object_id activity)))

-- The end of `executeAnnounceActivity`, under the reservation: a failure releases it.
unfoldable pub announce_reserved : Runtime → Surroundings → Activity → Actor → String → Handled
announce_reserved go w activity actor source_relay_domain =
    let (end, recorded) = record_publisher_activity go w activity actor in
    elim end [
      | returned ↦
          (if w.marshals
            then (
              returned,
              recorded
                  ++ fan_out_or_release (subscribers_and_followers w.state) (announce activity.id)
                      (source_relay_domain ∷ actor_domain go actor.id ∷ []) activity.id
                    ∷ [],
            )
            else (failed not_marshalled, recorded ++ release activity.id ∷ []))
      | other ↦ (other, recorded ++ release activity.id ∷ [])
    ]

-- executeAnnounceActivity; `actor` is the author of the announced activity.
unfoldable pub execute_announce_activity :
    Runtime → Surroundings → Activity → Actor → String → Handled
execute_announce_activity go w activity actor source_relay_domain =
    if_relayable go w actor (elim (w.reserve activity.id) [
      | some true ↦ announce_reserved go w activity actor source_relay_domain
      | _ ↦ (returned, [])
    ])
