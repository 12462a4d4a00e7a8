-- ===== src/Inbox.antt =====
-- The inbox (api/handle.go): how a POST is routed to the handlers, and how it is answered.
pub mod Answers
use activity_relay.Base.{
  ℕ, String, Bool, true, false, not, ◌&&◌, ◌||◌, Option, none, some, List, [], ◌∷◌, ◌++◌, member,
  str_eq, if◌then◌else◌,
}
use activity_relay.Go.{Runtime}
use activity_relay.State.{is_subscriber_or_follower}
use activity_relay.Policy.{Policy, allows, excludes_public_only_in_cc}
use activity_relay.Relay.{
  Actor, Object, text, map_of, map_with, Activity, unwrap_inner_activity, unwrap_inner_object_id,
  actor_domain, is_to_my_follower, Effect, End, returned, failed, panicked, Handled, Surroundings,
}
use activity_relay.Relay.Forward.{
  record_publisher_activity, execute_relay_activity, execute_embedded_announce,
  execute_announce_activity,
}
use activity_relay.Relay.Follow.{
  execute_following, execute_unfollowing, finalize_mutually_follow, or_reject,
}

-- The answer to a request: a status, or a panic that the server ends the request with.
pub data Answer : Type 0 where
  status : ℕ → Answer
  aborted : Answer

abbrev pub Answered : Type 0
Answered = Answer × List Effect

-- An error of the handler is answered with 401.
abbrev pub or_unauthorized : Handled → Answered
or_unauthorized (returned, effects) = (status 202, effects)
or_unauthorized (failed e, effects) = (status 401, effects)
or_unauthorized (panicked, effects) = (aborted, effects)

-- The handler's error, if any, was dealt with or is dropped.
abbrev pub accepted_anyway : Handled → Answered
accepted_anyway (panicked, effects) = (aborted, effects)
accepted_anyway (end, effects) = (status 202, effects)

abbrev pub ignored : Answered
ignored = (status 202, [])

-- shouldFanOutPublicAnnounce, at an activity of type Announce
unfoldable pub should_fan_out_public_announce : Runtime → Activity → Bool
should_fan_out_public_announce go activity = elim activity.object [
  | text s ↦ false
  | other_object ↦ elim (unwrap_inner_object_id activity) [
    | none ↦ false
    | some object_id ↦
        let domain = actor_domain go activity.actor in
        not (str_eq domain "") && str_eq domain (actor_domain go object_id)
  ]
]

-- executePublicAnnounce
unfoldable pub execute_public_announce : Runtime → Surroundings → Activity → Actor → Handled
execute_public_announce go w activity actor =
    if should_fan_out_public_announce go activity
    then execute_embedded_announce go w activity actor
    else record_publisher_activity go w activity actor

abbrev pub is_relayed_type : String → Bool
is_relayed_type type =
    str_eq type "Create" || str_eq type "Update" || str_eq type "Delete" || str_eq type "Move"

-- executePolicyExcludedPublicActivity
unfoldable pub execute_policy_excluded : Runtime → Surroundings → Activity → Actor → Handled
execute_policy_excluded go w activity actor =
    if is_relayed_type activity.type || str_eq activity.type "Announce"
    then record_publisher_activity go w activity actor
    else (returned, [])

-- The first case of the switch: the public fan-out.
unfoldable pub distribute : Runtime → Surroundings → Activity → Actor → String → Answered
distribute go w activity actor body =
    if is_relayed_type activity.type
    then or_unauthorized (execute_relay_activity go w activity actor body)
    else if str_eq activity.type "Announce"
    then or_unauthorized (execute_public_announce go w activity actor)
    else ignored

-- The case Undo, at the answer of `UnwrapInnerActivity`.
unfoldable pub undo_inner : Runtime → Surroundings → Actor → Option Activity → Answered
undo_inner go w actor none = ignored
undo_inner go w actor (some inner) =
    if str_eq inner.type "Follow"
    then accepted_anyway (or_reject actor (execute_unfollowing go w inner actor))
    else ignored

-- The cases Follow and Undo, which two branches of the switch share.
unfoldable pub follow_or_undo : Runtime → Surroundings → Activity → Actor → Answered → Answered
follow_or_undo go w activity actor otherwise =
    if str_eq activity.type "Follow"
    then accepted_anyway (or_reject actor (execute_following go w activity actor))
    else if str_eq activity.type "Undo"
    then undo_inner go w actor (unwrap_inner_activity activity)
    else otherwise

-- The cases Accept and Reject, at the answer of `UnwrapInnerActivity`.
unfoldable pub follow_answer : Runtime → Surroundings → Actor → Bool → Option Activity → Answered
follow_answer go w actor accepted none = ignored
follow_answer go w actor accepted (some inner) =
    if str_eq inner.type "Follow"
    then accepted_anyway (finalize_mutually_follow go w inner actor accepted)
    else ignored

-- What is done with an announced activity that was fetched; an error is dropped.
unfoldable pub announce_fetched :
    Runtime → Surroundings → String → Option (Activity × Actor) → Answered
announce_fetched go w announcer none = (status 400, [])
announce_fetched go w announcer (some (original, author)) =
    accepted_anyway (execute_announce_activity go w original author announcer)

-- The cases of the announced object. `fetch` is `fetchOriginalActivityFromURL`.
unfoldable pub announce_object :
    Runtime → Surroundings → (String → Option (Activity × Actor)) → String → Object → Answered
announce_object go w fetch announcer (text url) = announce_fetched go w announcer (fetch url)
announce_object go w fetch announcer other_object = ignored

-- The case Announce of the LitePub branch.
unfoldable pub litepub_announce :
    Runtime → Surroundings → (String → Option (Activity × Actor)) → Activity → Answered
litepub_announce go w fetch activity =
    let announcer = actor_domain go activity.actor in
    if is_subscriber_or_follower w.state announcer
    then announce_object go w fetch announcer activity.object
    else (status 401, [])

-- The LitePub branch of the switch.
unfoldable pub litepub :
    Runtime → Surroundings → (String → Option (Activity × Actor)) → Activity → Actor → Answered
litepub go w fetch activity actor = follow_or_undo go w activity actor (
    if str_eq activity.type "Accept"
    then follow_answer go w actor true (unwrap_inner_activity activity)
    else if str_eq activity.type "Reject"
    then follow_answer go w actor false (unwrap_inner_activity activity)
    else if str_eq activity.type "Announce"
    then litepub_announce go w fetch activity
    else ignored)

abbrev pub addressed_to_relay : Surroundings → Activity → Bool
addressed_to_relay w activity =
    member w.relay_id activity.to
    || member w.relay_id activity.cc
    || is_to_my_follower w.state activity.to
    || is_to_my_follower w.state activity.cc

-- The POST branch of `handleInbox`; a request that does not decode is `none`.
unfoldable pub handle_inbox_post :
    Runtime
    → Surroundings
    → (String → Option (Activity × Actor))
    → Policy
    → Option (Activity × Actor × String)
    → Answered
handle_inbox_post go w fetch policy none = (status 400, [])
handle_inbox_post go w fetch policy (some (activity, actor, body)) =
    if allows policy activity.to activity.cc
    then distribute go w activity actor body
    else if addressed_to_relay w activity
    then litepub go w fetch activity actor
    else if excludes_public_only_in_cc policy activity.to activity.cc
    then or_unauthorized (execute_policy_excluded go w activity actor)
    else follow_or_undo go w activity actor ignored
