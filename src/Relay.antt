-- ===== src/Relay.antt =====
-- What the API does with an activity it received (api/resolver.go and the types of
-- models/models.go): the predicates on actors, and the effects that the handlers have.
pub mod Forward
pub mod Follow
use activity_relay.Base.{
  ℕ, String, str_append, Bool, true, false, not, ◌&&◌, ◌||◌, Option, none, some, Result, ok, err,
  List, [], ◌∷◌, map, member, str_eq, if◌then◌else◌, trim_space, trim_suffix, has_suffix,
}
use activity_relay.Go.{Url, Runtime}
use activity_relay.State.{
  Subscriber, Follower, Publisher, RelayState, is_limited, is_blocked, is_follower,
  is_subscriber_or_follower,
}

pub record Actor : Type 0 where
  pub id : String
  pub type : String
  pub inbox : String
  pub endpoints : Option String  -- Endpoints.SharedInbox, or a nil Endpoints

-- A decoded JSON value in the place of an object: a string; a map, by its members "id", "type" and
-- "actor" where these are strings, without or with a member "object"; or anything else.
pub data Object : Type 0 where
  text : String → Object
  map_of : Option String → Option String → Option String → Object
  map_with : Option String → Option String → Option String → Object → Object
  other : Object

pub record Activity : Type 0 where
  pub id : String
  pub actor : String
  pub type : String
  pub object : Object
  pub to : List String
  pub cc : List String

-- UnwrapInnerActivity
unfoldable pub unwrap_inner_activity : Activity → Option Activity
unwrap_inner_activity activity = elim activity.object [
  | map_with (some id) (some type) (some actor) object ↦
      some (record { id = id; actor = actor; type = type; object = object; to = []; cc = [] })
  | _ ↦ none
]

-- UnwrapInnerObjectId
unfoldable pub unwrap_inner_object_id : Activity → Option String
unwrap_inner_object_id activity = elim activity.object [
  | text id ↦ some id
  | map_of (some id) type actor ↦ some id
  | map_with (some id) type actor object ↦ some id
  | _ ↦ none
]

-- `contains` at an `interface{}`, of the kinds that a decoded object has
abbrev pub object_is : Object → String → Bool
object_is (text s) key = str_eq s key
object_is _ key = false

-- normalizedActorDomain; a nil URL is `none`.
unfoldable pub normalized_actor_domain : Runtime → Option Url → String
normalized_actor_domain go none = ""
normalized_actor_domain go (some u) = go.to_lower (trim_suffix "." u.hostname)

unfoldable pub actor_domain : Runtime → String → String
unfolding normalized_actor_domain
actor_domain go id = normalized_actor_domain go (go.parse_url id)

-- isActorAbleToBeFollower
unfoldable pub is_actor_able_to_be_follower : Runtime → Actor → Bool
unfolding normalized_actor_domain
is_actor_able_to_be_follower go actor = elim (go.parse_url actor.id) [
  | none ↦ false
  | some u ↦
      let path = trim_suffix "/" u.path in
      not (str_eq (normalized_actor_domain go (some u)) "")
      && (str_eq actor.type "Application"
          || str_eq actor.type "Service"
          || str_eq path "/relay"
          || str_eq path "/friendica")
]

-- isActorAbleToRelay
unfoldable pub is_actor_able_to_relay : Runtime → RelayState → Actor → Bool
unfolding actor_domain
is_actor_able_to_relay go st actor =
    let domain = actor_domain go actor.id in
    not (str_eq domain "")
    && not (is_blocked st domain || is_limited st domain)
    && not (st.person_only && not (str_eq actor.type "Person"))

follows : String → List Follower → Bool
follows entry [] = false
follows entry (f ∷ fs) = str_eq (str_append f.actor_id "/followers") entry || follows entry fs

-- isToMyFollower
unfoldable pub is_to_my_follower : RelayState → List String → Bool
unfolding follows
is_to_my_follower st [] = false
is_to_my_follower st (entry ∷ entries) =
    has_suffix "/followers" entry && follows entry st.followers || is_to_my_follower st entries

-- publisherInbox
unfoldable pub publisher_inbox : Actor → String
publisher_inbox actor = elim actor.endpoints [
  | none ↦ actor.inbox
  | some shared ↦ (if str_eq shared "" then actor.inbox else shared)
]

-- The body of a fan-out: the received bytes, or the relay's own Announce of an object.
pub data Body : Type 0 where
  source : String → Body
  announce : String → Body

pub data Reply : Type 0 where
  accept reject follow : Reply

-- A call of the handlers that changes what is stored or sends something. `fan_out` is a call of
-- `enqueueActivityExcept` with its excluded domains; `fan_out_or_release` releases the reservation
-- of the activity if that call returns false.
pub data Effect : Type 0 where
  record_publisher : Publisher → Effect
  fan_out : List Subscriber → Body → List String → Effect
  fan_out_or_release : List Subscriber → Body → List String → String → Effect
  release : String → Effect
  save_pending : String → Effect
  add_subscriber : Subscriber → Effect
  add_follower : Follower → Effect
  del_subscriber : String → Effect
  del_follower : String → Effect
  update_follower : String → Bool → Effect
  register : String → Reply → Effect

pub data Failure : Type 0 where
  invalid_actor blocked not_stored no_object_id not_marshalled not_followable : Failure

-- How a handler ends: it returns nil, it returns an error, or it dereferences nil.
pub data End : Type 0 where
  returned : End
  failed : Failure → End
  panicked : End

abbrev pub Handled : Type 0
Handled = End × List Effect

-- A decoded Linked-Data signature.
pub record LdSignature : Type 0 where
  pub type : String
  pub creator : String
  pub created : String
  pub signature_value : String

-- What a handler asks of its surroundings: the published state, the relay's own actor ID, whether
-- storing succeeds, JSON, and the answer to a reservation (`none` is an error).
pub record Surroundings : Type 0 where
  pub state : RelayState
  pub relay_id : String
  pub publisher_stored : Publisher → Bool
  pub follower_stored : Follower → Bool
  pub marshals : Bool
  pub ld_signature : String → Option LdSignature
  pub reserve : String → Option Bool

-- hasMastodonLinkedDataSignature
unfoldable pub has_ld_signature : Surroundings → String → Bool
has_ld_signature w body = elim (w.ld_signature body) [
  | none ↦ false
  | some signature ↦
      str_eq signature.type "RsaSignature2017"
      && not (str_eq (trim_space signature.creator) "")
      && not (str_eq (trim_space signature.created) "")
      && not (str_eq (trim_space signature.signature_value) "")
]
