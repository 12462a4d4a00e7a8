-- ===== src/State/Commands.antt =====
-- The commands of models/state.go that change what is stored. Where the code drops a command's error,
-- the outcome decides only what the server has; `refresh` follows in any case.
use activity_relay.Base.{
  String, str_append, Bool, true, false, ◌||◌, not, Option, none, some, Result, ok, err, List, [],
  ◌∷◌, str_eq, if◌then◌else◌,
}
use activity_relay.Go.{Runtime}
use activity_relay.Redis.{Redis, Value, text, Outcome, answered, refused, eval}
use activity_relay.Redis.Fields.{hset_all}
use activity_relay.State.{Subscriber, Follower, RelayState, normalize_state_domain}
use activity_relay.State.Loading.{
  Keys, subscription_prefix, follower_prefix, pending_prefix, config_key, limited_key, blocked_key,
  FollowerError, validate_follower, load_state,
}

-- The constants of the type Config
pub data Setting : Type 0 where
  person_only manually_accept : Setting

abbrev pub setting_field : Setting → String
setting_field person_only = "block_service"
setting_field manually_accept = "manually_accept"

abbrev pub status_flag : Bool → String
status_flag true = "1"
status_flag false = "0"

-- What a write leaves on the server
abbrev pub ran : {D : Type 0} → Outcome → (D → D) → D → D
ran refused f d = d
ran _ f d = f d

abbrev pub failed : Outcome → Bool
failed answered = false
failed _ = true

-- The error of a command on followers
pub data CommandError : Type 0 where
  invalid_follower : FollowerError → CommandError
  redis_failed empty_domain no_such_follower incomplete_follower : CommandError

-- A process of the relay: what it published last, and whether it waits for the message on
-- `relay_refresh` before it loads
pub record Process : Type 0 where
  pub notifiable : Bool
  pub published : RelayState

abbrev pub follower_fields : Follower → List (String × Value)
follower_fields f =
    ("inbox_url", text f.inbox_url)
    ∷ ("activity_id", text f.activity_id)
    ∷ ("actor_id", text f.actor_id)
    ∷ ("mutually_follow", text (status_flag f.mutually_follow))
    ∷ []

-- A field that is missing or empty, as the script tests it. A number is not empty.
abbrev pub is_blank : Option Value → Bool
is_blank none = true
is_blank (some (text value)) = str_eq value ""
is_blank other = false

pub data Updated : Type 0 where
  absent incomplete updated : Updated

module _ (r : Redis) (k : Keys r) where
  open r use {Db, hget, key_exists, hset, del}
  open k use {hdel}

  -- refresh; ListenNotify does the same `Load` for each message.
  unfoldable pub refresh : Runtime → Bool → Db → Process → Process
  refresh go reachable d p =
      if p.notifiable
      then p
      else elim (load_state r k go reachable d) [ none ↦ p | some st ↦ record p { published = st } ]

  -- The write of SetConfig
  unfoldable pub set_config : Outcome → Setting → Bool → Db → Db
  set_config net setting value d =
      ran net (λ e. hset e config_key (setting_field setting) (text (status_flag value))) d

  -- The write of AddSubscriber
  unfoldable pub add_subscriber : Outcome → Subscriber → Db → Db
  add_subscriber net s d =
      ran net
        (hset_all r (str_append subscription_prefix s.domain) (
          ("inbox_url", text s.inbox_url)
          ∷ ("activity_id", text s.activity_id)
          ∷ ("actor_id", text s.actor_id)
          ∷ []))
        d

  -- The writes of DelSubscriber
  unfoldable pub del_subscriber : Outcome → Outcome → String → Db → Db
  del_subscriber first second domain d =
      ran second (λ e. del e (str_append pending_prefix domain))
        (ran first (λ e. del e (str_append subscription_prefix domain)) d)

  -- The writes of DelFollower
  unfoldable pub del_follower : Outcome → Outcome → String → Db → Db
  del_follower first second domain d =
      ran second (λ e. del e (str_append pending_prefix domain))
        (ran first (λ e. del e (str_append follower_prefix domain)) d)

  -- The writes of SetBlockedDomain and SetLimitedDomain
  unfoldable pub set_domain : String → Outcome → String → Bool → Db → Db
  set_domain key net domain true d = ran net (λ e. hset e key domain (text "1")) d
  set_domain key net domain false d = ran net (λ e. hdel e key domain) d

  unfoldable pub set_blocked_domain : Outcome → String → Bool → Db → Db
  set_blocked_domain net domain value d = set_domain blocked_key net domain value d

  unfoldable pub set_limited_domain : Outcome → String → Bool → Db → Db
  set_limited_domain net domain value d = set_domain limited_key net domain value d

  -- AddFollowerChecked, whose `refresh` follows where it returns no error
  unfoldable pub add_follower_checked :
      Runtime → Outcome → Follower → Db → Result CommandError (Unit {0}) × Db
  add_follower_checked go net f d =
      let key = str_append follower_prefix (normalize_state_domain go f.domain) in
      elim (validate_follower go f) [
        | err e ↦ (err (invalid_follower e), d)
        | ok _ ↦ (
          if failed net then err redis_failed else ok tt,
          ran net (hset_all r key (follower_fields f)) d,
        )
      ]

  -- updateFollowerStatusScript
  unfoldable pub update_follower_script : String → String → Db → Option Updated × Db
  update_follower_script key status d =
      if not (key_exists d key)
      then (some absent, d)
      else if is_blank (hget d key "inbox_url")
          || is_blank (hget d key "activity_id")
          || is_blank (hget d key "actor_id")
          || is_blank (hget d key "mutually_follow")
      then (some incomplete, del d key)
      else (some updated, hset d key "mutually_follow" (text status))

  -- UpdateFollowerStatusChecked, with `refresh` after `updated` and `incomplete`
  unfoldable pub update_follower_status_checked :
      Runtime → Outcome → String → Bool → Db → Result CommandError (Unit {0}) × Db
  update_follower_status_checked go net domain mutually d =
      let name = normalize_state_domain go domain in
      let (answer, d') =
        eval net (update_follower_script (str_append follower_prefix name) (status_flag mutually))
          d in
      let result : Result CommandError (Unit {0}) = elim answer [
        | none ↦ err redis_failed
        | some updated ↦ ok tt
        | some absent ↦ err no_such_follower
        | some incomplete ↦ err incomplete_follower
      ] in
      if str_eq name "" then (err empty_domain, d) else (result, d')
