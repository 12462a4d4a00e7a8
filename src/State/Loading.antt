-- ===== src/State/Loading.antt =====
-- What `Load` of models/state.go reads from Redis: the state that it publishes. HKEYS, HDEL, SCAN and
-- `sort.Strings` are parameters. The reads of one `Load` see one state of the server here.
use activity_relay.Base.{
  String, Bool, true, false, ◌&&◌, ◌||◌, not, ◌≡◌, Option, none, some, Result, ok, err, List, [],
  ◌∷◌, member, is_some, is_ok, str_eq, if◌then◌else◌, trim_space, has_prefix, trim_prefix,
}
use activity_relay.Go.{Runtime, Url}
use activity_relay.Redis.{Redis}
use activity_relay.Redis.Fields.{entry}
use activity_relay.State.{Subscriber, Follower, RelayState, normalize_state_domain}

-- HKEYS in any order; SCAN with MATCH of a prefix and `*`, which may give a key more than once; HDEL.
module _ (r : Redis) where
  open r use {Db, hget, key_exists}

  pub record Keys : Type 0 where
    pub hkeys : Db → String → List String
    pub scan : Db → String → List String
    pub hdel : Db → String → String → Db
    pub sort_strings : List String → List String
    pub member-hkeys : (d : Db) (k f : String) → member f (hkeys d k) ≡ is_some (hget d k f)
    pub member-scan :
        (d : Db) (p k : String) → member k (scan d p) ≡ (has_prefix p k && key_exists d k)
    pub member-sort_strings :
        (k : String) (ks : List String) → member k (sort_strings ks) ≡ member k ks
    pub hget-hdel :
        (d : Db) (k j f g : String)
        → hget (hdel d k f) j g ≡ (if str_eq k j && str_eq f g then none else hget d j g)
    pub key_exists-hdel :
        (d : Db) (k j f : String) → str_eq k j ≡ false → key_exists (hdel d k f) j ≡ key_exists d j

abbrev pub subscription_prefix : String
subscription_prefix = "relay:subscription:"

abbrev pub follower_prefix : String
follower_prefix = "relay:follower:"

abbrev pub pending_prefix : String
pending_prefix = "relay:pending:"

abbrev pub config_key : String
config_key = "relay:config"

abbrev pub limited_key : String
limited_key = "relay:config:limitedDomain"

abbrev pub blocked_key : String
blocked_key = "relay:config:blockedDomain"

pub data FollowerError : Type 0 where
  no_domain no_url bad_scheme no_host has_user_info other_domain no_activity_id : FollowerError

-- validateFollowerURL
unfoldable pub validate_follower_url : Runtime → String → Result FollowerError Url
validate_follower_url go value = elim (go.parse_url (trim_space value)) [
  | none ↦ err no_url
  | some u ↦
      (if not (str_eq u.scheme "http") && not (str_eq u.scheme "https")
        then err bad_scheme
        else if str_eq u.hostname ""
        then err no_host
        else if u.has_user
        then err has_user_info
        else ok u)
]

-- validateFollower
unfoldable pub validate_follower : Runtime → Follower → Result FollowerError (Unit {0})
validate_follower go follower =
    let domain = normalize_state_domain go follower.domain in
    let inbox : Result FollowerError (Unit {0}) =
      elim (validate_follower_url go follower.inbox_url) [
        | err e ↦ err e
        | ok u ↦ (if str_eq (trim_space follower.activity_id) "" then err no_activity_id else ok tt)
      ] in
    if str_eq domain "" then err no_domain else elim (validate_follower_url go follower.actor_id) [
      | err e ↦ err e
      | ok u ↦
          (if not (str_eq (normalize_state_domain go u.host) domain)
            then err other_domain
            else inbox)
    ]

-- The values that are kept, in order
abbrev pub filter_map {ℓ κ} : {A : Type ℓ} {B : Type κ} → (A → Option B) → List A → List B
filter_map f [] = []
filter_map f (x ∷ xs) = elim (f x) [ none ↦ filter_map f xs | some y ↦ y ∷ filter_map f xs ]

module _ (r : Redis) (k : Keys r) (go : Runtime) where
  open r use {Db, hget, key_exists}
  open k use {hkeys, scan, sort_strings}

  -- ScanKeys, of a pattern that is a prefix and `*`
  unfoldable pub scan_keys : Db → String → List String
  scan_keys d prefix = sort_strings (scan d prefix)

  -- One turn of the loop over the subscriptions
  unfoldable pub read_subscriber : Db → String → Option Subscriber
  read_subscriber d key = some (record {
    domain = trim_prefix subscription_prefix key;
    inbox_url = entry r d key "inbox_url";
    activity_id = entry r d key "activity_id";
    actor_id = entry r d key "actor_id";
  })

  -- One turn of the loop over the followers, which leaves out an invalid one
  unfoldable pub read_follower : Db → String → Option Follower
  read_follower d key =
      let mutually = entry r d key "mutually_follow" in
      let follower : Follower = record {
        domain = trim_prefix follower_prefix key;
        inbox_url = entry r d key "inbox_url";
        activity_id = entry r d key "activity_id";
        actor_id = entry r d key "actor_id";
        mutually_follow = str_eq mutually "1";
      } in
      let valid = is_ok (validate_follower go follower) in
      if not valid || (not (str_eq mutually "0") && not (str_eq mutually "1"))
      then none
      else some follower

  -- Load with loadRelayConfig and loadHashes, but for the publishers. `none` is a failed command,
  -- after which what was published stays.
  unfoldable pub load_state : Bool → Db → Option RelayState
  load_state false d = none
  load_state true d = some (record {
    person_only = str_eq (entry r d config_key "block_service") "1";
    manually_accept = str_eq (entry r d config_key "manually_accept") "1";
    limited_domains = sort_strings (hkeys d limited_key);
    blocked_domains = sort_strings (hkeys d blocked_key);
    subscribers = filter_map (read_subscriber d) (scan_keys d subscription_prefix);
    followers = filter_map (read_follower d) (scan_keys d follower_prefix);
  })

-- A lookup in the map that a loop over the list builds: the last one with the key stays.
abbrev pub last_with {ℓ} : {A : Type ℓ} → (A → String) → String → List A → Option A
last_with name key [] = none
last_with name key (x ∷ xs) =
    let later = last_with name key xs in
    elim later [ some y ↦ some y | none ↦ (if str_eq (name x) key then some x else none) ]

-- SelectSubscriber
unfoldable pub select_subscriber : RelayState → String → Option Subscriber
select_subscriber st domain = last_with (λ (s : Subscriber). s.domain) domain st.subscribers

-- SelectFollower
unfoldable pub select_follower : RelayState → String → Option Follower
select_follower st domain = last_with (λ (f : Follower). f.domain) domain st.followers
