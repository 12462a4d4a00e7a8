-- ===== src/State.antt =====
-- The persisted parties of the relay (models/state.go).
pub mod Loading
pub mod Commands
pub mod Selected
pub mod Places
pub mod Replay
pub mod Views
pub mod Writes
pub mod Rows
pub mod Refinement
use activity_relay.Base.{String, Bool, ◌||◌, List, ◌++◌, map, member, trim_space, trim_suffix}
use activity_relay.Go.{Runtime}

pub record Subscriber : Type 0 where
  pub domain : String
  pub inbox_url : String
  pub activity_id : String
  pub actor_id : String

pub record Follower : Type 0 where
  pub domain : String
  pub inbox_url : String
  pub activity_id : String
  pub actor_id : String
  pub mutually_follow : Bool

-- normalizeStateDomain
unfoldable pub normalize_state_domain : Runtime → String → String
unfolding trim_space trim_suffix
normalize_state_domain go domain = go.to_lower (trim_suffix "." (trim_space domain))

pub record Publisher : Type 0 where
  pub domain : String
  pub actor_id : String
  pub inbox_url : String
  pub last_activity_id : String
  pub last_activity_type : String

-- A published snapshot of the state, as `Snapshot` copies it. The maps that `Load` builds beside the
-- lists hold the same domains, so a lookup in one is a search of its list.
pub record RelayState : Type 0 where
  pub person_only : Bool
  pub manually_accept : Bool
  pub limited_domains : List String
  pub blocked_domains : List String
  pub subscribers : List Subscriber
  pub followers : List Follower

-- IsLimited, IsBlocked, IsSubscriber, IsFollower, IsSubscriberOrFollower
unfoldable pub is_limited : RelayState → String → Bool
is_limited st domain = member domain st.limited_domains

unfoldable pub is_blocked : RelayState → String → Bool
is_blocked st domain = member domain st.blocked_domains

unfoldable pub is_subscriber : RelayState → String → Bool
is_subscriber st domain = member domain (map (λ (s : Subscriber). s.domain) st.subscribers)

unfoldable pub is_follower : RelayState → String → Bool
is_follower st domain = member domain (map (λ (f : Follower). f.domain) st.followers)

unfoldable pub is_subscriber_or_follower : RelayState → String → Bool
unfolding is_subscriber is_follower
is_subscriber_or_follower st domain = is_subscriber st domain || is_follower st domain

-- The receiver that a follower is, as `Load`, `enqueueActivityForFollower` and
-- `executeRelayActivity` write it.
abbrev pub follower_target : Follower → Subscriber
follower_target f = record {
  domain = f.domain;
  inbox_url = f.inbox_url;
  activity_id = f.activity_id;
  actor_id = f.actor_id;
}

-- The field SubscribersAndFollowers: `Load` appends the followers after the subscribers.
unfoldable pub subscribers_and_followers : RelayState → List Subscriber
subscribers_and_followers st = st.subscribers ++ map follower_target st.followers
