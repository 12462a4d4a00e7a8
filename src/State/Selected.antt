-- ===== src/State/Selected.antt =====
-- What the lookups of a loaded state find (models/state.go).
use activity_relay.Base.{
  String, str_append, true, ◌&&◌, ◌≡◌, refl, ap, sym, ◌∙◌, Option, none, some, Option-cases, inl,
  inr, List, [], ◌∷◌, map, member, is_some, str_eq, eq_refl, eq_iff, arith, if◌then◌else◌,
  has_prefix, trim_prefix, append-trim_prefix, str_eq-append, has_prefix-append,
}
use activity_relay.Go.{Runtime}
use activity_relay.Redis.{Redis}
use activity_relay.State.{
  Subscriber, Follower, RelayState, is_subscriber, is_follower, is_blocked, is_limited,
}
use activity_relay.State.Loading.{
  Keys, subscription_prefix, follower_prefix, limited_key, blocked_key, filter_map, last_with,
  scan_keys, read_subscriber, read_follower, load_state, select_subscriber, select_follower,
}

abbrev ArePrefixed : String → List String → Type 0
ArePrefixed p keys = (k : String) → member k keys ≡ true → has_prefix p k ≡ true

named :
    (p k x : String)
    → has_prefix p k ≡ true
    → str_eq (trim_prefix p k) x ≡ str_eq k (str_append p x)
named p k x h =
    sym (str_eq-append p (trim_prefix p k) x)
    ∙ ap (λ t. str_eq t (str_append p x)) (append-trim_prefix p k h)

filter_map-none :
    {A : Type 0} (row : String → Option A) (k : String) (ks : List String)
    → row k ≡ none
    → filter_map row (k ∷ ks) ≡ filter_map row ks
filter_map-none row k ks h = ground arith

filter_map-some :
    {A : Type 0} (row : String → Option A) (k : String) (ks : List String) (a : A)
    → row k ≡ some a
    → filter_map row (k ∷ ks) ≡ a ∷ filter_map row ks
filter_map-some row k ks a h = ground arith

last_with-filter_map :
    {A : Type 0} (name : A → String) (row : String → Option A) (p x : String) (keys : List String)
    → ((k : String) (a : A) → row k ≡ some a → name a ≡ trim_prefix p k)
    → ArePrefixed p keys
    → last_with name x (filter_map row keys)
      ≡ (if member (str_append p x) keys then row (str_append p x) else none)
last_with-filter_map name row p x [] names prefixed = refl
last_with-filter_map name row p x (k ∷ ks) names prefixed =
    let rest = last_with-filter_map name row p x ks names (λ j h. prefixed j (ground (arith, h))) in
    let here : str_eq (trim_prefix p k) x ≡ str_eq k (str_append p x) =
      named p k x (prefixed k (ground (arith, eq_refl k))) in
    elim (Option-cases (row k)) [
      | inl skipped ↦
          rw (filter_map-none row k ks skipped) (ground (arith, rest, eq_iff k (str_append p x)))
      | inr (a, found) ↦
          rw (filter_map-some row k ks a found)
            (ground (arith, rest, names k a found, here, eq_iff k (str_append p x)))
    ]

is_some-last_with :
    {A : Type 0} (name : A → String) (x : String) (xs : List A)
    → is_some (last_with name x xs) ≡ member x (map name xs)
is_some-last_with name x [] = refl
is_some-last_with name x (a ∷ rest) = ground (arith, is_some-last_with name x rest)

module _ (r : Redis) (k : Keys r) (go : Runtime) where
  open r use {Db, hget, key_exists}
  open k use {member-hkeys, member-scan, member-sort_strings}

  member-scan_keys :
      (d : Db) (p key : String)
      → member key (scan_keys r k go d p) ≡ (has_prefix p key && key_exists d key)
  unfolding scan_keys
  member-scan_keys d p key = member-sort_strings key _ ∙ member-scan d p key

  scan_keys-ArePrefixed : (d : Db) (p : String) → ArePrefixed p (scan_keys r k go d p)
  scan_keys-ArePrefixed d p key h = ground (arith, member-scan_keys d p key)

  scan_keys-append :
      (d : Db) (p x : String)
      → member (str_append p x) (scan_keys r k go d p) ≡ key_exists d (str_append p x)
  scan_keys-append d p x =
      member-scan_keys d p (str_append p x)
      ∙ ap (λ b. b && key_exists d (str_append p x)) (has_prefix-append p x)

  pub select_subscriber-load_state :
      (d : Db) (st : RelayState) (x : String)
      → load_state r k go true d ≡ some st
      → select_subscriber st x ≡ (
          if key_exists d (str_append subscription_prefix x)
          then read_subscriber r k go d (str_append subscription_prefix x)
          else none)
  unfolding load_state select_subscriber
  select_subscriber-load_state d st x h =
      let found =
        last_with-filter_map (λ (s : Subscriber). s.domain) (read_subscriber r k go d)
          subscription_prefix x (scan_keys r k go d subscription_prefix)
          (λ key a e. unfold read_subscriber in ground arith)
          (scan_keys-ArePrefixed d subscription_prefix) in
      ground (arith, found, scan_keys-append d subscription_prefix x)

  pub select_follower-load_state :
      (d : Db) (st : RelayState) (x : String)
      → load_state r k go true d ≡ some st
      → select_follower st x ≡ (
          if key_exists d (str_append follower_prefix x)
          then read_follower r k go d (str_append follower_prefix x)
          else none)
  unfolding load_state select_follower
  select_follower-load_state d st x h =
      let found =
        last_with-filter_map (λ (s : Follower). s.domain) (read_follower r k go d) follower_prefix x
          (scan_keys r k go d follower_prefix) (λ key a e. unfold read_follower in ground arith)
          (scan_keys-ArePrefixed d follower_prefix) in
      ground (arith, found, scan_keys-append d follower_prefix x)

  pub is_blocked-load_state :
      (d : Db) (st : RelayState) (x : String)
      → load_state r k go true d ≡ some st
      → is_blocked st x ≡ is_some (hget d blocked_key x)
  unfolding load_state is_blocked
  is_blocked-load_state d st x h =
      ground (arith, member-sort_strings x (k.hkeys d blocked_key), member-hkeys d blocked_key x)

  pub is_limited-load_state :
      (d : Db) (st : RelayState) (x : String)
      → load_state r k go true d ≡ some st
      → is_limited st x ≡ is_some (hget d limited_key x)
  unfolding load_state is_limited
  is_limited-load_state d st x h =
      ground (arith, member-sort_strings x (k.hkeys d limited_key), member-hkeys d limited_key x)

-- The tests of a domain agree with the lookups.
pub is_subscriber-select_subscriber :
    (st : RelayState) (x : String) → is_subscriber st x ≡ is_some (select_subscriber st x)
unfolding is_subscriber select_subscriber
is_subscriber-select_subscriber st x = sym (is_some-last_with _ x st.subscribers)

pub is_follower-select_follower :
    (st : RelayState) (x : String) → is_follower st x ≡ is_some (select_follower st x)
unfolding is_follower select_follower
is_follower-select_follower st x = sym (is_some-last_with _ x st.followers)
