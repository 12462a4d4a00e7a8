-- ===== src/State/Replay.antt =====
-- The commands of models/state.go on maps: what the parties and the policy of the relay are, apart
-- from how Redis holds them.
use activity_relay.Base.{
  String, Bool, ◌&&◌, ◌||◌, Option, none, some, List, [], ◌∷◌, str_eq, is_ok, if◌then◌else◌,
}
use activity_relay.Go.{Runtime}
use activity_relay.Redis.{Redis, Value, text, Outcome}
use activity_relay.Redis.Fields.{text_of}
use activity_relay.State.{Subscriber, Follower, normalize_state_domain}
use activity_relay.State.Loading.{Keys, validate_follower}
use activity_relay.State.Commands.{
  Setting, person_only, manually_accept, status_flag, ran, is_blank, set_config, add_subscriber,
  del_subscriber, del_follower, set_blocked_domain, set_limited_domain, add_follower_checked,
  update_follower_status_checked,
}

pub data Command : Type 0 where
  configure : Outcome → Setting → Bool → Command
  subscribe : Outcome → Subscriber → Command
  unsubscribe : Outcome → Outcome → String → Command
  follow : Outcome → Follower → Command
  update : Outcome → String → Bool → Command
  unfollow : Outcome → Outcome → String → Command
  block limit : Outcome → String → Bool → Command

-- The four stored values of a follower
pub record Row : Type 0 where
  pub inbox_url : Option Value
  pub activity_id : Option Value
  pub actor_id : Option Value
  pub mutually_follow : Option Value

pub record Parties : Type 0 where
  pub person_only : Bool
  pub manually_accept : Bool
  pub limited : String → Bool
  pub blocked : String → Bool
  pub subscriber : String → Option Subscriber
  pub follower : String → Option Row

abbrev pub put : {A : Type 0} → String → A → (String → A) → String → A
put key a f x = if str_eq key x then a else f x

abbrev pub row_of : Follower → Row
row_of f = record {
  inbox_url = some (text f.inbox_url);
  activity_id = some (text f.activity_id);
  actor_id = some (text f.actor_id);
  mutually_follow = some (text (status_flag f.mutually_follow));
}

-- The row after a change of the status: an incomplete one is removed.
abbrev pub updated_row : Bool → Option Row → Option Row
updated_row mutually none = none
updated_row mutually (some row) =
    if is_blank row.inbox_url
      || is_blank row.activity_id
      || is_blank row.actor_id
      || is_blank row.mutually_follow
    then none
    else some (record row { mutually_follow = some (text (status_flag mutually)) })

abbrev configured : Setting → Bool → Parties → Parties
configured person_only value v = record v { person_only = value }
configured manually_accept value v = record v { manually_accept = value }

module _ (go : Runtime) where
  -- One command on the maps; a refused one changes nothing.
  abbrev pub apply : Command → Parties → Parties
  apply (configure net setting value) v = ran net (configured setting value) v
  apply (subscribe net s) v =
      ran net (λ w. record w { subscriber = put s.domain (some s) w.subscriber }) v
  apply (unsubscribe first second domain) v =
      ran first (λ w. record w { subscriber = put domain none w.subscriber }) v
  apply (follow net f) v =
      if is_ok (validate_follower go f)
      then ran net
          (λ w. record w {
            follower = put (normalize_state_domain go f.domain) (some (row_of f)) w.follower;
          })
          v
      else v
  apply (update net domain mutually) v =
      let name = normalize_state_domain go domain in
      if str_eq name ""
      then v
      else ran net
          (λ w. record w {
            follower = put name (updated_row mutually (w.follower name)) w.follower;
          })
          v
  apply (unfollow first second domain) v =
      ran first (λ w. record w { follower = put domain none w.follower }) v
  apply (block net domain value) v =
      ran net (λ w. record w { blocked = put domain value w.blocked }) v
  apply (limit net domain value) v =
      ran net (λ w. record w { limited = put domain value w.limited }) v

  abbrev pub replay : List Command → Parties → Parties
  replay [] v = v
  replay (c ∷ cs) v = replay cs (apply c v)

  -- What `Load` makes of a follower's row
  abbrev pub visible : String → Option Row → Option Follower
  visible domain none = none
  visible domain (some row) =
      let mutually = text_of row.mutually_follow in
      let f : Follower = record {
        domain = domain;
        inbox_url = text_of row.inbox_url;
        activity_id = text_of row.activity_id;
        actor_id = text_of row.actor_id;
        mutually_follow = str_eq mutually "1";
      } in
      if is_ok (validate_follower go f) && (str_eq mutually "0" || str_eq mutually "1")
      then some f
      else none

  module _ (r : Redis) (k : Keys r) where
    open r use {Db}

    -- One command on the server
    abbrev pub step : Command → Db → Db
    step (configure net setting value) d = set_config r k net setting value d
    step (subscribe net s) d = add_subscriber r k net s d
    step (unsubscribe first second domain) d = del_subscriber r k first second domain d
    step (follow net f) d = (add_follower_checked r k go net f d).1
    step (update net domain mutually) d =
        (update_follower_status_checked r k go net domain mutually d).1
    step (unfollow first second domain) d = del_follower r k first second domain d
    step (block net domain value) d = set_blocked_domain r k net domain value d
    step (limit net domain value) d = set_limited_domain r k net domain value d

    abbrev pub run : List Command → Db → Db
    run [] d = d
    run (c ∷ cs) d = run cs (step c d)
