-- ===== src/State/Refinement.antt =====
-- The commands of models/state.go as Redis runs them, and the maps that they are meant to change.
use activity_relay.Base.{
  String, str_append, true, false, ◌≡◌, subst, refl, ap, ◌∙◌, none, some, List, [], ◌∷◌,
  trim_prefix-append, arith, if◌then◌else◌,
}
use activity_relay.Go.{Runtime}
use activity_relay.Redis.{Redis, Outcome, answered, refused, unanswered}
use activity_relay.State.{RelayState, is_blocked, is_limited}
use activity_relay.State.Loading.{
  Keys, subscription_prefix, read_subscriber, read_follower, load_state, select_subscriber,
  select_follower, follower_prefix,
}
use activity_relay.State.Commands.{
  ran, set_config, add_subscriber, del_subscriber, set_domain, set_blocked_domain,
  set_limited_domain, del_follower,
}
use activity_relay.State.Places.{party, pending, key_of}
use activity_relay.State.Replay.{
  Command, configure, subscribe, unsubscribe, follow, update, unfollow, block, limit, Parties, put,
  visible, apply, replay, step, run,
}
use activity_relay.State.Views.{subscriber_at, follower_at, view}
use activity_relay.State.Selected.{
  select_subscriber-load_state, select_follower-load_state, is_blocked-load_state,
  is_limited-load_state,
}
use activity_relay.State.Rows.{view-follow, view-update}
use activity_relay.State.Writes.{
  view-ran, view-del_subscription, view-del_follower, view-del_pending, view-configure,
  view-subscribe, view-block, view-limit,
}

-- A published state has the parties and the policy of the maps, followers without a valid row apart.
abbrev pub Shows : Runtime → RelayState → Parties → Type 0
Shows go st v =
    ((x : String) → select_subscriber st x ≡ v.subscriber x)
    × ((x : String) → select_follower st x ≡ visible go x (v.follower x))
    × ((x : String) → is_blocked st x ≡ v.blocked x)
    × ((x : String) → is_limited st x ≡ v.limited x)
    × (st.person_only ≡ v.person_only)
    × (st.manually_accept ≡ v.manually_accept)

module _ (r : Redis) (k : Keys r) (go : Runtime) where
  open r use {Db, hget, key_exists, hset, del, hget-hset, hget-del, key_exists-hset, key_exists-del}
  open k use {hdel, hget-hdel}

  view-pending_removed :
      (net : Outcome) (x : String) (d : Db)
      → view r k (ran net (λ e. del e (key_of (party pending x))) d) ≡ view r k d
  view-pending_removed answered x d = view-del_pending r k go x d
  view-pending_removed refused x d = refl
  view-pending_removed unanswered x d = view-del_pending r k go x d

  pub view-step : (c : Command) (d : Db) → view r k (step go r k c d) ≡ apply go c (view r k d)
  unfolding set_config add_subscriber del_subscriber del_follower set_blocked_domain
      set_limited_domain set_domain
  view-step (configure net setting value) d =
      view-ran r k go net _ _ d (λ e. view-configure r k go setting value e)
  view-step (subscribe net s) d = view-ran r k go net _ _ d (λ e. view-subscribe r k go s e)
  view-step (unsubscribe first second domain) d =
      view-pending_removed second domain _
      ∙ view-ran r k go first _
          (λ (w : Parties). record w { subscriber = put domain none w.subscriber }) d
          (λ e. view-del_subscription r k go domain e)
  view-step (follow net f) d = view-follow r k go net f d
  view-step (update net domain mutually) d = view-update r k go net domain mutually d
  view-step (unfollow first second domain) d =
      view-pending_removed second domain _
      ∙ view-ran r k go first _
          (λ (w : Parties). record w { follower = put domain none w.follower }) d
          (λ e. view-del_follower r k go domain e)
  view-step (block net domain true) d =
      view-ran r k go net _ _ d (λ e. view-block r k go domain true e)
  view-step (block net domain false) d =
      view-ran r k go net _ _ d (λ e. view-block r k go domain false e)
  view-step (limit net domain true) d =
      view-ran r k go net _ _ d (λ e. view-limit r k go domain true e)
  view-step (limit net domain false) d =
      view-ran r k go net _ _ d (λ e. view-limit r k go domain false e)

  pub view-run :
      (cs : List Command) (d : Db) → view r k (run go r k cs d) ≡ replay go cs (view r k d)
  view-run [] d = refl
  view-run (c ∷ cs) d =
      view-run cs (step go r k c d) ∙ ap (λ (v : Parties). replay go cs v) (view-step c d)

  read_subscriber-view :
      (d : Db) (x : String)
      → (if key_exists d (str_append subscription_prefix x)
          then read_subscriber r k go d (str_append subscription_prefix x)
          else none)
        ≡ subscriber_at r k d x
  unfolding read_subscriber
  read_subscriber-view d x = rw (trim_prefix-append subscription_prefix x) refl

  read_follower-view :
      (d : Db) (x : String)
      → (if key_exists d (str_append follower_prefix x)
          then read_follower r k go d (str_append follower_prefix x)
          else none)
        ≡ visible go x (follower_at r k d x)
  unfolding read_follower
  read_follower-view d x = rw (trim_prefix-append follower_prefix x) (ground arith)

  load_state-Shows :
      (d : Db) (st : RelayState) → load_state r k go true d ≡ some st → Shows go st (view r k d)
  load_state-Shows d st h = (
    λ x. select_subscriber-load_state r k go d st x h ∙ read_subscriber-view d x,
    λ x. select_follower-load_state r k go d st x h ∙ read_follower-view d x,
    λ x. is_blocked-load_state r k go d st x h,
    λ x. is_limited-load_state r k go d st x h,
    unfold load_state in ground arith,
    unfold load_state in ground arith,
  )

  -- The state that is loaded after any sequence of commands, whatever becomes of each at the server,
  -- has the subscribers, valid followers, blocked and limited domains and settings that the same
  -- commands give on maps, from the maps that the server held at first.
  pub load_state-run :
      (cs : List Command) (d : Db) (st : RelayState)
      → load_state r k go true (run go r k cs d) ≡ some st
      → Shows go st (replay go cs (view r k d))
  load_state-run cs d st h =
      subst (λ v. Shows go st v) (view-run cs d) (load_state-Shows (run go r k cs d) st h)
