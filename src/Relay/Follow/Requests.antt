-- ===== src/Relay/Follow/Requests.antt =====
-- What a follow request may do, and when its handler does not dereference nil.
use activity_relay.Base.{String, true, false, ◌≡◌, ◌≢◌, some, All, arith}
use activity_relay.Go.{Url, Runtime}
use activity_relay.State.{is_blocked, is_limited}
use activity_relay.Relay.{
  Actor, Activity, object_is, is_actor_able_to_be_follower, accept, follow, Effect, save_pending,
  add_subscriber, add_follower, register, panicked, Surroundings, actor_domain,
}
use activity_relay.Relay.Follow.{public_address, execute_following}

module _ (go : Runtime) (w : Surroundings) (activity : Activity) (actor : Actor) where
  -- The actor may follow at all: its domain is not blocked.
  abbrev NotBlocked : Type 0
  NotBlocked = is_blocked w.state (actor_domain go actor.id) ≡ false

  -- What each effect of a follow request shows.
  abbrev pub FollowLawfully : Effect → Type 0
  FollowLawfully (add_subscriber s) =
      NotBlocked
      × (w.state.manually_accept ≡ false)
      × (object_is activity.object public_address ≡ true)
      × (s.actor_id ≡ actor.id)
      × (actor.endpoints ≡ some s.inbox_url)
  FollowLawfully (add_follower f) =
      NotBlocked
      × (w.state.manually_accept ≡ false)
      × (object_is activity.object w.relay_id ≡ true)
      × (is_actor_able_to_be_follower go actor ≡ true)
      × (f.actor_id ≡ actor.id)
      × (f.inbox_url ≡ actor.inbox)
      × (w.follower_stored f ≡ true)
  FollowLawfully (save_pending domain) = NotBlocked × (w.state.manually_accept ≡ true)
  FollowLawfully (register inbox accept) = NotBlocked × (w.state.manually_accept ≡ false)
  FollowLawfully (register inbox follow) = is_limited w.state (actor_domain go actor.id) ≡ false
  FollowLawfully _ = ⊥

  -- A follow request registers a subscriber or a follower, or sends an Accept, only for an actor
  -- whose domain is not blocked and without manual approval, and leaves a pending request only under
  -- it; a subscriber followed Public and is served at its shared inbox, a follower followed the
  -- relay, may be one and was stored; only an actor that is not limited is followed back.
  pub following_lawful : All FollowLawfully (execute_following go w activity actor).1
  unfolding execute_following
  following_lawful = ground arith

  -- An actor whose ID parses and that has endpoints is never the cause of a nil dereference.
  pub following_returns :
      (u : Url) (shared_inbox : String)
      → go.parse_url actor.id ≡ some u
      → actor.endpoints ≡ some shared_inbox
      → (execute_following go w activity actor).0 ≢ panicked
  unfolding execute_following
  following_returns u shared_inbox parsed given = ground arith
