-- ===== src/State/Views.antt =====
-- The maps of parties and policy (models/state.go) that a state of the server is, and what of them a
-- change at one place of the server leaves.
use activity_relay.Base.{
  String, false, ◌≡◌, refl, ap, sym, Option, none, some, str_eq, eq_iff, is_some, if◌then◌else◌,
  Bool-cases, inl, inr,
}
use activity_relay.Redis.{Redis}
use activity_relay.Redis.Fields.{text_of, entry}
use activity_relay.State.{Subscriber}
use activity_relay.State.Loading.{Keys}
use activity_relay.State.Places.{
  Place, party, table, subscription, follower, pending, config, limited, blocked, key_of, same,
  ChangesOnly,
}
use activity_relay.State.Replay.{Row, Parties, put}

module _ (r : Redis) (k : Keys r) where
  open r use {Db, hget, key_exists, hset, del, hget-hset, hget-del, key_exists-hset, key_exists-del}

  abbrev pub subscriber_at : Db → String → Option Subscriber
  subscriber_at d x =
      let key = key_of (party subscription x) in
      if key_exists d key
      then some (record {
        domain = x;
        inbox_url = entry r d key "inbox_url";
        activity_id = entry r d key "activity_id";
        actor_id = entry r d key "actor_id";
      })
      else none

  abbrev pub follower_at : Db → String → Option Row
  follower_at d x =
      let key = key_of (party follower x) in
      if key_exists d key
      then some (record {
        inbox_url = hget d key "inbox_url";
        activity_id = hget d key "activity_id";
        actor_id = hget d key "actor_id";
        mutually_follow = hget d key "mutually_follow";
      })
      else none

  -- The maps that a state of the server is
  abbrev pub view : Db → Parties
  view d = record {
    person_only = str_eq (entry r d (key_of (table config)) "block_service") "1";
    manually_accept = str_eq (entry r d (key_of (table config)) "manually_accept") "1";
    limited = λ x. is_some (hget d (key_of (table limited)) x);
    blocked = λ x. is_some (hget d (key_of (table blocked)) x);
    subscriber = subscriber_at d;
    follower = follower_at d;
  }

  pub parties_path :
      (v w : Parties)
      → v.person_only ≡ w.person_only
      → v.manually_accept ≡ w.manually_accept
      → ((x : String) → v.limited x ≡ w.limited x)
      → ((x : String) → v.blocked x ≡ w.blocked x)
      → ((x : String) → v.subscriber x ≡ w.subscriber x)
      → ((x : String) → v.follower x ≡ w.follower x)
      → v ≡ w
  parties_path v w p m l b s f = λ i. record {
    person_only = p i;
    manually_accept = m i;
    limited = λ x. l x i;
    blocked = λ x. b x i;
    subscriber = λ x. s x i;
    follower = λ x. f x i;
  }

  module _ (d d' : Db) where
    entry-kept :
        (a b : Place) (f : String)
        → ChangesOnly r k a d d'
        → same a b ≡ false
        → entry r d' (key_of b) f ≡ entry r d (key_of b) f
    entry-kept a b f only other = ap text_of ((only b other).0 f)

    subscriber_at-kept :
        (a : Place) (x : String)
        → ChangesOnly r k a d d'
        → same a (party subscription x) ≡ false
        → subscriber_at d' x ≡ subscriber_at d x
    subscriber_at-kept a x only other =
        rw
          (
            (only (party subscription x) other).1,
            (only (party subscription x) other).0 "inbox_url",
            (only (party subscription x) other).0 "activity_id",
            (only (party subscription x) other).0 "actor_id",
          )
          refl

    follower_at-kept :
        (a : Place) (x : String)
        → ChangesOnly r k a d d'
        → same a (party follower x) ≡ false
        → follower_at d' x ≡ follower_at d x
    follower_at-kept a x only other =
        rw
          (
            (only (party follower x) other).1,
            (only (party follower x) other).0 "inbox_url",
            (only (party follower x) other).0 "activity_id",
            (only (party follower x) other).0 "actor_id",
            (only (party follower x) other).0 "mutually_follow",
          )
          refl

    pub view-subscription :
        (x : String)
        → ChangesOnly r k (party subscription x) d d'
        → view d' ≡ record (view d) { subscriber = put x (subscriber_at d' x) (subscriber_at d) }
    view-subscription x only =
        parties_path (view d') _
          (ap (λ t. str_eq t "1") (entry-kept (party subscription x) (table config) _ only refl))
          (ap (λ t. str_eq t "1") (entry-kept (party subscription x) (table config) _ only refl))
          (λ y. ap is_some ((only (table limited) refl).0 y))
          (λ y. ap is_some ((only (table blocked) refl).0 y))
          (λ y. elim (Bool-cases (str_eq x y)) [
            | inl here ↦ rw (here) (ap (subscriber_at d') (sym ((eq_iff x y).0 here)))
            | inr other ↦ rw (other) (subscriber_at-kept (party subscription x) y only other)
          ])
          (λ y. follower_at-kept (party subscription x) y only refl)

    pub view-follower :
        (x : String)
        → ChangesOnly r k (party follower x) d d'
        → view d' ≡ record (view d) { follower = put x (follower_at d' x) (follower_at d) }
    view-follower x only =
        parties_path (view d') _
          (ap (λ t. str_eq t "1") (entry-kept (party follower x) (table config) _ only refl))
          (ap (λ t. str_eq t "1") (entry-kept (party follower x) (table config) _ only refl))
          (λ y. ap is_some ((only (table limited) refl).0 y))
          (λ y. ap is_some ((only (table blocked) refl).0 y))
          (λ y. subscriber_at-kept (party follower x) y only refl)
          (λ y. elim (Bool-cases (str_eq x y)) [
            | inl here ↦ rw (here) (ap (follower_at d') (sym ((eq_iff x y).0 here)))
            | inr other ↦ rw (other) (follower_at-kept (party follower x) y only other)
          ])

    pub view-pending : (x : String) → ChangesOnly r k (party pending x) d d' → view d' ≡ view d
    view-pending x only =
        parties_path (view d') _
          (ap (λ t. str_eq t "1") (entry-kept (party pending x) (table config) _ only refl))
          (ap (λ t. str_eq t "1") (entry-kept (party pending x) (table config) _ only refl))
          (λ y. ap is_some ((only (table limited) refl).0 y))
          (λ y. ap is_some ((only (table blocked) refl).0 y))
          (λ y. subscriber_at-kept (party pending x) y only refl)
          (λ y. follower_at-kept (party pending x) y only refl)

    pub view-config :
        ChangesOnly r k (table config) d d'
        → view d' ≡ record (view d) {
          person_only = (view d').person_only;
          manually_accept = (view d').manually_accept;
        }
    view-config only =
        parties_path (view d') _ refl refl (λ y. ap is_some ((only (table limited) refl).0 y))
          (λ y. ap is_some ((only (table blocked) refl).0 y))
          (λ y. subscriber_at-kept (table config) y only refl)
          (λ y. follower_at-kept (table config) y only refl)

    pub view-limited :
        ChangesOnly r k (table limited) d d'
        → view d' ≡ record (view d) { limited = (view d').limited }
    view-limited only =
        parties_path (view d') _
          (ap (λ t. str_eq t "1") (entry-kept (table limited) (table config) _ only refl))
          (ap (λ t. str_eq t "1") (entry-kept (table limited) (table config) _ only refl))
          (λ y. refl) (λ y. ap is_some ((only (table blocked) refl).0 y))
          (λ y. subscriber_at-kept (table limited) y only refl)
          (λ y. follower_at-kept (table limited) y only refl)

    pub view-blocked :
        ChangesOnly r k (table blocked) d d'
        → view d' ≡ record (view d) { blocked = (view d').blocked }
    view-blocked only =
        parties_path (view d') _
          (ap (λ t. str_eq t "1") (entry-kept (table blocked) (table config) _ only refl))
          (ap (λ t. str_eq t "1") (entry-kept (table blocked) (table config) _ only refl))
          (λ y. ap is_some ((only (table limited) refl).0 y)) (λ y. refl)
          (λ y. subscriber_at-kept (table blocked) y only refl)
          (λ y. follower_at-kept (table blocked) y only refl)
