-- ===== src/State/Writes.antt =====
-- What each write of models/state.go makes of the maps of parties and policy.
use activity_relay.Base.{
  String, Bool, true, false, ◌≡◌, refl, ap, ◌∙◌, Option, none, some, List, [], ◌∷◌, str_eq, eq_refl,
  arith, is_some,
}
use activity_relay.Go.{Runtime}
use activity_relay.Redis.{Redis, Value, text, Outcome, answered, refused, unanswered}
use activity_relay.Redis.Fields.{hset_all, text_of, hget-hset_all, key_exists-hset_some}
use activity_relay.State.{Subscriber}
use activity_relay.State.Loading.{Keys, config_key, limited_key, blocked_key}
use activity_relay.State.Commands.{
  Setting, person_only, manually_accept, setting_field, status_flag, ran, set_config,
  add_subscriber, set_domain, set_blocked_domain, set_limited_domain,
}
use activity_relay.State.Places.{
  party, table, subscription, follower, pending, config, limited, blocked, key_of, hset-ChangesOnly,
  del-ChangesOnly, hdel-ChangesOnly, hset_all-ChangesOnly,
}
use activity_relay.State.Replay.{configure, subscribe, block, limit, Parties, put, apply}
use activity_relay.State.Views.{
  subscriber_at, follower_at, view, view-subscription, view-follower, view-pending, view-config,
  view-limited, view-blocked,
}

status_flag-read : (value : Bool) → str_eq (status_flag value) "1" ≡ value
status_flag-read true = refl
status_flag-read false = refl

abbrev rest_fields : Subscriber → List (String × Value)
rest_fields s = ("activity_id", text s.activity_id) ∷ ("actor_id", text s.actor_id) ∷ []

abbrev subscriber_fields : Subscriber → List (String × Value)
subscriber_fields s = ("inbox_url", text s.inbox_url) ∷ rest_fields s

module _ (r : Redis) (k : Keys r) (go : Runtime) where
  open r use {Db, hget, key_exists, hset, del, hget-hset, hget-del, key_exists-hset, key_exists-del}
  open k use {hdel, hget-hdel}

  pub view-ran :
      (net : Outcome) (f : Db → Db) (g : Parties → Parties) (d : Db)
      → ((e : Db) → view r k (f e) ≡ g (view r k e))
      → view r k (ran net f d) ≡ ran net g (view r k d)
  view-ran answered f g d h = h d
  view-ran refused f g d h = refl
  view-ran unanswered f g d h = h d

  pub view-del_subscription :
      (x : String) (d : Db)
      → view r k (del d (key_of (party subscription x)))
        ≡ record (view r k d) { subscriber = put x none (subscriber_at r k d) }
  view-del_subscription x d =
      let key = key_of (party subscription x) in
      view-subscription r k d (del d key) x (del-ChangesOnly r k (party subscription x) d)
      ∙ rw (key_exists-del d key key, eq_refl key) refl

  pub view-del_follower :
      (x : String) (d : Db)
      → view r k (del d (key_of (party follower x)))
        ≡ record (view r k d) { follower = put x none (follower_at r k d) }
  view-del_follower x d =
      let key = key_of (party follower x) in
      view-follower r k d (del d key) x (del-ChangesOnly r k (party follower x) d)
      ∙ rw (key_exists-del d key key, eq_refl key) refl

  pub view-del_pending :
      (x : String) (d : Db) → view r k (del d (key_of (party pending x))) ≡ view r k d
  view-del_pending x d =
      let key = key_of (party pending x) in
      view-pending r k d (del d key) x (del-ChangesOnly r k (party pending x) d)

  is_some-hset :
      (key domain x : String) (d : Db)
      → is_some (hget (hset d key domain (text "1")) key x)
        ≡ put domain true (λ y. is_some (hget d key y)) x
  is_some-hset key domain x d = ground (arith, hget-hset d key key domain x (text "1"), eq_refl key)

  is_some-hdel :
      (key domain x : String) (d : Db)
      → is_some (hget (hdel d key domain) key x) ≡ put domain false (λ y. is_some (hget d key y)) x
  is_some-hdel key domain x d = ground (arith, hget-hdel d key key domain x, eq_refl key)

  pub view-block :
      (domain : String) (value : Bool) (d : Db)
      → view r k (set_blocked_domain r k answered domain value d)
        ≡ apply go (block answered domain value) (view r k d)
  unfolding set_blocked_domain set_domain
  view-block domain true d =
      view-blocked r k d (hset d blocked_key domain (text "1"))
        (hset-ChangesOnly r k (table blocked) domain (text "1") d)
      ∙ ap (λ (b : String → Bool). record (view r k d) { blocked = b })
          (λ i x. is_some-hset blocked_key domain x d i)
  view-block domain false d =
      view-blocked r k d (hdel d blocked_key domain) (hdel-ChangesOnly r k (table blocked) domain d)
      ∙ ap (λ (b : String → Bool). record (view r k d) { blocked = b })
          (λ i x. is_some-hdel blocked_key domain x d i)

  pub view-limit :
      (domain : String) (value : Bool) (d : Db)
      → view r k (set_limited_domain r k answered domain value d)
        ≡ apply go (limit answered domain value) (view r k d)
  unfolding set_limited_domain set_domain
  view-limit domain true d =
      view-limited r k d (hset d limited_key domain (text "1"))
        (hset-ChangesOnly r k (table limited) domain (text "1") d)
      ∙ ap (λ (b : String → Bool). record (view r k d) { limited = b })
          (λ i x. is_some-hset limited_key domain x d i)
  view-limit domain false d =
      view-limited r k d (hdel d limited_key domain) (hdel-ChangesOnly r k (table limited) domain d)
      ∙ ap (λ (b : String → Bool). record (view r k d) { limited = b })
          (λ i x. is_some-hdel limited_key domain x d i)

  subscriber-written :
      (s : Subscriber) (d : Db)
      → subscriber_at r k
          (hset_all r (key_of (party subscription s.domain)) (subscriber_fields s) d)
          s.domain
        ≡ some s
  unfolding text_of
  subscriber-written s d =
      let key = key_of (party subscription s.domain) in
      rw
        (
          key_exists-hset_some r key "inbox_url" (text s.inbox_url) (rest_fields s) d,
          hget-hset_all r key "inbox_url" (subscriber_fields s) d,
          hget-hset_all r key "activity_id" (subscriber_fields s) d,
          hget-hset_all r key "actor_id" (subscriber_fields s) d,
        )
        refl

  set-flag :
      (setting : Setting) (value : Bool) (d : Db)
      → record (view r k d) {
        person_only =
            (view r k
              (hset d config_key (setting_field setting) (text (status_flag value)))).person_only;
        manually_accept =
            (view r k (
              hset d config_key
                (setting_field setting)
                (text (status_flag value)))).manually_accept;
      }
        ≡ apply go (configure answered setting value) (view r k d)
  unfolding text_of
  set-flag person_only value d =
      rw
        (
          hget-hset d config_key config_key "block_service" "block_service"
              (text (status_flag value)),
          hget-hset d config_key config_key "block_service" "manually_accept"
              (text (status_flag value)),
          status_flag-read value,
        )
        refl
  set-flag manually_accept value d =
      rw
        (
          hget-hset d config_key config_key "manually_accept" "block_service"
              (text (status_flag value)),
          hget-hset d config_key config_key "manually_accept" "manually_accept"
              (text (status_flag value)),
          status_flag-read value,
        )
        refl

  pub view-configure :
      (setting : Setting) (value : Bool) (d : Db)
      → view r k (set_config r k answered setting value d)
        ≡ apply go (configure answered setting value) (view r k d)
  unfolding set_config
  view-configure setting value d =
      let d' = hset d config_key (setting_field setting) (text (status_flag value)) in
      view-config r k d d'
        (hset-ChangesOnly r k (table config) (setting_field setting) (text (status_flag value)) d)
      ∙ (set-flag setting value d)

  pub view-subscribe :
      (s : Subscriber) (d : Db)
      → view r k (add_subscriber r k answered s d) ≡ apply go (subscribe answered s) (view r k d)
  unfolding add_subscriber
  view-subscribe s d =
      let key = key_of (party subscription s.domain) in
      let d' = hset_all r key (subscriber_fields s) d in
      view-subscription r k d d' s.domain
        (hset_all-ChangesOnly r k (party subscription s.domain) (subscriber_fields s) d)
      ∙ ap
          (λ (o : Option Subscriber). record (view r k d) {
            subscriber = put s.domain o (subscriber_at r k d);
          })
          (subscriber-written s d)
