-- ===== src/State/Rows.antt =====
-- What the changes of a follower's row (models/state.go) make of the maps of parties and policy.
use activity_relay.Base.{
  String, str_append, Bool, true, ◌||◌, ◌≡◌, refl, ap, ◌∙◌, Option, none, some, [], ◌∷◌, eq_refl,
  eq_iff, arith, Result, ok, err, is_ok, if◌then◌else◌, Bool-cases, inl, inr,
}
use activity_relay.Go.{Runtime}
use activity_relay.Redis.{Redis, text, Outcome, answered, refused, unanswered}
use activity_relay.Redis.Fields.{hset_all, hget-hset_all, key_exists-hset_some}
use activity_relay.State.{Follower, normalize_state_domain}
use activity_relay.State.Loading.{Keys, validate_follower, follower_prefix}
use activity_relay.State.Commands.{
  status_flag, CommandError, invalid_follower, redis_failed, failed, ran, add_follower_checked,
  follower_fields, is_blank, update_follower_script, update_follower_status_checked,
}
use activity_relay.State.Places.{party, follower, key_of, hset-ChangesOnly, hset_all-ChangesOnly}
use activity_relay.State.Replay.{follow, update, Row, Parties, put, row_of, updated_row, apply}
use activity_relay.State.Views.{follower_at, view, view-follower}
use activity_relay.State.Writes.{view-ran, view-del_follower}

put_same :
    {A : Type 0} (x : String) (f : String → A) (a : A) → a ≡ f x → (y : String) → f y ≡ put x a f y
put_same x f a h y = ground (arith, eq_iff x y)

module _ (r : Redis) (k : Keys r) (go : Runtime) where
  open r use {Db, hget, key_exists, hset, del, hget-hset, hget-del, key_exists-hset, key_exists-del}
  open k use {hdel, hget-hdel}

  follower-written :
      (f : Follower) (x : String) (d : Db)
      → follower_at r k (hset_all r (key_of (party follower x)) (follower_fields f) d) x
        ≡ some (row_of f)
  follower-written f x d =
      let key = key_of (party follower x) in
      rw
        (
          key_exists-hset_some r key "inbox_url" (text f.inbox_url)
              (("activity_id", text f.activity_id)
                ∷ ("actor_id", text f.actor_id)
                ∷ ("mutually_follow", text (status_flag f.mutually_follow))
                ∷ [])
              d,
          hget-hset_all r key "inbox_url" (follower_fields f) d,
          hget-hset_all r key "activity_id" (follower_fields f) d,
          hget-hset_all r key "actor_id" (follower_fields f) d,
          hget-hset_all r key "mutually_follow" (follower_fields f) d,
        )
        refl

  view-write_follower :
      (f : Follower) (x : String) (d : Db)
      → view r k (hset_all r (key_of (party follower x)) (follower_fields f) d)
        ≡ record (view r k d) { follower = put x (some (row_of f)) (follower_at r k d) }
  view-write_follower f x d =
      view-follower r k d (hset_all r (key_of (party follower x)) (follower_fields f) d) x
        (hset_all-ChangesOnly r k (party follower x) (follower_fields f) d)
      ∙ ap (λ (o : Option Row). record (view r k d) { follower = put x o (follower_at r k d) })
          (follower-written f x d)

  pub view-follow :
      (net : Outcome) (f : Follower) (d : Db)
      → view r k (add_follower_checked r k go net f d).1 ≡ apply go (follow net f) (view r k d)
  unfolding add_follower_checked
  view-follow net f d =
      elim (validate_follower go f)
        as (λ v.
          view r k
            (elim v as (λ _. Result CommandError (Unit {0}) × Db) [
              | err e ↦ (err (invalid_follower e), d)
              | ok _ ↦ (
                if failed net then err redis_failed else ok tt,
                ran net
                    (hset_all r (str_append follower_prefix (normalize_state_domain go f.domain))
                      (follower_fields f))
                    d,
              )
            ]).1
          ≡ (if is_ok v
              then ran net
                  (λ (w : Parties). record w {
                    follower =
                        put (normalize_state_domain go f.domain) (some (row_of f)) w.follower;
                  })
                  (view r k d)
              else (view r k d))) [
                | err e ↦ refl
                | ok t ↦
                    view-ran r k go net _ _ d
                      (λ e. view-write_follower f (normalize_state_domain go f.domain) e)
              ]

  status-written :
      (x : String) (mutually : Bool) (d : Db)
      → key_exists d (key_of (party follower x)) ≡ true
      → follower_at r k
          (hset d (key_of (party follower x)) "mutually_follow" (text (status_flag mutually)))
          x
        ≡ some (record {
          inbox_url = hget d (key_of (party follower x)) "inbox_url";
          activity_id = hget d (key_of (party follower x)) "activity_id";
          actor_id = hget d (key_of (party follower x)) "actor_id";
          mutually_follow = some (text (status_flag mutually));
        })
  status-written x mutually d found =
      let key = key_of (party follower x) in
      let v = text (status_flag mutually) in
      rw
        (
          key_exists-hset d key key "mutually_follow" v,
          hget-hset d key key "mutually_follow" "inbox_url" v,
          hget-hset d key key "mutually_follow" "activity_id" v,
          hget-hset d key key "mutually_follow" "actor_id" v,
          hget-hset d key key "mutually_follow" "mutually_follow" v,
          eq_refl key,
        )
        refl

  view-write_status :
      (x : String) (mutually : Bool) (d : Db)
      → key_exists d (key_of (party follower x)) ≡ true
      → view r k
          (hset d (key_of (party follower x)) "mutually_follow" (text (status_flag mutually)))
        ≡ record (view r k d) {
          follower =
              put x
                (some (record {
                  inbox_url = hget d (key_of (party follower x)) "inbox_url";
                  activity_id = hget d (key_of (party follower x)) "activity_id";
                  actor_id = hget d (key_of (party follower x)) "actor_id";
                  mutually_follow = some (text (status_flag mutually));
                }))
                (follower_at r k d);
        }
  view-write_status x mutually d found =
      let key = key_of (party follower x) in
      view-follower r k d (hset d key "mutually_follow" (text (status_flag mutually))) x
        (hset-ChangesOnly r k (party follower x) "mutually_follow" (text (status_flag mutually)) d)
      ∙ ap (λ (o : Option Row). record (view r k d) { follower = put x o (follower_at r k d) })
          (status-written x mutually d found)

  view-script :
      (x : String) (mutually : Bool) (d : Db)
      → view r k (update_follower_script r k (key_of (party follower x)) (status_flag mutually) d).1
        ≡ record (view r k d) {
          follower = put x (updated_row mutually (follower_at r k d x)) (follower_at r k d);
        }
  unfolding update_follower_script
  view-script x mutually d =
      let key = key_of (party follower x) in
      elim (Bool-cases (key_exists d key)) [
        | inr absent ↦
            rw (update_follower_script, absent)
              (ap (λ (g : String → Option Row). record (view r k d) { follower = g })
                (λ i y. put_same x (follower_at r k d) none (rw (absent) refl) y i))
        | inl found ↦
            elim (Bool-cases (
              is_blank (hget d key "inbox_url")
              || is_blank (hget d key "activity_id")
              || is_blank (hget d key "actor_id")
              || is_blank (hget d key "mutually_follow"))) [
                | inl blank ↦
                    rw (update_follower_script, found, blank) (view-del_follower r k go x d)
                | inr complete ↦
                    rw (update_follower_script, found, complete)
                      (view-write_status x mutually d found)
              ]
      ]

  pub view-update :
      (net : Outcome) (domain : String) (mutually : Bool) (d : Db)
      → view r k (update_follower_status_checked r k go net domain mutually d).1
        ≡ apply go (update net domain mutually) (view r k d)
  unfolding update_follower_status_checked
  view-update answered domain mutually d =
      ground (arith, view-script (normalize_state_domain go domain) mutually d)
  view-update refused domain mutually d = ground arith
  view-update unanswered domain mutually d =
      ground (arith, view-script (normalize_state_domain go domain) mutually d)
