-- ===== src/Activity/Lifetime.antt =====
-- How long the payload of a fan-out stays readable.
use activity_relay.Base.{
  ℕ, zero, suc, ◌-◌, ◌<◌, String, true, false, ◌≡◌, ◌∙◌, none, some, List, [], ◌∷◌, ltb, arith,
  str_eq, eq_iff, eq_refl, if◌then◌else◌, Bool-cases, inl, inr,
}
use activity_relay.Base.Int.{pos, ◌-ℤ◌}
use activity_relay.Redis.{Redis, answered, text, number}
use activity_relay.Activity.{activity_key, store_relay_activity, finish_relay_target}

-- How often a target of the activity `id` occurs.
unfoldable pub targets_of : String → List String → ℕ
targets_of id [] = 0
targets_of id (x ∷ xs) =
    let rest = targets_of id xs in
    if str_eq (activity_key x) (activity_key id) then suc rest else rest

module _ (r : Redis) where
  open r use {
    Db, hget, key_exists, hset, del, expire, hget-hset, hget-del, hget-expire, key_exists-hset,
    key_exists-del, key_exists-expire,
  }

  -- Workers finish targets of any activities, one after another.
  unfoldable pub finish_all : List String → Db → Db
  finish_all [] d = d
  finish_all (id ∷ ids) d = finish_all ids (finish_relay_target r answered id d).1

  -- What the database holds of an activity with so many targets left.
  abbrev pub Holds : String → String → ℕ → Db → Type 0
  Holds id body zero d =
      (key_exists d (activity_key id) ≡ false) × (hget d (activity_key id) "body" ≡ none)
  Holds id body (suc left) d =
      (key_exists d (activity_key id) ≡ true)
      × (hget d (activity_key id) "remain_count" ≡ some (number (pos (suc left))))
      × (hget d (activity_key id) "body" ≡ some (text body))

  Holds-store :
      (id body : String) (n : ℕ) (d : Db)
      → Holds id body (suc n) (store_relay_activity r answered id body (suc n) d).1
  unfolding store_relay_activity
  Holds-store id body n d =
      grind (arith, hget-hset, hget-expire, key_exists-hset, key_exists-expire, eq_refl)

  Holds-finish_self :
      (id other body : String) (n : ℕ) (d : Db)
      → activity_key other ≡ activity_key id
      → Holds id body n d
      → Holds id body (n - 1) (finish_relay_target r answered other d).1
  unfolding finish_relay_target ◌-ℤ◌
  Holds-finish_self id other body zero d same held = rw same (ground arith)
  Holds-finish_self id other body (suc zero) d same held =
      rw same (grind (arith, hget-hset, hget-del, key_exists-hset, key_exists-del, eq_refl))
  Holds-finish_self id other body (suc (suc n)) d same held =
      rw same (grind (arith, hget-hset, hget-del, key_exists-hset, key_exists-del, eq_refl))

  Holds-finish_other :
      (id other body : String) (n : ℕ) (d : Db)
      → str_eq (activity_key other) (activity_key id) ≡ false
      → Holds id body n d
      → Holds id body n (finish_relay_target r answered other d).1
  unfolding finish_relay_target
  Holds-finish_other id other body zero d differ held =
      grind (arith, hget-hset, hget-del, key_exists-hset, key_exists-del)
  Holds-finish_other id other body (suc n) d differ held =
      grind (arith, hget-hset, hget-del, key_exists-hset, key_exists-del)

  Holds-finish_all :
      (id body : String) (n : ℕ) (ids : List String) (d : Db)
      → Holds id body n d
      → Holds id body (n - targets_of id ids) (finish_all ids d)
  unfolding finish_all targets_of
  Holds-finish_all id body n [] d held = let same : n - 0 ≡ n = omega arith in rw same held
  Holds-finish_all id body n (x ∷ xs) d held =
      elim (Bool-cases (str_eq (activity_key x) (activity_key id))) [
        | inl same ↦
            let key = (eq_iff (activity_key x) (activity_key id)).0 same in
            let fewer : n - suc (targets_of id xs) ≡ n - 1 - targets_of id xs = omega arith in
            rw (same, fewer)
              (Holds-finish_all id body (n - 1) xs (finish_relay_target r answered x d).1
                (Holds-finish_self id x body n d key held))
        | inr differ ↦ rw differ (
            Holds-finish_all id body n xs (finish_relay_target r answered x d).1
              (Holds-finish_other id x body n d differ held))
      ]

  Holds-body :
      (id body : String) (left : ℕ) (d : Db)
      → Holds id body left d
      → hget d (activity_key id) "body" ≡ (if ltb 0 left then some (text body) else none)
  Holds-body id body zero d held = held.1
  Holds-body id body (suc left) d held = ground arith

  -- If Redis answers every call, the payload of a fan-out to `n` targets, at least one, is readable
  -- until `n` of its targets are finished, in whatever order the targets of other activities finish
  -- in between, and is gone from then on.
  pub body-finish_all :
      (id body : String) (n : ℕ) (ids : List String) (d : Db)
      → 0 < n
      → hget
          (finish_all ids (store_relay_activity r answered id body n d).1)
          (activity_key id)
          "body"
        ≡ (if ltb (targets_of id ids) n then some (text body) else none)
  body-finish_all id body zero ids d some_targets = absurd (omega arith)
  body-finish_all id body (suc n) ids d some_targets =
      Holds-body id body (suc n - targets_of id ids) _
        (Holds-finish_all id body (suc n) ids _ (Holds-store id body n d))
      ∙ ground arith
