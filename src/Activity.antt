-- ===== src/Activity.antt =====
-- The shared payload of a fan-out: `storeRelayActivity` of api/resolver.go writes it with the number
-- of its targets, and `finishRelayTarget` of deliver/deliver.go takes one target off.
pub mod Lifetime
use activity_relay.Base.{
  ℕ, ◌*◌, String, str_append, Bool, true, false, Option, none, some, ◌==◌, if◌then◌else◌,
}
use activity_relay.Base.Int.{ℤ, pos, negsuc, ◌-ℤ◌, lebℤ}
use activity_relay.Redis.{Redis, Outcome, Value, text, number, to_number, eval}

-- internal/deliverypolicy/policy.go
abbrev pub activity_retention_seconds : ℕ
activity_retention_seconds = 15 * 60

abbrev pub activity_key : String → String
activity_key id = str_append "relay:activity:" id

module _ (r : Redis) where
  open r use {Db, hget, key_exists, hset, del, expire}

  -- storeRelayActivityScript
  unfoldable pub store_script : String → String → ℕ → Db → Option ℕ × Db
  store_script key body target_count d = (
    some 1,
    expire (hset (hset d key "body" (text body)) key "remain_count" (number (pos target_count))) key
        activity_retention_seconds,
  )

  -- storeRelayActivity; `false` is an error.
  unfoldable pub store_relay_activity : Outcome → String → String → ℕ → Db → Bool × Db
  unfolding store_script
  store_relay_activity net id body target_count d =
      let (stored, d') = eval net (store_script (activity_key id) body target_count) d in
      (elim stored [ some n ↦ n == 1 | none ↦ false ], d')

  -- finishScript. `HINCRBY` on text is an error of the server.
  unfoldable pub finish_script : String → Db → Option ℤ × Db
  finish_script key d =
      if key_exists d key
      then elim (to_number (hget d key "remain_count")) [
        | none ↦ (none, d)
        | some count ↦
            let remaining = count -ℤ pos 1 in
            let written = hset d key "remain_count" (number remaining) in
            (some remaining, if lebℤ remaining (pos 0) then del written key else written)
      ]
      else (some (negsuc 0), d)

  -- finishRelayTarget; `none` is an error.
  unfoldable pub finish_relay_target : Outcome → String → Db → Option ℤ × Db
  unfolding finish_script
  finish_relay_target net id d = eval net (finish_script (activity_key id)) d
