-- ===== src/Queue.antt =====
-- The admission of work to the relay's queue (api/resolver.go): `reserveQueueCapacityWithReason`
-- and `releaseQueueCapacity` with their scripts.
pub mod Reservation
pub mod Capacity
use activity_relay.Base.{
  ℕ, ◌<◌, String, Bool, true, false, Option, none, some, ltb, ◌==◌, if◌then◌else◌,
}
use activity_relay.Base.Int.{ℤ, pos, ◌+ℤ◌, ◌-ℤ◌, lebℤ}
use activity_relay.Redis.{Redis, Outcome, Value, number, to_number, eval}

abbrev pub queue_key : String
queue_key = "relay"

abbrev pub queue_reservation_key : String
queue_reservation_key = "relay:queue:reservations"

pub data AdmissionReason : Type 0 where
  accepted redis_failed capacity : AdmissionReason

module _ (r : Redis) where
  open r use {Db, get, llen, set, del, expire}

  -- `tonumber(...)` of the counter; on text the comparison below is a script error.
  unfoldable pub reserve_script : ℕ → ℕ → Db → Option Bool × Db
  reserve_script additional maximum d = elim (to_number (get d queue_reservation_key)) [
    | none ↦ (none, d)
    | some reserved ↦
        (if lebℤ (pos (llen d queue_key) +ℤ reserved +ℤ pos additional) (pos maximum)
          then (
            some true,
            expire (set d queue_reservation_key (number (reserved +ℤ pos additional)))
                queue_reservation_key 60,
          )
          else (some false, d))
  ]

  abbrev pub reason_of : Option Bool → AdmissionReason
  reason_of none = redis_failed
  reason_of (some true) = accepted
  reason_of (some false) = capacity

  -- reserveQueueCapacityWithReason; the first result is `accepted`.
  unfoldable pub reserve_queue_capacity : Outcome → ℕ → ℕ → Db → AdmissionReason × Db
  unfolding reserve_script
  reserve_queue_capacity net maximum additional d = if ltb additional 1 then (accepted, d) else (
    reason_of (eval net (reserve_script additional maximum) d).0,
    (eval net (reserve_script additional maximum) d).1,
  )

  -- `DECRBY` on text is an error of the server.
  unfoldable pub release_script : ℕ → Db → Option ℤ × Db
  release_script additional d = elim (to_number (get d queue_reservation_key)) [
    | none ↦ (none, d)
    | some reserved ↦
        let remaining = reserved -ℤ pos additional in
        let written = set d queue_reservation_key (number remaining) in
        (
          some remaining,
          if lebℤ remaining (pos 0) then del written queue_reservation_key else written,
        )
  ]

  -- releaseQueueCapacity; a failure is logged only.
  unfoldable pub release_queue_capacity : Outcome → ℕ → Db → Db
  unfolding release_script
  release_queue_capacity net additional d =
      if ltb additional 1 then d else (eval net (release_script additional) d).1
