-- ===== src/Canonical.antt =====
-- The guard against relaying one canonical activity twice (api/relay_loop_guard.go). The SHA-256 in
-- hexadecimal and the UUID of a reservation are parameters.
pub mod Exclusion
use activity_relay.Base.{
  String, str_append, Bool, true, false, ◌&&◌, ◌||◌, Option, none, some, Result, ok, err, is_some,
  str_eq, if◌then◌else◌, trim_space,
}
use activity_relay.Base.Int.{ℤ, pos}
use activity_relay.Redis.{Redis, Outcome, Value, text, number, eval}

pub record Reservation : Type 0 where
  pub key : String
  pub token : String

pub data ReserveError : Type 0 where
  empty_id redis_failed : ReserveError

-- canonicalRelayKey; `sha256_hex` is the digest in hexadecimal.
unfoldable pub canonical_relay_key : (String → String) → String → String
canonical_relay_key sha256_hex canonical_id =
    str_append "relay:canonical:" (sha256_hex (trim_space canonical_id))

module _ (r : Redis) where
  open r use {Db, get, set, del}

  -- SET key token NX EX
  unfoldable pub set_nx : String → String → Db → Option Bool × Db
  set_nx key token d =
      if is_some (get d key) then (some false, d) else (some true, set d key (text token))

  unfoldable pub reserve_key :
      Outcome → Reservation → Db → Result ReserveError (Reservation × Bool) × Db
  unfolding set_nx
  reserve_key net reservation d = (
    elim (eval net (set_nx reservation.key reservation.token) d).0 [
      | none ↦ err redis_failed
      | some taken ↦ ok (reservation, taken)
    ],
    (eval net (set_nx reservation.key reservation.token) d).1,
  )

  -- reserveCanonicalRelayActivity; the Boolean is `accepted`.
  unfoldable pub reserve_canonical :
      (String → String)
      → Outcome
      → String
      → String
      → Db
      → Result ReserveError (Reservation × Bool) × Db
  unfolding reserve_key
  reserve_canonical sha256_hex net uuid canonical_id d =
      if str_eq (trim_space canonical_id) ""
      then (err empty_id, d)
      else reserve_key net
          (record { key = canonical_relay_key sha256_hex (trim_space canonical_id); token = uuid })
          d

  -- releaseCanonicalRelayScript
  unfoldable pub release_script : Reservation → Db → Option ℤ × Db
  release_script reservation d = elim (get d reservation.key) [
    | some (text owner) ↦
        (if str_eq owner reservation.token
          then (some (pos 1), del d reservation.key)
          else (some (pos 0), d))
    | _ ↦ (some (pos 0), d)
  ]

  -- releaseCanonicalRelayActivity; a failure is logged only.
  unfoldable pub release_canonical : Outcome → Reservation → Db → Db
  unfolding release_script
  release_canonical net reservation d =
      if str_eq reservation.key "" || str_eq reservation.token ""
      then d
      else (eval net (release_script reservation) d).1
