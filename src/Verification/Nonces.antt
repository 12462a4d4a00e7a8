-- ===== src/Verification/Nonces.antt =====
-- The store of nonces in Redis (internal/httpsignature/redis_nonce_store.go). SET with NX and PX, of
-- Redis, is a parameter with its documented laws: a key that is set is held until its time is over.
use activity_relay.Base.{
  ℕ, ◌+◌, ◌*◌, ◌/◌, ◌≤◌, String, str_append, Bool, true, ◌≡◌, Option, none, some, str_eq,
  if◌then◌else◌, trim_space, ◌==◌,
}
use activity_relay.Negotiation.Store.{millisecond}
use activity_relay.Verification.{NonceStore}

-- `held_until` is the time from which the key is free. The reply is `none` for an error; the key may
-- have been set then.
pub record Markers : Type 1 where
  pub Db : Type 0
  pub held_until : Db → String → ℕ
  pub set_nx : ℕ → String → ℕ → Db → Option Bool × Db
  pub held_until-set_nx :
      (now : ℕ) (key other : String) (ttl : ℕ) (d : Db)
      → held_until d other ≤ held_until (set_nx now key ttl d).1 other
  pub set_nx-reserved :
      (now : ℕ) (key : String) (ttl : ℕ) (d : Db)
      → (set_nx now key ttl d).0 ≡ some true
      → (held_until d key ≤ now)
        × (now + ttl / millisecond * millisecond ≤ held_until (set_nx now key ttl d).1 key)

-- NewRedisRFC9421NonceStore, at a client: the prefix.
unfoldable pub nonce_prefix : String → String
nonce_prefix prefix =
    let trimmed = trim_space prefix in
    if str_eq trimmed "" then "relay:http-signature:nonce:" else trimmed

-- nonceKey
unfoldable pub nonce_key : (String → String) → String → String → String → String
nonce_key sha256_hex prefix key_id nonce =
    str_append prefix (sha256_hex (str_append key_id (str_append "\0" nonce)))

module _ (m : Markers) where
  open m use {Db, set_nx}

  -- ReserveRFC9421Nonce; an error is `none`.
  unfoldable pub reserve_nonce :
      (String → String) → String → ℕ → String → String → ℕ → Db → Option Bool × Db
  reserve_nonce sha256_hex prefix now key_id nonce ttl d =
      let answer = set_nx now (nonce_key sha256_hex prefix key_id nonce) ttl d in
      if str_eq (trim_space key_id) ""
      then (none, d)
      else if str_eq nonce ""
      then (none, d)
      else if ttl == 0
      then (none, d)
      else answer

  abbrev pub redis_nonces : (String → String) → String → NonceStore Db
  redis_nonces sha256_hex prefix = record { reserve = reserve_nonce sha256_hex prefix }
