-- ===== src/Redis/Fields.antt =====
-- Hashes with several fields: HSET of them in one command, and the entries of HGETALL.
use activity_relay.Base.{
  ℕ, ◌<◌, String, true, ◌≡◌, refl, ◌∙◌, Option, some, List, [], ◌∷◌, str_eq, eq_refl, if◌then◌else◌,
}
use activity_relay.Redis.{Redis, Value, text}

-- A missing entry reads as "".
unfoldable pub text_of : Option Value → String
text_of (some (text value)) = value
text_of other = ""

-- The value of a field after a list of fields was written over the old one.
abbrev pub written : List (String × Value) → String → Option Value → Option Value
written [] field old = old
written ((f, v) ∷ rest) field old = written rest field (if str_eq f field then some v else old)

module _ (r : Redis) where
  open r use {
    Db, hget, key_exists, hset, expire, hget-hset, hget-expire, key_exists-hset, key_exists-expire,
  }

  -- HSET of several fields
  unfoldable pub hset_all : String → List (String × Value) → Db → Db
  hset_all key [] d = d
  hset_all key ((field, value) ∷ rest) d = hset_all key rest (hset d key field value)

  -- An entry of the map that HGetAll gives
  abbrev pub entry : Db → String → String → String
  entry d key field = text_of (hget d key field)

  pub hget-hset_all :
      (key field : String) (fields : List (String × Value)) (d : Db)
      → hget (hset_all key fields d) key field ≡ written fields field (hget d key field)
  unfolding hset_all
  hget-hset_all key field [] d = refl
  hget-hset_all key field ((f, v) ∷ rest) d =
      hget-hset_all key field rest (hset d key f v)
      ∙ rw (hget-hset d key key f field v, eq_refl key) refl

  pub key_exists-hset_all :
      (key : String) (fields : List (String × Value)) (d : Db)
      → key_exists d key ≡ true
      → key_exists (hset_all key fields d) key ≡ true
  unfolding hset_all
  key_exists-hset_all key [] d h = h
  key_exists-hset_all key ((f, v) ∷ rest) d h =
      key_exists-hset_all key rest (hset d key f v)
        (rw (key_exists-hset d key key f v, eq_refl key) refl)

  pub key_exists-hset_some :
      (key f : String) (v : Value) (rest : List (String × Value)) (d : Db)
      → key_exists (hset_all key ((f, v) ∷ rest) d) key ≡ true
  unfolding hset_all
  key_exists-hset_some key f v rest d =
      key_exists-hset_all key rest (hset d key f v)
        (rw (key_exists-hset d key key f v, eq_refl key) refl)

  pub entry-written :
      (key field value : String) (fields : List (String × Value)) (n : ℕ) (d : Db)
      → 0 < n
      → written fields field (hget d key field) ≡ some (text value)
      → entry (expire (hset_all key fields d) key n) key field ≡ value
  unfolding text_of
  entry-written key field value fields n d some_time h =
      rw
        (
          hget-expire (hset_all key fields d) key key field n some_time,
          hget-hset_all key field fields d,
          h,
        )
        refl
