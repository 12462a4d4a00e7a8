-- ===== src/State/Places.antt =====
-- The keys of the relay's state in Redis, which never meet, and what a write to one of them leaves.
use activity_relay.Base.{
  String, str_append, Bool, true, false, ◌&&◌, ◌≡◌, refl, ◌∙◌, List, [], ◌∷◌, str_eq, arith, clash,
  str_eq-append, str_eq-clash,
}
use activity_relay.Redis.{Redis, Value}
use activity_relay.Redis.Fields.{hset_all}
use activity_relay.State.Loading.{Keys}

pub data Party : Type 0 where
  subscription follower pending : Party

pub data Table : Type 0 where
  config limited blocked : Table

pub data Place : Type 0 where
  party : Party → String → Place
  table : Table → Place

abbrev pub head : Party → String
head subscription = "relay:subscription:"
head follower = "relay:follower:"
head pending = "relay:pending:"

abbrev pub tail : Table → String
tail config = ""
tail limited = ":limitedDomain"
tail blocked = ":blockedDomain"

abbrev pub key_of : Place → String
key_of (party p x) = str_append (head p) x
key_of (table t) = str_append "relay:config" (tail t)

abbrev same_party : Party → Party → Bool
same_party subscription subscription = true
same_party follower follower = true
same_party pending pending = true
same_party _ _ = false

abbrev same_table : Table → Table → Bool
same_table config config = true
same_table limited limited = true
same_table blocked blocked = true
same_table _ _ = false

abbrev pub same : Place → Place → Bool
same (party p x) (party q y) = same_party p q && str_eq x y
same (table t) (table u) = same_table t u
same _ _ = false

str_eq-party :
    (p q : Party) (x y : String)
    → str_eq (str_append (head p) x) (str_append (head q) y) ≡ (same_party p q && str_eq x y)
str_eq-party subscription subscription x y = str_eq-append "relay:subscription:" x y
str_eq-party subscription follower x y =
    str_eq-clash "relay:subscription:" "relay:follower:" x y refl
str_eq-party subscription pending x y = str_eq-clash "relay:subscription:" "relay:pending:" x y refl
str_eq-party follower subscription x y =
    str_eq-clash "relay:follower:" "relay:subscription:" x y refl
str_eq-party follower follower x y = str_eq-append "relay:follower:" x y
str_eq-party follower pending x y = str_eq-clash "relay:follower:" "relay:pending:" x y refl
str_eq-party pending subscription x y = str_eq-clash "relay:pending:" "relay:subscription:" x y refl
str_eq-party pending follower x y = str_eq-clash "relay:pending:" "relay:follower:" x y refl
str_eq-party pending pending x y = str_eq-append "relay:pending:" x y

clash-head :
    (p : Party) → (clash (head p) "relay:config" ≡ true) × (clash "relay:config" (head p) ≡ true)
clash-head subscription = (refl, refl)
clash-head follower = (refl, refl)
clash-head pending = (refl, refl)

str_eq-tail : (t u : Table) → str_eq (tail t) (tail u) ≡ same_table t u
str_eq-tail config config = refl
str_eq-tail config limited = refl
str_eq-tail config blocked = refl
str_eq-tail limited config = refl
str_eq-tail limited limited = refl
str_eq-tail limited blocked = refl
str_eq-tail blocked config = refl
str_eq-tail blocked limited = refl
str_eq-tail blocked blocked = refl

pub str_eq-key_of : (a b : Place) → str_eq (key_of a) (key_of b) ≡ same a b
str_eq-key_of (party p x) (party q y) = str_eq-party p q x y
str_eq-key_of (party p x) (table u) =
    str_eq-clash (head p) "relay:config" x (tail u) (clash-head p).0
str_eq-key_of (table t) (party q y) =
    str_eq-clash "relay:config" (head q) (tail t) y (clash-head q).1
str_eq-key_of (table t) (table u) = str_eq-append "relay:config" (tail t) (tail u) ∙ str_eq-tail t u

module _ (r : Redis) (k : Keys r) where
  open r use {Db, hget, key_exists, hset, del, hget-hset, hget-del, key_exists-hset, key_exists-del}
  open k use {hdel, hget-hdel, key_exists-hdel}

  -- The write changes what is at one place only.
  abbrev pub ChangesOnly : Place → Db → Db → Type 0
  ChangesOnly a d d' =
      (b : Place)
      → same a b ≡ false
      → ((f : String) → hget d' (key_of b) f ≡ hget d (key_of b) f)
        × (key_exists d' (key_of b) ≡ key_exists d (key_of b))

  pub ChangesOnly-refl : (a : Place) (d : Db) → ChangesOnly a d d
  ChangesOnly-refl a d b h = (λ f. refl, refl)

  pub hset-ChangesOnly :
      (a : Place) (f : String) (v : Value) (d : Db) → ChangesOnly a d (hset d (key_of a) f v)
  hset-ChangesOnly a f v d b h = (
    λ g. ground (arith, hget-hset d (key_of a) (key_of b) f g v, str_eq-key_of a b),
    ground (arith, key_exists-hset d (key_of a) (key_of b) f v, str_eq-key_of a b),
  )

  pub del-ChangesOnly : (a : Place) (d : Db) → ChangesOnly a d (del d (key_of a))
  del-ChangesOnly a d b h = (
    λ g. ground (arith, hget-del d (key_of a) (key_of b) g, str_eq-key_of a b),
    ground (arith, key_exists-del d (key_of a) (key_of b), str_eq-key_of a b),
  )

  pub hdel-ChangesOnly : (a : Place) (f : String) (d : Db) → ChangesOnly a d (hdel d (key_of a) f)
  hdel-ChangesOnly a f d b h = (
    λ g. ground (arith, hget-hdel d (key_of a) (key_of b) f g, str_eq-key_of a b),
    ground (arith, key_exists-hdel d (key_of a) (key_of b) f, str_eq-key_of a b),
  )

  pub hset_all-ChangesOnly :
      (a : Place) (fields : List (String × Value)) (d : Db)
      → ChangesOnly a d (hset_all r (key_of a) fields d)
  unfolding hset_all
  hset_all-ChangesOnly a [] d b h = (λ f. refl, refl)
  hset_all-ChangesOnly a ((f, v) ∷ rest) d b h =
      let (later, there) = hset_all-ChangesOnly a rest (hset d (key_of a) f v) b h in
      let (here, exists) = hset-ChangesOnly a f v d b h in (λ g. later g ∙ here g, there ∙ exists)
