-- ===== src/Redis.antt =====
-- The Redis server, which is no part of the repository: the commands that the relay sends, as a
-- parameter, with what their documentation says of them. Each key is used at one type only, as in
-- the relay, so WRONGTYPE errors are left out. Time is left out too: a key that expires is a `del`
-- by the server. Number replies and fields are signed integers.
pub mod Fields
use activity_relay.Base.{
  ℕ, ◌<◌, String, Bool, true, false, ◌&&◌, Option, none, some, ◌≡◌, str_eq, if◌then◌else◌,
}
use activity_relay.Base.Int.{ℤ, pos}

pub data Value : Type 0 where
  text : String → Value
  number : ℤ → Value

pub record Redis : Type 1 where
  pub Db : Type 0
  pub get : Db → String → Option Value
  pub hget : Db → String → String → Option Value
  pub key_exists : Db → String → Bool
  pub llen : Db → String → ℕ
  pub set : Db → String → Value → Db
  pub hset : Db → String → String → Value → Db
  pub del : Db → String → Db
  pub expire : Db → String → ℕ → Db
  pub get-set :
      (d : Db) (k j : String) (v : Value)
      → get (set d k v) j ≡ (if str_eq k j then some v else get d j)
  pub get-del : (d : Db) (k j : String) → get (del d k) j ≡ (if str_eq k j then none else get d j)
  pub get-expire : (d : Db) (k j : String) (n : ℕ) → 0 < n → get (expire d k n) j ≡ get d j
  pub get-hset : (d : Db) (k j f : String) (v : Value) → get (hset d k f v) j ≡ get d j
  pub llen-set :
      (d : Db) (k j : String) (v : Value) → str_eq k j ≡ false → llen (set d k v) j ≡ llen d j
  pub llen-del : (d : Db) (k j : String) → str_eq k j ≡ false → llen (del d k) j ≡ llen d j
  pub llen-expire : (d : Db) (k j : String) (n : ℕ) → 0 < n → llen (expire d k n) j ≡ llen d j
  pub hget-hset :
      (d : Db) (k j f g : String) (v : Value)
      → hget (hset d k f v) j g ≡ (if str_eq k j && str_eq f g then some v else hget d j g)
  pub hget-del :
      (d : Db) (k j f : String) → hget (del d k) j f ≡ (if str_eq k j then none else hget d j f)
  pub hget-expire : (d : Db) (k j f : String) (n : ℕ) → 0 < n → hget (expire d k n) j f ≡ hget d j f
  pub key_exists-hset :
      (d : Db) (k j f : String) (v : Value)
      → key_exists (hset d k f v) j ≡ (if str_eq k j then true else key_exists d j)
  pub key_exists-del :
      (d : Db) (k j : String)
      → key_exists (del d k) j ≡ (if str_eq k j then false else key_exists d j)
  pub key_exists-expire :
      (d : Db) (k j : String) (n : ℕ) → 0 < n → key_exists (expire d k n) j ≡ key_exists d j

-- A value read as a number; a missing one counts as 0, and text is an error in a script.
abbrev pub to_number : Option Value → Option ℤ
to_number none = some (pos 0)
to_number (some (number n)) = some n
to_number (some (text t)) = none

-- What becomes of one call of the client: it is answered; it fails and the server did nothing; or
-- it fails after the server ran it.
pub data Outcome : Type 0 where
  answered refused unanswered : Outcome

-- `client.Eval`: a script runs as one step, and may itself fail. `none` is a Go error.
abbrev pub eval : {Db A : Type 0} → Outcome → (Db → Option A × Db) → Db → Option A × Db
eval answered script d = script d
eval refused script d = (none, d)
eval unanswered script d = (none, (script d).1)
