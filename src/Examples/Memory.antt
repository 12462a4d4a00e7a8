-- ===== src/Examples/Memory.antt =====
-- A Redis server in memory: every law of `Redis` holds of it.
use activity_relay.Base.{
  ℕ, ◌<◌, String, Bool, true, false, ◌&&◌, Option, none, some, ◌≡◌, refl, str_eq, arith, ltb,
  if◌then◌else◌,
}
use activity_relay.Redis.{Redis, Value}

pub record Keyspace : Type 0 where
  pub strings : String → Option Value
  pub hashes : String → String → Option Value
  pub present : String → Bool
  pub lists : String → ℕ

abbrev pub delete : Keyspace → String → Keyspace
delete d k = record {
  strings = λ j. if str_eq k j then none else d.strings j;
  hashes = λ j f. if str_eq k j then none else d.hashes j f;
  present = λ j. if str_eq k j then false else d.present j;
  lists = λ j. if str_eq k j then 0 else d.lists j;
}

abbrev pub write : Keyspace → String → Value → Keyspace
write d k v = record {
  strings = λ j. if str_eq k j then some v else d.strings j;
  hashes = d.hashes;
  present = d.present;
  lists = d.lists;
}

abbrev pub write_field : Keyspace → String → String → Value → Keyspace
write_field d k f v = record {
  strings = d.strings;
  hashes = λ j g. if str_eq k j && str_eq f g then some v else d.hashes j g;
  present = λ j. if str_eq k j then true else d.present j;
  lists = d.lists;
}

abbrev pub expire_in : Keyspace → String → ℕ → Keyspace
expire_in d k n = if ltb 0 n then d else delete d k

pub expire_in-kept : (d : Keyspace) (k : String) (n : ℕ) → 0 < n → expire_in d k n ≡ d
expire_in-kept d k n h = ground arith

abbrev pub memory : Redis
memory = record {
  Db = Keyspace;
  get = λ d k. d.strings k;
  hget = λ d k f. d.hashes k f;
  key_exists = λ d k. d.present k;
  llen = λ d k. d.lists k;
  set = write;
  hset = write_field;
  del = delete;
  expire = expire_in;
  get-set = λ d k j v. refl;
  get-del = λ d k j. refl;
  get-expire = λ d k j n h i. (expire_in-kept d k n h i).strings j;
  get-hset = λ d k j f v. refl;
  llen-set = λ d k j v h. refl;
  llen-del = λ d k j h. rw h;
  llen-expire = λ d k j n h i. (expire_in-kept d k n h i).lists j;
  hget-hset = λ d k j f g v. refl;
  hget-del = λ d k j f. refl;
  hget-expire = λ d k j f n h i. (expire_in-kept d k n h i).hashes j f;
  key_exists-hset = λ d k j f v. refl;
  key_exists-del = λ d k j. refl;
  key_exists-expire = λ d k j n h i. (expire_in-kept d k n h i).present j;
}

abbrev pub empty : Keyspace
empty = record { strings = λ j. none; hashes = λ j f. none; present = λ j. false; lists = λ j. 0 }

-- The list at one key has got so much longer.
abbrev pub push_many : Keyspace → String → ℕ → Keyspace
push_many d k n = record {
  strings = d.strings;
  hashes = d.hashes;
  present = d.present;
  lists = λ j. if str_eq k j then n else d.lists j;
}
