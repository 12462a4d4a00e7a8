-- ===== src/Examples/Tables.antt =====
-- A Redis server whose hashes are a list of entries, so that keys and fields can be listed.
use activity_relay.Base.{
  ℕ, ◌<◌, String, Bool, true, false, ◌&&◌, not, Option, none, some, ◌≡◌, refl, List, [], ◌∷◌,
  str_eq, eq_iff, member, has_prefix, is_some, arith, ltb, if◌then◌else◌,
}
use activity_relay.Redis.{Redis, Value}
use activity_relay.State.Loading.{Keys}

pub record Entry : Type 0 where
  pub key : String
  pub field : String
  pub value : Value

abbrev lookup : List Entry → String → String → Option Value
lookup [] j g = none
lookup (e ∷ es) j g = if str_eq e.key j && str_eq e.field g then some e.value else lookup es j g

abbrev has_key : List Entry → String → Bool
has_key [] j = false
has_key (e ∷ es) j = if str_eq e.key j then true else has_key es j

abbrev without : String → List Entry → List Entry
without k [] = []
without k (e ∷ es) = if str_eq k e.key then without k es else e ∷ without k es

abbrev without_field : String → String → List Entry → List Entry
without_field k f [] = []
without_field k f (e ∷ es) =
    if str_eq k e.key && str_eq f e.field then without_field k f es else e ∷ without_field k f es

abbrev fields_of : String → List Entry → List String
fields_of k [] = []
fields_of k (e ∷ es) = if str_eq e.key k then e.field ∷ fields_of k es else fields_of k es

abbrev keys_with : String → List Entry → List String
keys_with p [] = []
keys_with p (e ∷ es) =
    if has_prefix p e.key && not (has_key es e.key) then e.key ∷ keys_with p es else keys_with p es

pub record Contents : Type 0 where
  pub entries : List Entry
  pub strings : String → Option Value
  pub lists : String → ℕ

pub lookup-without :
    (k j f : String) (es : List Entry)
    → lookup (without k es) j f ≡ (if str_eq k j then none else lookup es j f)
lookup-without k j f [] = ground arith
lookup-without k j f (e ∷ es) =
    ground (arith, lookup-without k j f es, eq_iff k e.key, eq_iff e.key j, eq_iff k j)

pub has_key-without :
    (k j : String) (es : List Entry)
    → has_key (without k es) j ≡ (if str_eq k j then false else has_key es j)
has_key-without k j [] = ground arith
has_key-without k j (e ∷ es) =
    ground (arith, has_key-without k j es, eq_iff k e.key, eq_iff e.key j, eq_iff k j)

pub lookup-without_field :
    (k j f g : String) (es : List Entry)
    → lookup (without_field k f es) j g ≡ (if str_eq k j && str_eq f g then none else lookup es j g)
lookup-without_field k j f g [] = ground arith
lookup-without_field k j f g (e ∷ es) = ground (
  arith,
  lookup-without_field k j f g es,
  eq_iff k e.key,
  eq_iff e.key j,
  eq_iff k j,
  eq_iff f e.field,
  eq_iff e.field g,
  eq_iff f g,
)

pub has_key-without_field :
    (k j f : String) (es : List Entry)
    → str_eq k j ≡ false
    → has_key (without_field k f es) j ≡ has_key es j
has_key-without_field k j f [] h = refl
has_key-without_field k j f (e ∷ es) h =
    ground (arith, has_key-without_field k j f es h, eq_iff k e.key, eq_iff e.key j, eq_iff k j)

pub member-fields_of :
    (k f : String) (es : List Entry) → member f (fields_of k es) ≡ is_some (lookup es k f)
member-fields_of k f [] = refl
member-fields_of k f (e ∷ es) = ground (arith, member-fields_of k f es)

pub member-keys_with :
    (p k : String) (es : List Entry) → member k (keys_with p es) ≡ (has_prefix p k && has_key es k)
member-keys_with p k [] = ground arith
member-keys_with p k (e ∷ es) = ground (arith, member-keys_with p k es, eq_iff e.key k)

abbrev removed : Contents → String → Contents
removed d k = record {
  entries = without k d.entries;
  strings = λ j. if str_eq k j then none else d.strings j;
  lists = λ j. if str_eq k j then 0 else d.lists j;
}

abbrev expire_in : Contents → String → ℕ → Contents
expire_in d k n = if ltb 0 n then d else removed d k

pub expire_in-kept : (d : Contents) (k : String) (n : ℕ) → 0 < n → expire_in d k n ≡ d
expire_in-kept d k n h = ground arith

abbrev pub tables : Redis
tables = record {
  Db = Contents;
  get = λ d k. d.strings k;
  hget = λ d k f. lookup d.entries k f;
  key_exists = λ d k. has_key d.entries k;
  llen = λ d k. d.lists k;
  set = λ d k v. record d { strings = λ j. if str_eq k j then some v else d.strings j };
  hset = λ d k f v. record d { entries = record { key = k; field = f; value = v } ∷ d.entries };
  del = removed;
  expire = expire_in;
  get-set = λ d k j v. refl;
  get-del = λ d k j. refl;
  get-expire = λ d k j n h i. (expire_in-kept d k n h i).strings j;
  get-hset = λ d k j f v. refl;
  llen-set = λ d k j v h. refl;
  llen-del = λ d k j h. rw h;
  llen-expire = λ d k j n h i. (expire_in-kept d k n h i).lists j;
  hget-hset = λ d k j f g v. refl;
  hget-del = λ d k j f. lookup-without k j f d.entries;
  hget-expire = λ d k j f n h i. lookup (expire_in-kept d k n h i).entries j f;
  key_exists-hset = λ d k j f v. refl;
  key_exists-del = λ d k j. has_key-without k j d.entries;
  key_exists-expire = λ d k j n h i. has_key (expire_in-kept d k n h i).entries j;
}

abbrev pub table_keys : Keys tables
table_keys = record {
  hkeys = λ d k. fields_of k d.entries;
  scan = λ d p. keys_with p d.entries;
  hdel = λ d k f. record d { entries = without_field k f d.entries };
  sort_strings = λ ks. ks;
  member-hkeys = λ d k f. member-fields_of k f d.entries;
  member-scan = λ d p k. member-keys_with p k d.entries;
  member-sort_strings = λ k ks. refl;
  hget-hdel = λ d k j f g. lookup-without_field k j f g d.entries;
  key_exists-hdel = λ d k j f h. has_key-without_field k j f d.entries h;
}

abbrev pub nothing : Contents
nothing = record { entries = []; strings = λ j. none; lists = λ j. 0 }
