-- ===== src/Negotiation/Store.antt =====
-- The store of capabilities in Redis (internal/httpsignature/redis_destination_capability.go), and the
-- interface that it fills. The SHA-256 in hexadecimal and `strconv` are parameters; a stored time
-- before Go's zero time, which the relay never writes, would read as that.
pub mod Newest
pub mod Sequence
pub mod Planning
use activity_relay.Base.{
  ℕ, suc, ◌+◌, ◌*◌, ◌/◌, ◌-◌, String, str_append, Bool, true, false, ◌&&◌, ◌||◌, not, Option, none,
  some, Result, ok, err, ◌>>=◌, List, [], ◌∷◌, ltb, leb, str_eq, if◌then◌else◌, trim_space, is_some,
}
use activity_relay.Base.Int.{ℤ, pos, negsuc, lebℤ}
use activity_relay.Go.{Runtime, Strconv}
use activity_relay.Redis.{Redis, Outcome, Value, text, number, eval}
use activity_relay.Redis.Fields.{hset_all, entry}
use activity_relay.Origin.{OriginError, normalize_destination_origin}
use activity_relay.Negotiation.{
  Scope, Invalid, Capability, CapabilityStore, scope_valid, validate, time_second,
}
use activity_relay.Negotiation.Names.{
  profile_name, profile_of, scope_name, scope_of, evidence_name, evidence_of,
}

pub data CapabilityError : Type 0 where
  invalid : Invalid → CapabilityError
  refused_origin : OriginError → CapabilityError
  expired redis_failed unknown_scope origin_not_normalized bad_time other_identity : CapabilityError

abbrev pub millisecond : ℕ
millisecond = 1000000

-- Milliseconds from Go's zero time to 1970
abbrev pub unix_offset_ms : ℕ
unix_offset_ms = 62135596800000

-- `UnixMilli` of a time, and `time.UnixMilli`
abbrev pub unix_milli : ℕ → ℤ
unix_milli t =
    let ms = t / millisecond in
    if leb unix_offset_ms ms then pos (ms - unix_offset_ms) else negsuc (unix_offset_ms - ms - 1)

abbrev pub from_unix_milli : ℤ → ℕ
from_unix_milli (pos ms) = (unix_offset_ms + ms) * millisecond
from_unix_milli (negsuc ms) = (unix_offset_ms - ms - 1) * millisecond

-- NewRedisDestinationCapabilityStore, at a client: the prefix.
unfoldable pub store_prefix : String → String
store_prefix prefix =
    let trimmed = trim_space prefix in
    if str_eq trimmed "" then "relay:http-signature:capability:" else trimmed

-- capabilityKey
unfoldable pub capability_key : (String → String) → String → Scope → String → String
capability_key sha256_hex prefix scope origin =
    str_append prefix (sha256_hex (str_append (scope_name scope) (str_append "\0" origin)))

-- The fields that the script writes
unfoldable pub capability_fields : Strconv → Capability → List (String × Value)
capability_fields c capability =
    ("origin", text capability.origin)
    ∷ ("scope", text (scope_name capability.scope))
    ∷ ("profile", text (profile_name capability.profile))
    ∷ ("evidence", text (evidence_name capability.evidence))
    ∷ ("observed_at_ms", text (c.format (unix_milli capability.observed_at)))
    ∷ ("expires_at_ms", text (c.format (unix_milli capability.expires_at)))
    ∷ []

-- parseCapabilityTime, at the value of its field
unfoldable pub parse_capability_time : Strconv → String → Result CapabilityError ℕ
parse_capability_time c raw =
    if str_eq raw ""
    then err bad_time
    else elim (c.parse_int raw) [ none ↦ err bad_time | some ms ↦ ok (from_unix_milli ms) ]

-- The checks on the capability that was read
unfoldable pub check_identity :
    Runtime → Scope → String → Capability → Result CapabilityError (Option Capability)
unfolding validate
check_identity go scope origin capability =
    if not (str_eq capability.origin origin)
      || not (str_eq (scope_name capability.scope) (scope_name scope))
    then err other_identity
    else elim (validate go capability) [ err e ↦ err (invalid e) | ok _ ↦ ok (some capability) ]

-- The end of LoadDestinationCapability, at the entries of a hash that is not empty
unfoldable pub read_capability :
    Runtime
    → Strconv
    → Scope
    → String
    → (String → String)
    → Result CapabilityError (Option Capability)
read_capability go c scope origin values = do
  observed_at ← parse_capability_time c (values "observed_at_ms")
  expires_at ← parse_capability_time c (values "expires_at_ms")
  check_identity go scope origin (record {
    origin = values "origin";
    scope = scope_of (values "scope");
    profile = profile_of (values "profile");
    evidence = evidence_of (values "evidence");
    observed_at = observed_at;
    expires_at = expires_at;
  })

module _ (r : Redis) where
  open r use {Db, hget, key_exists, expire}

  -- The comparison of the script: whether what is stored is as new. A stored value that is no number
  -- is a script error. The comparison is exact, where Lua's numbers are doubles: the two agree on
  -- times of up to 2^53 milliseconds.
  unfoldable pub as_new : Strconv → Option Value → ℤ → Option Bool
  as_new c none observed = some false
  as_new c (some (number current)) observed = some (lebℤ observed current)
  as_new c (some (text current)) observed = elim (c.parse_int current) [
    | none ↦ none
    | some ms ↦ some (lebℤ observed ms)
  ]

  -- saveDestinationCapabilityScript; the key expires after `ttl`, a time that is not over.
  unfoldable pub save_script : Strconv → String → Capability → ℕ → Db → Option Bool × Db
  save_script c key capability ttl d =
      elim (as_new c (hget d key "observed_at_ms") (unix_milli capability.observed_at)) [
        | none ↦ (none, d)
        | some true ↦ (some false, d)
        | some false ↦
            (some true, expire (hset_all r key (capability_fields c capability) d) key ttl)
      ]

  -- SaveDestinationCapability; `wall` is what `time.Now` reads.
  unfoldable pub save_capability :
      Runtime
      → (String → String)
      → Strconv
      → String
      → Outcome
      → ℕ
      → Capability
      → Db
      → Result CapabilityError Bool × Db
  save_capability go sha256_hex c prefix net wall capability d =
      let key = capability_key sha256_hex prefix capability.scope capability.origin in
      let (answer, d') = eval net (save_script c key capability (capability.expires_at - wall)) d in
      let result : Result CapabilityError Bool = elim answer [
        | none ↦ err redis_failed
        | some saved ↦ ok saved
      ] in
      elim (validate go capability) [
        | err e ↦ (err (invalid e), d)
        | ok _ ↦ (if not (ltb wall capability.expires_at) then (err expired, d) else (result, d'))
      ]

  -- LoadDestinationCapability, where HGetAll is answered
  unfoldable pub load_capability :
      Runtime
      → (String → String)
      → Strconv
      → String
      → Db
      → Scope
      → String
      → Result CapabilityError (Option Capability)
  load_capability go sha256_hex c prefix d scope origin =
      let key = capability_key sha256_hex prefix scope origin in
      if not (scope_valid scope)
      then err unknown_scope
      else elim (normalize_destination_origin go origin) [
        | err e ↦ err (refused_origin e)
        | ok normalized ↦
            (if not (str_eq normalized origin)
              then err origin_not_normalized
              else if not (key_exists d key)
              then ok none
              else read_capability go c scope origin (entry r d key))
      ]

  -- The store as the negotiator sees it, where each command is answered.
  abbrev pub redis_store :
      Runtime
      → (String → String)
      → Strconv
      → String
      → Outcome
      → ℕ
      → CapabilityStore CapabilityError Db
  redis_store go sha256_hex c prefix net wall = record {
    load = load_capability go sha256_hex c prefix;
    save = λ d capability. save_capability go sha256_hex c prefix net wall capability d;
  }
