-- ===== src/Scheduler/Store.antt =====
-- The scheduler's store (internal/directoryscheduler/store.go): a state per directory in a hash, and
-- a lease that fences its writers. The SHA-256 in hexadecimal, `strconv` and the random token of a
-- lease are parameters. `none` is ErrStore; a nil store and a nil context are left out.
pub mod Fencing
pub mod Loading
use Prim.Native.Char.{Char, code}
use Prim.Native.String.{String, [] as empty, ◌∷◌ as char_cons}
use activity_relay.Base.{
  ℕ, suc, ◌+◌, ◌*◌, ◌/◌, ◌-◌, ◌^◌, ◌<◌, str_append, Bool, true, false, ◌&&◌, ◌||◌, not, Option,
  none, some, Result, ok, err, ◌>>=◌, List, [], ◌∷◌, ◌≡◌, ltb, leb, ◌==◌, str_eq, if◌then◌else◌,
}
use activity_relay.Base.Int.{ℤ, pos, negsuc}
use activity_relay.Go.{Strconv}
use activity_relay.Redis.{Redis, Outcome, Value, text, number, eval}
use activity_relay.Redis.Fields.{hset_all, text_of, entry}
use activity_relay.Canonical.{set_nx}
use activity_relay.Negotiation.{time_second}
use activity_relay.Scheduler.{State, maximum_attempt, valid_outcome, valid_diagnostic}

-- ErrStore of Load and of what it calls
pub data StoreError : Type 0 where
  store_failed : StoreError

-- Seconds from Go's zero time to 1970.
abbrev pub unix_offset : ℕ
unix_offset = 62135596800

-- `Unix` of a time in UTC
abbrev pub unix : ℕ → ℤ
unix t =
    let seconds = t / time_second in
    if leb unix_offset seconds
    then pos (seconds - unix_offset)
    else negsuc (unix_offset - seconds - 1)

-- unixString, parseTime
unfoldable pub unix_string : Strconv → ℕ → String
unix_string c t = if t == 0 then "0" else c.format (unix t)

unfoldable pub parse_time : Strconv → String → Result StoreError ℕ
parse_time c value =
    if str_eq value "" || str_eq value "0" then ok 0 else elim (c.parse_int value) [
      | some (pos seconds) ↦ ok ((unix_offset + seconds) * time_second)
      | _ ↦ err store_failed
    ]

lower_hex : Char → Bool
lower_hex c = leb 48 (code c) && leb (code c) 57 || leb 97 (code c) && leb (code c) 102

-- The text is so many characters, all of them lower-case hexadecimal digits.
unfoldable pub is_hex : ℕ → String → Bool
unfolding lower_hex
is_hex n empty = n == 0
is_hex n (char_cons c s) = lower_hex c && ltb 0 n && is_hex (n - 1) s

-- validProfileState
unfoldable pub valid_profile_state : String → ℕ → Bool
unfolding is_hex
valid_profile_state digest protocol_version =
    if str_eq digest ""
    then protocol_version == 0
    else (protocol_version == 1 || protocol_version == 2 || protocol_version == 3)
      && is_hex 64 digest

-- validateState
unfoldable pub state_valid : String → State → Bool
unfolding valid_profile_state
state_valid origin state =
    not (str_eq origin "")
    && leb state.attempt maximum_attempt
    && valid_outcome state.last_outcome
    && valid_diagnostic state.diagnostic
    && valid_profile_state state.profile_digest state.profile_protocol_version

-- stateArguments, each with the name of its field
unfoldable pub state_arguments : Strconv → State → List (String × Value)
unfolding unix_string
state_arguments c state =
    ("registered", text (if state.registered then "1" else "0"))
    ∷ ("last_success_unix", text (unix_string c state.last_success))
    ∷ ("next_attempt_unix", text (unix_string c state.next_attempt))
    ∷ ("last_outcome", text state.last_outcome)
    ∷ ("diagnostic", text state.diagnostic)
    ∷ ("attempt", text (c.format (pos state.attempt)))
    ∷ ("last_observed_unix", text (unix_string c state.last_observed))
    ∷ ("profile_digest", text state.profile_digest)
    ∷ ("profile_protocol_version", text (c.format (pos state.profile_protocol_version)))
    ∷ []

-- directoryKey
unfoldable pub directory_key : (String → String) → String → String → String
directory_key sha256_hex origin suffix =
    str_append "relay:directory:v1:" (str_append (sha256_hex origin) (str_append ":" suffix))

-- redisLease
pub record Lease : Type 0 where
  pub key : String
  pub value : String

-- 90 days
abbrev pub state_retention_seconds : ℕ
state_retention_seconds = 90 * 24 * 3600

abbrev pub lease_seconds : ℕ
lease_seconds = 60

-- A small number of a state: missing is 0.
abbrev pub small_number : Strconv → ℕ → String → Result StoreError ℕ
small_number c limit value = if str_eq value "" then ok 0 else elim (c.parse_uint8 value) [
  | none ↦ err store_failed
  | some n ↦ (if ltb limit n then err store_failed else ok n)
]

-- Whether the text is "0" or "1", as the field `registered` must be.
abbrev pub flag : String → Result StoreError Bool
flag value =
    if str_eq value "1" then ok true else if str_eq value "0" then ok false else err store_failed

-- The checks at the end of Load
unfoldable pub checked : State → Result StoreError State
unfolding valid_profile_state
checked state =
    if valid_outcome state.last_outcome
      && valid_diagnostic state.diagnostic
      && valid_profile_state state.profile_digest state.profile_protocol_version
    then ok state
    else err store_failed

abbrev pub unseen : State
unseen = record {
  registered = false;
  last_success = 0;
  next_attempt = 0;
  last_outcome = "";
  diagnostic = "";
  attempt = 0;
  last_observed = 0;
  profile_digest = "";
  profile_protocol_version = 0;
}

-- The parsing of Load, at the entries of the map that HGetAll gave.
unfoldable pub parse_state : Strconv → (String → String) → Result StoreError State
unfolding parse_time checked
parse_state c values = do
  registered ← flag (values "registered")
  last_success ← parse_time c (values "last_success_unix")
  next_attempt ← parse_time c (values "next_attempt_unix")
  last_observed ← parse_time c (values "last_observed_unix")
  attempt ← small_number c maximum_attempt (values "attempt")
  version ← small_number c 3 (values "profile_protocol_version")
  checked (record {
    registered = registered;
    last_success = last_success;
    next_attempt = next_attempt;
    last_outcome = values "last_outcome";
    diagnostic = values "diagnostic";
    attempt = attempt;
    last_observed = last_observed;
    profile_digest = values "profile_digest";
    profile_protocol_version = version;
  })

module _ (r : Redis) where
  open r use {Db, get, hget, key_exists, hset, del, expire}

  -- The comparison of the key with ARGV[1] in the scripts
  abbrev pub owned_by : Lease → Db → Bool
  owned_by lease d = elim (get d lease.key) [
    | some (text owner) ↦ str_eq owner lease.value
    | _ ↦ false
  ]

  -- RedisStore.Acquire, at the token that `leaseToken` gave: the lease, or none.
  unfoldable pub acquire :
      (String → String) → Outcome → String → String → Db → Option (Option Lease) × Db
  unfolding set_nx directory_key
  acquire sha256_hex net token origin d =
      let lease : Lease = record { key = directory_key sha256_hex origin "lease"; value = token } in
      let (answer, d') = eval net (set_nx r lease.key token) d in
      let result : Option (Option Lease) = elim answer [
        | none ↦ none
        | some true ↦ some (some lease)
        | some false ↦ some none
      ] in
      if str_eq origin "" then (none, d) else (result, d')

  -- redisLease.Renew and redisLease.Release with their scripts
  unfoldable pub renew : Outcome → Lease → Db → Option Bool × Db
  renew net lease d =
      eval net
        (λ d.
          if owned_by lease d
          then (some true, expire d lease.key lease_seconds)
          else (some false, d))
        d

  unfoldable pub release : Outcome → Lease → Db → Option Bool × Db
  release net lease d =
      eval net (λ d. if owned_by lease d then (some true, del d lease.key) else (some false, d)) d

  -- saveOwnedScript
  unfoldable pub save_owned_script : Lease → String → List (String × Value) → Db → Option Bool × Db
  save_owned_script lease state_key arguments d =
      if owned_by lease d
      then (some true, expire (hset_all r state_key arguments d) state_key state_retention_seconds)
      else (some false, d)

  -- RedisStore.SaveOwned: `some owned`, or an error.
  unfoldable pub save_owned :
      (String → String) → Strconv → Outcome → String → Lease → State → Db → Option Bool × Db
  unfolding save_owned_script state_arguments directory_key state_valid
  save_owned sha256_hex c net origin lease state d =
      if not (str_eq lease.key (directory_key sha256_hex origin "lease"))
        || not (state_valid origin state)
      then (none, d)
      else eval net
          (save_owned_script lease (directory_key sha256_hex origin "state")
            (state_arguments c state))
          d

  -- RedisStore.Save: a transaction of HSET and EXPIRE; false is an error.
  unfoldable pub save : (String → String) → Strconv → Outcome → String → State → Db → Bool × Db
  unfolding state_arguments directory_key state_valid
  save sha256_hex c net origin state d =
      let key = directory_key sha256_hex origin "state" in
      let script : Db → Option Bool × Db = λ d. (
        some true,
        expire (hset_all r key (state_arguments c state) d) key state_retention_seconds,
      ) in
      let (answer, d') = eval net script d in
      if not (state_valid origin state)
      then (false, d)
      else (elim answer [ none ↦ false | some stored ↦ stored ], d')

  -- RedisStore.Load, where HGetAll is answered; an empty hash is a missing key.
  unfoldable pub load : (String → String) → Strconv → String → Db → Result StoreError State
  unfolding parse_state directory_key
  load sha256_hex c origin d =
      let key = directory_key sha256_hex origin "state" in
      if str_eq origin ""
      then err store_failed
      else if not (key_exists d key)
      then ok unseen
      else parse_state c (entry r d key)
