-- ===== src/Scheduler/Store/Loading.antt =====
-- What is stored is loaded again.
use activity_relay.Base.{
  ℕ, suc, ◌+◌, ◌*◌, ◌^◌, ◌≤◌, ◌<◌, String, Bool, true, false, ◌≡◌, ◌⊎◌, inl, inr, ◌∙◌, refl, some,
  ok, err, arith, str_eq, if◌then◌else◌, ◌&&◌, not, leb→le, leb,
}
use activity_relay.Base.Int.{pos}
use activity_relay.Go.{Strconv}
use activity_relay.Redis.{Redis, answered, text}
use activity_relay.Redis.Fields.{hset_all, entry, written, key_exists-hset_some, entry-written}
use activity_relay.Negotiation.{time_second}
use activity_relay.Scheduler.{State, maximum_attempt, valid_outcome, valid_diagnostic}
use activity_relay.Scheduler.Store.{
  store_failed, unix, unix_offset, unix_string, parse_time, valid_profile_state, state_valid,
  state_arguments, directory_key, Lease, state_retention_seconds, save_owned, save_owned_script,
  small_number, flag, checked, parse_state, load,
}

-- The time is zero, or a whole second after 1970 that `strconv` reads back.
abbrev pub IsStorable : ℕ → Type 0
IsStorable t = (t ≡ 0) ⊎ ((s : ℕ) × (s < 2 ^ 62) × (t ≡ (unix_offset + suc s) * time_second))

all_true :
    (a b c d e : Bool)
    → (not a && b && c && d && e) ≡ true
    → (a ≡ false) × (b ≡ true) × (c ≡ true) × (d ≡ true) × (e ≡ true)
all_true a b c d e h = ground arith

all_checked :
    (a b c : Bool) (state : State)
    → a ≡ true
    → b ≡ true
    → c ≡ true
    → (if a && b && c then ok state else err store_failed) ≡ ok state
all_checked a b c state h i j = rw (h, i, j) refl

version-le : (digest : String) (v : ℕ) → valid_profile_state digest v ≡ true → v ≤ 3
unfolding valid_profile_state
version-le digest v h = ground arith

module _ (r : Redis) (c : Strconv) where
  open r use {
    Db, get, hget, key_exists, hset, expire, hget-hset, hget-expire, key_exists-hset,
    key_exists-expire,
  }
  open c use {
    format, parse_int, parse_uint8, parse_int-format, parse_uint8-format, format-ne_empty,
    format-suc,
  }

  parse_time-unix_string : (t : ℕ) → IsStorable t → parse_time c (unix_string c t) ≡ ok t
  unfolding parse_time unix_string
  parse_time-unix_string t (inl zero_time) = rw zero_time refl
  parse_time-unix_string t (inr (s, few, same)) =
      let seconds : unix t ≡ pos (suc s) = ground arith in
      ground (arith, seconds, parse_int-format (suc s), format-ne_empty (pos (suc s)), format-suc s)

  small_number-format :
      (limit n : ℕ) → n ≤ limit → limit < 256 → small_number c limit (format (pos n)) ≡ ok n
  small_number-format limit n within small =
      ground (arith, format-ne_empty (pos n), parse_uint8-format n)

  -- The entries are those that `state_arguments` writes.
  abbrev Reads : State → (String → String) → Type 0
  Reads state values =
      (values "registered" ≡ (if state.registered then "1" else "0"))
      × (values "last_success_unix" ≡ unix_string c state.last_success)
      × (values "next_attempt_unix" ≡ unix_string c state.next_attempt)
      × (values "last_outcome" ≡ state.last_outcome)
      × (values "diagnostic" ≡ state.diagnostic)
      × (values "attempt" ≡ format (pos state.attempt))
      × (values "last_observed_unix" ≡ unix_string c state.last_observed)
      × (values "profile_digest" ≡ state.profile_digest)
      × (values "profile_protocol_version" ≡ format (pos state.profile_protocol_version))

  flag-text : (b : Bool) → flag (if b then "1" else "0") ≡ ok b
  flag-text true = refl
  flag-text false = refl

  -- The times of the state can be stored.
  abbrev pub HasStorableTimes : State → Type 0
  HasStorableTimes state =
      IsStorable state.last_success × IsStorable state.next_attempt × IsStorable state.last_observed

  checks_of :
      (origin : String) (state : State)
      → state_valid origin state ≡ true
      → (str_eq origin "" ≡ false)
        × (checked state ≡ ok state)
        × (state.attempt ≤ maximum_attempt)
        × (state.profile_protocol_version ≤ 3)
  unfolding state_valid checked
  checks_of origin state valid =
      let (named, few, outcome, diagnostic, profile) =
        all_true (str_eq origin "") (leb state.attempt maximum_attempt)
          (valid_outcome state.last_outcome) (valid_diagnostic state.diagnostic)
          (valid_profile_state state.profile_digest state.profile_protocol_version) valid in
      (
        named,
        all_checked (valid_outcome state.last_outcome) (valid_diagnostic state.diagnostic)
            (valid_profile_state state.profile_digest state.profile_protocol_version) state outcome
            diagnostic profile,
        leb→le state.attempt maximum_attempt few,
        version-le state.profile_digest state.profile_protocol_version profile,
      )

  parse_state-Reads :
      (origin : String) (state : State) (values : String → String)
      → Reads state values
      → HasStorableTimes state
      → state_valid origin state ≡ true
      → parse_state c values ≡ ok state
  unfolding parse_state
  parse_state-Reads origin state values (a, b, d, e, f, g, h, i, j) (success, next, observed)
        valid =
      let (named, checks, few, version) = checks_of origin state valid in
      rw
        (
          a,
          b,
          d,
          e,
          f,
          g,
          h,
          i,
          j,
          flag-text state.registered,
          parse_time-unix_string state.last_success success,
          parse_time-unix_string state.next_attempt next,
          parse_time-unix_string state.last_observed observed,
          small_number-format maximum_attempt state.attempt few (omega arith),
          small_number-format 3 state.profile_protocol_version version (omega arith),
        )
        checks

  saved_db :
      (sha256_hex : String → String) (origin : String) (lease : Lease) (state : State) (d d' : Db)
      → save_owned r sha256_hex c answered origin lease state d ≡ (some true, d')
      → (state_valid origin state ≡ true)
        × (d'
            ≡ expire
                (hset_all r (directory_key sha256_hex origin "state") (state_arguments c state) d)
                (directory_key sha256_hex origin "state")
                state_retention_seconds)
  unfolding save_owned save_owned_script
  saved_db sha256_hex origin lease state d d' h = (ground arith, ground arith)

  module _ (sha256_hex : String → String) (origin : String) (state : State) (d : Db) where
    abbrev key : String
    key = directory_key sha256_hex origin "state"

    abbrev stored : Db
    stored = expire (hset_all r key (state_arguments c state) d) key state_retention_seconds

    stored-Reads : Reads state (entry r stored key)
    stored-Reads =
        let sure : (field value : String)
            → written (state_arguments c state) field (hget d key field) ≡ some (text value)
            → entry r stored key field ≡ value =
          λ field value.
            entry-written r key field value (state_arguments c state) state_retention_seconds d
              (omega arith) in
        unfold state_arguments in
        (
          sure "registered" _ refl,
          sure "last_success_unix" _ refl,
          sure "next_attempt_unix" _ refl,
          sure "last_outcome" _ refl,
          sure "diagnostic" _ refl,
          sure "attempt" _ refl,
          sure "last_observed_unix" _ refl,
          sure "profile_digest" _ refl,
          sure "profile_protocol_version" _ refl,
        )

    stored_exists : key_exists stored key ≡ true
    stored_exists =
        key_exists-expire (hset_all r key (state_arguments c state) d) key key
          state_retention_seconds (omega arith)
        ∙ (unfold state_arguments in key_exists-hset_some r key "registered" _ _ d)

    load_stored :
        HasStorableTimes state
        → state_valid origin state ≡ true
        → load r sha256_hex c origin stored ≡ ok state
    unfolding load
    load_stored times valid =
        rw ((checks_of origin state valid).0, stored_exists)
          (parse_state-Reads origin state (entry r stored key) stored-Reads times valid)

  -- What `SaveOwned` answered to have stored is what `Load` answers, whatever was stored before: its
  -- times must be zero or whole seconds after 1970.
  pub load-save_owned :
      (sha256_hex : String → String) (origin : String) (lease : Lease) (state : State) (d d' : Db)
      → save_owned r sha256_hex c answered origin lease state d ≡ (some true, d')
      → HasStorableTimes state
      → load r sha256_hex c origin d' ≡ ok state
  load-save_owned sha256_hex origin lease state d d' saved times =
      let (valid, same) = saved_db sha256_hex origin lease state d d' saved in
      rw same (load_stored sha256_hex origin state d times valid)
