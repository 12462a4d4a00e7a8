-- ===== src/Negotiation/Store/Newest.antt =====
-- What the store in Redis keeps: the newest observation, in milliseconds.
use activity_relay.Base.{
  ℕ, ◌+◌, ◌*◌, ◌/◌, ◌-◌, ◌^◌, ◌≤◌, ◌<◌, String, true, ◌≡◌, refl, ◌∙◌, some, Result, ok, err, arith,
  str_eq, eq_refl, eq_iff, if◌then◌else◌,
}
use activity_relay.Base.Int.{pos}
use activity_relay.Go.{Runtime, Strconv}
use activity_relay.Redis.{Redis, Outcome, answered, refused, unanswered, text}
use activity_relay.Redis.Fields.{hset_all, entry, written, key_exists-hset_some, entry-written}
use activity_relay.Origin.{OriginError, normalize_destination_origin}
use activity_relay.Negotiation.{
  Profile, legacy, rfc9421, dual, unset, Scope, fetch, delivery, Evidence, successful_rfc9421,
  accept_signature, explicit_rfc9421_rejection, successful_legacy_fallback, Capability, Invalid,
  bad_origin, origin_not_normalized, is_wire, evidence_valid, scope_valid, validate,
}
use activity_relay.Negotiation.Names.{
  profile_name, profile_of, scope_name, scope_of, evidence_name, evidence_of,
}
use activity_relay.Negotiation.Store.{
  millisecond, unix_offset_ms, unix_milli, capability_key, capability_fields, parse_capability_time,
  check_identity, read_capability, save_script, save_capability, load_capability,
}

abbrev pub floor_ms : ℕ → ℕ
floor_ms t = t / millisecond * millisecond

-- The time is in 1970 or later, and its milliseconds are 64 bits with a sign.
abbrev pub IsStorable : ℕ → Type 0
IsStorable t = (unix_offset_ms ≤ t / millisecond) × (t / millisecond < unix_offset_ms + 2 ^ 63)

-- What is left of a capability: its times lose what is less than a millisecond.
abbrev pub kept : Capability → Capability
kept capability = record capability {
  observed_at = floor_ms capability.observed_at;
  expires_at = floor_ms capability.expires_at;
}

-- The capability lasts a millisecond or more, and its times can be stored.
abbrev pub HasStorableTimes : Capability → Type 0
HasStorableTimes capability =
    IsStorable capability.observed_at
    × IsStorable capability.expires_at
    × (capability.observed_at + millisecond ≤ capability.expires_at)

profile_of-profile_name : (p : Profile) → is_wire p ≡ true → profile_of (profile_name p) ≡ p
unfolding profile_of
profile_of-profile_name legacy h = refl
profile_of-profile_name rfc9421 h = refl
profile_of-profile_name dual h = cc
profile_of-profile_name unset h = cc
profile_of-profile_name (Profile.unsupported s) h = cc

scope_of-scope_name : (s : Scope) → scope_valid s ≡ true → scope_of (scope_name s) ≡ s
unfolding scope_of
scope_of-scope_name fetch h = refl
scope_of-scope_name delivery h = refl
scope_of-scope_name (Scope.unsupported s) h = cc

evidence_of-evidence_name :
    (e : Evidence) (p : Profile) → evidence_valid e p ≡ true → evidence_of (evidence_name e) ≡ e
unfolding evidence_of
evidence_of-evidence_name successful_rfc9421 p h = refl
evidence_of-evidence_name accept_signature p h = refl
evidence_of-evidence_name explicit_rfc9421_rejection p h = refl
evidence_of-evidence_name successful_legacy_fallback p h = refl
evidence_of-evidence_name (Evidence.unsupported s) p h = ground arith

normalized_of :
    (normalized : Result OriginError String) (origin : String) (rest : Result Invalid (Unit {0}))
    → elim normalized as (λ _. Result Invalid (Unit {0})) [
      | err e ↦ err (bad_origin e)
      | ok n ↦ (if str_eq n origin then rest else err origin_not_normalized)
    ]
      ≡ ok tt
    → normalized ≡ ok origin
normalized_of (err e) origin rest h = cc
normalized_of (ok n) origin rest h = ground (arith, eq_iff n origin)

module _ (go : Runtime) (c : Strconv) where
  open c use {format, parse_int, parse_int-format, format-ne_empty}

  parse_capability_time-format :
      (t : ℕ) → IsStorable t → parse_capability_time c (format (unix_milli t)) ≡ ok (floor_ms t)
  unfolding parse_capability_time
  parse_capability_time-format t storable =
      let ms : unix_milli t ≡ pos (t / millisecond - unix_offset_ms) = ground arith in
      ground (
        arith,
        ms,
        parse_int-format (t / millisecond - unix_offset_ms),
        format-ne_empty (pos (t / millisecond - unix_offset_ms)),
      )

  pub valid_parts :
      (capability : Capability)
      → validate go capability ≡ ok tt
      → (scope_valid capability.scope ≡ true)
        × (is_wire capability.profile ≡ true)
        × (evidence_valid capability.evidence capability.profile ≡ true)
  unfolding validate
  valid_parts capability valid = ground (arith)

  pub valid_origin :
      (capability : Capability)
      → validate go capability ≡ ok tt
      → normalize_destination_origin go capability.origin ≡ ok capability.origin
  unfolding validate
  valid_origin capability valid = normalized_of _ capability.origin _ valid

  pub validate-kept :
      (capability : Capability)
      → HasStorableTimes capability
      → validate go capability ≡ ok tt
      → validate go (kept capability) ≡ ok tt
  unfolding validate
  validate-kept capability times valid = ground arith

  -- The entries that `capability_fields` writes
  abbrev pub Reads : Capability → (String → String) → Type 0
  Reads capability values =
      (values "origin" ≡ capability.origin)
      × (values "scope" ≡ scope_name capability.scope)
      × (values "profile" ≡ profile_name capability.profile)
      × (values "evidence" ≡ evidence_name capability.evidence)
      × (values "observed_at_ms" ≡ format (unix_milli capability.observed_at))
      × (values "expires_at_ms" ≡ format (unix_milli capability.expires_at))

  check_identity-kept :
      (capability : Capability)
      → HasStorableTimes capability
      → validate go capability ≡ ok tt
      → check_identity go capability.scope capability.origin (kept capability)
        ≡ ok (some (kept capability))
  unfolding check_identity
  check_identity-kept capability times valid = rw (
    eq_refl capability.origin,
    eq_refl (scope_name capability.scope),
    validate-kept capability times valid,
  )

  pub read_capability-Reads :
      (capability : Capability) (values : String → String)
      → Reads capability values
      → HasStorableTimes capability
      → validate go capability ≡ ok tt
      → read_capability go c capability.scope capability.origin values ≡ ok (some (kept capability))
  unfolding read_capability
  read_capability-Reads capability values (o, s, p, e, observed, expires) times valid =
      let (scope, wire, evidence) = valid_parts capability valid in
      rw
        (
          o,
          s,
          p,
          e,
          observed,
          expires,
          parse_capability_time-format capability.observed_at times.0,
          parse_capability_time-format capability.expires_at times.1,
          scope_of-scope_name capability.scope scope,
          profile_of-profile_name capability.profile wire,
          evidence_of-evidence_name capability.evidence capability.profile evidence,
        )
        (check_identity-kept capability times valid)

module _ (r : Redis) (go : Runtime) (sha256_hex : String → String) (c : Strconv)
    (prefix : String) where
  open r use {Db, hget, key_exists, expire, key_exists-expire}

  module _ (capability : Capability) (ttl : ℕ) (d : Db) (lasts : 0 < ttl) where
    abbrev key : String
    key = capability_key sha256_hex prefix capability.scope capability.origin

    abbrev stored : Db
    stored = expire (hset_all r key (capability_fields c capability) d) key ttl

    pub stored-Reads : Reads go c capability (entry r stored key)
    stored-Reads =
        let sure : (field value : String)
            → written (capability_fields c capability) field (hget d key field) ≡ some (text value)
            → entry r stored key field ≡ value =
          λ field value.
            entry-written r key field value (capability_fields c capability) ttl d lasts in
        unfold capability_fields in
        (
          sure "origin" _ refl,
          sure "scope" _ refl,
          sure "profile" _ refl,
          sure "evidence" _ refl,
          sure "observed_at_ms" _ refl,
          sure "expires_at_ms" _ refl,
        )

    pub stored_exists : key_exists stored key ≡ true
    stored_exists =
        key_exists-expire (hset_all r key (capability_fields c capability) d) key key ttl lasts
        ∙ (unfold capability_fields in key_exists-hset_some r key "origin" _ _ d)

    pub load_stored :
        HasStorableTimes capability
        → validate go capability ≡ ok tt
        → load_capability r go sha256_hex c prefix stored capability.scope capability.origin
          ≡ ok (some (kept capability))
    unfolding load_capability
    load_stored times valid =
        rw
          (
            (valid_parts go c capability valid).0,
            valid_origin go c capability valid,
            eq_refl capability.origin,
            stored_exists,
          )
          (read_capability-Reads go c capability (entry r stored key) stored-Reads times valid)

  pub saved_db :
      (net : Outcome) (wall : ℕ) (capability : Capability) (d d' : Db)
      → save_capability r go sha256_hex c prefix net wall capability d ≡ (ok true, d')
      → (validate go capability ≡ ok tt)
        × (wall < capability.expires_at)
        × (d'
            ≡ expire
                (hset_all r
                  (capability_key sha256_hex prefix capability.scope capability.origin)
                  (capability_fields c capability)
                  d)
                (capability_key sha256_hex prefix capability.scope capability.origin)
                (capability.expires_at - wall))
  unfolding save_capability save_script
  saved_db answered wall capability d d' h = ground arith
  saved_db refused wall capability d d' h = ground arith
  saved_db unanswered wall capability d d' h = ground arith
