-- ===== src/Negotiation.antt =====
-- internal/httpsignature/profile.go and destination_negotiation.go: which signature profile a
-- request to a destination carries, and which observations of a destination are stored. A string
-- type of the source with a list of known values is a data type with one more constructor for any
-- other string. A `time.Time` is its nanoseconds since Go's zero time, so `IsZero` is `== 0`, and a
-- `time.Duration` is a number of nanoseconds.
pub mod Plans
pub mod Cache
pub mod Names
pub mod Store
pub mod Challenges
pub mod Signer
use activity_relay.Base.{
  ℕ, ◌+◌, ◌*◌, String, Bool, true, false, ◌&&◌, ◌||◌, not, Option, none, some, Result, ok, err, ltb,
  ◌==◌, str_eq, if◌then◌else◌,
}
use activity_relay.Base.Int.{ℤ, pos, pos_part, lebℤ}
use activity_relay.Go.{Runtime}
use activity_relay.Origin.{OriginError, normalize_destination_origin}

abbrev pub time_second : ℕ
time_second = 1000000000

abbrev pub time_minute : ℕ
time_minute = 60 * time_second

abbrev pub time_hour : ℕ
time_hour = 60 * time_minute

abbrev pub default_rfc9421_capability_ttl : ℕ
default_rfc9421_capability_ttl = 14 * 24 * time_hour

abbrev pub default_legacy_negative_ttl : ℕ
default_legacy_negative_ttl = 24 * time_hour

-- `unset` is the empty string.
pub data Profile : Type 0 where
  unset legacy dual rfc9421 : Profile
  unsupported : String → Profile

pub data Scope : Type 0 where
  fetch delivery : Scope
  unsupported : String → Scope

pub data Evidence : Type 0 where
  successful_rfc9421 accept_signature explicit_rfc9421_rejection successful_legacy_fallback :
      Evidence
  unsupported : String → Evidence

pub data Invalid : Type 0 where
  bad_origin : OriginError → Invalid
  origin_not_normalized bad_scope not_a_wire_profile bad_evidence no_observation_time : Invalid
  expires_before_observation : Invalid

pub record Capability : Type 0 where
  pub origin : String
  pub scope : Scope
  pub profile : Profile
  pub evidence : Evidence
  pub observed_at : ℕ
  pub expires_at : ℕ

-- DestinationScope.Validate
abbrev pub scope_valid : Scope → Bool
scope_valid (Scope.unsupported s) = false
scope_valid _ = true

abbrev pub is_wire : Profile → Bool
is_wire legacy = true
is_wire rfc9421 = true
is_wire _ = false

-- CapabilityEvidence.Validate
abbrev pub evidence_valid : Evidence → Profile → Bool
evidence_valid successful_rfc9421 rfc9421 = true
evidence_valid accept_signature rfc9421 = true
evidence_valid explicit_rfc9421_rejection legacy = true
evidence_valid successful_legacy_fallback legacy = true
evidence_valid _ _ = false

-- The checks of DestinationCapability.Validate that follow the one on the origin.
unfoldable pub validate_fields : Capability → Result Invalid (Unit {0})
validate_fields c =
    if not (scope_valid c.scope)
    then err bad_scope
    else if not (is_wire c.profile)
    then err not_a_wire_profile
    else if not (evidence_valid c.evidence c.profile)
    then err bad_evidence
    else if c.observed_at == 0
    then err no_observation_time
    else if not (ltb c.observed_at c.expires_at)
    then err expires_before_observation
    else ok tt

-- DestinationCapability.Validate
unfoldable pub validate : Runtime → Capability → Result Invalid (Unit {0})
unfolding validate_fields
validate go c = elim (normalize_destination_origin go c.origin) [
  | err e ↦ err (bad_origin e)
  | ok normalized ↦
      (if str_eq normalized c.origin then validate_fields c else err origin_not_normalized)
]

-- DestinationCapability.Fresh; `wall` is the reading of `time.Now` that stands in for a zero time.
unfoldable pub fresh : ℕ → Capability → ℕ → Bool
fresh wall c now = ltb (if now == 0 then wall else now) c.expires_at

pub data Reason : Type 0 where
  configured_legacy configured_rfc9421 cached_capability : Reason
  unknown_fetch_probe unknown_delivery_legacy : Reason

pub data NegotiationOutcome : Type 0 where
  success explicit_signature_rejection ambiguous_client_rejection : NegotiationOutcome
  transport_failure server_failure other_failure : NegotiationOutcome

pub record Plan : Type 0 where
  pub origin : String
  pub scope : Scope
  pub primary : Profile
  pub fallback : Profile
  pub reason : Reason

-- NegotiationPlan.HasFallback
abbrev pub has_fallback : Plan → Bool
has_fallback p = elim p.fallback [ unset ↦ false | _ ↦ true ]

abbrev pub permits_fallback : Scope → Profile → Profile → NegotiationOutcome → Bool
permits_fallback fetch rfc9421 legacy explicit_signature_rejection = true
permits_fallback fetch rfc9421 legacy ambiguous_client_rejection = true
permits_fallback _ _ _ _ = false

-- NegotiationPlan.ShouldFallback
unfoldable pub should_fallback : Plan → NegotiationOutcome → Bool
should_fallback p outcome = permits_fallback p.scope p.primary p.fallback outcome

-- The interface DestinationCapabilityStore. `E` is what a store's errors are, `S` its state.
pub record CapabilityStore (E S : Type 0) : Type 0 where
  pub load : S → Scope → String → Result E (Option Capability)
  pub save : S → Capability → Result E Bool × S

-- A nil interface is `none`.
pub record Negotiator (E S : Type 0) : Type 0 where
  pub store : Option (CapabilityStore E S)
  pub positive_ttl : ℕ
  pub negative_ttl : ℕ

-- `nil_dereference` is a panic.
pub data NegotiationError (E : Type 0) : Type 0 where
  nil_negotiator nil_dereference unsupported_scope unsupported_profile no_store : NegotiationError E
  not_positive_evidence evidence_refused : NegotiationError E
  origin_refused : OriginError → NegotiationError E
  capability_invalid : Invalid → NegotiationError E
  store_failed : E → NegotiationError E

-- The end of `Plan`, for a destination of which nothing fresh is known.
abbrev pub unknown_plan : Scope → String → Plan
unknown_plan fetch origin = record {
  origin = origin;
  scope = fetch;
  primary = rfc9421;
  fallback = legacy;
  reason = unknown_fetch_probe;
}
unknown_plan scope origin = record {
  origin = origin;
  scope = scope;
  primary = legacy;
  fallback = unset;
  reason = unknown_delivery_legacy;
}

abbrev pub cached_plan : Scope → String → Capability → Plan
cached_plan scope origin c = record {
  origin = origin;
  scope = scope;
  primary = c.profile;
  fallback = unset;
  reason = cached_capability;
}

abbrev pub fixed_plan : Scope → String → Profile → Reason → Plan
fixed_plan scope origin profile reason = record {
  origin = origin;
  scope = scope;
  primary = profile;
  fallback = unset;
  reason = reason;
}

module _ {E S : Type 0} where
  -- The part of `Plan` that consults the store, for the dual profile.
  unfoldable pub dual_plan :
      Runtime → CapabilityStore E S → S → ℕ → ℕ → Scope → String → Result (NegotiationError E) Plan
  unfolding fresh validate
  dual_plan go store s now wall scope origin = elim (store.load s scope origin) [
    | err e ↦ err (store_failed e)
    | ok none ↦ ok (unknown_plan scope origin)
    | ok (some c) ↦
        (if fresh wall c now
          then elim (validate go c) [
            | err e ↦ err (capability_invalid e)
            | ok _ ↦ ok (cached_plan scope origin c)
          ]
          else ok (unknown_plan scope origin))
  ]

  -- The switch of `Plan` on the configured profile.
  unfoldable pub plan_configured :
      Runtime
      → Negotiator E S
      → S
      → ℕ
      → ℕ
      → Profile
      → Scope
      → String
      → Result (NegotiationError E) Plan
  unfolding dual_plan
  plan_configured go n s now wall legacy scope origin =
      ok (fixed_plan scope origin legacy configured_legacy)
  plan_configured go n s now wall rfc9421 scope origin =
      ok (fixed_plan scope origin rfc9421 configured_rfc9421)
  plan_configured go n s now wall dual scope origin = elim n.store [
    | none ↦ err no_store
    | some store ↦ dual_plan go store s now wall scope origin
  ]
  plan_configured go n s now wall _ scope origin = err unsupported_profile

  -- DestinationNegotiator.Plan; a nil negotiator is `none`. `now` is what the negotiator's clock
  -- reads, `wall` what `time.Now` reads.
  unfoldable pub plan :
      Runtime
      → Option (Negotiator E S)
      → S
      → ℕ
      → ℕ
      → Profile
      → Scope
      → String
      → Result (NegotiationError E) Plan
  unfolding normalize_destination_origin plan_configured
  plan go none s now wall configured scope destination = err nil_negotiator
  plan go (some n) s now wall configured scope destination =
      if not (scope_valid scope)
      then err unsupported_scope
      else elim (normalize_destination_origin go destination) [
        | err e ↦ err (origin_refused e)
        | ok origin ↦ plan_configured go n s now wall configured scope origin
      ]

  -- The end of `saveObservation`, once the capability is built.
  unfoldable pub save_valid :
      Runtime
      → CapabilityStore E S
      → S
      → Capability
      → Result (NegotiationError E) (Capability × Bool) × S
  unfolding validate
  save_valid go store s c = elim (validate go c) [
    | err e ↦ (err (capability_invalid e), s)
    | ok _ ↦
        let (saved, s') = store.save s c in
        (elim saved [ ok b ↦ ok (c, b) | err e ↦ err (store_failed e) ], s')
  ]

  -- DestinationNegotiator.saveObservation
  unfoldable pub save_observation :
      Runtime
      → Option (Negotiator E S)
      → S
      → ℕ
      → Scope
      → String
      → Profile
      → Evidence
      → ℕ
      → Result (NegotiationError E) (Capability × Bool) × S
  unfolding normalize_destination_origin save_valid
  save_observation go none s now scope destination profile evidence ttl = (err nil_negotiator, s)
  save_observation go (some n) s now scope destination profile evidence ttl = elim n.store [
    | none ↦ (err no_store, s)
    | some store ↦
        (if not (scope_valid scope)
          then (err unsupported_scope, s)
          else if not (evidence_valid evidence profile)
          then (err evidence_refused, s)
          else elim (normalize_destination_origin go destination) [
            | err e ↦ (err (origin_refused e), s)
            | ok origin ↦ save_valid go store s (record {
              origin = origin;
              scope = scope;
              profile = profile;
              evidence = evidence;
              observed_at = now;
              expires_at = now + ttl;
            })
          ])
  ]

  -- ObserveRFC9421Success. It reads the field `positiveTTL` of a nil negotiator before
  -- `saveObservation` tests for nil.
  unfoldable pub observe_rfc9421_success :
      Runtime
      → Option (Negotiator E S)
      → S
      → ℕ
      → Scope
      → String
      → Evidence
      → Result (NegotiationError E) (Capability × Bool) × S
  unfolding save_observation
  observe_rfc9421_success go n s now scope destination evidence =
      if evidence_valid evidence rfc9421
      then elim n [
        | none ↦ (err nil_dereference, s)
        | some m ↦
            save_observation go (some m) s now scope destination rfc9421 evidence m.positive_ttl
      ]
      else (err not_positive_evidence, s)

  -- ObserveExplicitRFC9421Rejection and ObserveSuccessfulLegacyFallback
  unfoldable pub observe_legacy :
      Runtime
      → Option (Negotiator E S)
      → S
      → ℕ
      → Scope
      → String
      → Evidence
      → Result (NegotiationError E) (Capability × Bool) × S
  unfolding save_observation
  observe_legacy go none s now scope destination evidence = (err nil_dereference, s)
  observe_legacy go (some m) s now scope destination evidence =
      save_observation go (some m) s now scope destination legacy evidence m.negative_ttl

  unfoldable pub observe_explicit_rejection :
      Runtime
      → Option (Negotiator E S)
      → S
      → ℕ
      → Scope
      → String
      → Result (NegotiationError E) (Capability × Bool) × S
  unfolding observe_legacy
  observe_explicit_rejection go n s now scope destination =
      observe_legacy go n s now scope destination explicit_rfc9421_rejection

  unfoldable pub observe_legacy_fallback :
      Runtime
      → Option (Negotiator E S)
      → S
      → ℕ
      → Scope
      → String
      → Result (NegotiationError E) (Capability × Bool) × S
  unfolding observe_legacy
  observe_legacy_fallback go n s now scope destination =
      observe_legacy go n s now scope destination successful_legacy_fallback

pub data OptionsError : Type 0 where
  positive_too_short negative_too_short negative_exceeds_positive : OptionsError

-- An option that is zero stands for the default.
abbrev or_default : ℕ → ℤ → ℤ
or_default default option =
    if lebℤ option (pos 0) && lebℤ (pos 0) option then pos default else option

-- NewDestinationNegotiator, at durations with a sign; the clock is an argument of the methods. The
-- lifetimes of a negotiator are positive, and so natural numbers.
unfoldable pub new_negotiator :
    {E S : Type 0} → Option (CapabilityStore E S) → ℤ → ℤ → Result OptionsError (Negotiator E S)
new_negotiator store positive_option negative_option =
    let positive = or_default default_rfc9421_capability_ttl positive_option in
    let negative = or_default default_legacy_negative_ttl negative_option in
    if not (lebℤ (pos time_hour) positive)
    then err positive_too_short
    else if not (lebℤ (pos time_minute) negative)
    then err negative_too_short
    else if not (lebℤ negative positive)
    then err negative_exceeds_positive
    else ok (record {
      store = store;
      positive_ttl = pos_part positive;
      negative_ttl = pos_part negative;
    })
