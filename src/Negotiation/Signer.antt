-- ===== src/Negotiation/Signer.antt =====
-- The signer with a configured or a negotiated policy (internal/httpsignature/configured_signer.go).
-- What net/http's client does with one request, its redirects included, is a parameter that is given
-- CheckRedirect; the state `S` is that of the capability store, the clock and the network.
pub mod Fetch
pub mod Fallback
use activity_relay.Base.{
  ℕ, ◌/◌, String, Bool, true, false, ◌&&◌, ◌||◌, ◌≡◌, ◌⊎◌, Option, none, some, Result, ok, err,
  List, [], ◌∷◌, leb, ◌==◌, if◌then◌else◌, trim_space, str_eq,
}
use activity_relay.Go.{Runtime}
use activity_relay.Origin.{OriginError, normalize_destination_origin}
use activity_relay.Negotiation.{
  Profile, unset, legacy, dual, rfc9421, Scope, fetch, successful_rfc9421, accept_signature,
  Capability, Plan, cached_capability, configured_legacy, configured_rfc9421, Reason,
  NegotiationOutcome, success, explicit_signature_rejection, ambiguous_client_rejection,
  transport_failure, server_failure, other_failure, Negotiator, NegotiationError, plan, fixed_plan,
  should_fallback, observe_rfc9421_success, observe_explicit_rejection, observe_legacy_fallback,
}
use activity_relay.Negotiation.Names.{
  profile_name, parse_profile, parse_wire_profile, parse_outbound_profile,
}
use activity_relay.Negotiation.Challenges.{
  Http, compatible_accept_signature, explicit_legacy_signature_rejection,
}

pub data SignerError (E : Type 0) : Type 0 where
  bad_profile dual_requires_policy not_initialized signing_failed too_many_redirects : SignerError E
  redirect_refused client_failed no_key_id no_private_key : SignerError E
  planning : NegotiationError E → SignerError E
  bad_destination : OriginError → SignerError E

-- The Signer of internal/httpsignature/signer.go: its key ID, and whether a GET of the URL can be
-- signed with a wire profile.
pub record WireSigner : Type 0 where
  pub key_id : String
  pub can_sign_get : String → Profile → Bool

pub record ConfiguredSigner (E S : Type 0) : Type 0 where
  pub signer : WireSigner
  pub profile : Profile
  pub negotiator : Option (Negotiator E S)

-- What DoGET reads of a response: its request's URL and plan, the status, and two headers.
pub record HttpResponse : Type 0 where
  pub url : String
  pub plan : Option Plan
  pub status : ℕ
  pub www_authenticate : List String
  pub accept_signature : List String

-- A request as DoGET gives it to the client: signed for the plan that is attached to it.
pub record Signed : Type 0 where
  pub url : String
  pub plan : Plan

-- classifyNegotiationOutcome; a nil response is `none`.
unfoldable pub classify_negotiation_outcome : Http → Option HttpResponse → NegotiationOutcome
classify_negotiation_outcome http none = transport_failure
classify_negotiation_outcome http (some response) =
    if response.status / 100 == 2
    then success
    else if explicit_legacy_signature_rejection http response.status response.www_authenticate
    then explicit_signature_rejection
    else if response.status == 400
    then ambiguous_client_rejection
    else if response.status / 100 == 5
    then server_failure
    else other_failure

abbrev pub fixed_reason : Profile → Reason
fixed_reason rfc9421 = configured_rfc9421
fixed_reason _ = configured_legacy

-- The end of ConfiguredSigner.Plan, without a negotiator
unfoldable pub plan_fixed :
    {E : Type 0} → Runtime → Profile → Scope → String → Result (SignerError E) Plan
plan_fixed go dual scope destination = err dual_requires_policy
plan_fixed go profile scope destination = elim (normalize_destination_origin go destination) [
  | err e ↦ err (bad_destination e)
  | ok origin ↦ ok (fixed_plan scope origin profile (fixed_reason profile))
]

module _ {E S : Type 0} (go : Runtime) where
  -- newConfiguredSigner with NewSigner, of which a key ID and a private key are asked
  unfoldable pub new_signer :
      Option (String → Profile → Bool)
      → String
      → Profile
      → Option (Negotiator E S)
      → Result (SignerError E) (ConfiguredSigner E S)
  new_signer private_key key_id profile negotiator =
      if str_eq (trim_space key_id) "" then err no_key_id else elim private_key [
        | none ↦ err no_private_key
        | some key ↦ ok (record {
          signer = record { key_id = key_id; can_sign_get = key };
          profile = profile;
          negotiator = negotiator;
        })
      ]

  -- NewConfiguredSigner
  unfoldable pub new_configured_signer :
      Option (String → Profile → Bool)
      → String
      → Profile
      → Result (SignerError E) (ConfiguredSigner E S)
  unfolding new_signer
  new_configured_signer private_key key_id profile =
      elim (parse_profile go (profile_name profile)) [
        | none ↦ err bad_profile
        | some dual ↦ err dual_requires_policy
        | some normalized ↦ new_signer private_key key_id normalized none
      ]

  -- NewNegotiatingSigner
  unfoldable pub new_negotiating_signer :
      Option (String → Profile → Bool)
      → String
      → Profile
      → Option (Negotiator E S)
      → Result (SignerError E) (ConfiguredSigner E S)
  unfolding new_signer
  new_negotiating_signer private_key key_id profile negotiator =
      elim (parse_outbound_profile go (profile_name profile)) [
        | none ↦ err bad_profile
        | some dual ↦ elim negotiator [
          | none ↦ err dual_requires_policy
          | some n ↦ new_signer private_key key_id dual (some n)
        ]
        | some normalized ↦ new_signer private_key key_id normalized negotiator
      ]

  -- ConfiguredSigner.Plan; a nil signer is `none`.
  unfoldable pub signer_plan :
      Option (ConfiguredSigner E S) → S → ℕ → ℕ → Scope → String → Result (SignerError E) Plan
  unfolding plan_fixed
  signer_plan none s now wall scope destination = err not_initialized
  signer_plan (some signer) s now wall scope destination = elim signer.negotiator [
    | none ↦ plan_fixed go signer.profile scope destination
    | some n ↦ elim (plan go (some n) s now wall signer.profile scope destination) [
      | err e ↦ err (planning e)
      | ok p ↦ ok p
    ]
  ]

  -- SignGETWithProfile
  unfoldable pub sign_get_with_profile :
      Option (ConfiguredSigner E S) → String → Profile → Result (SignerError E) Profile
  sign_get_with_profile none url profile = err not_initialized
  sign_get_with_profile (some signer) url profile =
      elim (parse_wire_profile go (profile_name profile)) [
        | none ↦ err bad_profile
        | some wire ↦ (if signer.signer.can_sign_get url wire then ok wire else err signing_failed)
      ]

  -- signPlannedGET: the plan that is attached to the signed request
  unfoldable pub sign_planned_get :
      Option (ConfiguredSigner E S) → S → ℕ → ℕ → String → Result (SignerError E) Plan
  sign_planned_get signer s now wall url = elim (signer_plan signer s now wall fetch url) [
    | err e ↦ err e
    | ok p ↦ elim (sign_get_with_profile signer url p.primary) [ err e ↦ err e | ok wire ↦ ok p ]
  ]

  -- ObserveResponse, whose errors DoGET only logs: what becomes of the store
  unfoldable pub observe_response :
      Http
      → Option (ConfiguredSigner E S)
      → S
      → ℕ
      → Scope
      → String
      → Profile
      → ℕ
      → List String
      → List String
      → S
  observe_response http none s now scope destination profile status challenges accepted = s
  observe_response http (some signer) s now scope destination profile status challenges accepted =
      let used : Bool = elim profile [ rfc9421 ↦ true | _ ↦ false ] in
      let rejected = explicit_legacy_signature_rejection http status challenges in
      let asked = compatible_accept_signature http accepted scope signer.signer.key_id in
      let evidence = if used then successful_rfc9421 else accept_signature in
      elim signer.negotiator [
        | none ↦ s
        | some n ↦
            (if status / 100 == 2
              then (if used || asked
                  then (observe_rfc9421_success go (some n) s now scope destination evidence).1
                  else s)
              else if used && rejected
              then (observe_explicit_rejection go (some n) s now scope destination).1
              else s)
      ]

  -- observeLegacyFallbackBestEffort
  unfoldable pub observe_legacy_best_effort : Option (ConfiguredSigner E S) → S → ℕ → String → S
  observe_legacy_best_effort none s now destination = s
  observe_legacy_best_effort (some signer) s now destination = elim signer.negotiator [
    | none ↦ s
    | some n ↦ (observe_legacy_fallback go (some n) s now fetch destination).1
  ]
