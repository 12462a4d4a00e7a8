-- ===== src/Negotiation/Signer/Fetch.antt =====
-- DoGET of internal/httpsignature/configured_signer.go: a signed fetch with at most one fallback.
use activity_relay.Base.{
  ℕ, ◌/◌, String, Bool, true, false, not, ◌&&◌, Option, none, some, Result, ok, err, List, [], ◌∷◌,
  leb, ◌==◌, if◌then◌else◌,
}
use activity_relay.Go.{Runtime}
use activity_relay.Negotiation.{
  Profile, unset, legacy, fetch, Plan, cached_capability, NegotiationOutcome,
  ambiguous_client_rejection, should_fallback,
}
use activity_relay.Negotiation.Challenges.{Http}
use activity_relay.Negotiation.Signer.{
  SignerError, too_many_redirects, redirect_refused, ConfiguredSigner, HttpResponse, Signed,
  classify_negotiation_outcome, sign_planned_get, sign_get_with_profile, observe_response,
  observe_legacy_best_effort,
}

-- CheckRedirect, at the redirect's URL and the number of the requests before it: an error, or the plan
-- that is attached to the request that follows.
abbrev pub CheckRedirect : Type 0 → Type 0 → Type 0
CheckRedirect E S = String → ℕ → S → Result (SignerError E) Plan

-- The HTTP client: `Do`, and the CheckRedirect that it had. The clocks are read from the state.
pub record HttpClient (E S : Type 0) : Type 0 where
  pub do_request : CheckRedirect E S → Signed → S → Result (SignerError E) HttpResponse × S
  pub previous_redirect : String → ℕ → Bool
  pub now : S → ℕ
  pub wall : S → ℕ

-- The requests that were given to the client, in order; the result; the state that is left.
pub record Fetched (E S : Type 0) : Type 0 where
  pub sent : List Signed
  pub answer : Result (SignerError E) HttpResponse
  pub after : S

module _ {E S : Type 0} (go : Runtime) (http : Http) (client : HttpClient E S) where
  -- The CheckRedirect of DoGET
  unfoldable pub check_redirect : Option (ConfiguredSigner E S) → CheckRedirect E S
  check_redirect signer url via s =
      if leb 10 via
      then err too_many_redirects
      else if not (client.previous_redirect url via)
      then err redirect_refused
      else sign_planned_get go signer s (client.now s) (client.wall s) url

  -- The plan of the request that was answered, or the one that was begun with
  abbrev pub applied_plan : Plan → HttpResponse → Plan
  applied_plan begun response = elim response.plan [ none ↦ begun | some p ↦ p ]

  abbrev pub fallback_plan : Plan → Plan
  fallback_plan final = record {
    origin = final.origin;
    scope = fetch;
    primary = final.fallback;
    fallback = unset;
    reason = cached_capability;
  }

  abbrev pub is_legacy : Profile → Bool
  is_legacy legacy = true
  is_legacy _ = false

  abbrev pub is_ambiguous : NegotiationOutcome → Bool
  is_ambiguous ambiguous_client_rejection = true
  is_ambiguous _ = false

  abbrev pub observe_fetch : Option (ConfiguredSigner E S) → Profile → HttpResponse → S → S
  observe_fetch signer profile response s =
      observe_response go http signer s (client.now s) fetch response.url profile response.status
        response.www_authenticate response.accept_signature

  -- What follows the fallback's response
  unfoldable pub observe_fallback :
      Option (ConfiguredSigner E S) → NegotiationOutcome → Plan → HttpResponse → S → S
  observe_fallback signer outcome begun response s =
      let primary = (applied_plan begun response).primary in
      let s' = observe_fetch signer primary response s in
      if is_ambiguous outcome && is_legacy primary && (response.status / 100 == 2)
      then observe_legacy_best_effort go signer s' (client.now s') response.url
      else s'

  -- The second half of DoGET: the fallback, to the URL of the last request
  unfoldable pub fall_back :
      Option (ConfiguredSigner E S) → NegotiationOutcome → Plan → String → S → Fetched E S
  fall_back signer outcome final url s =
      let request : Signed = record { url = url; plan = fallback_plan final } in
      let (answer, s') = client.do_request (check_redirect signer) request s in
      elim (sign_get_with_profile go signer url final.fallback) [
        | err e ↦ record { sent = []; answer = err e; after = s }
        | ok wire ↦ elim answer [
          | err e ↦ record { sent = request ∷ []; answer = err e; after = s' }
          | ok response ↦ record {
            sent = request ∷ [];
            answer = ok response;
            after = observe_fallback signer outcome (fallback_plan final) response s';
          }
        ]
      ]

  -- What follows the first response
  unfoldable pub after_first :
      Option (ConfiguredSigner E S) → Signed → HttpResponse → S → Fetched E S
  after_first signer request response s =
      let final = applied_plan request.plan response in
      let s' = observe_fetch signer final.primary response s in
      let outcome = classify_negotiation_outcome http (some response) in
      let second = fall_back signer outcome final response.url s' in
      if not (should_fallback final outcome)
      then record { sent = request ∷ []; answer = ok response; after = s' }
      else record { sent = request ∷ second.sent; answer = second.answer; after = second.after }

  -- DoGET, at a client and a request that are not nil
  unfoldable pub do_get : Option (ConfiguredSigner E S) → String → S → Fetched E S
  do_get signer url s = elim (sign_planned_get go signer s (client.now s) (client.wall s) url) [
    | err e ↦ record { sent = []; answer = err e; after = s }
    | ok p ↦
        let request : Signed = record { url = url; plan = p } in
        let (answer, s') = client.do_request (check_redirect signer) request s in
        elim answer [
          | err e ↦ record { sent = request ∷ []; answer = err e; after = s' }
          | ok response ↦ after_first signer request response s'
        ]
  ]
