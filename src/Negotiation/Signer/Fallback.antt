-- ===== src/Negotiation/Signer/Fallback.antt =====
-- When a signed fetch is sent again with the other profile (internal/httpsignature/configured_signer.go).
use activity_relay.Base.{
  ℕ, String, true, Bool-cases, Result-cases, ◌≡◌, ◌⊎◌, inl, inr, refl, some, ok, err, List, [], ◌∷◌,
  arith,
}
use activity_relay.Go.{Runtime}
use activity_relay.Negotiation.{
  legacy, dual, unset, fetch, Plan, should_fallback, NegotiationOutcome,
}
use activity_relay.Negotiation.Plans.{should_fallback-plan}
use activity_relay.Negotiation.Challenges.{Http, explicit_legacy_signature_rejection}
use activity_relay.Negotiation.Signer.{
  SignerError, ConfiguredSigner, HttpResponse, Signed, classify_negotiation_outcome, signer_plan,
  plan_fixed, sign_planned_get,
}
use activity_relay.Negotiation.Signer.Fetch.{
  CheckRedirect, HttpClient, check_redirect, applied_plan, fallback_plan, observe_fetch, fall_back,
  after_first, do_get,
}

-- What net/http documents of a request's context: the last request has the plan that it was sent with,
-- or one that CheckRedirect attached to it.
abbrev pub KeepsPlans : {E S : Type 0} → HttpClient E S → Type 0
KeepsPlans {E} {S} client =
    (check : CheckRedirect E S) (request : Signed) (s : S) (response : HttpResponse)
    → (client.do_request check request s).0 ≡ ok response
    → (response.plan ≡ some request.plan)
      ⊎ ((url : String) × (via : ℕ) × (t : S) × (p : Plan) × (check url via t ≡ ok p)
          × (response.plan ≡ some p))

module _ {E S : Type 0} (go : Runtime) (http : Http) (client : HttpClient E S)
    (signer : ConfiguredSigner E S) where
  -- A response that asks for the other profile: an explicit challenge, or a 400
  abbrev pub AsksAgain : HttpResponse → Type 0
  AsksAgain response =
      (explicit_legacy_signature_rejection http response.status response.www_authenticate ≡ true)
      ⊎ (response.status ≡ 400)

  -- The request of a URL, under the plan that the signer makes for it in a state
  abbrev pub IsFirst : String → S → Signed → Type 0
  IsFirst url s request =
      (request.url ≡ url)
      × (sign_planned_get go (some signer) s (client.now s) (client.wall s) url ≡ ok request.plan)

  -- The client answers a request with a response.
  abbrev pub IsAnsweredBy : Signed → S → HttpResponse → Type 0
  IsAnsweredBy request s response =
      (client.do_request (check_redirect go http client (some signer)) request s).0 ≡ ok response

  -- The requests of the fetch of a URL in a state
  pub data IsFetch (url : String) (s : S) : List Signed → Type 0 where
    unsent :
        (e : SignerError E)
        → sign_planned_get go (some signer) s (client.now s) (client.wall s) url ≡ err e
        → IsFetch url s []
    once : (first : Signed) → IsFirst url s first → IsFetch url s (first ∷ [])
    twice :
        (first second : Signed) (response : HttpResponse)
        → IsFirst url s first
        → signer.profile ≡ dual
        → IsAnsweredBy first s response
        → AsksAgain response
        → second.url ≡ response.url
        → second.plan.origin ≡ (applied_plan go http client first.plan response).origin
        → second.plan.primary ≡ legacy
        → second.plan.fallback ≡ unset
        → IsFetch url s (first ∷ second ∷ [])

  -- A plan that the signer may have made for a fetch
  abbrev IsPlanned : Plan → Type 0
  IsPlanned p =
      (url : String) × (s : S) × (now : ℕ) × (wall : ℕ) × (signer_plan go (some signer) s now wall
          fetch url
        ≡ ok p)

  planned_fallback :
      (p : Plan) (outcome : NegotiationOutcome)
      → IsPlanned p
      → should_fallback p outcome ≡ true
      → (signer.profile ≡ dual) × (p.fallback ≡ legacy)
  unfolding signer_plan plan_fixed should_fallback
  planned_fallback p outcome (url, s, now, wall, h) again = ground (
    arith,
    should_fallback-plan go s now wall signer.negotiator signer.profile fetch url p outcome,
  )

  asked :
      (p : Plan) (response : HttpResponse)
      → should_fallback p (classify_negotiation_outcome http (some response)) ≡ true
      → AsksAgain response
  unfolding should_fallback classify_negotiation_outcome
  asked p response h = ground arith

  sign_planned_get-IsPlanned :
      (s : S) (now wall : ℕ) (url : String) (p : Plan)
      → sign_planned_get go (some signer) s now wall url ≡ ok p
      → IsPlanned p
  unfolding sign_planned_get
  sign_planned_get-IsPlanned s now wall url p h = (url, s, now, wall, ground arith)

  applied-IsPlanned :
      (request : Signed) (s : S) (response : HttpResponse)
      → KeepsPlans client
      → IsPlanned request.plan
      → (client.do_request (check_redirect go http client (some signer)) request s).0 ≡ ok response
      → IsPlanned (applied_plan go http client request.plan response)
  unfolding check_redirect
  applied-IsPlanned request s response keeps planned h =
      elim (keeps (check_redirect go http client (some signer)) request s response h) [
        | inl same ↦ rw (same) planned
        | inr (url, via, t, p, checked, attached) ↦
            rw (attached)
              (sign_planned_get-IsPlanned t (client.now t) (client.wall t) url p (ground arith))
      ]

  fall_back-sent :
      (outcome : NegotiationOutcome) (final : Plan) (url : String) (s : S)
      → ((fall_back go http client (some signer) outcome final url s).sent ≡ [])
        ⊎ ((fall_back go http client (some signer) outcome final url s).sent
            ≡ record { url = url; plan = fallback_plan go http client final } ∷ [])
  unfolding fall_back
  fall_back-sent outcome final url s = ground arith

  after_first-IsFetch :
      (url : String) (s : S) (request : Signed) (response : HttpResponse) (t : S)
      → IsFirst url s request
      → IsAnsweredBy request s response
      → IsPlanned (applied_plan go http client request.plan response)
      → IsFetch url s (after_first go http client (some signer) request response t).sent
  unfolding after_first
  after_first-IsFetch url s request response t first answered planned =
      let final = applied_plan go http client request.plan response in
      let outcome = classify_negotiation_outcome http (some response) in
      let t' = observe_fetch go http client (some signer) final.primary response t in
      elim (Bool-cases (should_fallback final outcome)) [
        | inr stays ↦ rw (stays) (once request first)
        | inl again ↦
            let (profile, fallback) = planned_fallback final outcome planned again in
            elim (fall_back-sent outcome final response.url t') [
              | inl unsigned ↦ rw (again, unsigned) (once request first)
              | inr sent ↦
                  rw (again, sent)
                    (twice request
                      (record { url = response.url; plan = fallback_plan go http client final })
                      response first profile answered (asked final response again) refl refl
                      fallback refl)
            ]
      ]

  -- A fetch sends nothing, if the request cannot be planned or signed; or one request, of its URL
  -- under the plan that was made for it; or a second one after that. It sends a second one only under
  -- the dual profile and if the client answers the first one with an explicit challenge or a 400: to
  -- the URL of that answer and for the origin of the plan that was answered, with the legacy profile
  -- and no fallback. The client keeps a request's context, as net/http does.
  pub do_get-IsFetch :
      (url : String) (s : S)
      → KeepsPlans client
      → IsFetch url s (do_get go http client (some signer) url s).sent
  unfolding do_get
  do_get-IsFetch url s keeps =
      elim (Result-cases (sign_planned_get go (some signer) s (client.now s) (client.wall s) url)) [
        | inl (e, refused) ↦ rw (refused, do_get) (unsent e refused)
        | inr (p, planned) ↦
            let request : Signed = record { url = url; plan = p } in
            let first : IsFirst url s request = (refl, planned) in
            let check = check_redirect go http client (some signer) in
            elim (Result-cases (client.do_request check request s).0) [
              | inl (e, failed) ↦ rw (planned, do_get, failed) (once request first)
              | inr (response, answered) ↦
                  rw (planned, do_get, answered)
                    (after_first-IsFetch url s request response
                      (client.do_request check request s).1 first answered
                      (applied-IsPlanned request s response keeps
                        (sign_planned_get-IsPlanned s (client.now s) (client.wall s) url p planned)
                        answered))
            ]
      ]
