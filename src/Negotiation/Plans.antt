-- ===== src/Negotiation/Plans.antt =====
-- What `DestinationNegotiator.Plan` may choose.
use activity_relay.Base.{
  ℕ, String, true, false, ◌≡◌, ◌⊎◌, inl, inr, ◌∙◌, Option, none, some, Option-cases, Result-cases,
  Bool-cases, ok, arith,
}
use activity_relay.Go.{Runtime}
use activity_relay.Origin.{normalize_destination_origin}
use activity_relay.Negotiation.{
  Profile, unset, legacy, rfc9421, dual, Scope, fetch, delivery, Capability, Plan, Negotiator,
  CapabilityStore, NegotiationOutcome, unknown_fetch_probe, should_fallback, fresh, validate, plan,
  dual_plan, plan_configured,
}

validate-wire :
    (go : Runtime) (c : Capability)
    → validate go c ≡ ok tt
    → (c.profile ≡ rfc9421) ⊎ (c.profile ≡ legacy)
unfolding validate
validate-wire go c h = ground arith

module _ {E S : Type 0} (go : Runtime) (s : S) (now wall : ℕ) where
  -- The store knows nothing fresh of a scope of an origin.
  abbrev pub KnowsNothingFresh : CapabilityStore E S → Scope → String → Type 0
  KnowsNothingFresh store scope origin =
      (store.load s scope origin ≡ ok none)
      ⊎ ((c : Capability) × (store.load s scope origin ≡ ok (some c)) × (fresh wall c now ≡ false))

  -- The destination has an origin of which the negotiator's store knows nothing fresh.
  abbrev pub IsUnknown : Option (Negotiator E S) → Scope → String → Type 0
  IsUnknown n scope destination =
      (m : Negotiator E S) × (store : CapabilityStore E S) × (origin : String) × (n ≡ some m)
      × (m.store ≡ some store)
      × (normalize_destination_origin go destination ≡ ok origin)
      × KnowsNothingFresh store scope origin

  -- A plan under the dual profile, from a store, for an origin of which something may be fresh.
  dual_plan-known :
      (store : CapabilityStore E S) (origin : String) (p : Plan)
      → dual_plan go store s now wall fetch origin ≡ ok p
      → p.reason ≡ unknown_fetch_probe
      → KnowsNothingFresh store fetch origin
  unfolding dual_plan
  dual_plan-known store origin p h reason = elim (Result-cases (store.load s fetch origin)) [
    | inl (e, bad) ↦ absurd (ground (arith, bad))
    | inr (loaded, answered) ↦ elim (Option-cases loaded) [
      | inl nothing ↦ inl (rw nothing at answered)
      | inr (c, found) ↦ elim (Bool-cases (fresh wall c now)) [
        | inr stale ↦ inr (c, rw found at answered, stale)
        | inl new ↦ absurd (ground (arith, answered, found, new))
      ]
    ]
  ]

  probe-IsUnknown :
      (n : Option (Negotiator E S)) (destination : String) (p : Plan)
      → plan go n s now wall dual fetch destination ≡ ok p
      → p.reason ≡ unknown_fetch_probe
      → IsUnknown n fetch destination
  unfolding plan plan_configured
  probe-IsUnknown n destination p h reason = elim (Option-cases n) [
    | inl bad ↦ absurd (ground (arith, bad))
    | inr (m, has) ↦ elim (Result-cases (normalize_destination_origin go destination)) [
      | inl (e, bad) ↦ absurd (ground (arith, has, bad))
      | inr (origin, named) ↦ elim (Option-cases m.store) [
        | inl bad ↦ absurd (ground (arith, has, named, bad))
        | inr (store, held) ↦ (
          m,
          store,
          origin,
          has,
          held,
          named,
          dual_plan-known store origin p (ground (arith, has, named, held)) reason,
        )
      ]
    ]
  ]

  -- Which plans permit a second attempt, as far as the plan itself shows
  pub probes :
      (n : Option (Negotiator E S)) (configured : Profile) (scope : Scope) (destination : String)
      (p : Plan) (outcome : NegotiationOutcome)
      → plan go n s now wall configured scope destination ≡ ok p
      → should_fallback p outcome ≡ true
      → (scope ≡ fetch)
        × (configured ≡ dual)
        × (p.reason ≡ unknown_fetch_probe)
        × (p.primary ≡ rfc9421)
        × (p.fallback ≡ legacy)
  unfolding plan plan_configured dual_plan should_fallback
  probes n configured scope destination p outcome h k = ground arith

  -- A second attempt is permitted only to a fetch under the dual profile, to a destination with an
  -- origin for which the store loads no capability or one that is no longer fresh; the first attempt
  -- then carries RFC 9421, and the second one would carry the legacy profile.
  pub should_fallback-plan :
      (n : Option (Negotiator E S)) (configured : Profile) (scope : Scope) (destination : String)
      (p : Plan) (outcome : NegotiationOutcome)
      → plan go n s now wall configured scope destination ≡ ok p
      → should_fallback p outcome ≡ true
      → (scope ≡ fetch)
        × (configured ≡ dual)
        × (p.reason ≡ unknown_fetch_probe)
        × (p.primary ≡ rfc9421)
        × (p.fallback ≡ legacy)
        × IsUnknown n fetch destination
  should_fallback-plan n configured scope destination p outcome h k =
      let (scoped, dually, reason, primary, fallback) =
        probes n configured scope destination p outcome h k in
      (
        scoped,
        dually,
        reason,
        primary,
        fallback,
        probe-IsUnknown n destination p (rw (scoped, dually) at h) reason,
      )

  -- What the store must hold for the dual profile to send a delivery with RFC 9421.
  abbrev pub HasFreshRfc9421 : CapabilityStore E S → String → Type 0
  HasFreshRfc9421 store origin =
      (c : Capability) × (store.load s delivery origin ≡ ok (some c))
      × (fresh wall c now ≡ true)
      × (validate go c ≡ ok tt)
      × (c.profile ≡ rfc9421)

  -- What it holds otherwise: nothing fresh, or fresh and valid evidence of the legacy profile
  abbrev pub LacksRfc9421 : CapabilityStore E S → String → Type 0
  LacksRfc9421 store origin =
      KnowsNothingFresh store delivery origin
      ⊎ ((c : Capability) × (store.load s delivery origin ≡ ok (some c))
          × (fresh wall c now ≡ true)
          × (validate go c ≡ ok tt)
          × (c.profile ≡ legacy))

  -- Under the dual profile a delivery for which a plan is made carries RFC 9421 exactly where the
  -- store holds fresh, valid evidence of it for the origin; where it holds nothing fresh, or evidence
  -- of the legacy profile, the delivery stays legacy. No plan for a delivery permits a fallback. A
  -- store that fails, or holds an invalid capability that is fresh, yields no plan.
  pub plan_delivery_evidence :
      (store : CapabilityStore E S) (positive negative : ℕ) (destination origin : String) (p : Plan)
      → normalize_destination_origin go destination ≡ ok origin
      → plan go
          (some (record { store = some store; positive_ttl = positive; negative_ttl = negative }))
          s
          now
          wall
          dual
          delivery
          destination
        ≡ ok p
      → (p.origin ≡ origin)
        × (p.fallback ≡ unset)
        × ((p.primary ≡ rfc9421) × HasFreshRfc9421 store origin
            ⊎ (p.primary ≡ legacy) × LacksRfc9421 store origin)
  unfolding plan plan_configured dual_plan
  plan_delivery_evidence store positive negative destination origin p known planned =
      elim (Result-cases (store.load s delivery origin)) [
        | inl (e, bad) ↦ absurd (ground (arith, bad))
        | inr (loaded, answered) ↦ elim (Option-cases loaded) [
          | inl nothing ↦ (
            ground (arith, answered, nothing),
            ground (arith, answered, nothing),
            inr (ground (arith, answered, nothing), inl (inl (rw nothing at answered))),
          )
          | inr (c, found) ↦
              let held : store.load s delivery origin ≡ ok (some c) = rw found at answered in
              elim (Bool-cases (fresh wall c now)) [
                | inr stale ↦ (
                  ground (arith, held, stale),
                  ground (arith, held, stale),
                  inr (ground (arith, held, stale), inl (inr (c, held, stale))),
                )
                | inl new ↦ known_plan c held new
              ]
        ]
      ]
    where
      known_plan :
          (c : Capability)
          → store.load s delivery origin ≡ ok (some c)
          → fresh wall c now ≡ true
          → (p.origin ≡ origin)
            × (p.fallback ≡ unset)
            × ((p.primary ≡ rfc9421) × HasFreshRfc9421 store origin
                ⊎ (p.primary ≡ legacy) × LacksRfc9421 store origin)
      known_plan c held new =
          let valid : validate go c ≡ ok tt = ground arith in
          let same : p.primary ≡ c.profile = ground arith in
          (
            ground arith,
            ground arith,
            elim (validate-wire go c valid) [
              | inl modern ↦ inl (same ∙ modern, (c, held, new, valid, modern))
              | inr old ↦ inr (same ∙ old, inr (c, held, new, valid, old))
            ],
          )
