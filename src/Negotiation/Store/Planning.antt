-- ===== src/Negotiation/Store/Planning.antt =====
-- What an observation of a destination does to later plans, over the store in Redis
-- (internal/httpsignature/destination_negotiation.go with redis_destination_capability.go).
use activity_relay.Base.{
  ℕ, ◌+◌, ◌-◌, ◌<◌, String, true, ◌≡◌, sym, ◌∙◌, ap, some, ok, ltb, arith, if◌then◌else◌,
}
use activity_relay.Go.{Runtime, Strconv}
use activity_relay.Redis.{Redis, Outcome}
use activity_relay.Origin.{normalize_destination_origin}
use activity_relay.Negotiation.{
  Profile, dual, Scope, Evidence, Capability, CapabilityStore, fresh, scope_valid, validate, plan,
  dual_plan, plan_configured, unknown_plan, cached_plan, save_observation,
}
use activity_relay.Negotiation.Cache.{save_observation_inversion}
use activity_relay.Negotiation.Store.{redis_store, load_capability}
use activity_relay.Negotiation.Store.Newest.{
  floor_ms, kept, HasStorableTimes, saved_db, load_stored, validate-kept, valid_parts,
}

plan-loaded :
    {E S : Type 0} (go : Runtime) (store : CapabilityStore E S) (positive negative : ℕ) (s : S)
    (now wall : ℕ) (scope : Scope) (destination origin : String) (c : Capability)
    → normalize_destination_origin go destination ≡ ok origin
    → scope_valid scope ≡ true
    → store.load s scope origin ≡ ok (some c)
    → validate go c ≡ ok tt
    → 0 < now
    → plan go
        (some (record { store = some store; positive_ttl = positive; negative_ttl = negative }))
        s
        now
        wall
        dual
        scope
        destination
      ≡ ok (if ltb now c.expires_at then cached_plan scope origin c else unknown_plan scope origin)
unfolding plan plan_configured dual_plan fresh
plan-loaded go store positive negative s now wall scope destination origin c normal known loads
      valid later =
    ground (arith, normal, known, loads, valid)

module _ (r : Redis) (go : Runtime) (sha256_hex : String → String) (c : Strconv)
    (prefix : String) where
  open r use {Db}

  -- Over the store in Redis and under the dual profile, a stored observation with storable times
  -- decides the plans for its destination and scope over the database that it left, at a time that is
  -- not zero: until its lifetime is over in whole milliseconds its profile is planned, and from then
  -- on the plan is the one for an unknown destination.
  pub plan-saved :
      (net : Outcome) (positive negative : ℕ) (d d' : Db) (now now' wall wall' : ℕ) (scope : Scope)
      (destination : String) (profile : Profile) (evidence : Evidence) (ttl : ℕ) (x : Capability)
      → save_observation go
          (some (record {
            store = some (redis_store r go sha256_hex c prefix net wall);
            positive_ttl = positive;
            negative_ttl = negative;
          }))
          d
          now
          scope
          destination
          profile
          evidence
          ttl
        ≡ (ok (x, true), d')
      → HasStorableTimes x
      → 0 < now'
      → plan go
          (some (record {
            store = some (redis_store r go sha256_hex c prefix net wall');
            positive_ttl = positive;
            negative_ttl = negative;
          }))
          d'
          now'
          wall'
          dual
          scope
          destination
        ≡ ok (
            if ltb now' (floor_ms (now + ttl))
            then cached_plan scope x.origin x
            else unknown_plan scope x.origin)
  plan-saved net positive negative d d' now now' wall wall' scope destination profile evidence ttl x
        saved times later =
      let store = redis_store r go sha256_hex c prefix net wall in
      let (normal, scoped, profiled, until, valid, written) =
        save_observation_inversion go store positive negative d d' now scope destination profile
          evidence ttl x saved in
      let (checked, lasts, stored) = saved_db r go sha256_hex c prefix net wall x d d' written in
      let loads : load_capability r go sha256_hex c prefix d' x.scope x.origin
          ≡ ok (some (kept x)) =
        rw (stored) (
          load_stored r go sha256_hex c prefix x (x.expires_at - wall) d (omega arith) times
            valid) in
      let planned =
        plan-loaded go (redis_store r go sha256_hex c prefix net wall') positive negative d' now'
          wall' scope destination x.origin (kept x) normal
          (ap scope_valid (sym scoped) ∙ (valid_parts go c x valid).0)
          (ap (λ s. load_capability r go sha256_hex c prefix d' s x.origin) (sym scoped) ∙ loads)
          (validate-kept go c x times valid) later in
      planned
      ∙ ap
          (λ t. ok (
            if ltb now' (floor_ms t)
            then cached_plan scope x.origin x
            else unknown_plan scope x.origin))
          until
