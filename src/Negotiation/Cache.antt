-- ===== src/Negotiation/Cache.antt =====
-- What an observation of a destination leaves in the store.
use activity_relay.Base.{ℕ, ◌+◌, String, true, ◌≡◌, some, ok, arith}
use activity_relay.Go.{Runtime}
use activity_relay.Origin.{normalize_destination_origin}
use activity_relay.Negotiation.{
  Profile, Scope, Evidence, Capability, CapabilityStore, validate, save_observation, save_valid,
}

module _ {E S : Type 0} (go : Runtime) (store : CapabilityStore E S) where
  -- Whatever a successful observation returns is a valid capability, at the clock's time.
  pub save_observation_inversion :
      (positive negative : ℕ) (s s' : S) (now : ℕ) (scope : Scope) (destination : String)
      (profile : Profile) (evidence : Evidence) (ttl : ℕ) (c : Capability)
      → save_observation go
          (some (record { store = some store; positive_ttl = positive; negative_ttl = negative }))
          s
          now
          scope
          destination
          profile
          evidence
          ttl
        ≡ (ok (c, true), s')
      → (normalize_destination_origin go destination ≡ ok c.origin)
        × (c.scope ≡ scope)
        × (c.profile ≡ profile)
        × (c.expires_at ≡ now + ttl)
        × (validate go c ≡ ok tt)
        × (store.save s c ≡ (ok true, s'))
  unfolding save_observation save_valid
  save_observation_inversion positive negative s s' now scope destination profile evidence ttl c h =
      ground arith
