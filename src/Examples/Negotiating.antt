-- ===== src/Examples/Negotiating.antt =====
-- Runs of the negotiator, over a store of one capability.
use activity_relay.Base.{
  err, ◌⊎◌, ℕ, ◌+◌, ◌*◌, String, Bool, true, false, ◌&&◌, ◌≡◌, refl, Option, none, some, Result, ok,
  str_eq, trim_space, trim_suffix, if◌then◌else◌,
}
use activity_relay.Origin.{normalize_destination_origin}
use activity_relay.Negotiation.{
  unset, negative_too_short, time_hour, legacy, dual, rfc9421, Scope, fetch, delivery,
  successful_rfc9421, Capability, Plan, Negotiator, CapabilityStore, unknown_fetch_probe,
  explicit_signature_rejection, plan, cached_plan, should_fallback, fresh, validate, new_negotiator,
}
use activity_relay.Base.Int.{pos, negsuc}
use activity_relay.Negotiation.Plans.{
  IsUnknown, LacksRfc9421, should_fallback-plan, HasFreshRfc9421, plan_delivery_evidence,
}
use activity_relay.Examples.Fixtures.{go}

abbrev same_scope : Scope → Scope → Bool
same_scope fetch fetch = true
same_scope delivery delivery = true
same_scope (Scope.unsupported s) (Scope.unsupported t) = str_eq s t
same_scope _ _ = false

abbrev one_load : Option Capability → Scope → String → Result (Unit {0}) (Option Capability)
one_load none scope origin = ok none
one_load (some c) scope origin =
    if same_scope c.scope scope && str_eq c.origin origin then ok (some c) else ok none

abbrev one_save : Option Capability → Capability → Result (Unit {0}) Bool × Option Capability
one_save held c = (ok true, some c)

abbrev one_store : CapabilityStore (Unit {0}) (Option Capability)
one_store = record { load = one_load; save = one_save }

abbrev a_day : ℕ
a_day = 24 * time_hour

abbrev pub negotiator : Option (Negotiator (Unit {0}) (Option Capability))
negotiator =
    some (record { store = some one_store; positive_ttl = a_day; negative_ttl = time_hour })

abbrev learnt : Capability
learnt = record {
  origin = "https://a.example";
  scope = delivery;
  profile = rfc9421;
  evidence = successful_rfc9421;
  observed_at = 1;
  expires_at = 1 + a_day;
}

abbrev pub probe : Plan
probe = record {
  origin = "https://a.example";
  scope = fetch;
  primary = rfc9421;
  fallback = legacy;
  reason = unknown_fetch_probe;
}

abbrev pub inbox_a : String
inbox_a = "https://a.example/inbox"

-- A negative lifetime is refused, and zero stands for the default.
negative_lifetime : new_negotiator (some one_store) (pos 0) (negsuc 4) ≡ err negative_too_short
unfolding new_negotiator
negative_lifetime = refl

should_fallback-plan_example :
    (fetch ≡ fetch)
    × (dual ≡ dual)
    × (probe.reason ≡ unknown_fetch_probe)
    × (probe.primary ≡ rfc9421)
    × (probe.fallback ≡ legacy)
    × IsUnknown go none 5 5 negotiator fetch inbox_a
unfolding plan should_fallback normalize_destination_origin trim_space trim_suffix
should_fallback-plan_example =
    should_fallback-plan go none 5 5 negotiator dual fetch inbox_a probe
      explicit_signature_rejection refl refl

plan_delivery_evidence_example :
    (learnt.origin ≡ learnt.origin)
    × (unset ≡ unset)
    × ((rfc9421 ≡ rfc9421) × HasFreshRfc9421 go (some learnt) 5 5 one_store "https://a.example"
        ⊎ (rfc9421 ≡ legacy) × LacksRfc9421 go (some learnt) 5 5 one_store "https://a.example")
unfolding plan normalize_destination_origin fresh validate trim_space trim_suffix
plan_delivery_evidence_example =
    plan_delivery_evidence go (some learnt) 5 5 one_store a_day time_hour inbox_a
      "https://a.example" (cached_plan delivery "https://a.example" learnt) refl refl
