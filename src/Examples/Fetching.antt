-- ===== src/Examples/Fetching.antt =====
-- Runs of a signed fetch and of the store of capabilities.
use activity_relay.Base.{
  ltb, if◌then◌else◌, ℕ, ◌+◌, ◌*◌, String, true, ◌≡◌, refl, Option, none, some, ok, List, [], ◌∷◌,
  arith, str_eq, inl, trim_space, trim_suffix,
}
use activity_relay.Origin.{normalize_destination_origin}
use activity_relay.Negotiation.{
  Profile, legacy, dual, rfc9421, unset, fetch, delivery, Capability, explicit_rfc9421_rejection,
  successful_rfc9421, plan, should_fallback, cached_capability, validate,
}
use activity_relay.Negotiation.Names.{parse_wire_profile}
use activity_relay.Negotiation.Challenges.{
  Http, split_authentication_challenges, split_from, names_signature_scheme,
  explicit_legacy_signature_rejection,
}
use activity_relay.Negotiation.Challenges.Splitting.{
  IsSplit, split_authentication_challenges-IsSplit,
}
use activity_relay.Negotiation.Signer.{
  ConfiguredSigner, HttpResponse, Signed, signer_plan, sign_planned_get, sign_get_with_profile,
  classify_negotiation_outcome,
}
use activity_relay.Negotiation.Signer.Fetch.{HttpClient, do_get, after_first, fall_back}
use activity_relay.Negotiation.Signer.Fallback.{KeepsPlans, IsFetch, do_get-IsFetch}
use activity_relay.Negotiation.{
  time_hour, CapabilityStore, save_observation, cached_plan, unknown_plan,
}
use activity_relay.Redis.{answered}
use activity_relay.Negotiation.Store.{
  load_capability, save_capability, redis_store, CapabilityError, save_script, as_new,
}
use activity_relay.Negotiation.Store.Newest.{floor_ms}
use activity_relay.Negotiation.Store.Planning.{plan-saved}
use activity_relay.Negotiation.Store.Sequence.{Save, save_all, none_left, also, load-save_all}
use activity_relay.Examples.Fixtures.{go}
use activity_relay.Examples.Memory.{Keyspace, memory, empty}
use activity_relay.Examples.Storing.{unary_numbers, digest}
use activity_relay.Examples.Negotiating.{negotiator, probe, inbox_a}

abbrev http : Http
http = record { fields = λ s. s ∷ []; equal_fold = str_eq; unmarshal_dictionary = λ lines. none }

abbrev status_of : Profile → ℕ × List String
status_of rfc9421 = (401, "Signature" ∷ [])
status_of _ = (200, [])

abbrev answer_to : Signed → HttpResponse
answer_to request = record {
  url = request.url;
  plan = some request.plan;
  status = (status_of request.plan.primary).0;
  www_authenticate = (status_of request.plan.primary).1;
  accept_signature = [];
}

abbrev client : HttpClient (Unit {0}) (Option Capability)
client = record {
  do_request = λ check request s. (ok (answer_to request), s);
  previous_redirect = λ url via. true;
  now = λ s. 5;
  wall = λ s. 5;
}

client-KeepsPlans : KeepsPlans client
client-KeepsPlans check request s response h = inl (ground arith)

abbrev signer : ConfiguredSigner (Unit {0}) (Option Capability)
signer = record {
  signer = record { key_id = "k"; can_sign_get = λ url profile. true };
  profile = dual;
  negotiator = negotiator;
}

abbrev probed : Signed
probed = record { url = inbox_a; plan = probe }

abbrev again : Signed
again = record {
  url = inbox_a;
  plan = record {
    origin = "https://a.example";
    scope = fetch;
    primary = legacy;
    fallback = unset;
    reason = cached_capability;
  };
}

do_get-IsFetch_example : IsFetch go http client signer inbox_a none (probed ∷ again ∷ [])
unfolding do_get after_first fall_back sign_planned_get signer_plan plan sign_get_with_profile
    parse_wire_profile should_fallback classify_negotiation_outcome
    explicit_legacy_signature_rejection split_authentication_challenges split_from
    names_signature_scheme
do_get-IsFetch_example = do_get-IsFetch go http client signer inbox_a none client-KeepsPlans

abbrev destination : String
destination = "https://a.example"

abbrev ms : ℕ
ms = 1000000

abbrev offset : ℕ
offset = 62135596800000 * ms

abbrev first_save : Save
first_save = record {
  wall = offset + 5;
  profile = rfc9421;
  evidence = successful_rfc9421;
  observed_at = offset + 7 * ms;
  expires_at = offset + 100 * ms;
}

abbrev late_save : Save
late_save = record {
  wall = offset + 8;
  profile = legacy;
  evidence = explicit_rfc9421_rejection;
  observed_at = offset + 6 * ms;
  expires_at = offset + 200 * ms;
}

load-save_all_example :
    load_capability memory go digest unary_numbers "p:"
      (save_all memory go digest unary_numbers "p:" delivery destination
        (late_save ∷ first_save ∷ late_save ∷ [])
        empty)
      delivery
      destination
    ≡ ok (
        some (record {
          origin = destination;
          scope = delivery;
          profile = rfc9421;
          evidence = successful_rfc9421;
          observed_at = offset + 7 * ms;
          expires_at = offset + 100 * ms;
        }))
unfolding validate normalize_destination_origin trim_space trim_suffix
load-save_all_example =
    load-save_all memory go digest unary_numbers "p:" delivery destination
      (late_save ∷ first_save ∷ late_save ∷ []) empty refl refl
      (also (omega arith) (also (omega arith) (also (omega arith) none_left))) refl refl

split_authentication_challenges-IsSplit_example :
    IsSplit "Bearer, Signature realm=\"a,b\""
      (split_authentication_challenges "Bearer, Signature realm=\"a,b\"")
split_authentication_challenges-IsSplit_example =
    split_authentication_challenges-IsSplit "Bearer, Signature realm=\"a,b\""

quoted_comma : split_authentication_challenges "A b=\"c,d\",E" ≡ "A b=\"c,d\"" ∷ "E" ∷ []
unfolding split_authentication_challenges split_from
quoted_comma = refl

abbrev seen : Capability
seen = record {
  origin = destination;
  scope = delivery;
  profile = rfc9421;
  evidence = successful_rfc9421;
  observed_at = offset + 7 * ms;
  expires_at = offset + 7 * ms + 24 * time_hour;
}

abbrev redis : ℕ → CapabilityStore CapabilityError Keyspace
redis wall = redis_store memory go digest unary_numbers "p:" answered wall

abbrev seen_db : Keyspace
seen_db = ((redis (offset + 7 * ms)).save empty seen).1

plan-saved_example :
    plan go
      (some (record {
        store = some (redis (offset + 9 * ms));
        positive_ttl = 24 * time_hour;
        negative_ttl = time_hour;
      }))
      seen_db
      (offset + 9 * ms)
      (offset + 9 * ms)
      dual
      delivery
      inbox_a
    ≡ ok (
        if ltb (offset + 9 * ms) (floor_ms (offset + 7 * ms + 24 * time_hour))
        then cached_plan delivery destination seen
        else unknown_plan delivery destination)
unfolding save_observation save_capability save_script as_new validate normalize_destination_origin
    trim_space trim_suffix
plan-saved_example =
    plan-saved memory go digest unary_numbers "p:" answered (24 * time_hour) time_hour empty seen_db
      (offset + 7 * ms) (offset + 9 * ms) (offset + 7 * ms) (offset + 9 * ms) delivery inbox_a
      rfc9421 successful_rfc9421 (24 * time_hour) seen refl (omega arith) (omega arith)
