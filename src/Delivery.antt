-- ===== src/Delivery.antt =====
-- The worker's side of a fan-out (deliver/deliver.go): one attempt to deliver to one receiver, with
-- the profile of its arguments.
-- Machinery, which runs the tasks, is no part of the repository: its Fibonacci step is a parameter.
pub mod Chain
use activity_relay.Base.{
  ℕ, ◌+◌, ◌-◌, String, Bool, true, false, Option, none, some, Result, ok, err, List, [], ◌∷◌, ◌++◌,
  ltb, leb, ◌==◌, str_eq, if◌then◌else◌, trim_space,
}
use activity_relay.Go.{Runtime}
use activity_relay.Negotiation.{Profile, unset, legacy, dual, rfc9421}
use activity_relay.Negotiation.Names.{parse_wire_profile, profile_name}
use activity_relay.Fanout.{retry_count}

abbrev pub max_attempts : ℕ
max_attempts = retry_count + 1

-- What deliveryProfileFromArgs makes of the configured profile; no configuration is `none`.
unfoldable pub configured_profile : Runtime → Option Profile → Option Profile
unfolding parse_wire_profile
configured_profile go none = some legacy
configured_profile go (some unset) = some legacy
configured_profile go (some dual) = some legacy
configured_profile go (some profile) = parse_wire_profile go (profile_name profile)

-- deliveryProfileFromArgs
unfoldable pub delivery_profile_from_args : Runtime → Option Profile → List String → Option Profile
unfolding configured_profile
delivery_profile_from_args go configured (inbox_url ∷ id ∷ name ∷ rest) = parse_wire_profile go name
delivery_profile_from_args go configured args = configured_profile go configured

-- deliveryAttempt, without the task's UUID
pub record Attempt : Type 0 where
  pub attempt : ℕ
  pub retries_remaining : ℕ
  pub next_retry_seconds : ℕ
  pub terminal : Bool

-- What machinery has in the context: RetryCount and RetryTimeout of the signature.
pub record Signature : Type 0 where
  pub retries : ℕ
  pub timeout : ℕ

-- currentDeliveryAttempt
unfoldable pub current_delivery_attempt : (ℕ → ℕ) → Option Signature → Attempt
current_delivery_attempt fibonacci_next none = record {
  attempt = 1;
  retries_remaining = 0;
  next_retry_seconds = 0;
  terminal = true;
}
current_delivery_attempt fibonacci_next (some s) =
    let counted = if ltb max_attempts s.retries then 0 else max_attempts - s.retries in
    let raised = if ltb counted 1 then 1 else counted in
    record {
      attempt = if ltb max_attempts raised then max_attempts else raised;
      retries_remaining = s.retries;
      next_retry_seconds = if ltb 0 s.retries then fibonacci_next s.timeout else 0;
      terminal = leb s.retries 0;
    }

-- What one attempt is answered: the body from Redis (`none` is an error), and whether the receiver
-- accepts it.
pub record Answers : Type 0 where
  pub body : Option String
  pub accepted : Bool

-- What an attempt does, in order: it sends a body, offers the response to the signer's evidence
-- where there is a signer, records the receiver's health and its error where the inbox names a
-- receiver, and finishes the target (`finishRelayTarget`).
pub data Effect : Type 0 where
  sends : String → String → Profile → Effect
  observes : String → Profile → Effect
  records_health : Bool → Effect
  stores_error : Effect
  finishes : String → Effect

-- The end of a failed attempt: the last one finishes the target.
abbrev pub finish_if : Bool → String → List Effect
finish_if terminal id = if terminal then finishes id ∷ [] else []

-- relayActivityV2 from the load of the body on; the Boolean is success.
unfoldable pub attempt_delivery : Answers → Attempt → String → String → Profile → Bool × List Effect
attempt_delivery answers attempt inbox_url id profile = elim answers.body [
  | none ↦ (false, finish_if attempt.terminal id)
  | some body ↦
      (if answers.accepted
        then (
          true,
          sends inbox_url body profile
              ∷ observes inbox_url profile
              ∷ records_health true
              ∷ finishes id
              ∷ [],
        )
        else (
          false,
          sends inbox_url body profile
              ∷ observes inbox_url profile
              ∷ records_health false
              ∷ stores_error
              ∷ finish_if attempt.terminal id,
        ))
]

-- relayActivityV2 from the parsed profile on
unfoldable pub deliver_with :
    Answers → Attempt → String → String → Option Profile → Bool × List Effect
unfolding attempt_delivery
deliver_with answers attempt inbox_url id none = (false, [])
deliver_with answers attempt inbox_url id (some profile) =
    attempt_delivery answers attempt inbox_url id profile

-- relayActivityV2
unfoldable pub relay_activity_v2 :
    Runtime
    → (ℕ → ℕ)
    → Option Profile
    → Answers
    → Option Signature
    → List String
    → Bool × List Effect
unfolding deliver_with current_delivery_attempt delivery_profile_from_args
relay_activity_v2 go fibonacci_next configured answers signature (inbox_url ∷ id ∷ rest) =
    deliver_with answers (current_delivery_attempt fibonacci_next signature) inbox_url id
      (delivery_profile_from_args go configured (inbox_url ∷ id ∷ rest))
relay_activity_v2 go fibonacci_next configured answers signature args = (false, [])
