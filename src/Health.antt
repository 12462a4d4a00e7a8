-- ===== src/Health.antt =====
-- What is recorded of the deliveries to a receiver (models/receiver_health.go). A time is the text in
-- RFC 3339 that is stored of it; HINCRBY is written out over the fields of a hash.
pub mod Tally
pub mod Counts
use activity_relay.Base.{
  ℕ, zero, suc, ◌+◌, ◌^◌, String, str_append, Bool, true, false, ◌&&◌, ◌||◌, not, Option, none,
  some, Result, ok, err, ◌>>=◌, List, [], ◌∷◌, ltb, str_eq, member, if◌then◌else◌, join_host_port,
  map,
}
use activity_relay.Base.Int.{ℤ, pos, negsuc}
use activity_relay.Go.{Runtime, Strconv}
use activity_relay.Redis.{Redis, Value, text, number, Outcome, eval, to_number}
use activity_relay.State.{normalize_state_domain}

abbrev pub health_prefix : String
health_prefix = "relay:receiver-health:"

-- ReceiverDeliveryHealth
pub record Health : Type 0 where
  pub domain : String
  pub last_success_at : String
  pub last_failure_at : String
  pub consecutive_failures : ℕ
  pub total_successes : ℕ
  pub total_failures : ℕ

pub data HealthError : Type 0 where
  bad_url bad_scheme no_host empty_domain redis_failed bad_counter negative_counter : HealthError

-- ReceiverDomainFromInboxURL
unfoldable pub receiver_domain_from_inbox_url : Runtime → String → Result HealthError String
receiver_domain_from_inbox_url go address = elim (go.parse_url address) [
  | none ↦ err bad_url
  | some u ↦
      let host = normalize_state_domain go u.hostname in
      (if not (str_eq u.scheme "http") && not (str_eq u.scheme "https")
        then err bad_scheme
        else if str_eq host ""
        then err no_host
        else if not (str_eq u.port "")
        then ok (join_host_port host u.port)
        else ok host)
]

-- What a reply of HMGET shows of a value: numbers are written in decimal.
abbrev pub string_value : Strconv → Option Value → String
string_value c none = ""
string_value c (some (text t)) = t
string_value c (some (number n)) = c.format n

abbrev pub not_negative : ℤ → Result HealthError ℕ
not_negative (pos n) = ok n
not_negative (negsuc n) = err negative_counter

-- receiverHealthCounter
unfoldable pub receiver_health_counter : Strconv → Option Value → Result HealthError ℕ
receiver_health_counter c v =
    let value = string_value c v in
    if str_eq value ""
    then ok 0
    else elim (c.parse_int value) [ none ↦ err bad_counter | some n ↦ not_negative n ]

-- Adding 1, which Redis refuses where it would overflow 64 bits
abbrev pub increased : Option ℤ → Option ℤ
increased (some (pos n)) = if ltb (n + 1) (2 ^ 63) then some (pos (n + 1)) else none
increased (some (negsuc zero)) = some (pos 0)
increased (some (negsuc (suc n))) = some (negsuc n)
increased none = none

-- The domains that are not empty, each once, as the keys of a map
abbrev pub distinct : List String → List String
distinct [] = []
distinct (x ∷ xs) =
    let rest = distinct xs in if str_eq x "" || member x rest then rest else x ∷ rest

module _ (r : Redis) where
  open r use {Db, hget, hset}

  -- HINCRBY of 1; `none` is an error reply, which ends a script.
  unfoldable pub hincr : String → String → Db → Option Db
  hincr key field d = elim (increased (to_number (hget d key field))) [
    | none ↦ none
    | some n ↦ some (hset d key field (number n))
  ]

  -- recordReceiverDeliveryScript. What was written before an error stays.
  unfoldable pub record_script : String → String → Bool → Db → Option Bool × Db
  record_script key at true d =
      let d₁ = hset d key "last_success_at" (text at) in
      let d₂ = hset d₁ key "consecutive_failures" (number (pos 0)) in
      elim (hincr key "total_successes" d₂) [ none ↦ (none, d₂) | some d₃ ↦ (some true, d₃) ]
  record_script key at false d =
      let d₁ = hset d key "last_failure_at" (text at) in
      elim (hincr key "consecutive_failures" d₁) [
        | none ↦ (none, d₁)
        | some d₂ ↦ elim (hincr key "total_failures" d₂) [
          | none ↦ (none, d₂)
          | some d₃ ↦ (some true, d₃)
        ]
      ]

  -- RecordReceiverDelivery; `at` is the time given, or the present where that is zero.
  unfoldable pub record_receiver_delivery :
      Runtime → Outcome → String → Bool → String → Db → Result HealthError (Unit {0}) × Db
  record_receiver_delivery go net name succeeded at d =
      let domain = normalize_state_domain go name in
      let (answer, d') =
        eval net (record_script (str_append health_prefix domain) at succeeded) d in
      let result : Result HealthError (Unit {0}) = elim answer [
        | none ↦ err redis_failed
        | some done ↦ ok tt
      ] in
      if str_eq domain "" then (err empty_domain, d) else (result, d')

  -- One turn of the loop of LoadReceiverDeliveryHealth
  unfoldable pub read_health : Strconv → Db → String → Result HealthError Health
  read_health c d domain =
      let key = str_append health_prefix domain in
      do
        consecutive ← receiver_health_counter c (hget d key "consecutive_failures")
        successes ← receiver_health_counter c (hget d key "total_successes")
        failures ← receiver_health_counter c (hget d key "total_failures")
        ok (record {
          domain = domain;
          last_success_at = string_value c (hget d key "last_success_at");
          last_failure_at = string_value c (hget d key "last_failure_at");
          consecutive_failures = consecutive;
          total_successes = successes;
          total_failures = failures;
        })

  unfoldable pub read_all : Strconv → Db → List String → Result HealthError (List Health)
  read_all c d [] = ok []
  read_all c d (x ∷ xs) = do health ← read_health c d x; rest ← read_all c d xs; ok (health ∷ rest)

  -- LoadReceiverDeliveryHealth, where the reads are answered; `sort` is `sort.Strings`. The map of the
  -- result has an entry for each domain of the list.
  unfoldable pub load_receiver_delivery_health :
      Runtime
      → Strconv
      → (List String → List String)
      → Db
      → List String
      → Result HealthError (List Health)
  load_receiver_delivery_health go c sort d domains =
      read_all c d (sort (distinct (map (normalize_state_domain go) domains)))
