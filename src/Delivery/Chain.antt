-- ===== src/Delivery/Chain.antt =====
-- The attempts of one target. Machinery runs a task again, with one retry fewer and a longer
-- timeout, when it fails and has retries left.
use activity_relay.Base.{
  refl, ◌||◌, leb, none, ℕ, zero, suc, String, Bool, true, false, ◌≡◌, ap, Option, some, List, [],
  ◌∷◌, ◌++◌, arith, if◌then◌else◌,
}
use activity_relay.Go.{Runtime}
use activity_relay.Negotiation.{Profile}
use activity_relay.Delivery.{
  Answers, Effect, sends, observes, records_health, stores_error, finishes,
  delivery_profile_from_args, current_delivery_attempt, attempt_delivery, deliver_with,
  relay_activity_v2,
}

-- The targets that are finished, and the requests that are sent, in order.
abbrev pub finished : List Effect → List String
finished [] = []
finished (finishes id ∷ es) = id ∷ finished es
finished (_ ∷ es) = finished es

abbrev pub sent : List Effect → List (String × String × Profile)
sent [] = []
sent (sends inbox body profile ∷ es) = (inbox, body, profile) ∷ sent es
sent (_ ∷ es) = sent es

finished-append : (xs ys : List Effect) → finished (xs ++ ys) ≡ finished xs ++ finished ys
finished-append [] ys = refl
finished-append (finishes id ∷ xs) ys = ap (λ l. id ∷ l) (finished-append xs ys)
finished-append (sends a b c ∷ xs) ys = finished-append xs ys
finished-append (observes a b ∷ xs) ys = finished-append xs ys
finished-append (records_health a ∷ xs) ys = finished-append xs ys
finished-append (stores_error ∷ xs) ys = finished-append xs ys

sent-append : (xs ys : List Effect) → sent (xs ++ ys) ≡ sent xs ++ sent ys
sent-append [] ys = refl
sent-append (finishes id ∷ xs) ys = sent-append xs ys
sent-append (sends a b c ∷ xs) ys = ap (λ l. (a, b, c) ∷ l) (sent-append xs ys)
sent-append (observes a b ∷ xs) ys = sent-append xs ys
sent-append (records_health a ∷ xs) ys = sent-append xs ys
sent-append (stores_error ∷ xs) ys = sent-append xs ys

-- An attempt delivers if the body is there and the receiver accepts it.
abbrev pub delivers : Answers → Bool
delivers answers = elim answers.body [ none ↦ false | some body ↦ answers.accepted ]

-- The answers to the attempts that a task makes, from the one with the given retries down to the
-- first that delivers.
abbrev pub attempted : (ℕ → Answers) → ℕ → List Answers
attempted answers zero = answers zero ∷ []
attempted answers (suc retries) =
    answers (suc retries)
    ∷ (if delivers (answers (suc retries)) then [] else attempted answers retries)

abbrev pub any_delivers : List Answers → Bool
any_delivers [] = false
any_delivers (a ∷ rest) = delivers a || any_delivers rest

-- One request for each answer that has a body, to the inbox and with the profile
abbrev pub posts : String → Profile → List Answers → List (String × String × Profile)
posts inbox profile [] = []
posts inbox profile (a ∷ rest) = elim a.body [
  | none ↦ posts inbox profile rest
  | some body ↦ (inbox, body, profile) ∷ posts inbox profile rest
]

module _ (go : Runtime) (fibonacci_next : ℕ → ℕ) (configured : Option Profile)
    (inbox_url id : String) (rest : List String) where
  abbrev attempt_with : Answers → ℕ → ℕ → Bool × List Effect
  attempt_with answers retries timeout =
      relay_activity_v2 go fibonacci_next configured answers
        (some (record { retries = retries; timeout = timeout })) (inbox_url ∷ id ∷ rest)

  -- All attempts of the task, with the answers to each by its retries: whether it succeeds in the
  -- end, and what it does.
  unfoldable pub run_chain : (ℕ → Answers) → ℕ → ℕ → Bool × List Effect
  run_chain answers zero timeout = attempt_with (answers zero) zero timeout
  run_chain answers (suc retries) timeout =
      let (succeeded, effects) = attempt_with (answers (suc retries)) (suc retries) timeout in
      let (later, more) = run_chain answers retries (fibonacci_next timeout) in
      if succeeded then (true, effects) else (later, effects ++ more)

  -- What one attempt counts for: it finishes the target when it succeeds or has no retries left, and
  -- sends the body that it has.
  abbrev Counts : Profile → Answers → ℕ → Bool × List Effect → Type 0
  Counts profile answers retries (succeeded, effects) =
      (succeeded ≡ delivers answers)
      × (finished effects ≡ (if delivers answers || leb retries 0 then id ∷ [] else []))
      × (sent effects ≡ posts inbox_url profile (answers ∷ []))

  attempt_delivery-Counts :
      (answers : Answers) (retries timeout : ℕ) (profile : Profile)
      → Counts profile answers retries (
          attempt_delivery answers
            (current_delivery_attempt fibonacci_next
              (some (record { retries = retries; timeout = timeout })))
            inbox_url
            id
            profile)
  unfolding attempt_delivery current_delivery_attempt
  attempt_delivery-Counts answers retries timeout profile = ground arith

  module _ (profile : Profile)
      (known : delivery_profile_from_args go configured (inbox_url ∷ id ∷ rest)
        ≡ some profile) where
    attempt_taken :
        (answers : Answers) (retries timeout : ℕ)
        → attempt_with answers retries timeout
          ≡ attempt_delivery answers
              (current_delivery_attempt fibonacci_next
                (some (record { retries = retries; timeout = timeout })))
              inbox_url
              id
              profile
    unfolding relay_activity_v2
    attempt_taken answers retries timeout =
        ap
          (deliver_with answers
            (current_delivery_attempt fibonacci_next
              (some (record { retries = retries; timeout = timeout })))
            inbox_url id)
          known

    attempt-Counts :
        (answers : Answers) (retries timeout : ℕ)
        → Counts profile answers retries (attempt_with answers retries timeout)
    attempt-Counts answers retries timeout =
        rw (attempt_taken answers retries timeout)
          (attempt_delivery-Counts answers retries timeout profile)

    attempt-posts :
        (a : Answers) (more : List Answers)
        → posts inbox_url profile (a ∷ []) ++ posts inbox_url profile more
          ≡ posts inbox_url profile (a ∷ more)
    attempt-posts a more = ground arith

    -- A task with an inbox, an activity and a profile makes its attempts until one delivers, or the
    -- retries are used up. Over all of them it finishes exactly its activity, exactly once; it sends
    -- one request for each of these attempts that has a body and no other, with that body, to the
    -- inbox and with the profile; and it succeeds exactly if one of them delivers.
    pub run_chain_finishes_once :
        (answers : ℕ → Answers) (retries timeout : ℕ)
        → (finished (run_chain answers retries timeout).1 ≡ id ∷ [])
          × (sent (run_chain answers retries timeout).1
              ≡ posts inbox_url profile (attempted answers retries))
          × ((run_chain answers retries timeout).0 ≡ any_delivers (attempted answers retries))
    unfolding run_chain
    run_chain_finishes_once answers zero timeout =
        let c = attempt-Counts (answers 0) 0 timeout in ground (arith, c)
    run_chain_finishes_once answers (suc retries) timeout =
        let now = attempt_with (answers (suc retries)) (suc retries) timeout in
        let later = run_chain answers retries (fibonacci_next timeout) in
        ground (
          arith,
          attempt-Counts (answers (suc retries)) (suc retries) timeout,
          run_chain_finishes_once answers retries (fibonacci_next timeout),
          finished-append now.1 later.1,
          sent-append now.1 later.1,
          attempt-posts (answers (suc retries)) (attempted answers retries),
        )
