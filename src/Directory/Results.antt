-- ===== src/Directory/Results.antt =====
-- What the results of the directory's client say (internal/directoryclient/client.go).
use activity_relay.Base.{
  ℕ, ◌≤◌, String, true, ◌≡◌, ◌⊎◌, inl, inr, Option-cases, Result-cases, some, Result, ok, err,
  arith, eq_iff,
}
use activity_relay.Directory.{
  LifecycleOperation, LifecycleResponse, ErrorCode, ClientError, misconfigured, bad_response,
  too_large, transport_failed, protocol_error, Formats, HttpAnswer, error_status_matches,
  is_retryable, same_operation, outcome_valid_for, maximum_retry_after, bounded_retry_after,
  decode_protocol_error, decode_success, read_response_body, receive,
}

module _ (f : Formats) where
  bounded_retry_after-le :
      (code : ErrorCode) (status : ℕ) (raw : String) (now delay : ℕ)
      → bounded_retry_after f code status raw now ≡ ok delay
      → (delay ≤ maximum_retry_after) × ((is_retryable code status ≡ true) ⊎ (delay ≡ 0))
  unfolding bounded_retry_after
  bounded_retry_after-le code status raw now delay h = ground arith

  decode_protocol_error-matches :
      (status status' : ℕ) (raw body : String) (now delay : ℕ) (code : ErrorCode)
      → decode_protocol_error f status raw body now ≡ protocol_error status' code delay
      → (status' ≡ status)
        × (error_status_matches code status ≡ true)
        × (delay ≤ maximum_retry_after)
        × ((is_retryable code status ≡ true) ⊎ (delay ≡ 0))
  unfolding decode_protocol_error
  decode_protocol_error-matches status status' raw body now delay code h =
      elim (Option-cases (f.decode_error body)) [
        | inl bad ↦ absurd (ground (arith, bad))
        | inr (document, decoded) ↦
            elim (Result-cases (bounded_retry_after f document.code status raw now)) [
              | inl (e, bad) ↦ absurd (ground (arith, decoded, bad))
              | inr (wait, given) ↦ ground (
                arith,
                decoded,
                given,
                bounded_retry_after-le document.code status raw now wait given,
              )
            ]
      ]

  -- What a result promises: a response is for the operation and the actor that asked, with an outcome
  -- of the operation; a protocol error has the status that its code stands for, and a delay that is at
  -- most a day and 0 where the code is not to be tried again.
  abbrev pub IsSound :
      LifecycleOperation → String → HttpAnswer → Result ClientError LifecycleResponse → Type 0
  IsSound operation relay_actor answer (ok response) =
      (response.protocol_version ≡ 1)
      × (same_operation response.operation operation ≡ true)
      × (outcome_valid_for operation response.outcome ≡ true)
      × (response.relay_actor ≡ relay_actor)
  IsSound operation relay_actor answer (err (protocol_error status code delay)) =
      (status ≡ answer.status)
      × (error_status_matches code answer.status ≡ true)
      × (delay ≤ maximum_retry_after)
      × ((is_retryable code answer.status ≡ true) ⊎ (delay ≡ 0))
  IsSound operation relay_actor answer (err e) = Unit {0}

  receive-response :
      (operation : LifecycleOperation) (relay_actor : String) (now : ℕ) (answer : HttpAnswer)
      (response : LifecycleResponse)
      → receive f operation relay_actor now (some answer) ≡ ok response
      → IsSound operation relay_actor answer (ok response)
  unfolding receive decode_success read_response_body
  receive-response operation relay_actor now answer response h =
      ground (arith, eq_iff response.relay_actor relay_actor)

  receive-protocol_error :
      (operation : LifecycleOperation) (relay_actor : String) (now : ℕ) (answer : HttpAnswer)
      (status : ℕ) (code : ErrorCode) (delay : ℕ)
      → receive f operation relay_actor now (some answer) ≡ err (protocol_error status code delay)
      → IsSound operation relay_actor answer (err (protocol_error status code delay))
  unfolding receive decode_success read_response_body
  receive-protocol_error operation relay_actor now answer status code delay h =
      elim (Option-cases answer.body) [
        | inl unread ↦ absurd (ground (arith, unread))
        | inr (body, read) ↦ ground (
          arith,
          read,
          decode_protocol_error-matches answer.status status answer.retry_after body now delay code,
        )
      ]

  error-IsSound :
      (operation : LifecycleOperation) (relay_actor : String) (now : ℕ) (answer : HttpAnswer)
      (e : ClientError)
      → receive f operation relay_actor now (some answer) ≡ err e
      → IsSound operation relay_actor answer (err e)
  error-IsSound operation relay_actor now answer (protocol_error status code delay) h =
      receive-protocol_error operation relay_actor now answer status code delay h
  error-IsSound operation relay_actor now answer misconfigured h = tt
  error-IsSound operation relay_actor now answer bad_response h = tt
  error-IsSound operation relay_actor now answer too_large h = tt
  error-IsSound operation relay_actor now answer transport_failed h = tt

  -- Whatever the directory answers to an operation, the result is sound: a response is for the operation
  -- and the actor that asked, with an outcome of the operation, and a protocol error has the status that
  -- its code stands for, with a delay of a day at most that is 0 unless the code may be tried again.
  pub receive-IsSound :
      (operation : LifecycleOperation) (relay_actor : String) (now : ℕ) (answer : HttpAnswer)
      → IsSound operation relay_actor answer (receive f operation relay_actor now (some answer))
  receive-IsSound operation relay_actor now answer =
      elim (Result-cases (receive f operation relay_actor now (some answer))) [
        | inr (response, given) ↦
            rw (given) (receive-response operation relay_actor now answer response given)
        | inl (e, given) ↦ rw (given) (error-IsSound operation relay_actor now answer e given)
      ]
