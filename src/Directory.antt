-- ===== src/Directory.antt =====
-- The client of a directory, from a response to its result (internal/directoryclient/client.go and
-- vocabulary.go). The strict decoding of JSON, `http.ParseTime` and the media type are parameters. A
-- duration is a number of nanoseconds.
pub mod Results
pub mod Retries
use activity_relay.Base.{
  ℕ, ◌*◌, ◌+◌, ◌-◌, ◌/◌, ◌≤◌, String, Bool, true, false, ◌&&◌, ◌||◌, not, ◌≡◌, Option, none, some,
  Result, ok, err, List, [], ◌∷◌, ltb, leb, ◌==◌, str_eq, if◌then◌else◌, trim_space,
}
use activity_relay.Negotiation.{time_second, time_hour}

pub data LifecycleOperation : Type 0 where
  registers heartbeats unregisters : LifecycleOperation

pub data LifecycleOutcome : Type 0 where
  created updated unchanged recorded removed absent unknown_outcome : LifecycleOutcome

-- A string of the source, of which all but the last are the known values
pub data ErrorCode : Type 0 where
  invalid_request unsupported_version authentication_failed replay_detected : ErrorCode
  lifecycle_unavailable enrollment_closed relay_not_registered relay_suspended : ErrorCode
  rate_limited internal_error unknown_code : ErrorCode

-- ErrDirectoryConfiguration, ErrDirectoryResponse, ErrResponseTooLarge, ErrDirectoryTransport, and a
-- ProtocolError with its status, code and RetryAfter
pub data ClientError : Type 0 where
  misconfigured bad_response too_large transport_failed : ClientError
  protocol_error : ℕ → ErrorCode → ℕ → ClientError

abbrev pub maximum_error_message : ℕ
maximum_error_message = 256

abbrev pub maximum_response_bytes : ℕ
maximum_response_bytes = 16 * 1024

abbrev pub maximum_retry_after : ℕ
maximum_retry_after = 24 * time_hour

-- Outcome.validFor
unfoldable pub outcome_valid_for : LifecycleOperation → LifecycleOutcome → Bool
outcome_valid_for registers created = true
outcome_valid_for registers updated = true
outcome_valid_for registers unchanged = true
outcome_valid_for heartbeats recorded = true
outcome_valid_for unregisters removed = true
outcome_valid_for unregisters absent = true
outcome_valid_for _ _ = false

-- ErrorCode.valid
abbrev pub code_valid : ErrorCode → Bool
code_valid unknown_code = false
code_valid _ = true

-- errorStatusMatches
unfoldable pub error_status_matches : ErrorCode → ℕ → Bool
error_status_matches invalid_request status = status == 400 || status == 413
error_status_matches unsupported_version status = status == 400
error_status_matches authentication_failed status = status == 401
error_status_matches replay_detected status = status == 409
error_status_matches relay_not_registered status = status == 409
error_status_matches lifecycle_unavailable status = status == 503
error_status_matches enrollment_closed status = status == 403
error_status_matches relay_suspended status = status == 403
error_status_matches rate_limited status = status == 429
error_status_matches internal_error status = status == 500 || status == 503
error_status_matches unknown_code status = false

abbrev pub same_operation : LifecycleOperation → LifecycleOperation → Bool
same_operation registers registers = true
same_operation heartbeats heartbeats = true
same_operation unregisters unregisters = true
same_operation _ _ = false

-- The documents of vocabulary.go
pub record LifecycleResponse : Type 0 where
  pub protocol_version : ℕ
  pub operation : LifecycleOperation
  pub outcome : LifecycleOutcome
  pub relay_actor : String

pub record ErrorDocument : Type 0 where
  pub protocol_version : ℕ
  pub code : ErrorCode
  pub message : String

pub record Formats : Type 0 where
  pub byte_length : String → ℕ
  pub decode_response : String → Option LifecycleResponse
  pub decode_error : String → Option ErrorDocument
  pub parse_seconds : String → Option ℕ
  pub parse_time : String → Option ℕ
  pub is_plain_json : String → Bool

-- An answer of the HTTP client: what can be read of the body up to the limit and one byte more
pub record HttpAnswer : Type 0 where
  pub status : ℕ
  pub content_type : String
  pub retry_after : String
  pub body : Option String

-- The codes for which Retry-After is read
abbrev pub is_retryable : ErrorCode → ℕ → Bool
is_retryable rate_limited status = true
is_retryable internal_error status = status == 503
is_retryable _ status = false

module _ (f : Formats) where
  -- boundedRetryAfter; a time in the past is an error.
  unfoldable pub bounded_retry_after : ErrorCode → ℕ → String → ℕ → Result ClientError ℕ
  bounded_retry_after code status raw now =
      let value = trim_space raw in
      if not (is_retryable code status)
      then ok 0
      else if str_eq value ""
      then ok 0
      else elim (f.parse_seconds value) [
        | some seconds ↦ ok (
            if ltb (maximum_retry_after / time_second) seconds
            then maximum_retry_after
            else seconds * time_second)
        | none ↦ elim (f.parse_time value) [
          | none ↦ err bad_response
          | some at ↦
              (if ltb at now
                then err bad_response
                else ok
                    (if ltb maximum_retry_after (at - now) then maximum_retry_after else at - now))
        ]
      ]

  -- decodeProtocolErrorAt: the error that it returns
  unfoldable pub decode_protocol_error : ℕ → String → String → ℕ → ClientError
  decode_protocol_error status retry_after body now = elim (f.decode_error body) [
    | none ↦ bad_response
    | some document ↦
        (if not (document.protocol_version == 1)
            || not (code_valid document.code)
            || str_eq document.message ""
            || ltb maximum_error_message (f.byte_length document.message)
            || not (error_status_matches document.code status)
          then bad_response
          else elim (bounded_retry_after document.code status retry_after now) [
            | err e ↦ bad_response
            | ok delay ↦ protocol_error status document.code delay
          ])
  ]

  -- decodeSuccess
  unfoldable pub decode_success :
      ℕ → LifecycleOperation → String → String → Result ClientError LifecycleResponse
  decode_success status operation relay_actor body =
      if (same_operation operation registers && not (status == 200) && not (status == 201))
        || (not (same_operation operation registers) && not (status == 200))
      then err bad_response
      else elim (f.decode_response body) [
        | none ↦ err bad_response
        | some response ↦
            (if not (response.protocol_version == 1)
                || not (same_operation response.operation operation)
                || not (outcome_valid_for operation response.outcome)
                || not (str_eq response.relay_actor relay_actor)
              then err bad_response
              else ok response)
      ]

  -- readResponseBody
  unfoldable pub read_response_body : Option String → Result ClientError String
  read_response_body none = err bad_response
  read_response_body (some body) =
      if ltb maximum_response_bytes (f.byte_length body) then err too_large else ok body

  -- The end of `send`, at the answer of the HTTP client, where it gave one
  unfoldable pub receive :
      LifecycleOperation → String → ℕ → Option HttpAnswer → Result ClientError LifecycleResponse
  receive operation relay_actor now none = err transport_failed
  receive operation relay_actor now (some answer) = elim (read_response_body answer.body) [
    | err e ↦ err e
    | ok body ↦
        (if not (f.is_plain_json answer.content_type)
          then err bad_response
          else if leb 200 answer.status && ltb answer.status 300
          then decode_success answer.status operation relay_actor body
          else err (decode_protocol_error answer.status answer.retry_after body now))
  ]

-- operationPath
unfoldable pub operation_path : LifecycleOperation → String
operation_path registers = "/v1/relays/register"
operation_path heartbeats = "/v1/relays/heartbeat"
operation_path unregisters = "/v1/relays/unregister"
