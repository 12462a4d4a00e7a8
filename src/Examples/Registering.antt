-- ===== src/Examples/Registering.antt =====
-- Runs of the directory's client and of the retries of its commands.
use activity_relay.Base.{ℕ, ◌*◌, true, ◌≤◌, none, some, Result, ok, err}
use activity_relay.Negotiation.{time_second}
use activity_relay.Directory.{
  rate_limited, registers, ClientError, protocol_error, Formats, HttpAnswer, receive,
}
use activity_relay.Directory.Results.{IsSound, receive-IsSound}
use activity_relay.Directory.Retries.{
  AreFitting, attempts, maximum_attempts, retry_lifecycle, retry_lifecycle-AreFitting,
}

abbrev formats : Formats
formats = record {
  byte_length = λ s. 9;
  decode_response = λ s. none;
  decode_error =
      λ s. some (record { protocol_version = 1; code = rate_limited; message = "slow down" });
  parse_seconds = λ s. some 7;
  parse_time = λ s. none;
  is_plain_json = λ s. true;
}

abbrev limited : HttpAnswer
limited = record { status = 429; content_type = ""; retry_after = "7"; body = some "{}" }

receive-IsSound_example :
    IsSound formats registers "actor" limited (receive formats registers "actor" 5 (some limited))
receive-IsSound_example = receive-IsSound formats registers "actor" 5 limited

-- It fails while the counter is not 0.
abbrev flaky : ℕ → Result ClientError (Unit {0}) × ℕ
flaky ℕ.zero = (ok tt, ℕ.zero)
flaky (ℕ.suc n) = (err (protocol_error 429 rate_limited (7 * time_second)), n)

retry_lifecycle-AreFitting_example :
    AreFitting (retry_lifecycle flaky (λ delay n. (true, n)) 2)
    × (attempts (retry_lifecycle flaky (λ delay n. (true, n)) 2) ≤ maximum_attempts)
retry_lifecycle-AreFitting_example = retry_lifecycle-AreFitting flaky (λ delay n. (true, n)) 2
