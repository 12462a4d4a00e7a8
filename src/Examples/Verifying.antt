-- ===== src/Examples/Verifying.antt =====
-- Runs of the verification of a POST.
use activity_relay.Base.{
  ℕ, ◌+◌, ◌*◌, ◌/◌, ◌≤◌, eq_refl, String, Bool, true, false, ◌≡◌, refl, Option, none, some, ok, [],
  ◌∷◌, str_eq, eq_iff, arith, ltb, if◌then◌else◌, trim_space, trim_suffix, Result, err,
}
use activity_relay.Negotiation.Store.{millisecond}
use activity_relay.Negotiation.{time_second, time_minute}
use activity_relay.Negotiation.Challenges.{octets, item, post_components, rsa_algorithm}
use activity_relay.Verification.{
  Message, Request, Verifier, Verified, validate_parameters, verify_content_digest, check_covered,
}
use activity_relay.Verification.Nonces.{Markers, redis_nonces, reserve_nonce, nonce_key}
use activity_relay.Verification.Posts.{Outside, verify_post, verify_signature, reserve_message}
use activity_relay.Verification.Replays.{verify_posts, verify_post-once}
use activity_relay.Verification.Decoding.{
  Services, decode_activity, decode_rfc9421_activity, decode_verified, bind_activity_actor,
  canonical_identity, parse_inbound_activity, read_inbound_body, DecodeError, digest_differs,
  decode_legacy_activity, decode_with_key_id, check_legacy_signature, normalized_remote_host,
  verify_signature_actor_binding, verify_activity_actor_document, has_host,
}
use activity_relay.Relay.{Actor, Activity}
use activity_relay.Verification.Decoding.Bindings.{IsAuthentic, decode_activity-IsAuthentic}
use activity_relay.Examples.Fixtures.{go, actor_at, activity_of}

abbrev marked : ℕ → String → ℕ → (String → ℕ) → Option Bool × (String → ℕ)
marked now key ttl d = if ltb now (d key) then (some false, d) else (
  some true,
  λ other. if str_eq key other then now + ttl / millisecond * millisecond else d other,
)

pub marked-held :
    (now : ℕ) (key other : String) (ttl : ℕ) (d : String → ℕ)
    → d other ≤ (marked now key ttl d).1 other
marked-held now key other ttl d = ground (arith, eq_iff key other)

pub marked-reserved :
    (now : ℕ) (key : String) (ttl : ℕ) (d : String → ℕ)
    → (marked now key ttl d).0 ≡ some true
    → (d key ≤ now) × (now + ttl / millisecond * millisecond ≤ (marked now key ttl d).1 key)
marked-reserved now key ttl d h = ground (arith, eq_refl key)

abbrev markers : Markers
markers = record {
  Db = String → ℕ;
  held_until = λ d key. d key;
  set_nx = marked;
  held_until-set_nx = marked-held;
  set_nx-reserved = marked-reserved;
}

abbrev started : ℕ
started = 1000 * time_minute

abbrev message : Message
message = record {
  covered = post_components;
  key_id = "https://a.example/actor#key";
  algorithm = rsa_algorithm;
  nonce = "n";
  created = started;
  expires = 0;
  signature = "s";
}

abbrev request : Request
request = record {
  method = "POST";
  host = "relay.example";
  url_host = "";
  content_digest = "digest" ∷ [];
  signature_input = "input" ∷ [];
  digest = "";
}

abbrev outside : Outside
outside = record {
  http = record {
    fields = λ s. [];
    equal_fold = str_eq;
    unmarshal_dictionary = λ lines. some (("sha-256", item (octets "body")) ∷ []);
  };
  byte_length = λ s. 1;
  sha256 = λ s. s;
  find_message = λ r. some message;
  signature_valid = λ key m scheme authority r body. true;
}

abbrev verifier : Verifier
verifier = record {
  scheme = "https";
  authority = "relay.example";
  resolver = λ id. some (record {
    key_id = id;
    owner = "https://a.example/actor";
    actor_id = "";
    public_key = some "pem";
  });
  maximum_age = 5 * time_minute;
  future_skew = 30 * time_second;
  replay_ttl = 10 * time_minute;
}

abbrev verified : Verified
verified = record {
  key_id = "https://a.example/actor#key";
  key_owner = "https://a.example/actor";
  key_actor = "";
  nonce = "n";
  created = started;
  expires = 0;
  covered = post_components;
  algorithm = rsa_algorithm;
}

abbrev unmarked : String → ℕ
unmarked key = 0

abbrev accepted_db : String → ℕ
accepted_db =
    (verify_post outside verifier (redis_nonces markers (λ s. s) "p:") request "body" started
      unmarked).1

verify_post-once_example : ¬ (
    verify_post outside verifier
      (redis_nonces markers (λ s. s) "p:")
      request
      "body"
      (started + 1)
      (verify_posts markers (λ s. s) "p:" outside verifier [] accepted_db)
    ≡ (ok verified, accepted_db))
unfolding verify_post verify_signature reserve_message reserve_nonce nonce_key validate_parameters
    verify_content_digest check_covered trim_space
verify_post-once_example =
    verify_post-once markers (λ s. s) "p:" outside verifier request request "body" "body" started
      (started + 1) unmarked accepted_db accepted_db verified verified [] (omega arith) refl refl
      refl refl

abbrev services : Services
services = record {
  parse_identity = λ value. some (record {
    scheme = "https";
    host = "a.example";
    has_user = false;
    fragment = "";
    shown = λ scheme host. value;
  });
  unmarshal = λ body. some (activity_of "Create" "note");
  resolve_actor =
      λ id. some (record { actor = actor_at "a.example" none; owner = ""; public_key = none });
  legacy_key_id = λ r. none;
  legacy_valid = λ key r. false;
  sha256_base64 = λ body. body;
  max_activity_bytes = 9;
}

decode_activity-IsAuthentic_example :
    IsAuthentic go services outside
      (some verifier)
      (redis_nonces markers (λ s. s) "p:")
      request
      "body"
      started
      unmarked
      (activity_of "Create" "note")
      (actor_at "a.example" none)
unfolding verify_post verify_signature reserve_message reserve_nonce nonce_key validate_parameters
    verify_content_digest check_covered trim_space decode_activity decode_rfc9421_activity
    decode_verified bind_activity_actor canonical_identity parse_inbound_activity read_inbound_body
decode_activity-IsAuthentic_example =
    decode_activity-IsAuthentic go services outside (some verifier)
      (redis_nonces markers (λ s. s) "p:") request "body" started unmarked accepted_db
      (activity_of "Create" "note") (actor_at "a.example" none) refl

-- A request of an older server: its key is in the actor's document, and the digest is the body's.
abbrev older_request : Request
older_request = record request { signature_input = []; digest = "SHA-256=body" }

abbrev older_services : Services
older_services = record services {
  resolve_actor = λ id. some (record {
    actor = actor_at "a.example" none;
    owner = "https://a.example/actor";
    public_key = some (some "pem");
  });
  legacy_key_id = λ r. some "https://a.example/actor";
  legacy_valid = λ key r. str_eq key "pem";
}

abbrev decoded_with : Request → Result DecodeError (Activity × Actor)
decoded_with r =
    (decode_activity go older_services outside (some verifier) (redis_nonces markers (λ s. s) "p:")
      r (some "body") started unmarked).0

older_decodes :
    decoded_with older_request ≡ ok (activity_of "Create" "note", actor_at "a.example" none)
unfolding decode_activity decode_legacy_activity decode_with_key_id check_legacy_signature
    verify_signature_actor_binding verify_activity_actor_document normalized_remote_host has_host
    parse_inbound_activity read_inbound_body trim_space trim_suffix
older_decodes = refl

other_body : decoded_with (record older_request { digest = "SHA-256=other" }) ≡ err digest_differs
unfolding decode_activity decode_legacy_activity decode_with_key_id check_legacy_signature
    read_inbound_body
other_body = refl
