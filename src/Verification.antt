-- ===== src/Verification.antt =====
-- Verification of signed requests to the inbox, under RFC 9421
-- (internal/httpsignature/rfc9421_verify.go, and the digest of rfc9421.go). A time is its nanoseconds
-- since Go's zero time. The parsing of the signature fields, the signature base with the RSA check,
-- SHA-256 and `url.ParseRequestURI` are parameters; a resolver of keys is an interface.
pub mod Nonces
pub mod Posts
pub mod Replays
pub mod Decoding
use activity_relay.Base.{
  ℕ, ◌+◌, ◌*◌, String, Bool, true, false, ◌&&◌, ◌||◌, not, Option, none, some, Result, ok, err,
  List, [], ◌∷◌, ltb, str_eq, ◌==◌, member, if◌then◌else◌, trim_space,
}
use activity_relay.Base.Int.{ℤ, pos, negsuc}
use activity_relay.Go.{Runtime}
use activity_relay.Negotiation.{time_second, time_minute}
use activity_relay.Negotiation.Challenges.{
  Http, Bare, octets, Member, item, post_components, rsa_algorithm,
}

abbrev pub default_maximum_age : ℕ
default_maximum_age = 5 * time_minute

abbrev pub default_future_skew : ℕ
default_future_skew = 30 * time_second

abbrev pub default_replay_ttl : ℕ
default_replay_ttl = 10 * time_minute

abbrev pub max_nonce_bytes : ℕ
max_nonce_bytes = 256

-- RFC9421ResolvedKey; a nil public key is `none`.
pub record ResolvedKey : Type 0 where
  pub key_id : String
  pub owner : String
  pub actor_id : String
  pub public_key : Option String

-- The signature that the fields of a request carry under the relay's tag
pub record Message : Type 0 where
  pub covered : List String
  pub key_id : String
  pub algorithm : String
  pub nonce : String
  pub created : ℕ
  pub expires : ℕ
  pub signature : String

-- A request, with the lines of its header fields
pub record Request : Type 0 where
  pub method : String
  pub host : String
  pub url_host : String
  pub content_digest : List String
  pub signature_input : List String
  pub digest : String

pub data VerifyError : Type 0 where
  bad_scheme no_authority no_resolver no_nonce_store age_too_short skew_negative ttl_too_short :
      VerifyError
  not_a_post other_authority no_signature no_key_id bad_algorithm no_nonce long_nonce not_created :
      VerifyError
  too_old too_new expires_first expired empty_component duplicate_component missing_component :
      VerifyError
  no_digest bad_digest no_sha256 not_an_item not_octets digest_mismatch : VerifyError
  key_unresolved other_key no_public_key bad_signature nonce_failed replayed : VerifyError

-- The interface RFC9421NonceStore: whether the nonce was reserved, or an error
pub record NonceStore (S : Type 0) : Type 0 where
  pub reserve : ℕ → String → String → ℕ → S → Option Bool × S

pub record Verifier : Type 0 where
  pub scheme : String
  pub authority : String
  pub resolver : String → Option ResolvedKey
  pub maximum_age : ℕ
  pub future_skew : ℕ
  pub replay_ttl : ℕ

-- A duration of the options, where 0 asks for the default and a negative one is `none`
abbrev pub chosen : ℕ → ℤ → Option ℕ
chosen default (pos n) = some (if n == 0 then default else n)
chosen default (negsuc n) = none

-- NewRFC9421Verifier. The nonce store and the clock are arguments of the methods here.
unfoldable pub new_verifier :
    Runtime
    → String
    → String
    → Option (String → Option ResolvedKey)
    → Bool
    → ℤ
    → ℤ
    → ℤ
    → Result VerifyError Verifier
new_verifier go raw_scheme raw_authority resolver has_store maximum_age future_skew replay_ttl =
    let scheme = go.to_lower (trim_space raw_scheme) in
    let authority = trim_space raw_authority in
    if not (str_eq scheme "http") && not (str_eq scheme "https")
    then err bad_scheme
    else if str_eq authority ""
    then err no_authority
    else elim resolver [
      | none ↦ err no_resolver
      | some resolve ↦
          (if not has_store
            then err no_nonce_store
            else elim (chosen default_maximum_age maximum_age) [
              | none ↦ err age_too_short
              | some age ↦
                  (if ltb age time_second
                    then err age_too_short
                    else elim (chosen default_future_skew future_skew) [
                      | none ↦ err skew_negative
                      | some skew ↦ elim (chosen default_replay_ttl replay_ttl) [
                        | none ↦ err ttl_too_short
                        | some ttl ↦
                            (if ltb ttl (age + skew)
                              then err ttl_too_short
                              else ok (record {
                                scheme = scheme;
                                authority = authority;
                                resolver = resolve;
                                maximum_age = age;
                                future_skew = skew;
                                replay_ttl = ttl;
                              }))
                      ]
                    ])
            ])
    ]

abbrev pub drop_component : String → List String → List String
drop_component c [] = []
drop_component c (x ∷ xs) = if str_eq x c then drop_component c xs else x ∷ drop_component c xs

-- The loop over the covered components, with those seen and those still required
unfoldable pub check_covered :
    List String → List String → List String → Result VerifyError (Unit {0})
check_covered seen [] [] = ok tt
check_covered seen (x ∷ xs) [] = err missing_component
check_covered seen required (c ∷ cs) =
    let rest = check_covered (c ∷ seen) (drop_component c required) cs in
    if str_eq c ""
    then err empty_component
    else if member c seen
    then err duplicate_component
    else rest

-- validateRFC9421POSTParameters; `byte_length` is `len`. `created` before `now - maximum_age` is
-- written without a subtraction.
unfoldable pub validate_parameters :
    (String → ℕ) → Verifier → Message → ℕ → Result VerifyError (Unit {0})
validate_parameters byte_length verifier message now =
    if str_eq (trim_space message.key_id) ""
    then err no_key_id
    else if not (str_eq message.algorithm rsa_algorithm)
    then err bad_algorithm
    else if str_eq message.nonce ""
    then err no_nonce
    else if ltb max_nonce_bytes (byte_length message.nonce)
    then err long_nonce
    else if message.created == 0
    then err not_created
    else if ltb (message.created + verifier.maximum_age) now
    then err too_old
    else if ltb (now + verifier.future_skew) message.created
    then err too_new
    else if not (message.expires == 0) && ltb message.expires message.created
    then err expires_first
    else if not (message.expires == 0) && ltb message.expires now
    then err expired
    else check_covered [] post_components message.covered

abbrev pub member_of : String → List (String × Member) → Option Member
member_of key [] = none
member_of key ((name, m) ∷ rest) = if str_eq name key then some m else member_of key rest

-- VerifyRFC9530ContentDigestSHA256
unfoldable pub verify_content_digest :
    Http → (String → String) → List String → String → Result VerifyError (Unit {0})
verify_content_digest http sha256 [] body = err no_digest
verify_content_digest http sha256 (value ∷ values) body =
    elim (http.unmarshal_dictionary (value ∷ values)) [
      | none ↦ err bad_digest
      | some dictionary ↦ elim (member_of "sha-256" dictionary) [
        | none ↦ err no_sha256
        | some (item (octets presented)) ↦
            (if str_eq presented (sha256 body) then ok tt else err digest_mismatch)
        | some (item _) ↦ err not_octets
        | some _ ↦ err not_an_item
      ]
    ]

-- RFC9421Verification
pub record Verified : Type 0 where
  pub key_id : String
  pub key_owner : String
  pub key_actor : String
  pub nonce : String
  pub created : ℕ
  pub expires : ℕ
  pub covered : List String
  pub algorithm : String
