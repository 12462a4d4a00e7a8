-- ===== src/Verification/Decoding.antt =====
-- How a POST to the inbox is decoded and its sender is bound to the activity's actor (api/decode.go,
-- and BindActivityActor of internal/httpsignature/rfc9421_verify.go). JSON, go-fed/httpsig, base64 and
-- `url.ParseRequestURI` are parameters; the resolution of a remote actor is an interface.
pub mod Hosts
pub mod Bindings
use activity_relay.Base.{
  ℕ, ◌+◌, String, str_append, Bool, true, false, not, ◌&&◌, ◌||◌, Option, none, some, Result, ok,
  err, ◌>>=◌, List, [], ◌∷◌, str_eq, if◌then◌else◌, trim_space, trim_suffix, ltb,
}
use activity_relay.Go.{Runtime}
use activity_relay.Relay.{Actor, Activity}
use activity_relay.Verification.{VerifyError, Request, Verifier, Verified, NonceStore}
use activity_relay.Verification.Posts.{Outside, verify_post}

-- What ParseRequestURI gives, and its `String` at a scheme and a host
pub record Identity : Type 0 where
  pub scheme : String
  pub host : String
  pub has_user : Bool
  pub fragment : String
  pub shown : String → String → String

-- A document of an actor with its public key: the owner, and the key where the PEM parses. A PEM
-- that parses to no RSA key is `some none`.
pub record Document : Type 0 where
  pub actor : Actor
  pub owner : String
  pub public_key : Option (Option String)

pub data DecodeError : Type 0 where
  no_verifier too_large unreadable not_json no_actor bad_identity owner_differs key_actor_differs :
      DecodeError
  unresolved no_legacy_signature bad_public_key bad_legacy_signature digest_differs bad_host :
      DecodeError
  key_host_differs owner_host_differs document_differs : DecodeError
  not_verified : VerifyError → DecodeError

pub record Services : Type 0 where
  pub parse_identity : String → Option Identity
  pub unmarshal : String → Option Activity
  pub resolve_actor : String → Option Document
  pub legacy_key_id : Request → Option String
  pub legacy_valid : String → Request → Bool
  pub sha256_base64 : String → String
  pub max_activity_bytes : ℕ

module _ (go : Runtime) (w : Services) where
  -- canonicalRFC9421ActorIdentity
  unfoldable pub canonical_identity : String → Option String
  canonical_identity value = elim (w.parse_identity (trim_space value)) [
    | none ↦ none
    | some parsed ↦
        (if str_eq parsed.scheme "" || str_eq parsed.host ""
          then none
          else if parsed.has_user
          then none
          else if not (str_eq parsed.fragment "")
          then none
          else some (parsed.shown (go.to_lower parsed.scheme) (go.to_lower parsed.host)))
  ]

  -- BindActivityActor, at a result that is not nil
  unfoldable pub bind_activity_actor : Verified → String → Result DecodeError (Unit {0})
  bind_activity_actor v activity_actor = elim (canonical_identity activity_actor) [
    | none ↦ err bad_identity
    | some activity_identity ↦ elim (canonical_identity v.key_owner) [
      | none ↦ err bad_identity
      | some owner_identity ↦
          (if not (str_eq owner_identity activity_identity)
            then err owner_differs
            else if str_eq (trim_space v.key_actor) ""
            then ok tt
            else elim (canonical_identity v.key_actor) [
              | none ↦ err bad_identity
              | some key_actor ↦
                  (if str_eq key_actor activity_identity then ok tt else err key_actor_differs)
            ])
    ]
  ]

  -- readInboundActivityBody, at a body of which `byte_length` is the length; `none` is unreadable.
  unfoldable pub read_inbound_body : (String → ℕ) → Option String → Result DecodeError String
  read_inbound_body byte_length none = err unreadable
  read_inbound_body byte_length (some body) =
      if ltb w.max_activity_bytes (byte_length body) then err too_large else ok body

  -- parseInboundActivity
  unfoldable pub parse_inbound_activity : String → Result DecodeError Activity
  parse_inbound_activity body = elim (w.unmarshal body) [
    | none ↦ err not_json
    | some activity ↦ (if str_eq (trim_space activity.actor) "" then err no_actor else ok activity)
  ]

  abbrev pub resolved : String → Result DecodeError Document
  resolved id = elim (w.resolve_actor id) [ none ↦ err unresolved | some document ↦ ok document ]

  -- The end of decodeRFC9421Activity, after VerifyPOST
  unfoldable pub decode_verified : Verified → String → Result DecodeError (Activity × Actor)
  unfolding parse_inbound_activity bind_activity_actor
  decode_verified v body = do
    activity ← parse_inbound_activity body
    _ ← bind_activity_actor v activity.actor
    document ← resolved activity.actor
    _ ← bind_activity_actor v document.actor.id
    ok (activity, document.actor)

  -- normalizedRemoteHost
  unfoldable pub normalized_remote_host : String → Option String
  normalized_remote_host address = elim (go.parse_url address) [
    | none ↦ none
    | some u ↦
        let host = go.to_lower (trim_suffix "." u.hostname) in
        (if str_eq host "" then none else some host)
  ]

  -- Whether an address has the host; an empty one is passed over where it is optional.
  unfoldable pub has_host : String → String → Bool
  has_host host address = elim (normalized_remote_host address) [
    | none ↦ false
    | some other ↦ str_eq other host
  ]

  -- verifySignatureActorBinding
  unfoldable pub verify_signature_actor_binding :
      String → Document → String → Result DecodeError (Unit {0})
  unfolding has_host
  verify_signature_actor_binding key_id key_owner activity_actor =
      elim (normalized_remote_host activity_actor) [
        | none ↦ err bad_host
        | some actor_host ↦ elim (normalized_remote_host key_id) [
          | none ↦ err bad_host
          | some key_host ↦
              (if not (str_eq key_host actor_host)
                then err key_host_differs
                else if not (str_eq key_owner.actor.id "")
                    && not (has_host actor_host key_owner.actor.id)
                then err owner_host_differs
                else if not (str_eq key_owner.owner "") && not (has_host actor_host key_owner.owner)
                then err owner_host_differs
                else ok tt)
        ]
      ]

  -- verifyActivityActorDocument
  unfoldable pub verify_activity_actor_document : String → Actor → Result DecodeError (Unit {0})
  unfolding has_host
  verify_activity_actor_document activity_actor remote_actor =
      elim (normalized_remote_host activity_actor) [
        | none ↦ err bad_host
        | some host ↦ (if has_host host remote_actor.id then ok tt else err document_differs)
      ]

  -- The signature of decodeLegacyActivity, under the key of the actor that has the key ID
  unfoldable pub check_legacy_signature :
      Document → Request → String → Result DecodeError (Unit {0})
  check_legacy_signature key_owner request body = elim key_owner.public_key [
    | none ↦ err bad_public_key
    | some none ↦ err bad_public_key
    | some (some key) ↦
        (if not (w.legacy_valid key request)
          then err bad_legacy_signature
          else if not (str_eq request.digest (str_append "SHA-256=" (w.sha256_base64 body)))
          then err digest_differs
          else ok tt)
  ]

  -- decodeLegacyActivity from the key ID on
  unfoldable pub decode_with_key_id :
      String → Request → String → Result DecodeError (Activity × Actor)
  decode_with_key_id key_id request body = do
    key_owner ← resolved key_id
    _ ← check_legacy_signature key_owner request body
    activity ← parse_inbound_activity body
    _ ← verify_signature_actor_binding key_id key_owner activity.actor
    document ← resolved activity.actor
    _ ← verify_activity_actor_document activity.actor document.actor
    ok (activity, document.actor)

  -- decodeLegacyActivity
  unfoldable pub decode_legacy_activity : Request → String → Result DecodeError (Activity × Actor)
  decode_legacy_activity request body = elim (w.legacy_key_id request) [
    | none ↦ err no_legacy_signature
    | some key_id ↦ decode_with_key_id key_id request body
  ]

  module _ {S : Type 0} (o : Outside) (verifier : Option Verifier) (nonces : NonceStore S) where
    -- decodeRFC9421Activity
    unfoldable pub decode_rfc9421_activity :
        Request → String → ℕ → S → Result DecodeError (Activity × Actor) × S
    decode_rfc9421_activity request body now s = elim verifier [
      | none ↦ (err no_verifier, s)
      | some v ↦
          let (result, s') = verify_post o v nonces request body now s in
          elim result [
            | err e ↦ (err (not_verified e), s')
            | ok verified ↦ (decode_verified verified body, s')
          ]
    ]

    -- decodeActivity with selectInboundSignatureProfile, without the metrics
    unfoldable pub decode_activity :
        Request → Option String → ℕ → S → Result DecodeError (Activity × Actor) × S
    decode_activity request read now s = elim (read_inbound_body o.byte_length read) [
      | err e ↦ (err e, s)
      | ok body ↦ elim request.signature_input [
        | [] ↦ (decode_legacy_activity request body, s)
        | _ ↦ decode_rfc9421_activity request body now s
      ]
    ]
