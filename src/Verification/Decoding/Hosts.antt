-- ===== src/Verification/Decoding/Hosts.antt =====
-- The host that the sender of a decoded legacy activity is on (api/decode.go).
use activity_relay.Base.{
  String, str_append, str_eq, true, false, not, ◌&&◌, ◌≡◌, ◌⊎◌, inl, inr, Bool-cases, Option-cases,
  Result-cases, some, Result, ok, ◌>>=◌, eq_iff, arith,
}
use activity_relay.Go.{Runtime}
use activity_relay.Relay.{Actor, Activity}
use activity_relay.Verification.{Request}
use activity_relay.Verification.Decoding.{
  Document, DecodeError, Services, parse_inbound_activity, resolved, normalized_remote_host,
  has_host, verify_signature_actor_binding, verify_activity_actor_document, check_legacy_signature,
  decode_with_key_id, decode_legacy_activity,
}

module _ (go : Runtime) (w : Services) where
  -- An address that a document may leave out is on the host where it is given.
  abbrev pub IsOnHost : String → String → Type 0
  IsOnHost host address = (address ≡ "") ⊎ (normalized_remote_host go w address ≡ some host)

  -- The key of the actor that has the key ID signed the request with the digest of the body, and the
  -- body is the activity. The key, the addresses that its owner's document gives, the activity's
  -- actor and the actor's document are on one host.
  abbrev pub IsSameHost : Request → String → Activity → Actor → Type 0
  IsSameHost request body activity actor =
      (host : String) × (key_id : String) × (owner : Document) × (key : String) × (w.legacy_key_id
          request
        ≡ some key_id)
      × (w.resolve_actor key_id ≡ some owner)
      × (owner.public_key ≡ some (some key))
      × (w.legacy_valid key request ≡ true)
      × (request.digest ≡ str_append "SHA-256=" (w.sha256_base64 body))
      × (w.unmarshal body ≡ some activity)
      × IsOnHost host owner.actor.id
      × IsOnHost host owner.owner
      × (normalized_remote_host go w key_id ≡ some host)
      × (normalized_remote_host go w activity.actor ≡ some host)
      × (normalized_remote_host go w actor.id ≡ some host)

  has_host-ok :
      (host address : String)
      → has_host go w host address ≡ true
      → normalized_remote_host go w address ≡ some host
  unfolding has_host
  has_host-ok host address h = elim (Option-cases (normalized_remote_host go w address)) [
    | inl bad ↦ absurd (ground (arith, bad))
    | inr (other, found) ↦ ground (arith, found, eq_iff other host)
  ]

  verify_activity_actor_document-ok :
      (address : String) (actor : Actor) (done : Unit {0})
      → verify_activity_actor_document go w address actor ≡ ok done
      → (host : String) × (normalized_remote_host go w address ≡ some host)
        × (normalized_remote_host go w actor.id ≡ some host)
  unfolding verify_activity_actor_document
  verify_activity_actor_document-ok address actor done h =
      elim (Option-cases (normalized_remote_host go w address)) [
        | inl bad ↦ absurd (ground (arith, bad))
        | inr (host, found) ↦ (host, found, has_host-ok host actor.id (ground (arith, found)))
      ]

  -- An optional address that passes its check
  optional-IsOnHost :
      (host address : String)
      → not (str_eq address "") && not (has_host go w host address) ≡ false
      → IsOnHost host address
  optional-IsOnHost host address h = elim (Bool-cases (str_eq address "")) [
    | inl empty ↦ inl ((eq_iff address "").0 empty)
    | inr given ↦ inr (has_host-ok host address (ground (arith, given)))
  ]

  -- What the binding of a key to an activity's actor is worth
  abbrev IsBound : String → String → Document → Type 0
  IsBound host key_id owner =
      IsOnHost host owner.actor.id
      × IsOnHost host owner.owner
      × (normalized_remote_host go w key_id ≡ some host)

  verify_signature_actor_binding-ok :
      (key_id : String) (owner : Document) (address host : String) (done : Unit {0})
      → verify_signature_actor_binding go w key_id owner address ≡ ok done
      → normalized_remote_host go w address ≡ some host
      → IsBound host key_id owner
  unfolding verify_signature_actor_binding
  verify_signature_actor_binding-ok key_id owner address host done h there =
      elim (Option-cases (normalized_remote_host go w key_id)) [
        | inl bad ↦ absurd (ground (arith, there, bad))
        | inr (key_host, found) ↦ (
          optional-IsOnHost host owner.actor.id (ground (arith, there, found)),
          optional-IsOnHost host owner.owner (ground (arith, there, found)),
          ground (arith, there, found, eq_iff key_host host),
        )
      ]

  pub parse_inbound_activity-ok :
      (body : String) (activity : Activity)
      → parse_inbound_activity go w body ≡ ok activity
      → w.unmarshal body ≡ some activity
  unfolding parse_inbound_activity
  parse_inbound_activity-ok body activity h = ground arith

  check_legacy_signature-ok :
      (owner : Document) (request : Request) (body : String) (done : Unit {0})
      → check_legacy_signature go w owner request body ≡ ok done
      → (key : String) × (owner.public_key ≡ some (some key))
        × (w.legacy_valid key request ≡ true)
        × (request.digest ≡ str_append "SHA-256=" (w.sha256_base64 body))
  unfolding check_legacy_signature
  check_legacy_signature-ok owner request body done h = elim (Option-cases owner.public_key) [
    | inl bad ↦ absurd (ground (arith, bad))
    | inr (parsed, one) ↦ elim (Option-cases parsed) [
      | inl bad ↦ absurd (ground (arith, one, bad))
      | inr (key, two) ↦ (
        key,
        ground (arith, one, two),
        ground (arith, one, two),
        ground
            (arith, one, two, eq_iff request.digest (str_append "SHA-256=" (w.sha256_base64 body))),
      )
    ]
  ]

  -- What follows the check of the signature
  abbrev rest_of : String → Document → String → Result DecodeError (Activity × Actor)
  rest_of key_id key_owner body = do
    activity ← parse_inbound_activity go w body
    _ ← verify_signature_actor_binding go w key_id key_owner activity.actor
    document ← resolved go w activity.actor
    _ ← verify_activity_actor_document go w activity.actor document.actor
    ok (activity, document.actor)

  rest-IsSameHost :
      (key_id : String) (owner : Document) (body : String) (activity : Activity) (actor : Actor)
      → rest_of key_id owner body ≡ ok (activity, actor)
      → (w.unmarshal body ≡ some activity)
        × ((host : String) × IsBound host key_id owner
            × (normalized_remote_host go w activity.actor ≡ some host)
            × (normalized_remote_host go w actor.id ≡ some host))
  rest-IsSameHost key_id owner body activity actor h =
      elim (Result-cases (parse_inbound_activity go w body)) [
        | inl (e, bad) ↦ absurd (ground (arith, bad))
        | inr (a, parsed) ↦
            elim (Result-cases (verify_signature_actor_binding go w key_id owner a.actor)) [
              | inl (e, bad) ↦ absurd (ground (arith, parsed, bad))
              | inr (t, bound) ↦ elim (Result-cases (resolved go w a.actor)) [
                | inl (e, bad) ↦ absurd (ground (arith, parsed, bound, bad))
                | inr (document, found) ↦
                    elim (Result-cases
                      (verify_activity_actor_document go w a.actor document.actor)) [
                        | inl (e, bad) ↦ absurd (ground (arith, parsed, bound, found, bad))
                        | inr (u, agrees) ↦
                            let (same_activity, same_actor) : (activity ≡ a)
                                × (actor ≡ document.actor) =
                              ground (arith, parsed, bound, found, agrees) in
                            let (host, one, two) =
                              verify_activity_actor_document-ok a.actor document.actor u agrees in
                            rw (same_activity, same_actor)
                              (
                                parse_inbound_activity-ok body a parsed,
                                (
                                  host,
                                  verify_signature_actor_binding-ok key_id owner a.actor host t
                                      bound one,
                                  one,
                                  two,
                                ),
                              )
                      ]
              ]
            ]
      ]

  decode_with_key_id-IsSameHost :
      (key_id : String) (request : Request) (body : String) (activity : Activity) (actor : Actor)
      → w.legacy_key_id request ≡ some key_id
      → decode_with_key_id go w key_id request body ≡ ok (activity, actor)
      → IsSameHost request body activity actor
  unfolding decode_with_key_id
  decode_with_key_id-IsSameHost key_id request body activity actor given h =
      elim (Option-cases (w.resolve_actor key_id)) [
        | inl bad ↦ absurd (ground (arith, bad))
        | inr (owner, held) ↦ elim (Result-cases (check_legacy_signature go w owner request body)) [
          | inl (e, bad) ↦ absurd (ground (arith, held, bad))
          | inr (t, signed) ↦
              let (key, parses, valid, digest) =
                check_legacy_signature-ok owner request body t signed in
              let (content, (host, (at_id, at_owner, at_key), at_activity, at_actor)) =
                rest-IsSameHost key_id owner body activity actor (ground (arith, held, signed)) in
              (
                host, key_id, owner, key, given, held, parses, valid, digest, content, at_id,
                at_owner, at_key, at_activity, at_actor,
              )
        ]
      ]

  pub decode_legacy_activity-IsSameHost :
      (request : Request) (body : String) (activity : Activity) (actor : Actor)
      → decode_legacy_activity go w request body ≡ ok (activity, actor)
      → IsSameHost request body activity actor
  unfolding decode_legacy_activity
  decode_legacy_activity-IsSameHost request body activity actor h =
      elim (Option-cases (w.legacy_key_id request)) [
        | inl bad ↦ absurd (ground (arith, bad))
        | inr (key_id, given) ↦
            decode_with_key_id-IsSameHost key_id request body activity actor given
              (ground (arith, given))
      ]
