-- ===== src/Verification/Posts.antt =====
-- VerifyPOST and BindActivityActor of internal/httpsignature/rfc9421_verify.go.
use activity_relay.Base.{
  ℕ, String, Bool, true, false, not, ◌≡◌, Option-cases, inl, inr, Option, none, some, Result, ok,
  err, str_eq, eq_iff, arith, if◌then◌else◌,
}
use activity_relay.Negotiation.Challenges.{Http}
use activity_relay.Verification.{
  VerifyError, not_a_post, other_authority, no_signature, key_unresolved, other_key, no_public_key,
  bad_signature, nonce_failed, replayed, ResolvedKey, Message, Request, NonceStore, Verifier,
  Verified, validate_parameters, verify_content_digest,
}

-- What is not written out here
pub record Outside : Type 0 where
  pub http : Http
  pub byte_length : String → ℕ
  pub sha256 : String → String
  pub find_message : Request → Option Message
  -- the signature base of the request, at a scheme and an authority, under a public key
  pub signature_valid : String → Message → String → String → Request → String → Bool

module _ {S : Type 0} (o : Outside) (verifier : Verifier) (nonces : NonceStore S) where
  -- The end of VerifyPOST, once the signature is valid
  unfoldable pub reserve_message : Message → ResolvedKey → ℕ → S → Result VerifyError Verified × S
  reserve_message message key now s =
      let (reserved, s') = nonces.reserve now message.key_id message.nonce verifier.replay_ttl s in
      elim reserved [
        | none ↦ (err nonce_failed, s')
        | some false ↦ (err replayed, s')
        | some true ↦ (
          ok (record {
            key_id = message.key_id;
            key_owner = key.owner;
            key_actor = key.actor_id;
            nonce = message.nonce;
            created = message.created;
            expires = message.expires;
            covered = message.covered;
            algorithm = message.algorithm;
          }),
          s',
        )
      ]

  -- The key and the signature
  unfoldable pub verify_signature :
      Message → Request → String → ℕ → S → Result VerifyError Verified × S
  unfolding reserve_message
  verify_signature message request body now s = elim (verifier.resolver message.key_id) [
    | none ↦ (err key_unresolved, s)
    | some key ↦
        (if not (str_eq key.key_id message.key_id)
          then (err other_key, s)
          else elim key.public_key [
            | none ↦ (err no_public_key, s)
            | some public_key ↦
                (if not (
                    o.signature_valid public_key message verifier.scheme verifier.authority request
                      body)
                  then (err bad_signature, s)
                  else reserve_message message key now s)
          ])
  ]

  -- VerifyPOST, at a verifier and a request that are not nil; `now` is what the clock reads. It is
  -- read once here for the whole call: the source may fetch a key between the check of the message's
  -- age and the reservation of its nonce, which happens at a later time.
  unfoldable pub verify_post : Request → String → ℕ → S → Result VerifyError Verified × S
  verify_post request body now s =
      let authority = if str_eq request.host "" then request.url_host else request.host in
      if not (str_eq request.method "POST")
      then (err not_a_post, s)
      else if not (str_eq authority verifier.authority)
      then (err other_authority, s)
      else elim (o.find_message request) [
        | none ↦ (err no_signature, s)
        | some message ↦ elim (validate_parameters o.byte_length verifier message now) [
          | err e ↦ (err e, s)
          | ok _ ↦ elim (verify_content_digest o.http o.sha256 request.content_digest body) [
            | err e ↦ (err e, s)
            | ok _ ↦ verify_signature message request body now s
          ]
        ]
      ]

  -- What VerifyPOST has established of a message when it returns no error
  abbrev pub IsVerified : Request → String → ℕ → Message → Verified → Type 0
  IsVerified request body now message v =
      (request.method ≡ "POST")
      × (o.find_message request ≡ some message)
      × (validate_parameters o.byte_length verifier message now ≡ ok tt)
      × (verify_content_digest o.http o.sha256 request.content_digest body ≡ ok tt)
      × (v.key_id ≡ message.key_id)
      × (v.nonce ≡ message.nonce)
      × (v.created ≡ message.created)
      × ((key : ResolvedKey) × (public_key : String) × (verifier.resolver message.key_id ≡ some key)
          × (key.key_id ≡ message.key_id)
          × (key.public_key ≡ some public_key)
          × (v.key_owner ≡ key.owner)
          × (v.key_actor ≡ key.actor_id)
          × (o.signature_valid public_key message verifier.scheme verifier.authority request body
              ≡ true))

  verify_signature-reserved :
      (message : Message) (request : Request) (body : String) (now : ℕ) (s s' : S) (v : Verified)
      → verify_signature message request body now s ≡ (ok v, s')
      → (nonces.reserve now message.key_id message.nonce verifier.replay_ttl s ≡ (some true, s'))
        × (v.key_id ≡ message.key_id)
        × (v.nonce ≡ message.nonce)
        × (v.created ≡ message.created)
        × ((key : ResolvedKey) × (public_key : String) × (verifier.resolver message.key_id
              ≡ some key)
            × (key.key_id ≡ message.key_id)
            × (key.public_key ≡ some public_key)
            × (v.key_owner ≡ key.owner)
            × (v.key_actor ≡ key.actor_id)
            × (o.signature_valid public_key message verifier.scheme verifier.authority request body
                ≡ true))
  unfolding verify_signature reserve_message
  verify_signature-reserved message request body now s s' v h =
      elim (Option-cases (verifier.resolver message.key_id)) [
        | inl unresolved ↦ absurd (ground (arith, unresolved))
        | inr (key, found) ↦ elim (Option-cases key.public_key) [
          | inl missing ↦ absurd (ground (arith, found, missing))
          | inr (public_key, has) ↦
              let known = eq_iff key.key_id message.key_id in
              (
                ground (arith, found, has, known),
                ground (arith, found, has, known),
                ground (arith, found, has, known),
                ground (arith, found, has, known),
                (
                  key,
                  public_key,
                  found,
                  ground (arith, found, has, known),
                  has,
                  ground (arith, found, has, known),
                  ground (arith, found, has, known),
                  ground (arith, found, has, known),
                ),
              )
        ]
      ]

  pub verify_post-reserved :
      (request : Request) (body : String) (now : ℕ) (s s' : S) (v : Verified)
      → verify_post request body now s ≡ (ok v, s')
      → (message : Message) × IsVerified request body now message v
        × (nonces.reserve now message.key_id message.nonce verifier.replay_ttl s ≡ (some true, s'))
  unfolding verify_post
  verify_post-reserved request body now s s' v h = elim (Option-cases (o.find_message request)) [
    | inl missing ↦ absurd (ground (arith, missing))
    | inr (message, found) ↦
        let (rest, posted, valid, digest) : (verify_signature message request body now s
              ≡ (ok v, s'))
            × (request.method ≡ "POST")
            × (validate_parameters o.byte_length verifier message now ≡ ok tt)
            × (verify_content_digest o.http o.sha256 request.content_digest body ≡ ok tt) =
          ground (arith, found, eq_iff request.method "POST") in
        let (reserved, id, nonce, created, key) =
          verify_signature-reserved message request body now s s' v rest in
        (message, (posted, found, valid, digest, id, nonce, created, key), reserved)
  ]
