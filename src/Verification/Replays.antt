-- ===== src/Verification/Replays.antt =====
-- A signed message is accepted at most once (internal/httpsignature/rfc9421_verify.go with
-- redis_nonce_store.go): the marker of its nonce outlives the time in which it is young enough.
use activity_relay.Base.{
  ℕ, ◌+◌, ◌*◌, ◌/◌, ◌≤◌, ◌<◌, String, true, ◌≡◌, sym, ◌∙◌, Option-cases, inl, inr, some, ok, List,
  [], ◌∷◌, arith,
}
use activity_relay.Negotiation.Store.{millisecond}
use activity_relay.Verification.{
  Message, Request, NonceStore, Verifier, Verified, validate_parameters,
}
use activity_relay.Verification.Nonces.{Markers, nonce_key, reserve_nonce, redis_nonces}
use activity_relay.Verification.Posts.{
  Outside, verify_post, verify_signature, reserve_message, verify_post-reserved,
}

-- A request to verify: its body, and what the clock reads
abbrev pub Post : Type 0
Post = Request × String × ℕ

-- The message is inside the window of its creation time.
young :
    (byte_length : String → ℕ) (verifier : Verifier) (message : Message) (now : ℕ)
    → validate_parameters byte_length verifier message now ≡ ok tt
    → (now ≤ message.created + verifier.maximum_age)
      × (message.created ≤ now + verifier.future_skew)
unfolding validate_parameters
young byte_length verifier message now h = ground arith

module _ (m : Markers) (sha256_hex : String → String) (prefix : String) (o : Outside)
    (verifier : Verifier) where
  open m use {Db, held_until, set_nx, held_until-set_nx, set_nx-reserved}

  abbrev nonces : NonceStore Db
  nonces = redis_nonces m sha256_hex prefix

  -- The requests that are verified, one after the other
  abbrev pub verify_posts : List Post → Db → Db
  verify_posts [] d = d
  verify_posts ((request, body, now) ∷ posts) d =
      verify_posts posts
        (verify_post o verifier (redis_nonces m sha256_hex prefix) request body now d).1

  held_until-reserve_nonce :
      (now : ℕ) (key_id nonce other : String) (ttl : ℕ) (d : Db)
      → held_until d other
        ≤ held_until (reserve_nonce m sha256_hex prefix now key_id nonce ttl d).1 other
  unfolding reserve_nonce
  held_until-reserve_nonce now key_id nonce other ttl d =
      ground (arith, held_until-set_nx now (nonce_key sha256_hex prefix key_id nonce) other ttl d)

  reserve_nonce-reserved :
      (now : ℕ) (key_id nonce : String) (ttl : ℕ) (d d' : Db)
      → reserve_nonce m sha256_hex prefix now key_id nonce ttl d ≡ (some true, d')
      → (held_until d (nonce_key sha256_hex prefix key_id nonce) ≤ now)
        × (now + ttl / millisecond * millisecond
            ≤ held_until d' (nonce_key sha256_hex prefix key_id nonce))
  unfolding reserve_nonce
  reserve_nonce-reserved now key_id nonce ttl d d' h =
      ground (arith, set_nx-reserved now (nonce_key sha256_hex prefix key_id nonce) ttl d)

  held_until-verify_signature :
      (message : Message) (request : Request) (body : String) (now : ℕ) (other : String) (d : Db)
      → held_until d other
        ≤ held_until (verify_signature o verifier nonces message request body now d).1 other
  unfolding verify_signature reserve_message
  held_until-verify_signature message request body now other d =
      ground (
        arith,
        held_until-reserve_nonce now message.key_id message.nonce other verifier.replay_ttl d,
      )

  held_until-verify_post :
      (request : Request) (body : String) (now : ℕ) (other : String) (d : Db)
      → held_until d other ≤ held_until (verify_post o verifier nonces request body now d).1 other
  unfolding verify_post
  held_until-verify_post request body now other d = elim (Option-cases (o.find_message request)) [
    | inl missing ↦ ground (arith, missing)
    | inr (message, found) ↦
        ground (arith, found, held_until-verify_signature message request body now other d)
  ]

  held_until-verify_posts :
      (posts : List Post) (other : String) (d : Db)
      → held_until d other ≤ held_until (verify_posts posts d) other
  held_until-verify_posts [] other d = omega arith
  held_until-verify_posts ((request, body, now) ∷ posts) other d = omega (
    arith,
    held_until-verify_post request body now other d,
    held_until-verify_posts posts other (verify_post o verifier nonces request body now d).1,
  )

  -- Once VerifyPOST has accepted a request, and whatever else is verified after that, no request with
  -- the same key ID, nonce and creation time is accepted, whenever it comes, if the markers last
  -- longer, in whole milliseconds, than the maximum age and the skew together.
  pub verify_post-once :
      (first again : Request) (body body' : String) (now now' : ℕ) (d d' d'' : Db) (v v' : Verified)
      (between : List Post)
      → verifier.maximum_age + verifier.future_skew
        < verifier.replay_ttl / millisecond * millisecond
      → verify_post o verifier (redis_nonces m sha256_hex prefix) first body now d ≡ (ok v, d')
      → v'.key_id ≡ v.key_id
      → v'.nonce ≡ v.nonce
      → v'.created ≡ v.created
      → ¬ (
          verify_post o verifier
            (redis_nonces m sha256_hex prefix)
            again
            body'
            now'
            (verify_posts between d')
          ≡ (ok v', d''))
  verify_post-once first again body body' now now' d d' d'' v v' between lasting accepted id nonce
        created replay =
      let (a, (p, f, valid, g, a_id, a_nonce, a_created, k), reserved) =
        verify_post-reserved o verifier nonces first body now d d' v accepted in
      let (b, (p', f', valid', g', b_id, b_nonce, b_created, k'), reserved') =
        verify_post-reserved o verifier nonces again body' now' (verify_posts between d') d'' v'
          replay in
      let key = nonce_key sha256_hex prefix a.key_id a.nonce in
      let same_id : b.key_id ≡ a.key_id = sym b_id ∙ id ∙ a_id in
      let same_nonce : b.nonce ≡ a.nonce = sym b_nonce ∙ nonce ∙ a_nonce in
      let same_time : b.created ≡ a.created = sym b_created ∙ created ∙ a_created in
      let marked = reserve_nonce-reserved now a.key_id a.nonce verifier.replay_ttl d d' reserved in
      let free =
        reserve_nonce-reserved now' b.key_id b.nonce verifier.replay_ttl (verify_posts between d')
          d'' reserved' in
      let free_there : held_until (verify_posts between d') key ≤ now' =
        rw (sym same_id, sym same_nonce) free.0 in
      omega (
        arith,
        marked.1,
        free_there,
        held_until-verify_posts between key d',
        young o.byte_length verifier a now valid,
        young o.byte_length verifier b now' valid',
        same_time,
        lasting,
      )
