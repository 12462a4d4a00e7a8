-- ===== src/Verification/Decoding/Bindings.antt =====
-- Who the sender of a decoded activity is (api/decode.go).
use activity_relay.Base.{
  ℕ, String, ◌≡◌, ◌⊎◌, inl, inr, refl, sym, Option, Option-cases, Result-cases, some, ok, List, [],
  ◌∷◌, eq_iff, arith, str_eq, trim_space, true,
}
use activity_relay.Go.{Runtime}
use activity_relay.Relay.{Actor, Activity}
use activity_relay.Verification.{Request, Verifier, Verified, NonceStore}
use activity_relay.Verification.Posts.{Outside, verify_post}
use activity_relay.Verification.Decoding.{
  Services, canonical_identity, bind_activity_actor, read_inbound_body, parse_inbound_activity,
  resolved, decode_verified, decode_rfc9421_activity, decode_activity,
}
use activity_relay.Verification.Decoding.Hosts.{
  IsSameHost, parse_inbound_activity-ok, decode_legacy_activity-IsSameHost,
}

List-cases : {A : Type 0} (xs : List A) → (xs ≡ []) ⊎ ((y : A) × (ys : List A) × (xs ≡ y ∷ ys))
List-cases [] = inl refl
List-cases (y ∷ ys) = inr (y, ys, refl)

module _ (go : Runtime) (w : Services) where
  -- The body is the activity; and the owner of the key, the actor whose document the key is in where
  -- one is known, the activity's actor and the actor's document are one identity.
  abbrev pub IsIdentified : Verified → String → Activity → Actor → Type 0
  IsIdentified v body activity actor =
      (w.unmarshal body ≡ some activity)
      × ((identity : String) × (canonical_identity go w activity.actor ≡ some identity)
          × (canonical_identity go w v.key_owner ≡ some identity)
          × ((str_eq (trim_space v.key_actor) "" ≡ true)
              ⊎ (canonical_identity go w v.key_actor ≡ some identity))
          × (canonical_identity go w actor.id ≡ some identity))

  bind_activity_actor-ok :
      (v : Verified) (id : String) (done : Unit {0})
      → bind_activity_actor go w v id ≡ ok done
      → (identity : String) × (canonical_identity go w id ≡ some identity)
        × (canonical_identity go w v.key_owner ≡ some identity)
        × ((str_eq (trim_space v.key_actor) "" ≡ true)
            ⊎ (canonical_identity go w v.key_actor ≡ some identity))
  unfolding bind_activity_actor
  bind_activity_actor-ok v id done h = elim (Option-cases (canonical_identity go w id)) [
    | inl bad ↦ absurd (ground (arith, bad))
    | inr (identity, one) ↦ elim (Option-cases (canonical_identity go w v.key_owner)) [
      | inl bad ↦ absurd (ground (arith, one, bad))
      | inr (owner, two) ↦ (
        identity,
        one,
        ground (arith, one, two, eq_iff owner identity),
        elim (Option-cases (canonical_identity go w v.key_actor)) [
          | inl bad ↦ ground (arith, one, two, bad)
          | inr (holder, three) ↦ ground (arith, one, two, three, eq_iff holder identity)
        ],
      )
    ]
  ]

  decode_verified-IsIdentified :
      (v : Verified) (body : String) (activity : Activity) (actor : Actor)
      → decode_verified go w v body ≡ ok (activity, actor)
      → IsIdentified v body activity actor
  unfolding decode_verified
  decode_verified-IsIdentified v body activity actor h =
      elim (Result-cases (parse_inbound_activity go w body)) [
        | inl (e, bad) ↦ absurd (ground (arith, bad))
        | inr (a, parsed) ↦ elim (Result-cases (bind_activity_actor go w v a.actor)) [
          | inl (e, bad) ↦ absurd (ground (arith, parsed, bad))
          | inr (t, bound) ↦ elim (Result-cases (resolved go w a.actor)) [
            | inl (e, bad) ↦ absurd (ground (arith, parsed, bound, bad))
            | inr (document, found) ↦
                elim (Result-cases (bind_activity_actor go w v document.actor.id)) [
                  | inl (e, bad) ↦ absurd (ground (arith, parsed, bound, found, bad))
                  | inr (u, bound') ↦
                      let (same_activity, same_actor) : (activity ≡ a) × (actor ≡ document.actor) =
                        ground (arith, parsed, bound, found, bound') in
                      let (identity, one, two, holder) = bind_activity_actor-ok v a.actor t bound in
                      let (identity', one', two', holder') =
                        bind_activity_actor-ok v document.actor.id u bound' in
                      let same : identity' ≡ identity = cc in
                      rw (same_activity, same_actor)
                        (
                          parse_inbound_activity-ok go w body a parsed,
                          (identity, one, two, holder, rw (sym same) one'),
                        )
                ]
          ]
        ]
      ]

  module _ {S : Type 0} (o : Outside) (verifier : Option Verifier) (nonces : NonceStore S) where
    -- A request with RFC 9421 fields was verified and names one identity; one without them has a
    -- legacy signature, by a key on the host that its actor and the actor's document are on, and the
    -- digest of the body.
    abbrev pub IsAuthentic : Request → String → ℕ → S → Activity → Actor → Type 0
    IsAuthentic request body now s activity actor =
        ((v : Verifier) × (verified : Verified) × (verifier ≡ some v)
          × ((verify_post o v nonces request body now s).0 ≡ ok verified)
          × IsIdentified verified body activity actor)
        ⊎ ((request.signature_input ≡ []) × IsSameHost go w request body activity actor)

    decode_rfc9421_activity-ok :
        (request : Request) (body : String) (now : ℕ) (s s' : S) (activity : Activity)
        (actor : Actor)
        → decode_rfc9421_activity go w o verifier nonces request body now s
          ≡ (ok (activity, actor), s')
        → (v : Verifier) × (verified : Verified) × (verifier ≡ some v)
          × ((verify_post o v nonces request body now s).0 ≡ ok verified)
          × IsIdentified verified body activity actor
    unfolding decode_rfc9421_activity
    decode_rfc9421_activity-ok request body now s s' activity actor h =
        elim (Option-cases verifier) [
          | inl bad ↦ absurd (ground (arith, bad))
          | inr (v, has) ↦ elim (Result-cases (verify_post o v nonces request body now s).0) [
            | inl (e, bad) ↦ absurd (ground (arith, has, bad))
            | inr (verified, accepted) ↦ (
              v,
              verified,
              has,
              accepted,
              decode_verified-IsIdentified verified body activity actor
                  (ground (arith, has, accepted)),
            )
          ]
        ]

    -- An activity that decodes from a POST is authentic, in the way that the request's fields select.
    -- With RFC 9421 fields the request with this body was verified, and the owner of the key, the
    -- document of the key where it is known, the activity's actor and its document are one identity.
    -- Without them the request has a valid legacy signature and the digest of this body, and the key,
    -- the addresses that the document of its owner gives, the activity's actor and its document are
    -- on one host. In both cases the body is the activity.
    pub decode_activity-IsAuthentic :
        (request : Request) (body : String) (now : ℕ) (s s' : S) (activity : Activity)
        (actor : Actor)
        → decode_activity go w o verifier nonces request (some body) now s
          ≡ (ok (activity, actor), s')
        → IsAuthentic request body now s activity actor
    unfolding decode_activity read_inbound_body
    decode_activity-IsAuthentic request body now s s' activity actor h =
        elim (List-cases request.signature_input) [
          | inl absent ↦ inr (
            absent,
            decode_legacy_activity-IsSameHost go w request body activity actor
                (ground (arith, absent)),
          )
          | inr (line, lines, given) ↦ inl (
              decode_rfc9421_activity-ok request body now s s' activity actor
                (ground (arith, given)))
        ]
