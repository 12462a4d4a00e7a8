-- ===== src/Fanout/Split.antt =====
-- Two fan-outs of one activity: to the subscribers, and to the followers whose domain is none of
-- theirs (`executeRelayActivity`).
use activity_relay.Base.{
  String, true, false, ◌≡◌, refl, List, [], ◌∷◌, ◌++◌, map, member, All, str_eq, eq_iff, eq_refl,
  arith, ◌||◌,
}
use activity_relay.Go.{Runtime}
use activity_relay.State.{Subscriber}
use activity_relay.Fanout.{normalized_stored_domain, excluded_set, dedupe_key, fanout_targets}
use activity_relay.Fanout.Targets.{Distinct, IsAdmissible, fanout_targets_sound, select_targets-All}

member-append :
    (k : String) (xs ys : List String) → member k (xs ++ ys) ≡ (member k xs || member k ys)
member-append k [] ys = refl
member-append k (x ∷ xs) ys = ground (arith, member-append k xs ys)

Distinct-append :
    (xs ys : List String)
    → Distinct xs
    → Distinct ys
    → All (λ k. member k ys ≡ false) xs
    → Distinct (xs ++ ys)
Distinct-append [] ys dx dy apart = dy
Distinct-append (x ∷ xs) ys dx dy apart =
    (ground (arith, dx.0, apart.0, member-append x xs ys), Distinct-append xs ys dx.1 dy apart.1)

module _ (go : Runtime) where
  -- The subscription has a domain that is not empty once normalized.
  abbrev pub IsNamed : Subscriber → Type 0
  IsNamed s = str_eq (normalized_stored_domain go s.domain) "" ≡ false

  abbrev domains : List Subscriber → List String
  domains = map (λ (s : Subscriber). s.domain)

  excluded_set-grows :
      (key domain : String) (ds : List String)
      → member key (excluded_set go ds) ≡ true
      → member key (excluded_set go (domain ∷ ds)) ≡ true
  unfolding excluded_set
  excluded_set-grows key domain ds h = ground arith

  excluded_set-head :
      (s : Subscriber) (ds : List String)
      → IsNamed s
      → member (dedupe_key go s) (excluded_set go (s.domain ∷ ds)) ≡ true
  unfolding excluded_set dedupe_key
  excluded_set-head s ds named = ground (arith, eq_refl (normalized_stored_domain go s.domain))

  All-excluded_grows :
      (domain : String) (ds : List String) (subs : List Subscriber)
      → All (λ s. member (dedupe_key go s) (excluded_set go ds) ≡ true) subs
      → All (λ s. member (dedupe_key go s) (excluded_set go (domain ∷ ds)) ≡ true) subs
  All-excluded_grows domain ds [] h = tt
  All-excluded_grows domain ds (s ∷ rest) h =
      (excluded_set-grows (dedupe_key go s) domain ds h.0, All-excluded_grows domain ds rest h.1)

  -- The subscribers' keys are among those that their domains exclude.
  All-excluded :
      (subs : List Subscriber)
      → All IsNamed subs
      → All (λ s. member (dedupe_key go s) (excluded_set go (domains subs)) ≡ true) subs
  All-excluded [] h = tt
  All-excluded (s ∷ rest) h = (
    excluded_set-head s (domains rest) h.0,
    All-excluded_grows s.domain (domains rest) rest (All-excluded rest h.1),
  )

  key_of_IsAdmissible :
      (excluded : List String) (s : Subscriber)
      → IsNamed s
      → IsAdmissible go excluded s
      → member (dedupe_key go s) excluded ≡ false
  unfolding dedupe_key
  key_of_IsAdmissible excluded s named fits = ground arith

  not_among :
      (key : String) (excluded : List String) (subs : List Subscriber)
      → All IsNamed subs
      → All (IsAdmissible go excluded) subs
      → member key excluded ≡ true
      → member key (map (dedupe_key go) subs) ≡ false
  not_among key excluded [] named fits h = refl
  not_among key excluded (s ∷ rest) named fits h = ground (
    arith,
    key_of_IsAdmissible excluded s named.0 fits.0,
    eq_iff (dedupe_key go s) key,
    not_among key excluded rest named.1 fits.1 h,
  )

  apart :
      (excluded : List String) (first second : List Subscriber)
      → All (λ s. member (dedupe_key go s) excluded ≡ true) first
      → All IsNamed second
      → All (IsAdmissible go excluded) second
      → All (λ k. member k (map (dedupe_key go) second) ≡ false) (map (dedupe_key go) first)
  apart excluded [] second h named fits = tt
  apart excluded (s ∷ rest) second h named fits = (
    not_among (dedupe_key go s) excluded second named fits h.0,
    apart excluded rest second h.1 named fits,
  )

  -- The keys of the two fan-outs together are distinct, where every subscriber and every follower has
  -- a domain that is not empty once normalized.
  pub split_fanouts-Distinct :
      (source_domain : String) (subscribers followers : List Subscriber)
      → All IsNamed subscribers
      → All IsNamed followers
      → Distinct (
          map (dedupe_key go) (fanout_targets go subscribers (source_domain ∷ []))
          ++ map
              (dedupe_key go)
              (fanout_targets go followers (source_domain ∷ domains subscribers)))
  split_fanouts-Distinct source_domain subscribers followers named named' =
      let excluded = source_domain ∷ domains subscribers in
      let first = fanout_targets_sound go subscribers (source_domain ∷ []) in
      let second = fanout_targets_sound go followers excluded in
      Distinct-append _ _ first.0 second.0 (
        apart (excluded_set go excluded) _ _
          (unfold fanout_targets in
            select_targets-All go _ _ [] subscribers (
              All-excluded_grows source_domain (domains subscribers) subscribers
                (All-excluded subscribers named)))
          (unfold fanout_targets in select_targets-All go IsNamed _ [] followers named') second.1)
