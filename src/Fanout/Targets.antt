-- ===== src/Fanout/Targets.antt =====
-- Which receivers a fan-out has.
use mathlib.Core.List.{Memᴰ}
use mathlib.Core.Path.{subst}
use activity_relay.Base.{
  String, true, false, ◌≡◌, ◌⊎◌, inl, inr, refl, none, some, is_ok, List, [], ◌∷◌, map, member, All,
  str_eq, eq_iff, eq_refl, arith, Bool-cases, Option-cases,
}
use activity_relay.Go.{Runtime}
use activity_relay.Origin.{normalize_destination_origin}
use activity_relay.State.{Subscriber}
use activity_relay.Fanout.{
  normalized_stored_domain, excluded_set, dedupe_key, admit_target, select_targets, fanout_targets,
}

-- A key stands at most once in the list; the empty key is no key.
abbrev pub Distinct : List String → Type 0
Distinct [] = Unit
Distinct (k ∷ ks) = ((str_eq k "" ≡ true) ⊎ (member k ks ≡ false)) × Distinct ks

module _ (go : Runtime) where
  abbrev pub DistinctKeys : List Subscriber → Type 0
  DistinctKeys subs = Distinct (map (dedupe_key go) subs)

  -- What every target has: its domain is not excluded, and its inbox has an origin.
  abbrev pub IsAdmissible : List String → Subscriber → Type 0
  IsAdmissible excluded s =
      (member (normalized_stored_domain go s.domain) excluded ≡ false)
      × (is_ok (normalize_destination_origin go s.inbox_url) ≡ true)

  admit_target-IsAdmissible :
      (excluded seen seen' : List String) (s : Subscriber)
      → admit_target go excluded seen s ≡ some seen'
      → IsAdmissible excluded s
  unfolding admit_target
  admit_target-IsAdmissible excluded seen seen' s h = ground arith

  admit_target-seen :
      (excluded seen seen' : List String) (s : Subscriber)
      → admit_target go excluded seen s ≡ some seen'
      → ((str_eq (dedupe_key go s) "" ≡ true) × (seen' ≡ seen))
        ⊎ ((member (dedupe_key go s) seen ≡ false) × (seen' ≡ dedupe_key go s ∷ seen))
  unfolding admit_target
  admit_target-seen excluded seen seen' s h = ground arith

  admit_target-refused :
      (excluded seen : List String) (s : Subscriber)
      → admit_target go excluded seen s ≡ none
      → IsAdmissible excluded s
      → member (dedupe_key go s) seen ≡ true
  unfolding admit_target
  admit_target-refused excluded seen s h ok_target = ground arith

  select_targets-skip :
      (excluded seen : List String) (s : Subscriber) (rest : List Subscriber)
      → admit_target go excluded seen s ≡ none
      → select_targets go excluded seen (s ∷ rest) ≡ select_targets go excluded seen rest
  unfolding select_targets
  select_targets-skip excluded seen s rest h = ground arith

  select_targets-take :
      (excluded seen seen' : List String) (s : Subscriber) (rest : List Subscriber)
      → admit_target go excluded seen s ≡ some seen'
      → select_targets go excluded seen (s ∷ rest) ≡ s ∷ select_targets go excluded seen' rest
  unfolding select_targets
  select_targets-take excluded seen seen' s rest h = ground arith

  select_targets-IsAdmissible :
      (excluded seen : List String) (subs : List Subscriber)
      → All (IsAdmissible excluded) (select_targets go excluded seen subs)
  select_targets-IsAdmissible excluded seen [] = unfold select_targets in tt
  select_targets-IsAdmissible excluded seen (s ∷ rest) =
      elim (Option-cases (admit_target go excluded seen s)) [
        | inl skipped ↦
            rw (select_targets-skip excluded seen s rest skipped)
              (select_targets-IsAdmissible excluded seen rest)
        | inr (seen', taken) ↦ rw (select_targets-take excluded seen seen' s rest taken) (
          admit_target-IsAdmissible excluded seen seen' s taken,
          select_targets-IsAdmissible excluded seen' rest,
        )
      ]

  -- No later target has a key that was seen.
  select_targets-unseen :
      (key : String) (excluded seen : List String) (subs : List Subscriber)
      → str_eq key "" ≡ false
      → member key seen ≡ true
      → member key (map (dedupe_key go) (select_targets go excluded seen subs)) ≡ false
  select_targets-unseen key excluded seen [] named old = unfold select_targets in refl
  select_targets-unseen key excluded seen (s ∷ rest) named old =
      elim (Option-cases (admit_target go excluded seen s)) [
        | inl skipped ↦
            rw (select_targets-skip excluded seen s rest skipped)
              (select_targets-unseen key excluded seen rest named old)
        | inr (seen', taken) ↦ rw (select_targets-take excluded seen seen' s rest taken) (
            ground (
              arith,
              admit_target-seen excluded seen seen' s taken,
              select_targets-unseen key excluded seen' rest named,
              eq_iff (dedupe_key go s) key,
            ))
      ]

  select_targets-DistinctKeys :
      (excluded seen : List String) (subs : List Subscriber)
      → DistinctKeys (select_targets go excluded seen subs)
  select_targets-DistinctKeys excluded seen [] = unfold select_targets in tt
  select_targets-DistinctKeys excluded seen (s ∷ rest) =
      elim (Option-cases (admit_target go excluded seen s)) [
        | inl skipped ↦
            rw (select_targets-skip excluded seen s rest skipped)
              (select_targets-DistinctKeys excluded seen rest)
        | inr (seen', taken) ↦ rw (select_targets-take excluded seen seen' s rest taken) (
          elim (Bool-cases (str_eq (dedupe_key go s) "")) [
            | inl unnamed ↦ inl unnamed
            | inr named ↦ inr (
                select_targets-unseen (dedupe_key go s) excluded seen' rest named (
                  ground (
                    arith,
                    admit_target-seen excluded seen seen' s taken,
                    eq_refl (dedupe_key go s),
                  )))
          ],
          select_targets-DistinctKeys excluded seen' rest,
        )
      ]

  -- What holds of every subscription holds of every target.
  pub select_targets-All :
      (P : Subscriber → Type 0) (excluded seen : List String) (subs : List Subscriber)
      → All P subs
      → All P (select_targets go excluded seen subs)
  select_targets-All P excluded seen [] h = unfold select_targets in tt
  select_targets-All P excluded seen (s ∷ rest) h =
      elim (Option-cases (admit_target go excluded seen s)) [
        | inl skipped ↦
            rw (select_targets-skip excluded seen s rest skipped)
              (select_targets-All P excluded seen rest h.1)
        | inr (seen', taken) ↦
            rw (select_targets-take excluded seen seen' s rest taken)
              (h.0, select_targets-All P excluded seen' rest h.1)
      ]

  -- A receiver that may be sent to has a target with its key, or had one already.
  select_targets-covers :
      (excluded seen : List String) (subs : List Subscriber) (s : Subscriber)
      → Memᴰ s subs
      → IsAdmissible excluded s
      → str_eq (dedupe_key go s) "" ≡ false
      → (member (dedupe_key go s) seen ≡ true)
        ⊎ (member (dedupe_key go s) (map (dedupe_key go) (select_targets go excluded seen subs))
            ≡ true)
  select_targets-covers excluded seen [] s m fits named = elim m [ ]
  select_targets-covers excluded seen (x ∷ rest) s (Memᴰ.head same) fits named =
      elim (Option-cases (admit_target go excluded seen x)) [
        | inl skipped ↦ inl (
            rw same (
              admit_target-refused excluded seen x skipped
                (subst (IsAdmissible excluded) same fits)))
        | inr (seen', taken) ↦ inr (
            rw (select_targets-take excluded seen seen' x rest taken, same)
              (ground (arith, eq_refl (dedupe_key go x))))
      ]
  select_targets-covers excluded seen (x ∷ rest) s (Memᴰ.tail later) fits named =
      elim (Option-cases (admit_target go excluded seen x)) [
        | inl skipped ↦
            rw (select_targets-skip excluded seen x rest skipped)
              (select_targets-covers excluded seen rest s later fits named)
        | inr (seen', taken) ↦ rw (select_targets-take excluded seen seen' x rest taken) (
            ground (
              arith,
              select_targets-covers excluded seen' rest s later fits named,
              admit_target-seen excluded seen seen' x taken,
            ))
      ]

module _ (go : Runtime) (subscriptions : List Subscriber) (excluded : List String) where
  -- No two targets share a key: a server that is registered twice is sent to once. Every target may
  -- be sent to: its domain is not excluded, and its inbox URL has an origin.
  pub fanout_targets_sound :
      DistinctKeys go (fanout_targets go subscriptions excluded)
      × All (IsAdmissible go (excluded_set go excluded)) (fanout_targets go subscriptions excluded)
  unfolding fanout_targets
  fanout_targets_sound = (
    select_targets-DistinctKeys go (excluded_set go excluded) [] subscriptions,
    select_targets-IsAdmissible go (excluded_set go excluded) [] subscriptions,
  )

  -- Every subscription that may be sent to, and has a key, is reached: there is a target with its
  -- key.
  pub fanout_targets_complete :
      (s : Subscriber)
      → Memᴰ s subscriptions
      → IsAdmissible go (excluded_set go excluded) s
      → str_eq (dedupe_key go s) "" ≡ false
      → member (dedupe_key go s) (map (dedupe_key go) (fanout_targets go subscriptions excluded))
        ≡ true
  unfolding fanout_targets
  fanout_targets_complete s listed fits named =
      elim (select_targets-covers go (excluded_set go excluded) [] subscriptions s listed fits
        named) [ inl seen ↦ cc | inr reached ↦ reached ]
