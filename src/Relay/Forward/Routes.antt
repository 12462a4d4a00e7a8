-- ===== src/Relay/Forward/Routes.antt =====
-- Who receives a relayed activity, and as which body.
use activity_relay.Base.{
  String, true, ◌≡◌, inl, inr, Option, none, some, List, [], ◌∷◌, ◌++◌, map, All, arith, Bool-cases,
}
use mathlib.Core.List.{append-nil}
use activity_relay.Go.{Runtime}
use activity_relay.State.{follower_target, subscribers_and_followers}
use activity_relay.Fanout.{dedupe_key, fanout_targets}
use activity_relay.Fanout.Targets.{Distinct, fanout_targets_sound}
use activity_relay.Fanout.Split.{IsNamed, split_fanouts-Distinct}
use activity_relay.Relay.{
  Actor, Activity, unwrap_inner_object_id, actor_domain, source, Effect, fan_out,
  fan_out_or_release, returned, failed, panicked, Handled, Surroundings, has_ld_signature,
}
use activity_relay.Relay.Forward.{
  record_publisher_activity, and_then, if_relayable, preserved_fan_out, announce_fan_out,
  relay_fan_outs, execute_relay_activity,
}

-- The keys of the receivers that an effect sends to.
abbrev pub receivers : Runtime → Effect → List String
receivers go (fan_out subs body excluded) = map (dedupe_key go) (fanout_targets go subs excluded)
receivers go (fan_out_or_release subs body excluded id) =
    map (dedupe_key go) (fanout_targets go subs excluded)
receivers go _ = []

abbrev pub all_receivers : Runtime → List Effect → List String
all_receivers go [] = []
all_receivers go (e ∷ es) = receivers go e ++ all_receivers go es

module _ (go : Runtime) (w : Surroundings) (activity : Activity) (actor : Actor)
    (body : String) where
  record_publisher-receivers :
      (es : List Effect)
      → all_receivers go ((record_publisher_activity go w activity actor).1 ++ es)
        ≡ all_receivers go es
  unfolding record_publisher_activity
  record_publisher-receivers es = ground arith

  if_relayable-Distinct :
      (rest : Handled)
      → Distinct (all_receivers go rest.1)
      → Distinct (all_receivers go (if_relayable go w actor rest).1)
  unfolding if_relayable
  if_relayable-Distinct rest h = ground arith

  and_then-Distinct :
      (first : Handled) (rest : Handled)
      → ((es : List Effect) → all_receivers go (first.1 ++ es) ≡ all_receivers go es)
      → Distinct (all_receivers go rest.1)
      → Distinct (all_receivers go (and_then first rest).1)
  unfolding and_then
  and_then-Distinct (returned, es) rest silent h = rw (silent rest.1) h
  and_then-Distinct (failed e, es) rest silent h = rw (← append-nil es, silent []) tt
  and_then-Distinct (panicked, es) rest silent h = rw (← append-nil es, silent []) tt

  signed_fan_outs :
      has_ld_signature w body ≡ true
      → preserved_fan_out go w actor body
        ≡ fan_out w.state.subscribers (source body) (actor_domain go actor.id ∷ []) ∷ []
  unfolding preserved_fan_out
  signed_fan_outs signed = rw signed

  preserved-Distinct : Distinct (all_receivers go (preserved_fan_out go w actor body))
  preserved-Distinct = elim (Bool-cases (has_ld_signature w body)) [
    | inl signed ↦
        rw (signed_fan_outs signed, append-nil)
          (fanout_targets_sound go w.state.subscribers (actor_domain go actor.id ∷ [])).0
    | inr plain ↦ unfold preserved_fan_out in rw plain tt
  ]

  both-Distinct :
      (object_id : String)
      → All (IsNamed go) w.state.subscribers
      → All (IsNamed go) (map follower_target w.state.followers)
      → Distinct (
          all_receivers go
            (preserved_fan_out go w actor body ++ announce_fan_out go w actor body object_id ∷ []))
  unfolding announce_fan_out
  both-Distinct object_id named named' = elim (Bool-cases (has_ld_signature w body)) [
    | inl signed ↦
        rw (signed_fan_outs signed, signed, append-nil)
          (split_fanouts-Distinct go (actor_domain go actor.id) w.state.subscribers
            (map follower_target w.state.followers) named named')
    | inr plain ↦
        unfold preserved_fan_out in
        rw (plain, append-nil)
          (fanout_targets_sound go (subscribers_and_followers w.state)
            (actor_domain go actor.id ∷ [])).0
  ]

  relay_fan_outs-Distinct :
      (object_id : Option String)
      → All (IsNamed go) w.state.subscribers
      → All (IsNamed go) (map follower_target w.state.followers)
      → Distinct (all_receivers go (relay_fan_outs go w actor body object_id).1)
  unfolding relay_fan_outs preserved_fan_out announce_fan_out
  relay_fan_outs-Distinct none named named' = preserved-Distinct
  relay_fan_outs-Distinct (some object_id) named named' = elim (Bool-cases w.marshals) [
    | inl marshalled ↦ rw marshalled (both-Distinct object_id named named')
    | inr not_marshalled ↦ rw not_marshalled preserved-Distinct
  ]

  -- No server is sent to twice for one activity: over all the fan-outs of a relayed activity, with a
  -- Linked-Data signature or without, the keys of the receivers are distinct, if every registered
  -- domain is not empty once normalized.
  pub relay_once :
      All (IsNamed go) w.state.subscribers
      → All (IsNamed go) (map follower_target w.state.followers)
      → Distinct (all_receivers go (execute_relay_activity go w activity actor body).1)
  unfolding execute_relay_activity
  relay_once named named' = if_relayable-Distinct _ (
      and_then-Distinct (record_publisher_activity go w activity actor) _ record_publisher-receivers
        (relay_fan_outs-Distinct (unwrap_inner_object_id activity) named named'))
