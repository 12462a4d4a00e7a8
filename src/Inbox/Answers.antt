-- ===== src/Inbox/Answers.antt =====
-- How POST requests are answered, and what those of blocked senders can do.
use activity_relay.Base.{String, Bool, true, false, ◌≡◌, ◌≢◌, ◌⊎◌, inl, Option, none, some, arith}
use activity_relay.Go.{Url, Runtime}
use activity_relay.Policy.{Policy}
use activity_relay.Relay.{
  Actor, Activity, Object, text, map_of, map_with, other, unwrap_inner_activity, returned, failed,
  panicked, Handled, Surroundings, actor_domain,
}
use activity_relay.Relay.Forward.{
  record_publisher_activity, and_then, if_relayable, execute_relay_activity,
  execute_embedded_announce, execute_announce_activity, announce_reserved, relay_fan_outs,
}
use activity_relay.Relay.Follow.{
  execute_following, execute_unfollowing, finalize_mutually_follow, or_reject,
}
use activity_relay.Relay.Follow.Requests.{following_returns}
use activity_relay.Inbox.{
  Answer, status, aborted, Answered, or_unauthorized, accepted_anyway, execute_public_announce,
  execute_policy_excluded, distribute, follow_or_undo, follow_answer, announce_object,
  litepub_announce, ignored, litepub, undo_inner, announce_fetched, handle_inbox_post,
}

-- The status is one of the three that the handler writes.
abbrev pub IsAnswered : Answer → Type 0
IsAnswered (status n) = (n ≡ 202) ⊎ (n ≡ 400) ⊎ (n ≡ 401)
IsAnswered aborted = ⊥

module _ (go : Runtime) (w : Surroundings) where
  record_publisher-returns :
      (activity : Activity) (actor : Actor)
      → (record_publisher_activity go w activity actor).0 ≢ panicked
  unfolding record_publisher_activity
  record_publisher-returns activity actor = ground arith

  relay-returns :
      (activity : Activity) (actor : Actor) (body : String)
      → (execute_relay_activity go w activity actor body).0 ≢ panicked
  unfolding execute_relay_activity if_relayable and_then record_publisher_activity relay_fan_outs
  relay-returns activity actor body = ground arith

  embedded-returns :
      (activity : Activity) (actor : Actor)
      → (execute_embedded_announce go w activity actor).0 ≢ panicked
  unfolding execute_embedded_announce if_relayable and_then record_publisher_activity
  embedded-returns activity actor = ground arith

  announce-returns :
      (activity : Activity) (actor : Actor) (from : String)
      → (execute_announce_activity go w activity actor from).0 ≢ panicked
  unfolding execute_announce_activity if_relayable announce_reserved record_publisher_activity
  announce-returns activity actor from = ground arith

  unfollowing-returns :
      (activity : Activity) (actor : Actor) (u : Url)
      → go.parse_url actor.id ≡ some u
      → (execute_unfollowing go w activity actor).0 ≢ panicked
  unfolding execute_unfollowing
  unfollowing-returns activity actor u parsed = ground arith

  finalize-returns :
      (activity : Activity) (actor : Actor) (accepted : Bool) (u : Url)
      → go.parse_url actor.id ≡ some u
      → (finalize_mutually_follow go w activity actor accepted).0 ≢ panicked
  unfolding finalize_mutually_follow
  finalize-returns activity actor accepted u parsed = ground arith

  or_unauthorized-IsAnswered : (h : Handled) → h.0 ≢ panicked → IsAnswered (or_unauthorized h).0
  or_unauthorized-IsAnswered (returned, es) h = inl (omega arith)
  or_unauthorized-IsAnswered (failed e, es) h = ground arith
  or_unauthorized-IsAnswered (panicked, es) h = ground arith

  accepted_anyway-IsAnswered : (h : Handled) → h.0 ≢ panicked → IsAnswered (accepted_anyway h).0
  accepted_anyway-IsAnswered (returned, es) h = ground arith
  accepted_anyway-IsAnswered (failed e, es) h = ground arith
  accepted_anyway-IsAnswered (panicked, es) h = ground arith

  or_reject-returns :
      (actor : Actor) (h : Handled) → h.0 ≢ panicked → (or_reject actor h).0 ≢ panicked
  unfolding or_reject
  or_reject-returns actor (returned, es) h = ground arith
  or_reject-returns actor (failed e, es) h = ground arith
  or_reject-returns actor (panicked, es) h = ground arith

  module _ (fetch : String → Option (Activity × Actor)) (activity : Activity) (actor : Actor)
      (u : Url) (shared_inbox : String) (parsed : go.parse_url actor.id ≡ some u)
      (given : actor.endpoints ≡ some shared_inbox) where
    distribute-IsAnswered : (body : String) → IsAnswered (distribute go w activity actor body).0
    unfolding distribute execute_public_announce
    distribute-IsAnswered body = ground (
      arith,
      or_unauthorized-IsAnswered (execute_relay_activity go w activity actor body)
          (relay-returns activity actor body),
      or_unauthorized-IsAnswered (execute_embedded_announce go w activity actor)
          (embedded-returns activity actor),
      or_unauthorized-IsAnswered (record_publisher_activity go w activity actor)
          (record_publisher-returns activity actor),
    )

    undo_inner-IsAnswered : (inner : Option Activity) → IsAnswered (undo_inner go w actor inner).0
    unfolding undo_inner
    undo_inner-IsAnswered none = ground arith
    undo_inner-IsAnswered (some inner) = ground (
      arith,
      accepted_anyway-IsAnswered (or_reject actor (execute_unfollowing go w inner actor))
          (or_reject-returns actor _ (unfollowing-returns inner actor u parsed)),
    )

    follow_answer-IsAnswered :
        (accepted : Bool) (inner : Option Activity)
        → IsAnswered (follow_answer go w actor accepted inner).0
    unfolding follow_answer
    follow_answer-IsAnswered accepted none = ground arith
    follow_answer-IsAnswered accepted (some inner) = ground (
      arith,
      accepted_anyway-IsAnswered (finalize_mutually_follow go w inner actor accepted)
          (finalize-returns inner actor accepted u parsed),
    )

    announce_fetched-IsAnswered :
        (announcer : String) (fetched : Option (Activity × Actor))
        → IsAnswered (announce_fetched go w announcer fetched).0
    unfolding announce_fetched
    announce_fetched-IsAnswered announcer none = ground arith
    announce_fetched-IsAnswered announcer (some (original, author)) =
        accepted_anyway-IsAnswered _ (announce-returns original author announcer)

    follow_or_undo-IsAnswered :
        (otherwise : Answered)
        → IsAnswered otherwise.0
        → IsAnswered (follow_or_undo go w activity actor otherwise).0
    unfolding follow_or_undo
    follow_or_undo-IsAnswered otherwise h = ground (
      arith,
      accepted_anyway-IsAnswered (or_reject actor (execute_following go w activity actor)) (
          or_reject-returns actor _
            (following_returns go w activity actor u shared_inbox parsed given)),
      undo_inner-IsAnswered (unwrap_inner_activity activity),
    )

    announce_object-IsAnswered :
        (announcer : String) (object : Object)
        → IsAnswered (announce_object go w fetch announcer object).0
    unfolding announce_object
    announce_object-IsAnswered announcer (text url) =
        announce_fetched-IsAnswered announcer (fetch url)
    announce_object-IsAnswered announcer (map_of a b c) = inl (omega arith)
    announce_object-IsAnswered announcer (map_with a b c d) = inl (omega arith)
    announce_object-IsAnswered announcer other = inl (omega arith)

    litepub_announce-IsAnswered : IsAnswered (litepub_announce go w fetch activity).0
    unfolding litepub_announce
    litepub_announce-IsAnswered =
        ground (arith, announce_object-IsAnswered (actor_domain go activity.actor) activity.object)

    litepub-IsAnswered : IsAnswered (litepub go w fetch activity actor).0
    unfolding litepub
    litepub-IsAnswered = follow_or_undo-IsAnswered _ (
        ground (
          arith,
          follow_answer-IsAnswered true (unwrap_inner_activity activity),
          follow_answer-IsAnswered false (unwrap_inner_activity activity),
          litepub_announce-IsAnswered,
        ))

    policy_excluded-returns : (execute_policy_excluded go w activity actor).0 ≢ panicked
    unfolding execute_policy_excluded
    policy_excluded-returns = ground (arith, record_publisher-returns activity actor)

    -- A POST whose activity decodes, from an actor whose ID parses and who names its endpoints, is
    -- answered with 202, 400 or 401 under every policy; no handler panics.
    pub post-IsAnswered :
        (policy : Policy) (body : String)
        → IsAnswered (handle_inbox_post go w fetch policy (some (activity, actor, body))).0
    unfolding handle_inbox_post
    post-IsAnswered policy body = ground (
      arith,
      distribute-IsAnswered body,
      litepub-IsAnswered,
      or_unauthorized-IsAnswered (execute_policy_excluded go w activity actor)
          policy_excluded-returns,
      follow_or_undo-IsAnswered ignored (inl (omega arith)),
    )
