-- ===== src/Relay/Forward/Blocked.antt =====
-- Which bodies are forwarded, and that blocked and limited actors have no effect.
use activity_relay.Base.{
  String, if◌then◌else◌, true, false, ◌≡◌, ◌⊎◌, some, List, [], ◌∷◌, All, arith, str_eq,
}
use activity_relay.Go.{Runtime}
use activity_relay.State.{is_blocked, is_limited}
use activity_relay.Relay.{
  Actor, Activity, unwrap_inner_object_id, actor_domain, is_actor_able_to_relay, source, announce,
  Effect, record_publisher, fan_out, blocked, returned, failed, Handled, Surroundings,
  has_ld_signature,
}
use activity_relay.Relay.Forward.{
  publisher_of, record_publisher_activity, and_then, if_relayable, preserved_fan_out,
  announce_fan_out, execute_relay_activity, execute_embedded_announce, execute_announce_activity,
  relay_fan_outs,
}

module _ (go : Runtime) (w : Surroundings) (activity : Activity) (actor : Actor)
    (body : String) where
  -- The domains that a fan-out leaves out begin with the author's.
  abbrev SparesAuthor : List String → Type 0
  SparesAuthor [] = ⊥
  SparesAuthor (domain ∷ domains) = domain ≡ actor_domain go actor.id

  -- A fan-out of received bytes is of exactly the bytes of the request, under their Linked-Data
  -- signature, and to the subscribers; any other fan-out is the relay's Announce of the object. None
  -- is sent back to the author's domain.
  abbrev pub ForwardsLawfully : Effect → Type 0
  ForwardsLawfully (fan_out subs (source bytes) excluded) =
      (bytes ≡ body)
      × (has_ld_signature w body ≡ true)
      × (subs ≡ w.state.subscribers)
      × SparesAuthor excluded
  ForwardsLawfully (fan_out subs (announce id) excluded) =
      (unwrap_inner_object_id activity ≡ some id) × SparesAuthor excluded
  ForwardsLawfully _ = ⊥

  -- The author has a domain and may relay, and storing it as a publisher succeeds.
  abbrev pub IsRecorded : Type 0
  IsRecorded =
      (str_eq (actor_domain go actor.id) "" ≡ false)
      × (is_actor_able_to_relay go w.state actor ≡ true)
      × (w.publisher_stored (publisher_of go activity actor) ≡ true)

  -- First the publisher is recorded, as it can be, and then come lawful fan-outs; or there is no
  -- effect, because it cannot be recorded.
  abbrev pub RelaysLawfully : List Effect → Type 0
  RelaysLawfully [] = ¬ IsRecorded
  RelaysLawfully (effect ∷ rest) =
      (effect ≡ record_publisher (publisher_of go activity actor))
      × IsRecorded
      × All ForwardsLawfully rest

  -- A relayed activity whose author has a domain that may relay and is stored as a publisher has the
  -- record of exactly this publisher for its first effect, and any other one has no effect. What
  -- follows the record are fan-outs, which leave out the author's domain: of the bytes of the request
  -- to the subscribers, if the bytes have a Linked-Data signature, or of the relay's Announce of the
  -- activity's object.
  pub relay-ForwardsLawfully : RelaysLawfully (execute_relay_activity go w activity actor body).1
  unfolding execute_relay_activity if_relayable and_then record_publisher_activity relay_fan_outs
      preserved_fan_out announce_fan_out is_actor_able_to_relay
  relay-ForwardsLawfully = ground arith

  -- How the handlers turn a blocked or a limited actor away.
  abbrev pub refusal : Handled
  refusal = (if is_blocked w.state (actor_domain go actor.id) then failed blocked else returned, [])

  -- An activity whose author's domain is not empty and is blocked or limited has no effect in any of
  -- the three handlers. The error says so for a blocked domain; a limited one is accepted in silence.
  pub forwards_nothing :
      (source_relay_domain : String)
      → str_eq (actor_domain go actor.id) "" ≡ false
      → (is_blocked w.state (actor_domain go actor.id) ≡ true)
        ⊎ (is_limited w.state (actor_domain go actor.id) ≡ true)
      → (execute_relay_activity go w activity actor body ≡ refusal)
        × (execute_embedded_announce go w activity actor ≡ refusal)
        × (execute_announce_activity go w activity actor source_relay_domain ≡ refusal)
  unfolding execute_relay_activity execute_embedded_announce execute_announce_activity if_relayable
      is_actor_able_to_relay
  forwards_nothing source_relay_domain named unwanted = ground arith
