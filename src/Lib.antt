-- ===== src/Lib.antt =====
-- Activity-Relay: an ActivityPub relay. Servers subscribe to it, post activities to its inbox, and
-- get the activities of the others. This library models the decisions of the relay and proves what
-- they guarantee.
--
-- The parts and how they interact. A POST that was decoded is routed by the inbox (api/handle.go) to
-- the handlers of api/resolver.go, which ask the relay's state (models/state.go) who may relay and
-- follow, and fan activities out. A fan-out selects receivers, plans a signature profile for each
-- (internal/httpsignature), reserves room in the queue, stores one shared payload in Redis and hands
-- one task per receiver to the broker; workers (deliver/deliver.go) finish the targets one by one.
-- An announced object is relayed under a reservation of its canonical ID (api/relay_loop_guard.go).
-- Beside that, a scheduler keeps the relay registered with directories
-- (internal/directoryscheduler).
--
-- Which file models which part:
--   Base, Go        what is used of Go's library: texts, tests, signed integers; `url.Parse` and
--                   `strings.ToLower` are the fields of the parameter `Runtime`
--   Redis           the Redis server as a record of commands and their documented laws; a call may
--                   be answered, refused, or fail after the server ran it; a script is one step
--   Origin, Negotiation
--                   internal/httpsignature/destination_negotiation.go and profile.go:
--                   NormalizeDestinationOrigin is `normalize_destination_origin`, Plan is `plan`,
--                   ShouldFallback is `should_fallback`, saveObservation is `save_observation`; the
--                   interface DestinationCapabilityStore is the record `CapabilityStore`, which
--                   Negotiation.Store fills (redis_destination_capability.go). Negotiation.Names
--                   has the names of profiles, Negotiation.Challenges accept_signature.go, and
--                   Negotiation.Signer configured_signer.go, whose DoGET is `do_get`
--   Queue           reserveQueueCapacityWithReason and releaseQueueCapacity of api/resolver.go
--   Activity        storeRelayActivity of api/resolver.go, finishRelayTarget of deliver/deliver.go
--   Canonical       api/relay_loop_guard.go
--   State           models/state.go: State.Loading has Load and the lookups, State.Commands the
--                   commands, State.Replay the same commands on maps; Views, Writes and Rows say what
--                   of the maps a write changes, Refinement puts this together
--   Health          models/receiver_health.go
--   Verification    internal/httpsignature/rfc9421_verify.go: VerifyPOST is `verify_post`; Nonces is
--                   redis_nonce_store.go, Decoding is api/decode.go with BindActivityActor
--   Directory       internal/directoryclient/client.go from an answer to a result, and the retries of
--                   internal/directorycommand/retry.go
--   Fanout          enqueueActivityExcept of api/resolver.go with the functions that it calls
--   Relay           the predicates and handlers of api/resolver.go: Relay.Forward has
--                   executeRelayActivity, executeEmbeddedAnnounceActivity and
--                   executeAnnounceActivity, Relay.Follow has executeFollowing, executeUnfollowing
--                   and finalizeMutuallyFollow; UnwrapInnerActivity and UnwrapInnerObjectId of
--                   models/models.go. A handler's model is how it ends and the list of its effects.
--   Policy          models/public_address_policy.go
--   Inbox           the POST branch of handleInbox of api/handle.go
--   Delivery        relayActivityV2 of deliver/deliver.go with its attempt and profile; Delivery.Chain
--                   runs the attempts of a task as machinery does
--   Scheduler       internal/directoryscheduler/scheduler.go: Scheduler has times, delays and
--                   applyFailure, Scheduler.Turn has runDirectory, saveOwned and runCycle;
--                   Scheduler.Store has the RedisStore and the leases of store.go
--   Examples        a Redis server in memory, other concrete parameters, and runs
--
-- Bounds and fuel. No definition needs fuel: the loops of the source run over lists, and the three
-- attempts of a command are counted down. Times are nanoseconds since Go's zero time without an upper
-- bound; the shift of retryDelay is on 64 bits, and the counters of Health stop at 64 bits with a sign.
-- Queue lengths and the other counters are without bound, where Redis has 64 bits. The script that
-- saves capabilities compares times exactly, where Lua's doubles are exact up to 2^53 milliseconds.
-- The verification of a request takes no time: its age is checked and its nonce reserved at once.
--
-- Not modelled: the expiry of keys in Redis, except for nonces and where it is said; the concurrency
-- of the goroutines that a handler starts, whose calls are its effects, in order, and the mutex of the
-- relay's state; HTTP, JSON and cryptography, which are parameters; the observed publishers; the
-- workers' registerActivity; the building of requests to the directory and its later protocols;
-- configuration, the commands themselves, metrics and logs.
pub mod Base
pub mod Go
pub mod Origin
pub mod Negotiation
pub mod Redis
pub mod Queue
pub mod Activity
pub mod Canonical
pub mod State
pub mod Fanout
pub mod Relay
pub mod Policy
pub mod Inbox
pub mod Examples
pub mod Delivery
pub mod Health
pub mod Directory
pub mod Verification
pub mod Scheduler
