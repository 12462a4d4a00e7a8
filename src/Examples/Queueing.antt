-- ===== src/Examples/Queueing.antt =====
-- Runs of the queue, the payloads, the loop guard and the fan-out.
use activity_relay.Base.{
  ◌≤◌, ◌<◌, ◌+◌, String, true, false, ◌≡◌, ◌⊎◌, refl, none, ok, [], ◌∷◌, arith, trim_space,
}
use activity_relay.Base.Int.{◌+ℤ◌}
use activity_relay.Redis.{answered}
use activity_relay.Queue.{queue_key, accepted, capacity, reserve_queue_capacity}
use activity_relay.Queue.Reservation.{reserve-answered, Reserved}
use activity_relay.Queue.Capacity.{
  Producers, Step, here, next, admitted, sends, WithinCapacity, queue-le-maximum,
}
use activity_relay.Activity.{activity_key, store_relay_activity}
use activity_relay.Activity.Lifetime.{targets_of, finish_all, body-finish_all}
use activity_relay.Canonical.{
  Reservation, reserve_canonical, release_canonical, canonical_relay_key,
}
use activity_relay.Canonical.Exclusion.{reserves, run_calls, canonical_exclusion}
use activity_relay.Examples.Memory.{Keyspace, memory, empty, push_many}

abbrev reserved_two : Keyspace
reserved_two = (reserve_queue_capacity memory answered 3 2 empty).1

abbrev idle : Producers memory 3
idle = record { db = empty; held = [] }

abbrev pending : Producers memory 3
pending = record { db = reserved_two; held = record { sent = 0; unsent = 2 } ∷ [] }

abbrev one_sent : Producers memory 3
one_sent = record {
  db = push_many reserved_two queue_key 1;
  held = record { sent = 1; unsent = 1 } ∷ [];
}

idle-WithinCapacity : WithinCapacity memory 3 idle
idle-WithinCapacity = record {
  counted = 0;
  counter = refl;
  covers = omega arith;
  room = omega arith;
}

two_admitted : Step memory 3 idle pending
unfolding reserve_queue_capacity ◌+ℤ◌
two_admitted = admitted idle answered 2 (omega arith) refl

one_of_two_sent : Step memory 3 pending one_sent
unfolding reserve_queue_capacity ◌+ℤ◌
one_of_two_sent =
    sends reserved_two (push_many reserved_two queue_key 1) [] [] (record { sent = 0; unsent = 2 })
      1 1 refl refl refl

queue-le-maximum_example : memory.llen one_sent.db queue_key ≤ 3
queue-le-maximum_example =
    queue-le-maximum memory 3 idle-WithinCapacity (next (next here two_admitted) one_of_two_sent)

reserve-answered_example :
    ((memory.llen reserved_two queue_key + 2 + 2 ≤ 3)
      × ((reserve_queue_capacity memory answered 3 2 reserved_two).0 ≡ accepted)
      × Reserved memory (reserve_queue_capacity memory answered 3 2 reserved_two).1 (2 + 2))
    ⊎ ((3 < memory.llen reserved_two queue_key + 2 + 2)
        × ((reserve_queue_capacity memory answered 3 2 reserved_two).0 ≡ capacity)
        × Reserved memory (reserve_queue_capacity memory answered 3 2 reserved_two).1 2)
unfolding reserve_queue_capacity ◌+ℤ◌
reserve-answered_example = reserve-answered memory 3 2 2 reserved_two (omega arith) refl

body-finish_all_example :
    memory.hget
      (finish_all memory
        ("x" ∷ "y" ∷ "x" ∷ [])
        (store_relay_activity memory answered "x" "payload" 2 empty).1)
      (activity_key "x")
      "body"
    ≡ none
unfolding targets_of
body-finish_all_example =
    body-finish_all memory "x" "payload" 2 ("x" ∷ "y" ∷ "x" ∷ []) empty (omega arith)

abbrev digest : String → String
digest s = s

abbrev taken : Reservation
taken = record { key = canonical_relay_key digest "https://a.example/note"; token = "one" }

canonical_exclusion_example :
    (reserve_canonical memory digest answered "three" "https://a.example/note" (
        run_calls memory
          (reserves answered (record { key = taken.key; token = "two" }) ∷ [])
          (reserve_canonical memory digest answered "one" "https://a.example/note" empty).1)
      ≡ (
        ok (record { key = taken.key; token = "three" }, false),
        run_calls memory
            (reserves answered (record { key = taken.key; token = "two" }) ∷ [])
            (reserve_canonical memory digest answered "one" "https://a.example/note" empty).1,
      ))
    × ((reserve_canonical memory digest answered "three" "https://a.example/note" (
          release_canonical memory answered taken (
            run_calls memory
              (reserves answered (record { key = taken.key; token = "two" }) ∷ [])
              (reserve_canonical memory digest answered "one" "https://a.example/note" empty).1))).0
        ≡ ok (record { key = taken.key; token = "three" }, true))
unfolding reserve_canonical canonical_relay_key trim_space
canonical_exclusion_example =
    canonical_exclusion memory digest "one" "https://a.example/note" taken empty
      (reserves answered (record { key = taken.key; token = "two" }) ∷ []) "three" refl (refl, tt)
      refl
