-- ===== src/Examples/Delivering.antt =====
-- Runs of the worker.
use activity_relay.Base.{ℕ, ◌+◌, Bool, ◌≡◌, refl, none, some, List, [], ◌∷◌, ltb, trim_space}
use activity_relay.Negotiation.{rfc9421}
use activity_relay.Delivery.{Answers, Effect, delivery_profile_from_args}
use activity_relay.Delivery.Chain.{
  finished, sent, posts, attempted, any_delivers, run_chain, run_chain_finishes_once,
}
use activity_relay.Examples.Fixtures.{go}

abbrev after : ℕ → ℕ
after n = n + 3

-- The receiver accepts the attempt that has two retries left.
abbrev third_time : ℕ → Answers
third_time n = record { body = some "payload"; accepted = ltb n 3 }

abbrev effects : Bool × List Effect
effects = run_chain go after none "https://a.example/inbox" "u" ("rfc9421" ∷ []) third_time 5 5

run_chain_finishes_once_example :
    (finished effects.1 ≡ "u" ∷ [])
    × (sent effects.1 ≡ posts "https://a.example/inbox" rfc9421 (attempted third_time 5))
    × (effects.0 ≡ any_delivers (attempted third_time 5))
unfolding delivery_profile_from_args trim_space
run_chain_finishes_once_example =
    run_chain_finishes_once go after none "https://a.example/inbox" "u" ("rfc9421" ∷ []) rfc9421
      refl third_time 5 5
