-- ===== src/Scheduler/Store/Fencing.antt =====
-- A lease fences its writers: what a request with another token does.
use activity_relay.Base.{
  String, true, false, ◌≡◌, refl, some, List, [], ◌∷◌, arith, str_eq, eq_refl,
}
use activity_relay.Go.{Strconv}
use activity_relay.Redis.{Redis, Outcome, answered, refused, unanswered, text}
use activity_relay.Scheduler.{State}
use activity_relay.Scheduler.Store.{
  Lease, directory_key, state_valid, acquire, renew, release, save_owned, save_owned_script,
}

module _ (r : Redis) (sha256_hex : String → String) (c : Strconv) (origin : String) where
  open r use {Db, get, get-set}

  abbrev pub lease_key : String
  lease_key = directory_key sha256_hex origin "lease"

  abbrev pub lease_of : String → Lease
  lease_of token = record { key = lease_key; value = token }

  -- A call of a request that holds a lease of the directory with the given token.
  pub data Call : Type 0 where
    saves : String → Outcome → State → Call
    renews : String → Outcome → Call
    releases : String → Outcome → Call

  abbrev pub token_of : Call → String
  token_of (saves token net state) = token
  token_of (renews token net) = token
  token_of (releases token net) = token

  unfoldable pub run_call : Call → Db → Db
  run_call (saves token net state) d =
      (save_owned r sha256_hex c net origin (lease_of token) state d).1
  run_call (renews token net) d = (renew r net (lease_of token) d).1
  run_call (releases token net) d = (release r net (lease_of token) d).1

  unfoldable pub run_calls : List Call → Db → Db
  run_calls [] d = d
  run_calls (call ∷ calls) d = run_calls calls (run_call call d)

  abbrev pub OthersOnly : String → List Call → Type 0
  OthersOnly token [] = Unit
  OthersOnly token (call ∷ calls) = (str_eq token (token_of call) ≡ false) × OthersOnly token calls

  run_call_fenced :
      (owner : String) (call : Call) (d : Db)
      → get d lease_key ≡ some (text owner)
      → str_eq owner (token_of call) ≡ false
      → run_call call d ≡ d
  unfolding run_call save_owned save_owned_script renew release
  run_call_fenced owner (saves token answered state) d held differs = ground arith
  run_call_fenced owner (saves token refused state) d held differs = ground arith
  run_call_fenced owner (saves token unanswered state) d held differs = ground arith
  run_call_fenced owner (renews token answered) d held differs = ground arith
  run_call_fenced owner (renews token refused) d held differs = ground arith
  run_call_fenced owner (renews token unanswered) d held differs = ground arith
  run_call_fenced owner (releases token answered) d held differs = ground arith
  run_call_fenced owner (releases token refused) d held differs = ground arith
  run_call_fenced owner (releases token unanswered) d held differs = ground arith

  run_calls_fenced :
      (owner : String) (calls : List Call) (d : Db)
      → get d lease_key ≡ some (text owner)
      → OthersOnly owner calls
      → run_calls calls d ≡ d
  unfolding run_calls
  run_calls_fenced owner [] d held others = refl
  run_calls_fenced owner (call ∷ calls) d held others =
      rw (run_call_fenced owner call d held others.0) (run_calls_fenced owner calls d held others.1)

  acquired_lease :
      (owner : String) (lease : Lease) (d d' : Db)
      → acquire r sha256_hex answered owner origin d ≡ (some (some lease), d')
      → (lease ≡ lease_of owner) × (get d' lease_key ≡ some (text owner))
  unfolding acquire
  acquired_lease owner lease d d' h =
      ground (arith, get-set d lease_key lease_key (text owner), eq_refl lease_key)

  saves_held :
      (owner : String) (state : State) (d : Db)
      → get d lease_key ≡ some (text owner)
      → state_valid origin state ≡ true
      → (save_owned r sha256_hex c answered origin (lease_of owner) state d).0 ≡ some true
  unfolding save_owned save_owned_script
  saves_held owner state d held valid = ground (arith, eq_refl lease_key, eq_refl owner)

  -- Once a lease was acquired, no call that former holders with other tokens still make - to store a
  -- state, to renew or to release, answered or not - changes anything, in any number; the owner's
  -- valid state is then stored.
  pub former_holders_fenced :
      (owner : String) (lease : Lease) (d d' : Db) (calls : List Call) (state : State)
      → acquire r sha256_hex answered owner origin d ≡ (some (some lease), d')
      → OthersOnly owner calls
      → state_valid origin state ≡ true
      → (run_calls calls d' ≡ d')
        × ((save_owned r sha256_hex c answered origin lease state (run_calls calls d')).0
            ≡ some true)
  former_holders_fenced owner lease d d' calls state acquired others valid =
      let (same, held) = acquired_lease owner lease d d' acquired in
      let still = run_calls_fenced owner calls d' held others in
      (still, rw (same, still) (saves_held owner state d' held valid))
