-- ===== src/Scheduler/Called.antt =====
-- When a turn calls the directory.
use activity_relay.Base.{
  ℕ, String, Bool, true, false, ◌≡◌, ◌⊎◌, refl, Option, none, some, List, ◌∷◌, arith,
}
use activity_relay.Scheduler.{State, monotonic_now, startup_reconciliation_due}
use activity_relay.Scheduler.Turn.{
  Operation, Client, Answers, Turned, profile_changed, not_due, save_owned, run_client, run_owned,
  recheck, with_lease, check_due, run_directory,
}

-- A state is due at a time, for a client.
abbrev pub IsDueAt : State → Option Client → ℕ → ℕ → Type 0
IsDueAt state client startup_boundary now =
    not_due (startup_reconciliation_due state startup_boundary) (profile_changed state client) state
      now
    ≡ false

-- The state that was loaded under the lease is due by the clock that was read then, which is not
-- taken to run backwards.
abbrev pub IsOwnedDue : Answers → ℕ → ℕ → Type 0
IsOwnedDue answers startup_boundary last_now =
    (state : State) × (answers.owned_loaded ≡ some state)
    × IsDueAt state answers.client startup_boundary
        (monotonic_now answers.owned_clock last_now state.last_observed)

-- The state that was loaded first was due too, by the clock that was read before the lease.
abbrev pub IsDue : Answers → ℕ → ℕ → Type 0
IsDue answers startup_boundary last_now =
    (first : State) × (answers.loaded ≡ some first)
    × IsDueAt first answers.preview startup_boundary
        (monotonic_now answers.clock last_now first.last_observed)
    × IsOwnedDue answers startup_boundary (monotonic_now answers.clock last_now first.last_observed)

module _ (sha256_head : String → ℕ) (itoa : ℕ → String) (relay_actor origin : String) where
  run_client_lost :
      (answers : Answers) (state : State) (client : Client) (changed : Bool) (last_now : ℕ)
      → ((run_client sha256_head itoa relay_actor origin answers state client changed
            last_now).released
          ≡ true)
        × ((answers.lost ≡ false)
            ⊎ ((run_client sha256_head itoa relay_actor origin answers state client changed
                  last_now).offered
                ≡ none))
  unfolding run_client save_owned
  run_client_lost answers state client changed last_now = ground arith

  run_owned_called :
      (answers : Answers) (state : State) (startup_boundary now : ℕ) (client : Option Client)
      (first : Operation) (more : List Operation)
      → (run_owned sha256_head itoa relay_actor origin answers state startup_boundary now
          client).called
        ≡ first ∷ more
      → IsDueAt state client startup_boundary now
        × ((run_owned sha256_head itoa relay_actor origin answers state startup_boundary now
              client).released
            ≡ true)
        × ((answers.lost ≡ false)
            ⊎ ((run_owned sha256_head itoa relay_actor origin answers state startup_boundary now
                  client).offered
                ≡ none))
  unfolding run_owned
  run_owned_called answers state startup_boundary now none first more h =
      unfold save_owned in ground arith
  run_owned_called answers state startup_boundary now (some client) first more h =
      ground (arith, run_client_lost answers state client (profile_changed state (some client)) now)

  -- A turn that calls the directory is enabled under the lease, releases it, and offers nothing if
  -- the lease was lost.
  abbrev pub CallsLawfully : Answers → Turned → Type 0
  CallsLawfully answers turned =
      (answers.owned_enabled ≡ some true)
      × (turned.released ≡ true)
      × ((answers.lost ≡ false) ⊎ (turned.offered ≡ none))

  recheck_enabled :
      (answers : Answers) (startup_boundary last_now : ℕ) (loaded : Option State)
      (first : Operation) (more : List Operation)
      → (recheck sha256_head itoa relay_actor origin answers startup_boundary last_now
          loaded).called
        ≡ first ∷ more
      → (state : State) × (loaded ≡ some state)
        × (answers.owned_enabled ≡ some true)
        × (recheck sha256_head itoa relay_actor origin answers startup_boundary last_now loaded
            ≡ run_owned sha256_head itoa relay_actor origin answers state startup_boundary
                (monotonic_now answers.owned_clock last_now state.last_observed)
                answers.client)
  unfolding recheck
  recheck_enabled answers startup_boundary last_now none first more h = ground arith
  recheck_enabled answers startup_boundary last_now (some state) first more h =
      (state, refl, ground arith, ground arith)

  recheck_called :
      (answers : Answers) (startup_boundary last_now : ℕ) (first : Operation)
      (more : List Operation)
      → (recheck sha256_head itoa relay_actor origin answers startup_boundary last_now
          answers.owned_loaded).called
        ≡ first ∷ more
      → IsOwnedDue answers startup_boundary last_now
        × CallsLawfully answers (
            recheck sha256_head itoa relay_actor origin answers startup_boundary last_now
              answers.owned_loaded)
  recheck_called answers startup_boundary last_now first more h =
      let (state, loaded, enabled, same) =
        recheck_enabled answers startup_boundary last_now answers.owned_loaded first more h in
      let now = monotonic_now answers.owned_clock last_now state.last_observed in
      let (due, released, safe) =
        run_owned_called answers state startup_boundary now answers.client first more
          (rw same at h) in
      ((state, loaded, due), (enabled, rw same released, rw same safe))

  with_lease_called :
      (answers : Answers) (startup_boundary last_now : ℕ) (acquired : Option Bool)
      (first : Operation) (more : List Operation)
      → (with_lease sha256_head itoa relay_actor origin answers startup_boundary last_now
          acquired).called
        ≡ first ∷ more
      → (acquired ≡ some true)
        × IsOwnedDue answers startup_boundary last_now
        × CallsLawfully answers (
            with_lease sha256_head itoa relay_actor origin answers startup_boundary last_now
              acquired)
  unfolding with_lease
  with_lease_called answers startup_boundary last_now none first more h = ground arith
  with_lease_called answers startup_boundary last_now (some false) first more h = ground arith
  with_lease_called answers startup_boundary last_now (some true) first more h =
      let (due, lawful) = recheck_called answers startup_boundary last_now first more h in
      (refl, due, lawful)

  check_due_leased :
      (answers : Answers) (startup_boundary last_now : ℕ) (loaded : Option State)
      (first : Operation) (more : List Operation)
      → (check_due sha256_head itoa relay_actor origin answers startup_boundary last_now
          loaded).called
        ≡ first ∷ more
      → (state : State) × (loaded ≡ some state)
        × IsDueAt state answers.preview startup_boundary
            (monotonic_now answers.clock last_now state.last_observed)
        × (check_due sha256_head itoa relay_actor origin answers startup_boundary last_now loaded
            ≡ with_lease sha256_head itoa relay_actor origin answers startup_boundary
                (monotonic_now answers.clock last_now state.last_observed)
                answers.acquired)
  unfolding check_due
  check_due_leased answers startup_boundary last_now none first more h = ground arith
  check_due_leased answers startup_boundary last_now (some state) first more h =
      (state, refl, ground arith, ground arith)

  run_directory_enabled :
      (answers : Answers) (startup_boundary last_now : ℕ) (first : Operation)
      (more : List Operation)
      → (run_directory sha256_head itoa relay_actor origin answers startup_boundary last_now).called
        ≡ first ∷ more
      → (answers.enabled ≡ some true)
        × (run_directory sha256_head itoa relay_actor origin answers startup_boundary last_now
            ≡ check_due sha256_head itoa relay_actor origin answers startup_boundary last_now
                answers.loaded)
  unfolding run_directory
  run_directory_enabled answers startup_boundary last_now first more h = ground arith

  -- The directory is called only if it is enabled both before and under the lease, the lease was
  -- acquired, the state that was loaded first is due by the clock that was read then, and the state
  -- that was loaded under the lease is due by the clock that was read there; neither clock is taken
  -- to run backwards. The lease is then released, and if it was lost meanwhile nothing is offered
  -- for storing.
  pub run_directory_called :
      (answers : Answers) (startup_boundary last_now : ℕ) (first : Operation)
      (more : List Operation)
      → (run_directory sha256_head itoa relay_actor origin answers startup_boundary last_now).called
        ≡ first ∷ more
      → (answers.enabled ≡ some true)
        × (answers.acquired ≡ some true)
        × IsDue answers startup_boundary last_now
        × CallsLawfully answers
            (run_directory sha256_head itoa relay_actor origin answers startup_boundary last_now)
  run_directory_called answers startup_boundary last_now first more h =
      let (enabled, checks) =
        run_directory_enabled answers startup_boundary last_now first more h in
      let (state, loaded, due, leased) =
        check_due_leased answers startup_boundary last_now answers.loaded first more
          (rw checks at h) in
      let (acquired, owned_due, lawful) =
        with_lease_called answers startup_boundary
          (monotonic_now answers.clock last_now state.last_observed) answers.acquired first more
          (rw (checks, leased) at h) in
      (enabled, acquired, (state, loaded, due, owned_due), rw (checks, leased) lawful)
