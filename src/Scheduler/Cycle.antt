-- ===== src/Scheduler/Cycle.antt =====
-- What a cycle over all directories answers.
use activity_relay.Base.{
  ℕ, ◌≤◌, ◌<◌, Bool, true, false, ◌≡◌, ◌⊎◌, inl, List, [], ◌∷◌, All, arith, ltb, ◌==◌, ◌||◌, ◌&&◌,
  not, if◌then◌else◌,
}
use activity_relay.Scheduler.Turn.{Turned, run_cycle}

-- The turns that the cycle runs, each from the time that the one before it left.
unfoldable pub turns_of : List (Bool × (ℕ → Turned)) → ℕ → List Turned
turns_of [] last_now = []
turns_of ((enabled, turn) ∷ rest) last_now =
    if enabled
    then turn last_now ∷ turns_of rest (turn last_now).last_now
    else turns_of rest last_now

abbrev pub NotBefore : ℕ → Turned → Type 0
NotBefore earliest turned = (turned.next ≡ 0) ⊎ ((0 < earliest) × (earliest ≤ turned.next))

abbrev pub any_failed : List Turned → Bool
any_failed [] = false
any_failed (turned ∷ rest) = turned.failed || any_failed rest

abbrev pub any_at : ℕ → List Turned → Bool
any_at time [] = false
any_at time (turned ∷ rest) = turned.next == time || any_at time rest

-- The answer of a cycle that started with `earliest`.
abbrev CycleAnswers : List Turned → ℕ → Bool → ℕ × Bool × ℕ → Type 0
CycleAnswers turns earliest failed (time, fails, last_now) =
    All (NotBefore time) turns
    × ((earliest ≡ 0) ⊎ ((0 < time) × (time ≤ earliest)))
    × ((time ≡ earliest) ⊎ (any_at time turns ≡ true))
    × (fails ≡ (failed || any_failed turns))

run_cycle-CycleAnswers :
    (entries : List (Bool × (ℕ → Turned))) (earliest : ℕ) (failed : Bool) (last_now : ℕ)
    → CycleAnswers
        (turns_of entries last_now)
        earliest
        failed
        (run_cycle entries earliest failed last_now)
unfolding run_cycle turns_of
run_cycle-CycleAnswers [] earliest failed last_now =
    (tt, ground arith, inl (omega arith), ground arith)
run_cycle-CycleAnswers ((false, turn) ∷ rest) earliest failed last_now =
    run_cycle-CycleAnswers rest earliest failed last_now
run_cycle-CycleAnswers ((true, turn) ∷ rest) earliest failed last_now =
    let turned = turn last_now in
    let sooner =
      if not (turned.next == 0) && (earliest == 0 || ltb turned.next earliest)
      then turned.next
      else earliest in
    let (all, bound, attained, fails) =
      run_cycle-CycleAnswers rest sooner (failed || turned.failed) turned.last_now in
    (
      (ground (arith, bound), all),
      ground (arith, bound),
      ground (arith, attained),
      ground (arith, fails),
    )

-- The cycle's answer is the earliest of the next attempts that its turns report: none of them is
-- earlier, one of them is at that time, and it is 0 only if all report none. The cycle fails exactly
-- when one of its turns does.
pub run_cycle_earliest :
    (entries : List (Bool × (ℕ → Turned))) (last_now : ℕ)
    → All (NotBefore (run_cycle entries 0 false last_now).0) (turns_of entries last_now)
      × (((run_cycle entries 0 false last_now).0 ≡ 0)
          ⊎ (any_at (run_cycle entries 0 false last_now).0 (turns_of entries last_now) ≡ true))
      × ((run_cycle entries 0 false last_now).1 ≡ any_failed (turns_of entries last_now))
run_cycle_earliest entries last_now =
    let (all, bound, attained, fails) = run_cycle-CycleAnswers entries 0 false last_now in
    (all, attained, fails)
