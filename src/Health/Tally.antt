-- ===== src/Health/Tally.antt =====
-- Sums over a sequence of deliveries, in one pass and as they are meant.
use activity_relay.Base.{
  ℕ, suc, ◌+◌, ◌≤◌, String, Bool, true, false, ◌&&◌, not, ◌≡◌, refl, List, [], ◌∷◌, length, arith,
  if◌then◌else◌,
}

-- A delivery: its time, and whether it succeeded
abbrev pub Attempted : Type 0
Attempted = String × Bool

abbrev pub count : Bool → List Attempted → ℕ
count wanted [] = 0
count true ((at, true) ∷ xs) = suc (count true xs)
count true ((at, false) ∷ xs) = count true xs
count false ((at, true) ∷ xs) = count false xs
count false ((at, false) ∷ xs) = suc (count false xs)

abbrev pub all_failed : List Attempted → Bool
all_failed [] = true
all_failed ((at, succeeded) ∷ xs) = not succeeded && all_failed xs

-- How many failures stand at the end
abbrev pub trailing : List Attempted → ℕ
trailing [] = 0
trailing ((at, succeeded) ∷ xs) =
    let later = trailing xs in
    if all_failed xs then (if succeeded then length xs else suc (length xs)) else later

-- The time of the last one with the result, or what stands for none
abbrev pub last_time : Bool → String → List Attempted → String
last_time wanted old [] = old
last_time true old ((at, true) ∷ xs) = last_time true at xs
last_time true old ((at, false) ∷ xs) = last_time true old xs
last_time false old ((at, true) ∷ xs) = last_time false old xs
last_time false old ((at, false) ∷ xs) = last_time false at xs

pub record Tally : Type 0 where
  pub success_at : String
  pub failure_at : String
  pub consecutive : ℕ
  pub successes : ℕ
  pub failures : ℕ

abbrev pub next : Tally → Attempted → Tally
next t (at, true) = record t { success_at = at; consecutive = 0; successes = t.successes + 1 }
next t (at, false) = record t {
  failure_at = at;
  consecutive = t.consecutive + 1;
  failures = t.failures + 1;
}

abbrev pub tally : Tally → List Attempted → Tally
tally t [] = t
tally t (x ∷ xs) = tally (next t x) xs

trailing-all_failed : (xs : List Attempted) → all_failed xs ≡ true → trailing xs ≡ length xs
trailing-all_failed [] h = refl
trailing-all_failed ((at, succeeded) ∷ xs) h = ground arith

tally-closed :
    (t : Tally) (xs : List Attempted)
    → tally t xs ≡ record {
      success_at = last_time true t.success_at xs;
      failure_at = last_time false t.failure_at xs;
      consecutive = if all_failed xs then t.consecutive + length xs else trailing xs;
      successes = t.successes + count true xs;
      failures = t.failures + count false xs;
    }
tally-closed t [] = ground arith
tally-closed t ((at, true) ∷ xs) =
    ground (arith, tally-closed (next t (at, true)) xs, trailing-all_failed xs)
tally-closed t ((at, false) ∷ xs) =
    ground (arith, tally-closed (next t (at, false)) xs, trailing-all_failed xs)

pub count-length : (xs : List Attempted) → count true xs + count false xs ≡ length xs
count-length [] = refl
count-length ((at, true) ∷ xs) = omega (arith, count-length xs)
count-length ((at, false) ∷ xs) = omega (arith, count-length xs)

pub trailing-length : (xs : List Attempted) → trailing xs ≤ length xs
trailing-length [] = omega arith
trailing-length ((at, succeeded) ∷ xs) = ground (arith, trailing-length xs)

abbrev pub fresh_tally : Tally
fresh_tally = record {
  success_at = "";
  failure_at = "";
  consecutive = 0;
  successes = 0;
  failures = 0;
}

abbrev pub closed_tally : List Attempted → Tally
closed_tally xs = record {
  success_at = last_time true "" xs;
  failure_at = last_time false "" xs;
  consecutive = trailing xs;
  successes = count true xs;
  failures = count false xs;
}

pub tally-fresh : (xs : List Attempted) → tally fresh_tally xs ≡ closed_tally xs
tally-fresh xs = ground (arith, tally-closed fresh_tally xs, trailing-all_failed xs)
