-- ===== src/Examples/Storing.antt =====
-- Runs of the scheduler's store, over numbers written in unary.
use Prim.Native.String.{String, [] as no_text, ◌∷◌ as char_cons}
use activity_relay.Base.{
  ℕ, zero, suc, ◌+◌, ◌*◌, true, false, ◌≡◌, ◌≢◌, refl, ap, Option, none, some, ok, List, [], ◌∷◌,
  arith, str_eq, eq_iff, Bool-cases, inl, inr,
}
use activity_relay.Base.Int.{ℤ, pos, negsuc}
use activity_relay.Go.{Strconv}
use activity_relay.Redis.{answered}
use activity_relay.Negotiation.{time_second}
use activity_relay.Scheduler.{State}
use activity_relay.Scheduler.Store.{
  Lease, unix_offset, directory_key, state_valid, acquire, save_owned, save_owned_script, load,
}
use activity_relay.Scheduler.Store.Fencing.{Call, saves, releases, run_calls, former_holders_fenced}
use activity_relay.Scheduler.Store.Loading.{load-save_owned}
use activity_relay.Examples.Memory.{Keyspace, memory, empty}

abbrev units : ℕ → String
units zero = ""
units (suc n) = char_cons "1" (units n)

abbrev count : String → ℕ
count no_text = 0
count (char_cons c s) = suc (count s)

abbrev unary : ℤ → String
unary (pos n) = char_cons "+" (units n)
unary (negsuc n) = char_cons "-" (units n)

abbrev read_unary : String → Option ℕ
read_unary no_text = none
read_unary (char_cons c s) = some (count s)

abbrev read_pos : String → Option ℤ
read_pos no_text = none
read_pos (char_cons c s) = some (pos (count s))

pub count-units : (n : ℕ) → count (units n) ≡ n
count-units zero = refl
count-units (suc n) = ap (λ m. suc m) (count-units n)

pub eq_of_counts : (s t : String) → count s ≢ count t → str_eq s t ≡ false
eq_of_counts s t h = elim (Bool-cases (str_eq s t)) [
  | inr differ ↦ differ
  | inl same ↦ absurd (h (ap (λ (u : String). count u) ((eq_iff s t).0 same)))
]

pub unary-ne_empty : (n : ℤ) → str_eq (unary n) "" ≡ false
unary-ne_empty (pos n) = eq_of_counts (unary (pos n)) "" (omega arith)
unary-ne_empty (negsuc n) = eq_of_counts (unary (negsuc n)) "" (omega arith)

pub unary-ne_zero : (n : ℕ) → str_eq (unary (pos (suc n))) "0" ≡ false
unary-ne_zero n = eq_of_counts (unary (pos (suc n))) "0" (omega arith)

abbrev pub unary_numbers : Strconv
unary_numbers = record {
  format = unary;
  parse_int = read_pos;
  parse_uint8 = read_unary;
  parse_int-format = λ n small. ap (λ m. some (pos m)) (count-units n);
  parse_uint8-format = λ n small. ap (λ m. some m) (count-units n);
  format-ne_empty = unary-ne_empty;
  format-suc = unary-ne_zero;
}

abbrev pub digest : String → String
digest s = s

abbrev site : String
site = "https://directory.example"

abbrev registered_once : State
registered_once = record {
  registered = true;
  last_success = (unix_offset + 5) * time_second;
  next_attempt = (unix_offset + 6) * time_second;
  last_outcome = "registered";
  diagnostic = "none";
  attempt = 0;
  last_observed = (unix_offset + 5) * time_second;
  profile_digest = "";
  profile_protocol_version = 0;
}

abbrev leased : Keyspace
leased = (acquire memory digest answered "mine" site empty).1

abbrev my_lease : Lease
my_lease = record { key = directory_key digest site "lease"; value = "mine" }

abbrev former : List (Call memory digest unary_numbers site)
former = saves "theirs" answered registered_once ∷ releases "theirs" answered ∷ []

abbrev written : Keyspace
written = (save_owned memory digest unary_numbers answered site my_lease registered_once leased).1

former_holders_fenced_example :
    (run_calls memory digest unary_numbers site former leased ≡ leased)
    × ((save_owned memory digest unary_numbers answered site my_lease registered_once
          (run_calls memory digest unary_numbers site former leased)).0
        ≡ some true)
unfolding acquire state_valid
former_holders_fenced_example =
    former_holders_fenced memory digest unary_numbers site "mine" my_lease empty leased former
      registered_once refl (refl, (refl, tt)) refl

load-save_owned_example : load memory digest unary_numbers site written ≡ ok registered_once
unfolding acquire save_owned save_owned_script state_valid directory_key
load-save_owned_example =
    load-save_owned memory unary_numbers digest site my_lease registered_once leased written refl
      (inr (4, omega arith, refl), inr (5, omega arith, refl), inr (4, omega arith, refl))
