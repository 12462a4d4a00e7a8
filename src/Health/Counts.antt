-- ===== src/Health/Counts.antt =====
-- The counters of models/receiver_health.go after a sequence of deliveries.
use activity_relay.Base.{
  ℕ, ◌+◌, ◌^◌, ◌<◌, subst, String, str_append, Bool, true, false, ◌≡◌, refl, ◌∙◌, Option, none,
  some, ok, List, [], ◌∷◌, length, arith, str_eq, eq_refl, if◌then◌else◌,
}
use activity_relay.Base.Int.{pos}
use activity_relay.Go.{Runtime, Strconv}
use activity_relay.Redis.{Redis, Value, text, number, answered, to_number}
use activity_relay.State.{normalize_state_domain}
use activity_relay.Health.{
  health_prefix, string_value, receiver_health_counter, hincr, record_script,
  record_receiver_delivery, read_health,
}
use activity_relay.Health.Tally.{
  Attempted, count, trailing, last_time, Tally, next, tally, fresh_tally, closed_tally,
  count-length, trailing-length, tally-fresh,
}

module _ (r : Redis) (c : Strconv) where
  open r use {Db, hget, hset, hget-hset}
  open c use {format, parse_int, parse_int-format, format-ne_empty}

  abbrev Holds : String → Tally → Db → Type 0
  Holds key t d =
      (string_value c (hget d key "last_success_at") ≡ t.success_at)
      × (string_value c (hget d key "last_failure_at") ≡ t.failure_at)
      × (to_number (hget d key "consecutive_failures") ≡ some (pos t.consecutive))
      × (to_number (hget d key "total_successes") ≡ some (pos t.successes))
      × (to_number (hget d key "total_failures") ≡ some (pos t.failures))

  read_counter :
      (v : Option Value) (n : ℕ)
      → to_number v ≡ some (pos n)
      → n < 2 ^ 63
      → receiver_health_counter c v ≡ ok n
  unfolding receiver_health_counter
  read_counter none n h small = ground arith
  read_counter (some (text t)) n h small = cc
  read_counter (some (number m)) n h small =
      let same : m ≡ pos n = ground arith in
      rw (same, format-ne_empty (pos n), parse_int-format n small) refl

  at_key :
      (key f g : String) (v : Value) (d : Db)
      → hget (hset d key f v) key g ≡ (if str_eq f g then some v else hget d key g)
  at_key key f g v d = hget-hset d key key f g v ∙ rw (eq_refl key) refl

  hincr-hset :
      (key f : String) (n : ℕ) (d : Db)
      → to_number (hget d key f) ≡ some (pos n)
      → n + 1 < 2 ^ 63
      → hincr r key f d ≡ some (hset d key f (number (pos (n + 1))))
  unfolding hincr
  hincr-hset key f n d h small = ground (arith, h)

  abbrev succeeded_db : String → String → Tally → Db → Db
  succeeded_db key at t d =
      hset
        (hset (hset d key "last_success_at" (text at)) key "consecutive_failures" (number (pos 0)))
        key "total_successes" (number (pos (t.successes + 1)))

  abbrev failed_db : String → String → Tally → Db → Db
  failed_db key at t d =
      hset
        (hset (hset d key "last_failure_at" (text at)) key "consecutive_failures"
          (number (pos (t.consecutive + 1))))
        key "total_failures" (number (pos (t.failures + 1)))

  abbrev resulting_db : String → Tally → Attempted → Db → Db
  resulting_db key t (at, true) d = succeeded_db key at t d
  resulting_db key t (at, false) d = failed_db key at t d

  script-written :
      (key at : String) (succeeded : Bool) (t : Tally) (d : Db)
      → t.consecutive + 1 < 2 ^ 63
      → t.successes + 1 < 2 ^ 63
      → t.failures + 1 < 2 ^ 63
      → Holds key t d
      → record_script r key at succeeded d ≡ (some true, resulting_db key t (at, succeeded) d)
  unfolding record_script
  script-written key at true t d a b e (sa, fa, cons, succ, fail) =
      let d₂ =
        hset (hset d key "last_success_at" (text at)) key "consecutive_failures" (number (pos 0)) in
      let old : to_number (hget d₂ key "total_successes") ≡ some (pos t.successes) =
        rw
          (
            at_key key "consecutive_failures" "total_successes" (number (pos 0))
                (hset d key "last_success_at" (text at)),
            at_key key "last_success_at" "total_successes" (text at) d,
          )
          succ in
      rw (record_script, hincr-hset key "total_successes" t.successes d₂ old b) refl
  script-written key at false t d a b e (sa, fa, cons, succ, fail) =
      let d₁ = hset d key "last_failure_at" (text at) in
      let d₂ = hset d₁ key "consecutive_failures" (number (pos (t.consecutive + 1))) in
      let first : to_number (hget d₁ key "consecutive_failures") ≡ some (pos t.consecutive) =
        rw (at_key key "last_failure_at" "consecutive_failures" (text at) d) cons in
      let second : to_number (hget d₂ key "total_failures") ≡ some (pos t.failures) =
        rw
          (
            at_key key "consecutive_failures" "total_failures" (number (pos (t.consecutive + 1)))
                d₁,
            at_key key "last_failure_at" "total_failures" (text at) d,
          )
          fail in
      rw
        (
          record_script,
          hincr-hset key "consecutive_failures" t.consecutive d₁ first a,
          hincr-hset key "total_failures" t.failures d₂ second e,
        )
        refl

  resulting-Holds :
      (key : String) (x : Attempted) (t : Tally) (d : Db)
      → Holds key t d
      → Holds key (next t x) (resulting_db key t x d)
  resulting-Holds key (at, true) t d (sa, fa, cons, succ, fail) =
      let d₁ = hset d key "last_success_at" (text at) in
      let d₂ = hset d₁ key "consecutive_failures" (number (pos 0)) in
      let third =
        λ (g : String). at_key key "total_successes" g (number (pos (t.successes + 1))) d₂ in
      let second = λ (g : String). at_key key "consecutive_failures" g (number (pos 0)) d₁ in
      let first = λ (g : String). at_key key "last_success_at" g (text at) d in
      (
        rw (third "last_success_at", second "last_success_at", first "last_success_at") refl,
        rw (third "last_failure_at", second "last_failure_at", first "last_failure_at") fa,
        rw (third "consecutive_failures", second "consecutive_failures") refl,
        rw (third "total_successes") refl,
        rw (third "total_failures", second "total_failures", first "total_failures") fail,
      )
  resulting-Holds key (at, false) t d (sa, fa, cons, succ, fail) =
      let d₁ = hset d key "last_failure_at" (text at) in
      let d₂ = hset d₁ key "consecutive_failures" (number (pos (t.consecutive + 1))) in
      let third =
        λ (g : String). at_key key "total_failures" g (number (pos (t.failures + 1))) d₂ in
      let second =
        λ (g : String). at_key key "consecutive_failures" g (number (pos (t.consecutive + 1))) d₁ in
      let first = λ (g : String). at_key key "last_failure_at" g (text at) d in
      (
        rw (third "last_success_at", second "last_success_at", first "last_success_at") sa,
        rw (third "last_failure_at", second "last_failure_at", first "last_failure_at") refl,
        rw (third "consecutive_failures", second "consecutive_failures") refl,
        rw (third "total_successes", second "total_successes", first "total_successes") succ,
        rw (third "total_failures") refl,
      )

  module _ (go : Runtime) (name : String) where
    -- The deliveries, recorded one after the other
    abbrev pub record_all : List Attempted → Db → Db
    record_all [] d = d
    record_all ((at, succeeded) ∷ xs) d =
        record_all xs (record_receiver_delivery r go answered name succeeded at d).1

    abbrev key : String
    key = str_append health_prefix (normalize_state_domain go name)

    record-Holds :
        (x : Attempted) (t : Tally) (d : Db)
        → str_eq (normalize_state_domain go name) "" ≡ false
        → t.consecutive + 1 < 2 ^ 63
        → t.successes + 1 < 2 ^ 63
        → t.failures + 1 < 2 ^ 63
        → Holds key t d
        → Holds key (next t x) (record_receiver_delivery r go answered name x.1 x.0 d).1
    unfolding record_receiver_delivery
    record-Holds x t d given a b e h =
        rw (given, script-written key x.0 x.1 t d a b e h) (resulting-Holds key x t d h)

    record_all-Holds :
        (xs : List Attempted) (t : Tally) (d : Db)
        → str_eq (normalize_state_domain go name) "" ≡ false
        → t.consecutive + length xs < 2 ^ 63
        → t.successes + length xs < 2 ^ 63
        → t.failures + length xs < 2 ^ 63
        → Holds key t d
        → Holds key (tally t xs) (record_all xs d)
    record_all-Holds [] t d given a b e h = h
    record_all-Holds ((at, true) ∷ xs) t d given a b e h =
        record_all-Holds xs (next t (at, true)) _ given (omega arith) (omega arith) (omega arith)
          (record-Holds (at, true) t d given (omega arith) (omega arith) (omega arith) h)
    record_all-Holds ((at, false) ∷ xs) t d given a b e h =
        record_all-Holds xs (next t (at, false)) _ given (omega arith) (omega arith) (omega arith)
          (record-Holds (at, false) t d given (omega arith) (omega arith) (omega arith) h)

    -- After fewer than 2 ^ 63 deliveries that were recorded for a domain of which nothing was, what is
    -- loaded has the number of the successes and of the failures, the number of the failures since the
    -- last success, and the times of the last of each.
    pub read_health-record_all :
        (xs : List Attempted) (d : Db)
        → str_eq (normalize_state_domain go name) "" ≡ false
        → length xs < 2 ^ 63
        → ((field : String)
            → hget d (str_append health_prefix (normalize_state_domain go name)) field ≡ none)
        → read_health r c (record_all xs d) (normalize_state_domain go name)
          ≡ ok (record {
            domain = normalize_state_domain go name;
            last_success_at = last_time true "" xs;
            last_failure_at = last_time false "" xs;
            consecutive_failures = trailing xs;
            total_successes = count true xs;
            total_failures = count false xs;
          })
    unfolding read_health
    read_health-record_all xs d given few fresh =
        let start : Holds key fresh_tally d = (
          rw (fresh "last_success_at") refl,
          rw (fresh "last_failure_at") refl,
          rw (fresh "consecutive_failures") refl,
          rw (fresh "total_successes") refl,
          rw (fresh "total_failures") refl,
        ) in
        let (sa, fa, cons, succ, fail) : Holds key (closed_tally xs) (record_all xs d) =
          subst (λ t. Holds key t (record_all xs d)) (tally-fresh xs)
            (record_all-Holds xs fresh_tally d given (omega arith) (omega arith) (omega arith)
              start) in
        rw
          (
            read_counter _ (trailing xs) cons (omega (arith, trailing-length xs)),
            read_counter _ (count true xs) succ (omega (arith, count-length xs)),
            read_counter _ (count false xs) fail (omega (arith, count-length xs)),
            sa,
            fa,
          )
          refl
