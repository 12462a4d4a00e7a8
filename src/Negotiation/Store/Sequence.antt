-- ===== src/Negotiation/Store/Sequence.antt =====
-- A sequence of saves of capabilities, as they reach the server in order
-- (internal/httpsignature/redis_destination_capability.go), against a cell that keeps the newest.
use activity_relay.Base.{
  ℕ, ◌-◌, ◌/◌, ◌<◌, ◌⊎◌, inl, inr, String, Bool, true, false, ◌≡◌, refl, ◌∙◌, Option, none, some,
  ok, err, List, [], ◌∷◌, map, arith, eq_refl, if◌then◌else◌, ltb, ◌&&◌, not,
}
use activity_relay.Base.Int.{lebℤ}
use activity_relay.Go.{Runtime, Strconv}
use activity_relay.Redis.{Redis, answered, text}
use activity_relay.Redis.Fields.{hset_all, entry, hget-hset_all}
use activity_relay.Negotiation.{Scope, Profile, Evidence, Capability, scope_valid, validate}
use activity_relay.Origin.{normalize_destination_origin}
use activity_relay.Negotiation.Store.{
  millisecond, unix_offset_ms, unix_milli, capability_key, capability_fields, as_new, save_script,
  save_capability, load_capability,
}
use activity_relay.Negotiation.Store.Newest.{
  HasStorableTimes, kept, Reads, read_capability-Reads, stored-Reads, stored_exists,
}

-- A save for one scope and destination, with what the caller's clock reads
pub record Save : Type 0 where
  pub wall : ℕ
  pub profile : Profile
  pub evidence : Evidence
  pub observed_at : ℕ
  pub expires_at : ℕ

pub data AreStorable : List Capability → Type 0 where
  none_left : AreStorable []
  also :
      {x : Capability} {rest : List Capability}
      → HasStorableTimes x
      → AreStorable rest
      → AreStorable (x ∷ rest)

module _ (scope : Scope) (origin : String) where
  abbrev pub capability_of : Save → Capability
  capability_of s = record {
    origin = origin;
    scope = scope;
    profile = s.profile;
    evidence = s.evidence;
    observed_at = s.observed_at;
    expires_at = s.expires_at;
  }

  -- The cell: a capability that is valid and not over replaces the one held, unless that is as new,
  -- to the millisecond.
  abbrev pub newest : Runtime → Option Save → Save → Option Save
  newest go held x =
      let fresher : Bool = elim held [
        | none ↦ true
        | some old ↦ ltb (old.observed_at / millisecond) (x.observed_at / millisecond)
      ] in
      elim (validate go (capability_of x)) [
        | err e ↦ held
        | ok _ ↦ (if ltb x.wall x.expires_at && fresher then some x else held)
      ]

  abbrev pub newest_of : Runtime → Option Save → List Save → Option Save
  newest_of go held [] = held
  newest_of go held (s ∷ rest) = newest_of go (newest go held s) rest

  -- What can be loaded of the cell
  abbrev pub loaded : Option Save → Option Capability
  loaded none = none
  loaded (some x) = some (kept (capability_of x))

unix_milli-lebℤ :
    (x y : Capability)
    → HasStorableTimes x
    → HasStorableTimes y
    → lebℤ (unix_milli x.observed_at) (unix_milli y.observed_at)
      ≡ not (ltb (y.observed_at / millisecond) (x.observed_at / millisecond))
unix_milli-lebℤ x y hx hy = ground arith

module _ (r : Redis) (go : Runtime) (sha256_hex : String → String) (c : Strconv)
    (prefix : String) where
  open r use {Db, hget, key_exists, expire, hget-expire}
  open c use {format, parse_int, parse_int-format}

  module _ (scope : Scope) (origin : String) where
    -- The saves, as the server runs them one after the other
    abbrev pub save_all : List Save → Db → Db
    save_all [] d = d
    save_all (x ∷ rest) d =
        save_all rest
          (save_capability r go sha256_hex c prefix answered x.wall (capability_of scope origin x)
            d).1

    abbrev key : String
    key = capability_key sha256_hex prefix scope origin

    abbrev Holds : Option Save → Db → Type 0
    Holds none d = (hget d key "observed_at_ms" ≡ none) × (key_exists d key ≡ false)
    Holds (some x) d =
        HasStorableTimes (capability_of scope origin x)
        × (validate go (capability_of scope origin x) ≡ ok tt)
        × Reads go c (capability_of scope origin x) (entry r d key)
        × (hget d key "observed_at_ms" ≡ some (text (format (unix_milli x.observed_at))))
        × (key_exists d key ≡ true)

    Holds-stored :
        (x : Save) (ttl : ℕ) (d : Db)
        → 0 < ttl
        → HasStorableTimes (capability_of scope origin x)
        → validate go (capability_of scope origin x) ≡ ok tt
        → Holds
            (some x)
            (expire (hset_all r key (capability_fields c (capability_of scope origin x)) d) key ttl)
    Holds-stored x ttl d lasts times valid =
        let fields = capability_fields c (capability_of scope origin x) in
        (
          times,
          valid,
          stored-Reads r go sha256_hex c prefix (capability_of scope origin x) ttl d lasts,
          hget-expire (hset_all r key fields d) key key "observed_at_ms" ttl lasts
              ∙ hget-hset_all r key "observed_at_ms" fields d
              ∙ (unfold capability_fields in refl),
          stored_exists r go sha256_hex c prefix (capability_of scope origin x) ttl d lasts,
        )

    -- Either the cell and the server both keep what they have, or both take the new one.
    save-cases :
        (held : Option Save) (x : Save) (d : Db)
        → HasStorableTimes (capability_of scope origin x)
        → Holds held d
        → ((newest scope origin go held x ≡ held)
            × ((save_capability r go sha256_hex c prefix answered x.wall
                  (capability_of scope origin x)
                  d).1
                ≡ d))
          ⊎ ((newest scope origin go held x ≡ some x)
              × ((save_capability r go sha256_hex c prefix answered x.wall
                    (capability_of scope origin x)
                    d).1
                  ≡ expire
                      (hset_all r key (capability_fields c (capability_of scope origin x)) d)
                      key
                      (x.expires_at - x.wall))
              × (validate go (capability_of scope origin x) ≡ ok tt)
              × (x.wall < x.expires_at))
    unfolding save_capability save_script as_new
    save-cases none x d times (unset, missing) = ground (arith, unset)
    save-cases (some old) x d times (old_times, valid, reads, time, found) = ground (
      arith,
      time,
      parse_int-format (old.observed_at / millisecond - unix_offset_ms),
      unix_milli-lebℤ (capability_of scope origin x) (capability_of scope origin old) times
          old_times,
    )

    save-Holds :
        (held : Option Save) (x : Save) (d : Db)
        → HasStorableTimes (capability_of scope origin x)
        → Holds held d
        → Holds
            (newest scope origin go held x)
            (save_capability r go sha256_hex c prefix answered x.wall
              (capability_of scope origin x)
              d).1
    save-Holds held x d times h = elim (save-cases held x d times h) [
      | inl (same, kept_db) ↦ rw (same, kept_db) h
      | inr (taken, stored_db, valid, lasts) ↦
          rw (taken, stored_db) (Holds-stored x (x.expires_at - x.wall) d (omega arith) times valid)
    ]

    save_all-Holds :
        (held : Option Save) (xs : List Save) (d : Db)
        → AreStorable (map (capability_of scope origin) xs)
        → Holds held d
        → Holds (newest_of scope origin go held xs) (save_all xs d)
    save_all-Holds held [] d all h = h
    save_all-Holds held (x ∷ xs) d (also times all) h =
        save_all-Holds (newest scope origin go held x) xs _ all (save-Holds held x d times h)

    load-Holds :
        (held : Option Save) (d : Db)
        → scope_valid scope ≡ true
        → normalize_destination_origin go origin ≡ ok origin
        → Holds held d
        → load_capability r go sha256_hex c prefix d scope origin ≡ ok (loaded scope origin held)
    unfolding load_capability
    load-Holds none d s o (unset, missing) = rw (s, o, eq_refl origin, missing) refl
    load-Holds (some x) d s o (times, valid, reads, time, found) =
        rw (s, o, eq_refl origin, found)
          (read_capability-Reads go c (capability_of scope origin x) (entry r d key) reads times
            valid)

    -- From a database that holds nothing of a valid scope and origin, after any sequence of saves of
    -- capabilities with storable times for them, in which no key expires, a load gives what a cell
    -- that keeps the newest valid and unexpired one of them holds, with times in whole milliseconds.
    pub load-save_all :
        (xs : List Save) (d : Db)
        → scope_valid scope ≡ true
        → normalize_destination_origin go origin ≡ ok origin
        → AreStorable (map (capability_of scope origin) xs)
        → hget d (capability_key sha256_hex prefix scope origin) "observed_at_ms" ≡ none
        → key_exists d (capability_key sha256_hex prefix scope origin) ≡ false
        → load_capability r go sha256_hex c prefix (save_all xs d) scope origin
          ≡ ok (loaded scope origin (newest_of scope origin go none xs))
    load-save_all xs d s o all unset missing =
        load-Holds (newest_of scope origin go none xs) (save_all xs d) s o
          (save_all-Holds none xs d all (unset, missing))
