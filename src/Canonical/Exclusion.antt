-- ===== src/Canonical/Exclusion.antt =====
-- A canonical activity is relayed by one reservation at a time.
use activity_relay.Base.{
  String, true, false, ◌≡◌, none, some, ok, List, [], ◌∷◌, arith, str_eq, eq_iff, eq_refl,
  trim_space, append-ne_empty,
}
use activity_relay.Redis.{Redis, Outcome, answered, refused, unanswered, text}
use activity_relay.Canonical.{
  Reservation, reserve_canonical, reserve_key, release_canonical, canonical_relay_key,
}

module _ (r : Redis) where
  open r use {Db, get, set, del, get-set, get-del}

  -- A call of another request: to reserve some activity, or to release a reservation of its own.
  pub data Call : Type 0 where
    reserves : Outcome → Reservation → Call
    releases : Outcome → Reservation → Call

  abbrev pub token_of : Call → String
  token_of (reserves net v) = v.token
  token_of (releases net v) = v.token

  unfoldable pub run_call : Call → Db → Db
  run_call (reserves net v) d = (reserve_key r net v d).1
  run_call (releases net v) d = release_canonical r net v d

  unfoldable pub run_calls : List Call → Db → Db
  run_calls [] d = d
  run_calls (c ∷ cs) d = run_calls cs (run_call c d)

  -- The calls carry other tokens than `token`.
  abbrev pub OthersOnly : String → List Call → Type 0
  OthersOnly token [] = Unit
  OthersOnly token (c ∷ cs) = (str_eq token (token_of c) ≡ false) × OthersOnly token cs

  run_call_keeps :
      (c : Call) (key token : String) (d : Db)
      → str_eq token (token_of c) ≡ false
      → get d key ≡ some (text token)
      → get (run_call c d) key ≡ some (text token)
  unfolding run_call reserve_key release_canonical
  run_call_keeps (reserves answered v) key token d other held =
      ground (arith, get-set d v.key key (text v.token), eq_iff v.key key)
  run_call_keeps (reserves refused v) key token d other held = held
  run_call_keeps (reserves unanswered v) key token d other held =
      ground (arith, get-set d v.key key (text v.token), eq_iff v.key key)
  run_call_keeps (releases net v) key token d other held =
      ground (arith, get-del d v.key key, eq_iff v.key key)

  run_calls_keeps :
      (cs : List Call) (key token : String) (d : Db)
      → OthersOnly token cs
      → get d key ≡ some (text token)
      → get (run_calls cs d) key ≡ some (text token)
  unfolding run_calls
  run_calls_keeps [] key token d others held = held
  run_calls_keeps (c ∷ cs) key token d others held =
      run_calls_keeps cs key token (run_call c d) others.1
        (run_call_keeps c key token d others.0 held)

  module _ (sha256_hex : String → String) (token id : String) where
    abbrev key : String
    key = canonical_relay_key sha256_hex (trim_space id)

    key_nonempty : str_eq key "" ≡ false
    unfolding canonical_relay_key
    key_nonempty = append-ne_empty "r" "elay:canonical:" _

    reserve_free :
        (token' : String) (d : Db)
        → str_eq (trim_space id) "" ≡ false
        → get d key ≡ none
        → (reserve_canonical r sha256_hex answered token' id d).0
          ≡ ok (record { key = key; token = token' }, true)
    unfolding reserve_canonical
    reserve_free token' d named free = ground arith

    reserve_canonical_accepted :
        (v : Reservation) (d : Db)
        → (reserve_canonical r sha256_hex answered token id d).0 ≡ ok (v, true)
        → (v.token ≡ token)
          × (v.key ≡ key)
          × (str_eq (trim_space id) "" ≡ false)
          × (get (reserve_canonical r sha256_hex answered token id d).1 key ≡ some (text token))
    unfolding reserve_canonical
    reserve_canonical_accepted v d h = ground (arith, get-set d key key (text token), eq_refl key)

    reserve_taken :
        (token' owner : String) (d : Db)
        → str_eq (trim_space id) "" ≡ false
        → get d key ≡ some (text owner)
        → reserve_canonical r sha256_hex answered token' id d
          ≡ (ok (record { key = key; token = token' }, false), d)
    unfolding reserve_canonical
    reserve_taken token' owner d named held = ground arith

    release_frees :
        (d : Db)
        → str_eq token "" ≡ false
        → get d key ≡ some (text token)
        → get (release_canonical r answered (record { key = key; token = token }) d) key ≡ none
    unfolding release_canonical
    release_frees d some_token held =
        ground (arith, get-del d key key, eq_refl key, eq_refl token, key_nonempty)

    -- Once a reservation of an activity with a token that is not empty is accepted, and whatever
    -- other requests with other tokens reserve and release in between, with any of their calls
    -- failing, another reservation of the activity is turned away and changes nothing; after the
    -- owner has released it, it is accepted.
    pub canonical_exclusion :
        (v : Reservation) (d : Db) (others : List Call) (token' : String)
        → (reserve_canonical r sha256_hex answered token id d).0 ≡ ok (v, true)
        → OthersOnly token others
        → str_eq token "" ≡ false
        → let after = run_calls others (reserve_canonical r sha256_hex answered token id d).1 in
          let wanted : Reservation = record { key = key; token = token' } in
          (reserve_canonical r sha256_hex answered token' id after ≡ (ok (wanted, false), after))
          × ((reserve_canonical r sha256_hex answered token' id
                (release_canonical r answered v after)).0
              ≡ ok (wanted, true))
    canonical_exclusion v d others token' accepted only some_token =
        let (same_token, same_key, named, held) = reserve_canonical_accepted v d accepted in
        let still = run_calls_keeps others key token _ only held in
        let mine : v ≡ record { key = key; token = token } =
          λ i. record { key = same_key i; token = same_token i } in
        (
          reserve_taken token' token _ named still,
          rw mine (reserve_free token' _ named (release_frees _ some_token still)),
        )
