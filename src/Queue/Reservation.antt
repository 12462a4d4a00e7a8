-- ===== src/Queue/Reservation.antt =====
-- What one reservation and one release do to the counter and to the queue.
use activity_relay.Base.{
  ℕ, ◌+◌, ◌≤◌, ◌<◌, ◌≡◌, refl, ◌∙◌, ◌⊎◌, inl, inr, zero, suc, none, some, false, str_eq, arith,
}
use activity_relay.Base.Int.{pos, ◌+ℤ◌, ◌-ℤ◌}
use activity_relay.Redis.{Redis, Outcome, answered, refused, unanswered, Value, number, to_number}
use activity_relay.Queue.{
  queue_key, queue_reservation_key, accepted, capacity, reserve_queue_capacity,
  release_queue_capacity,
}

module _ (r : Redis) where
  open r use {
    Db, get, llen, set, del, expire, get-set, get-del, get-expire, llen-set, llen-del, llen-expire,
  }

  -- The reservations counted in the database.
  abbrev pub Reserved : Db → ℕ → Type 0
  Reserved d n = to_number (get d queue_reservation_key) ≡ some (pos n)

  get-counter :
      (d : Db) (v : Value) → get (set d queue_reservation_key v) queue_reservation_key ≡ some v
  get-counter d v = get-set d queue_reservation_key queue_reservation_key v

  get-counter_kept :
      (d : Db) (v : Value)
      → get (expire (set d queue_reservation_key v) queue_reservation_key 60) queue_reservation_key
        ≡ some v
  get-counter_kept d v = get-expire _ _ _ 60 (omega arith) ∙ get-counter d v

  get-counter_deleted : (d : Db) → get (del d queue_reservation_key) queue_reservation_key ≡ none
  get-counter_deleted d = get-del d queue_reservation_key queue_reservation_key

  keys_differ : str_eq queue_reservation_key queue_key ≡ false
  keys_differ = refl

  -- An answered reservation of some jobs is accepted exactly when the jobs that are queued and reserved leave
  -- room for it; then it is counted, and otherwise the count stays as it was.
  pub reserve-answered :
      (maximum additional n : ℕ) (d : Db)
      → 0 < additional
      → Reserved d n
      → ((llen d queue_key + n + additional ≤ maximum)
          × ((reserve_queue_capacity r answered maximum additional d).0 ≡ accepted)
          × Reserved (reserve_queue_capacity r answered maximum additional d).1 (n + additional))
        ⊎ ((maximum < llen d queue_key + n + additional)
            × ((reserve_queue_capacity r answered maximum additional d).0 ≡ capacity)
            × Reserved (reserve_queue_capacity r answered maximum additional d).1 n)
  unfolding reserve_queue_capacity ◌+ℤ◌
  reserve-answered maximum additional n d some_jobs held =
      ground (arith, get-counter_kept d (number (pos n +ℤ pos additional)))

  pub llen-reserve :
      (net : Outcome) (maximum additional : ℕ) (d : Db)
      → llen (reserve_queue_capacity r net maximum additional d).1 queue_key ≡ llen d queue_key
  unfolding reserve_queue_capacity
  llen-reserve net maximum additional d = grind (arith, llen-set, llen-expire, keys_differ)

  pub release-answered :
      (additional n : ℕ) (d : Db)
      → 0 < additional
      → Reserved d (n + additional)
      → Reserved (release_queue_capacity r answered additional d) n
  unfolding release_queue_capacity ◌-ℤ◌
  release-answered additional zero d some_jobs held = ground (
    arith,
    get-counter_deleted (set d queue_reservation_key (number (pos additional -ℤ pos additional))),
  )
  release-answered additional (suc n) d some_jobs held =
      ground (arith, get-counter d (number (pos (suc n + additional) -ℤ pos additional)))

  pub llen-release :
      (net : Outcome) (additional : ℕ) (d : Db)
      → llen (release_queue_capacity r net additional d) queue_key ≡ llen d queue_key
  unfolding release_queue_capacity
  llen-release net additional d = grind (arith, llen-set, llen-del, keys_differ)

  -- Whatever becomes of the call, an accepted reservation had room and is counted, and the count
  -- never falls.
  pub reserve_counted :
      (net : Outcome) (maximum additional n : ℕ) (d : Db)
      → 0 < additional
      → Reserved d n
      → (reserve_queue_capacity r net maximum additional d).0 ≡ accepted
      → (llen d queue_key + n + additional ≤ maximum)
        × Reserved (reserve_queue_capacity r net maximum additional d).1 (n + additional)
  unfolding reserve_queue_capacity ◌+ℤ◌
  reserve_counted answered maximum additional n d some_jobs held taken =
      ground (arith, get-counter_kept d (number (pos n +ℤ pos additional)))
  reserve_counted refused maximum additional n d some_jobs held taken = ground arith
  reserve_counted unanswered maximum additional n d some_jobs held taken = ground arith

  pub reserve_grows :
      (net : Outcome) (maximum additional n : ℕ) (d : Db)
      → Reserved d n
      → Reserved (reserve_queue_capacity r net maximum additional d).1 n
        ⊎ Reserved (reserve_queue_capacity r net maximum additional d).1 (n + additional)
  unfolding reserve_queue_capacity ◌+ℤ◌
  reserve_grows net maximum additional n d held =
      ground (arith, get-counter_kept d (number (pos n +ℤ pos additional)))

  pub release_counted :
      (net : Outcome) (additional n : ℕ) (d : Db)
      → Reserved d (n + additional)
      → Reserved (release_queue_capacity r net additional d) n
        ⊎ Reserved (release_queue_capacity r net additional d) (n + additional)
  release_counted net zero n d held = inl (unfold release_queue_capacity in ground arith)
  release_counted answered (suc k) n d held = inl (release-answered (suc k) n d (omega arith) held)
  release_counted refused (suc k) n d held = inr (unfold release_queue_capacity in ground arith)
  release_counted unanswered (suc k) n d held =
      let done = release-answered (suc k) n d (omega arith) held in
      inl (unfold release_queue_capacity in ground arith)
