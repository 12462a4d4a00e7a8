-- ===== src/Queue/Capacity.antt =====
-- The queue's limit under any interleaving of the API's producers and the workers. A producer that
-- was admitted holds its jobs until it releases them (the `defer` of `enqueueActivityExcept`), and
-- sends any number of them to the broker in between. The 60 seconds after which the counter expires
-- are left out: no producer holds a reservation for that long.
use activity_relay.Base.{ℕ, ◌+◌, ◌-◌, ◌≤◌, ◌<◌, ◌≡◌, refl, inl, inr, List, [], ◌∷◌, ◌++◌, arith}
use activity_relay.Redis.{Redis, Outcome}
use activity_relay.Queue.{
  queue_key, queue_reservation_key, accepted, reserve_queue_capacity, release_queue_capacity,
}
use activity_relay.Queue.Reservation.{
  Reserved, reserve_counted, reserve_grows, release_counted, llen-reserve, llen-release,
}

pub record Hold : Type 0 where
  pub sent : ℕ
  pub unsent : ℕ

-- What the producer reserved, and releases.
abbrev pub jobs : Hold → ℕ
jobs h = h.sent + h.unsent

abbrev pub jobs_held : List Hold → ℕ
jobs_held [] = 0
jobs_held (h ∷ hs) = jobs h + jobs_held hs

abbrev pub jobs_unsent : List Hold → ℕ
jobs_unsent [] = 0
jobs_unsent (h ∷ hs) = h.unsent + jobs_unsent hs

jobs_held-split :
    (xs ys : List Hold) (h : Hold) → jobs_held (xs ++ h ∷ ys) ≡ jobs h + jobs_held (xs ++ ys)
jobs_held-split [] ys h = refl
jobs_held-split (x ∷ xs) ys h = omega (arith, jobs_held-split xs ys h)

jobs_unsent-split :
    (xs ys : List Hold) (h : Hold) → jobs_unsent (xs ++ h ∷ ys) ≡ h.unsent + jobs_unsent (xs ++ ys)
jobs_unsent-split [] ys h = refl
jobs_unsent-split (x ∷ xs) ys h = omega (arith, jobs_unsent-split xs ys h)

jobs_unsent-le-jobs_held : (hs : List Hold) → jobs_unsent hs ≤ jobs_held hs
jobs_unsent-le-jobs_held [] = omega arith
jobs_unsent-le-jobs_held (h ∷ hs) = omega (arith, jobs_unsent-le-jobs_held hs)

module _ (r : Redis) (maximum : ℕ) where
  open r use {Db, get, llen}

  pub record Producers : Type 0 where
    pub db : Db
    pub held : List Hold

  -- One step of one producer, of the broker or of a worker.
  pub data Step : Producers → Producers → Type 0 where
    admitted :
        (s : Producers) (net : Outcome) (wanted : ℕ)
        → 0 < wanted
        → (reserve_queue_capacity r net maximum wanted s.db).0 ≡ accepted
        → Step s (record {
          db = (reserve_queue_capacity r net maximum wanted s.db).1;
          held = record { sent = 0; unsent = wanted } ∷ s.held;
        })
    turned_away :
        (s : Producers) (net : Outcome) (wanted : ℕ)
        → Step s (record s { db = (reserve_queue_capacity r net maximum wanted s.db).1 })
    sends :
        (d d' : Db) (xs ys : List Hold) (h : Hold) (sent left : ℕ)
        → h.unsent ≡ sent + left
        → llen d' queue_key ≡ llen d queue_key + sent
        → get d' queue_reservation_key ≡ get d queue_reservation_key
        → Step
            (record { db = d; held = xs ++ h ∷ ys })
            (record { db = d'; held = xs ++ record { sent = h.sent + sent; unsent = left } ∷ ys })
    releases :
        (d : Db) (xs ys : List Hold) (h : Hold) (net : Outcome)
        → Step
            (record { db = d; held = xs ++ h ∷ ys })
            (record { db = release_queue_capacity r net (jobs h) d; held = xs ++ ys })
    consumes :
        (s : Producers) (d' : Db)
        → llen d' queue_key ≤ llen s.db queue_key
        → get d' queue_reservation_key ≡ get s.db queue_reservation_key
        → Step s (record s { db = d' })

  pub data Reach (s : Producers) : Producers → Type 0 where
    here : Reach s s
    next : {t u : Producers} → Reach s t → Step t u → Reach s u

  -- The counter covers what is held, and the queue has room for what is not sent yet.
  pub record WithinCapacity (s : Producers) : Type 0 where
    pub counted : ℕ
    pub counter : Reserved r s.db counted
    pub covers : jobs_held s.held ≤ counted
    pub room : llen s.db queue_key + jobs_unsent s.held ≤ maximum

  Step-WithinCapacity : {s t : Producers} → Step s t → WithinCapacity s → WithinCapacity t
  Step-WithinCapacity (admitted s net wanted some_jobs taken) w =
      let (fits, now_held) =
        reserve_counted r net maximum wanted w.counted s.db some_jobs w.counter taken in
      record {
        counted = w.counted + wanted;
        counter = now_held;
        covers = omega (arith, w);
        room = omega (
          arith,
          w,
          fits,
          llen-reserve r net maximum wanted s.db,
          jobs_unsent-le-jobs_held s.held,
        );
      }
  Step-WithinCapacity (turned_away s net wanted) w =
      elim (reserve_grows r net maximum wanted w.counted s.db w.counter) [
        | inl same ↦ record {
          counted = w.counted;
          counter = same;
          covers = w.covers;
          room = omega (arith, w, llen-reserve r net maximum wanted s.db);
        }
        | inr more ↦ record {
          counted = w.counted + wanted;
          counter = more;
          covers = omega (arith, w);
          room = omega (arith, w, llen-reserve r net maximum wanted s.db);
        }
      ]
  Step-WithinCapacity (sends d d' xs ys h sent left split grown kept) w =
      let left_over : Hold = record { sent = h.sent + sent; unsent = left } in
      let held = jobs_held-split xs ys h in
      let held' = jobs_held-split xs ys left_over in
      let unsent = jobs_unsent-split xs ys h in
      let unsent' = jobs_unsent-split xs ys left_over in
      record {
        counted = w.counted;
        counter = rw kept w.counter;
        covers = omega arith;
        room = omega arith;
      }
  Step-WithinCapacity (releases d xs ys h net) w =
      let held = jobs_held-split xs ys h in
      let unsent = jobs_unsent-split xs ys h in
      let same_queue = llen-release r net (jobs h) d in
      let spare : w.counted ≡ w.counted - jobs h + jobs h = omega arith in
      elim (release_counted r net (jobs h) (w.counted - jobs h) d (rw spare at w.counter)) [
        | inl freed ↦ record {
          counted = w.counted - jobs h;
          counter = freed;
          covers = omega arith;
          room = omega arith;
        }
        | inr kept ↦ record {
          counted = w.counted - jobs h + jobs h;
          counter = kept;
          covers = omega arith;
          room = omega arith;
        }
      ]
  Step-WithinCapacity (consumes s d' fewer kept) w = record {
    counted = w.counted;
    counter = rw kept w.counter;
    covers = w.covers;
    room = omega (arith, w);
  }

  Reach-WithinCapacity : {s t : Producers} → WithinCapacity s → Reach s t → WithinCapacity t
  Reach-WithinCapacity w here = w
  Reach-WithinCapacity w (next reach step) = Step-WithinCapacity step (Reach-WithinCapacity w reach)

  -- From a state in which the counter covers what is held and the queue has room for it, no
  -- interleaving of admissions, sends, releases and consumption ever has more than `maximum` jobs
  -- queued, whichever calls to Redis fail.
  pub queue-le-maximum :
      {s t : Producers} → WithinCapacity s → Reach s t → llen t.db queue_key ≤ maximum
  queue-le-maximum w reach = omega (arith, Reach-WithinCapacity w reach)
