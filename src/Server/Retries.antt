-- ===== src/Server/Retries.antt =====
-- The ends of a retry of matching_server.py.
use rideshare_simulation_pla.Prelude.{
  if◌then◌else◌, ◌==◌, ℕ, ◌+◌, ◌≡◌, ap, ◌⊎◌, inl, inr, false, true, false, none, some, List, arith,
}
use rideshare_simulation_pla.Prelude.Dict.{erase, lookup-erase, lookup}
use rideshare_simulation_pla.Prelude.IdSet.{member}
use rideshare_simulation_pla.Trip.{Trip, offer_sent}
use rideshare_simulation_pla.Server.{Server, Ranked}
use rideshare_simulation_pla.Server.Asking.{first_free, asked_in}
use rideshare_simulation_pla.Server.CycleEnds.{Asks}
use rideshare_simulation_pla.Server.Search.{Outside, find_nearby_drivers, rank_drivers}

-- The drivers that a retry may ask: those found near now, ranked, and five at most.
abbrev pub retry_asks : Outside → ℕ → Server → List Ranked
retry_asks o t w = asked_in 5 (rank_drivers w (find_nearby_drivers o (w.trip t).pickup_location w))

-- Nothing but the entry in the queue is gone.
abbrev pub GivenUp : ℕ → Server → Server → Type 0
GivenUp t w w' = w' ≡ record w { retry_queue = erase t w.retry_queue }

abbrev pub PutOff : ℕ → Server → Server → Type 0
PutOff t w w' =
    (w'.trip ≡ w.trip)
    × (w'.reserved ≡ w.reserved)
    × (w'.counters ≡ w.counters)
    × (w'.active_trips ≡ w.active_trips)
    × (lookup t w'.retry_queue ≡ some (w.now + w.config.retry_interval_seconds))

abbrev pub OfferedTo : ℕ → ℕ → Server → Server → Type 0
OfferedTo d t w w' =
    (member d w.reserved ≡ false)
    × ((w.driver d).active_trip ≡ none)
    × ((e : ℕ) → member e w'.reserved ≡ (if d == e then true else member e w.reserved))
    × ((w'.trip t).state ≡ offer_sent)
    × (w'.counters.offers_sent ≡ w.counters.offers_sent + 1)
    × (w'.active_trips ≡ w.active_trips)
    × (lookup t w'.retry_queue ≡ none)

-- How a retry leaves the trip: given up, put off by an interval, or offered to one driver. Which of the
-- three it is, the state before says.
abbrev pub RetryEnds : Outside → ℕ → Server → Server → Type 0
RetryEnds o t w w' =
    ((member t w.active_trips ≡ false) × GivenUp t w w')
    ⊎ ((member t w.active_trips ≡ true)
        × (first_free w.reserved w.driver (retry_asks o t w) ≡ none)
        × PutOff t w w')
    ⊎ ((member t w.active_trips ≡ true)
        × ((d : ℕ) × (first_free w.reserved w.driver (retry_asks o t w) ≡ some d)
            × OfferedTo d t w w'))

abbrev pub unqueued : ℕ → Server → Server
unqueued t w = record w { retry_queue = erase t w.retry_queue }

pub retried :
    (o : Outside) (t : ℕ) (w w' : Server)
    → member t w.active_trips ≡ true
    → Asks (retry_asks o t w) t (unqueued t w) w'
    → RetryEnds o t w w'
retried o t w w' m (inl (n, x)) =
    inr (inl (m, n, (x.trips, x.reserved, x.counters, x.active, x.due)))
retried o t w w' m (inr (x, e)) = inr (
    inr (
      m,
      (
        x.asked,
        e,
        (
          x.was_free.0,
          x.was_free.1,
          x.others,
          ap (λ (u : Trip). u.state) x.trip_sent,
          x.sent_one,
          x.active,
          ground (arith, x.retries, lookup-erase t t w.retry_queue),
        ),
      ),
    ))
