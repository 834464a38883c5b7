-- ===== src/Server/Requests.antt =====
-- A request for a match, and the retries of what found nobody.
use mathlib.Core.Path.{subst}
use rideshare_simulation_pla.Prelude.{
  sym, if◌then◌else◌, ◌==◌, ℕ, ◌+◌, ◌≡◌, refl, ap, ◌⊎◌, inl, inr, false, Bool-cases, true, false,
  Option, none, some, List, [], ◌∷◌, arith, ==_self, ◌∙◌,
}
use rideshare_simulation_pla.Prelude.Dict.{insert, lookup-insert, lookup}
use rideshare_simulation_pla.Prelude.IdSet.{member, member-add}
use rideshare_simulation_pla.Trip.{Trip, TripState, requested, offer_sent}
use rideshare_simulation_pla.Trip.Graph.{IsOpen, fresh}
use rideshare_simulation_pla.Server.{Server, done, Ranked}
use rideshare_simulation_pla.Server.Offers.{keep_for_retry}
use rideshare_simulation_pla.Server.Asking.{first_free, first_free-nil, asked_in}
use rideshare_simulation_pla.Server.CycleEnds.{
  Asks, CycleEnds, Exhausted, OneOffer, keep_for_retry-Exhausted,
}
use rideshare_simulation_pla.Server.Rounds.{send_offer_cycle-CycleEnds}
use rideshare_simulation_pla.Server.Search.{
  Outside, Request, Timed, Route, new_trip, tracked, find_nearby_drivers, rank_drivers,
  search_and_offer, request_match, retry_trip,
}
use rideshare_simulation_pla.Server.Retries.{retry_asks, RetryEnds, unqueued, retried}

-- What `request_match` has done before it looks for a driver.
record Placed (t : ℕ) (w v : Server) : Type 0 where
  state : (v.trip t).state ≡ requested
  sequence : (v.trip t).offer_sequence ≡ 0
  active : member t v.active_trips ≡ true
  counters : v.counters ≡ w.counters
  now : v.now ≡ w.now
  config : v.config ≡ w.config
  reserved : v.reserved ≡ w.reserved
  driver : v.driver ≡ w.driver

tracked-Placed :
    (q : Request) (r : Option Route) (w : Server)
    → Placed q.trip_id w (tracked (new_trip w.now r q) w)
unfolding new_trip
tracked-Placed q r w =
    let e = ==_self q.trip_id in
    record {
      state = rw e refl;
      sequence = rw e refl;
      active = ground (arith, member-add q.trip_id q.trip_id w.active_trips);
      counters = refl;
      now = refl;
      config = refl;
      reserved = refl;
      driver = refl;
    }

-- The trip waits for its retry, with no offer made.
abbrev pub Waits : ℕ → Server → Server → Type 0
Waits t w w' =
    ((w'.trip t).state ≡ requested)
    × (w'.counters ≡ w.counters)
    × (lookup t w'.retry_queue ≡ some (w.now + w.config.retry_interval_seconds))

-- One driver, free until now, holds the first offer.
abbrev pub FirstOffer : ℕ → Server → Server → Type 0
FirstOffer t w w' =
    ((w'.trip t).state ≡ offer_sent)
    × ((w'.trip t).offer_sequence ≡ 1)
    × (w'.counters.offers_sent ≡ w.counters.offers_sent + 1)
    × ((d : ℕ) × (member d w.reserved ≡ false)
        × ((w.driver d).active_trip ≡ none)
        × ((e : ℕ) → member e w'.reserved ≡ (if d == e then true else member e w.reserved)))

still-Waits : (t : ℕ) (w v w' : Server) → Placed t w v → Exhausted t v w' → Waits t w w'
still-Waits t w v w' p x = (
  ap (λ (g : ℕ → Trip). (g t).state) x.trips ∙ p.state,
  x.counters ∙ p.counters,
  ground (arith, x.due, p.now, p.config),
)

first_offer : (t : ℕ) (w v w' : Server) → Placed t w v → OneOffer t v w' → FirstOffer t w w'
first_offer t w v w' p x = (
  ap (λ (u : Trip). u.state) x.trip_sent,
  ground (arith, ap (λ (u : Trip). u.offer_sequence) x.trip_sent, p.sequence),
  ground (arith, x.sent_one, p.counters),
  (
    x.asked,
    ground (arith, x.was_free, p.reserved),
    ground (arith, x.was_free, p.driver),
    λ e. ground (arith, x.others e, p.reserved),
  ),
)

answered :
    (t : ℕ) (w v w' : Server)
    → Placed t w v
    → (rs : List Ranked) → Asks rs t v w'
    → (member t w'.active_trips ≡ true) × (Waits t w w' ⊎ FirstOffer t w w')
answered t w v w' p rs (inl (_, x)) =
    (ground (arith, x.active, p.active), inl (still-Waits t w v w' p x))
answered t w v w' p rs (inr (x, _)) =
    (ground (arith, x.active, p.active), inr (first_offer t w v w' p x))

module _ (o : Outside) where
  -- Whom to ask, with the drivers that were found.
  asks_of :
      (t : ℕ) (w : Server) {fs : List Timed}
      → find_nearby_drivers o (w.trip t).pickup_location w ≡ fs
      → retry_asks o t w ≡ asked_in 5 (rank_drivers w fs)
  asks_of t w e = ap (λ l. asked_in 5 (rank_drivers w l)) e

  nobody_found :
      (t : ℕ) (w : Server)
      → find_nearby_drivers o (w.trip t).pickup_location w ≡ []
      → first_free w.reserved w.driver (retry_asks o t w) ≡ none
  unfolding rank_drivers
  nobody_found t w e = ap (λ l. first_free w.reserved w.driver l) (asks_of t w e) ∙ first_free-nil w

  search_and_offer-CycleEnds :
      (t : ℕ) (w : Server)
      → IsOpen (w.trip t).state
      → member t w.active_trips ≡ true
      → CycleEnds (retry_asks o t w) t w (search_and_offer o t w)
  unfolding search_and_offer
  search_and_offer-CycleEnds t w op a = go (find_nearby_drivers o (w.trip t).pickup_location w) refl
    where
      go :
          (fs : List Timed)
          → find_nearby_drivers o (w.trip t).pickup_location w ≡ fs
          → CycleEnds (retry_asks o t w) t w (search_and_offer o t w)
      go [] e = (
        keep_for_retry t w,
        rw (e, search_and_offer) refl,
        inl (nobody_found t w e, keep_for_retry-Exhausted t w),
      )
      go (f ∷ fs) e =
          let (w', ends, how) =
            send_offer_cycle-CycleEnds o.random t (rank_drivers w (f ∷ fs)) 5 w op a in
          (w', rw (e, search_and_offer) ends, subst (λ l. Asks l t w w') (sym (asks_of t w e)) how)

  -- A request always ends and raises nothing. The new trip is active; and either one offer is counted,
  -- to a driver that was neither reserved nor on a trip, this driver and no other is reserved in
  -- addition, and the trip is in `offer_sent` at its first offer; or the trip is in `requested`, with
  -- no offer counted, and its retry is due after the interval.
  pub request_match_lem :
      (q : Request) (w : Server)
      → (w' : Server) × (request_match o q w ≡ done tt w')
        × (member q.trip_id w'.active_trips ≡ true)
        × (Waits q.trip_id w w' ⊎ FirstOffer q.trip_id w w')
  unfolding request_match
  request_match_lem q w =
      let v = tracked (new_trip w.now (o.get_route q.pickup_location q.dropoff_location) q) w in
      let p = tracked-Placed q (o.get_route q.pickup_location q.dropoff_location) w in
      let (w', e, how) = search_and_offer-CycleEnds q.trip_id v (requested_open p.state) p.active in
      let (active, outcome) = answered q.trip_id w v w' p _ how in (w', e, active, outcome)
    where
      requested_open : {s : TripState} → s ≡ requested → IsOpen s
      requested_open e = rw e fresh

  -- A retry, at the current time, of a trip that is open raises nothing. If the trip is not active, its
  -- entry in the queue goes and nothing else changes. Otherwise the drivers found near now are ranked, and
  -- of the first five, if each is reserved or on a trip (or none was found), no trip, reservation, counter
  -- or active trip changes and the next retry is due after the interval; and if not, the first that is
  -- neither gets the trip's offer: it alone is reserved in addition, one offer is counted, the trip is in
  -- `offer_sent`, and the queue has no entry for it.
  pub retry_trip_lem :
      (t : ℕ) (w : Server)
      → IsOpen (w.trip t).state
      → (w' : Server) × (retry_trip o w.now t w ≡ done tt w') × RetryEnds o t w w'
  unfolding retry_trip
  retry_trip_lem t w op = elim (Bool-cases (member t w.active_trips)) [
    | inr n ↦ (unqueued t w, rw n refl, inl (n, refl))
    | inl m ↦ go m (find_nearby_drivers o (w.trip t).pickup_location w) refl
  ]
    where
      go :
          member t w.active_trips ≡ true
          → (fs : List Timed) → find_nearby_drivers o (w.trip t).pickup_location w ≡ fs
          → (w' : Server) × (retry_trip o w.now t w ≡ done tt w') × RetryEnds o t w w'
      go m [] e =
          let x = keep_for_retry-Exhausted t w in
          let again = insert t (w.now + w.config.retry_interval_seconds) w.retry_queue in
          (
            (let told = keep_for_retry t w in record told { retry_queue = again }),
            rw (m, e) refl,
            inr (
                inl (
                  m,
                  nobody_found t w e,
                  (
                    x.trips,
                    x.reserved,
                    x.counters,
                    x.active,
                    ground (
                      arith,
                      lookup-insert t t (w.now + w.config.retry_interval_seconds) w.retry_queue,
                    ),
                  ),
                )),
          )
      go m (f ∷ fs) e =
          let (w', ends, how) =
            send_offer_cycle-CycleEnds o.random t (rank_drivers w (f ∷ fs)) 5 (unqueued t w) op m in
          (
            w',
            rw (m, e) ends,
            retried o t w w' m (subst (λ l. Asks l t (unqueued t w) w') (sym (asks_of t w e)) how),
          )
