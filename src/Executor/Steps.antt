-- ===== src/Executor/Steps.antt =====
-- The steps of which the phases of services/simulation/src/trips/trip_executor.py consist, one by one.
use rideshare_simulation_pla.Prelude.{
  ℕ, ◌≡◌, refl, ◌∙◌, inl, inr, true, Option, none, some, List, [], ◌∷◌, ◌++◌, arith, is_some,
  Bool-cases,
}
use Prim.Native.String.{String}
use rideshare_simulation_pla.Prelude.IdSet.{discard, member-discard}
use rideshare_simulation_pla.Trip.{
  Trip, TripState, transition_to, entered, cancelled, cancel, CancellationActor, Reason, Location,
}
use rideshare_simulation_pla.Trip.Graph.{◌⟶◌, edge→among}
use rideshare_simulation_pla.Registry.{DriverStatus, available}
use rideshare_simulation_pla.Registry
use rideshare_simulation_pla.Registry.Accuracy.{IsAccurate}
use rideshare_simulation_pla.Registry.Histories.{
  update_driver_location-IsAccurate, update_driver_zone-IsAccurate,
}
use rideshare_simulation_pla.Index.{Grid}
use rideshare_simulation_pla.Index
use rideshare_simulation_pla.Fleet.{Fleet}
use rideshare_simulation_pla.Fleet
use rideshare_simulation_pla.Agents.{Driver, complete_trip as driver_complete_trip, rider_idle}
use rideshare_simulation_pla.Agents.Statistics.{
  record_driver_trip_cancelled, record_rider_trip_cancelled,
}
use rideshare_simulation_pla.Server.{
  Server, Error, emit, transition, transition-ok, set_driver, set_trip, change_rider, trip_state,
  modify,
}
use rideshare_simulation_pla.Server.Answers.{driver_status_changed-ok}
use rideshare_simulation_pla.Server.Responses.{count_on}
use rideshare_simulation_pla.Server.Endings.{complete_trip, release_driver_of}
use rideshare_simulation_pla.Server.Closing.{track_ending-Frame}
use rideshare_simulation_pla.Server.Search.{Outside}
use rideshare_simulation_pla.Server.Puppets.{driver_turns, driver_moves}
use rideshare_simulation_pla.Server.Triples.{Post, returned, bind-Post}
use rideshare_simulation_pla.Executor.{abort, close_cancelled}
use rideshare_simulation_pla.Executor.Steady.{
  At, At-Steady, IsFree, IsFree-Steady, Closed, change_rider-Steady, count_on-Steady, trace-append,
}

release_driver_of-fleet : (t : ℕ) (w : Server) → (release_driver_of t w).fleet ≡ w.fleet
release_driver_of-fleet t w = ground arith

entered_lem :
    (s : TripState) (u : Trip) → ((entered s u).state ≡ s) × ((entered s u).driver_id ≡ u.driver_id)
entered_lem s u = ground arith

moved-IsAccurate :
    (g : Grid) (d : ℕ) (l : Location) (z : Option ℕ) (f : Fleet)
    → IsAccurate f.registry
    → (f' : Fleet) × (Fleet.driver_location_updated g d l z f ≡ some f') × IsAccurate f'.registry
unfolding Fleet.driver_location_updated
moved-IsAccurate g d l none f v = (
  record {
    index = Index.update_driver_location g d l f.index;
    registry = Registry.update_driver_location d l f.registry;
  },
  refl,
  update_driver_location-IsAccurate d l f.registry v,
)
moved-IsAccurate g d l (some z) f v =
    let (r, e, u) =
      update_driver_zone-IsAccurate d z _ (update_driver_location-IsAccurate d l f.registry v) in
    (record { index = Index.update_driver_location g d l f.index; registry = r }, ground arith, u)

module _ (d t : ℕ) {st : TripState} {js : List TripState} where
  -- A transition along an edge of the life of a trip.
  pub transition-At :
      {E : Error → Server → Type 0} {s : TripState} (w : Server)
      → st ⟶ s
      → At d t st js w
      → Post E (λ _ v. At d t s js v) (transition t s w)
  unfolding transition_to
  transition-At {E} {s} w edge a =
      let (live, among) = edge→among edge in
      let (is_s, same) = entered_lem s (w.trip t) in
      returned (transition t s w)
        (transition-ok t s w {u = entered s (w.trip t)} (ground (arith, a.state)))
        (record {
          state = ground arith;
          driver_id = ground (arith, a.driver_id);
          located = a.located;
          accurate = a.accurate;
          kafka = a.kafka;
          told = a.told;
        })

  -- What is told is told.
  pub tell-At :
      (s : TripState) (w : Server)
      → At d t st js w
      → At d t st
          (js ++ s ∷ [])
          (emit (trip_state s) t (w.trip t).driver_id (w.trip t).offer_sequence w)
  unfolding emit
  tell-At s w a =
      let e = trace-append t w.events (
        record {
          event_type = trip_state s;
          trip_id = t;
          driver_id = (w.trip t).driver_id;
          offer_sequence = (w.trip t).offer_sequence;
        }
        ∷ []) in
      record {
        state = ground (arith, a.state);
        driver_id = ground (arith, a.driver_id);
        located = ground (arith, a.located);
        accurate = ground (arith, a.accurate);
        kafka = ground (arith, a.kafka);
        told = ground (arith, a.kafka, a.told);
      }

  -- A driver's own change of status.
  pub driver_turns-At :
      {E : Error → Server → Type 0} (f : Driver → Driver) (s : DriverStatus) (w : Server)
      → is_some (f (w.driver d)).location ≡ true
      → At d t st js w
      → Post E
          (λ _ v.
            At d t st js v
            × ((v.driver d).active_trip ≡ (f (w.driver d)).active_trip)
            × ((v.driver d).status ≡ (f (w.driver d)).status))
          (driver_turns d f s w)
  unfolding driver_turns
  driver_turns-At f s w l a =
      let turned = set_driver d (f (w.driver d)) w in
      let (fleet, e, u) = driver_status_changed-ok d s turned a.accurate in
      returned (driver_turns d f s w) e (
        record {
          state = a.state;
          driver_id = a.driver_id;
          located = ground arith;
          accurate = u;
          kafka = a.kafka;
          told = a.told;
        },
        ground arith,
        ground arith,
      )

  -- A driver's move: the registries may raise no `KeyError`, since they are accurate.
  pub driver_moves-At :
      {E : Error → Server → Type 0} (o : Outside) (l : Location) (w : Server)
      → At d t st js w
      → Post E (λ _ v. At d t st js v) (driver_moves o d l w)
  unfolding driver_moves Fleet.driver_location_updated
  driver_moves-At {E} o l w a =
      let moved = set_driver d (record (w.driver d) { location = some l }) w in
      elim (Bool-cases w.config.has_registry_manager) [
        | inr n ↦ returned (driver_moves o d l w) {v = moved} (ground arith) (ground (arith, a))
        | inl m ↦
            let (fleet, e, u) = moved-IsAccurate o.grid d l (o.zone_of l) w.fleet a.accurate in
            returned (driver_moves o d l w) {v = record moved { fleet = fleet }} (ground (arith, e))
              (record {
                state = a.state;
                driver_id = a.driver_id;
                located = ground arith;
                accurate = u;
                kafka = a.kafka;
                told = a.told;
              })
      ]

  -- The trip leaves the matching server with its driver free.
  pub complete_trip-Closed :
      (w : Server) → At d t st js w → IsFree d w → Closed d t st js (complete_trip t true w)
  unfolding complete_trip
  complete_trip-Closed w a f =
      let removed = record w { active_trips = discard t w.active_trips } in
      let k = track_ending-Frame t (release_driver_of t removed) in
      let gone = member-discard t t w.active_trips in
      let free = member-discard d d w.reserved in
      record {
        at = record {
          state = ground (arith, k, a.state, a.driver_id);
          driver_id = ground (arith, k, a.driver_id);
          located = ground (arith, k, a.located, a.driver_id);
          accurate = rw (k.fleet ∙ release_driver_of-fleet t removed) a.accurate;
          kafka = ground (arith, k, a.kafka, a.driver_id);
          told = ground (arith, k, a.told, a.driver_id);
        };
        free = ground (arith, k, f, a.driver_id);
        inactive = ground (arith, k, gone, a.driver_id);
        unreserved = ground (arith, k, free, a.driver_id);
      }

-- A cancellation of the executor.
pub abort-Closed :
    {E : Error → Server → Type 0} (d t : ℕ) {st : TripState} {js : List TripState}
    (by : CancellationActor) (r : Reason) (stage : String) (w : Server)
    → At d t st js w
    → Post E (λ _ v. Closed d t cancelled (js ++ cancelled ∷ []) v) (abort d t by r stage w)
unfolding abort close_cancelled driver_complete_trip cancel
abort-Closed {E} d t {st} {js} by r stage w a =
    bind-Post (driver_turns d driver_complete_trip available) (λ _. modify (close_cancelled d t))
      told (driver_turns-At d t driver_complete_trip available told a_told.located a_told)
      (λ _ v (here, no_trip, status).
        let free : IsFree d v = record { driver_trip = no_trip; driver_status = status } in
        let idle = change_rider t rider_idle v in
        let counted = count_on d record_driver_trip_cancelled idle in
        let s₁ = change_rider-Steady d t v rider_idle in
        let s₂ = count_on-Steady d t idle record_driver_trip_cancelled in
        let s₃ =
          change_rider-Steady d t counted
            (λ r. record r { statistics = record_rider_trip_cancelled r.statistics }) in
        record {
          holds =
              complete_trip-Closed d t _ (At-Steady (At-Steady (At-Steady here s₁) s₂) s₃)
                (IsFree-Steady (IsFree-Steady (IsFree-Steady free s₁) s₂) s₃);
        })
  where
    ended : Server
    ended = set_trip t (cancel by r stage (w.trip t)) w

    told : Server
    told =
        emit (trip_state cancelled) t (ended.trip t).driver_id (ended.trip t).offer_sequence ended

    a_told : At d t cancelled (js ++ cancelled ∷ []) told
    a_told = tell-At d t cancelled ended (record {
      state = ground arith;
      driver_id = ground (arith, a.driver_id);
      located = a.located;
      accurate = a.accurate;
      kafka = a.kafka;
      told = a.told;
    })
