-- ===== src/Executor/Steady.antt =====
-- Where an executor's trip is: its state, the events that were told of it, its driver. And what the steps
-- that only touch the rider, the statistics or the routes leave as it was.
use rideshare_simulation_pla.Prelude.{
  ℕ, ◌≡◌, refl, ap, sym, ◌∙◌, true, false, none, some, List, [], ◌∷◌, ◌++◌, append_assoc, arith,
  is_some, ◌==◌, if◌then◌else◌,
}
use rideshare_simulation_pla.Prelude.IdSet.{member}
use rideshare_simulation_pla.Trip.{TripState}
use rideshare_simulation_pla.Registry.{available}
use rideshare_simulation_pla.Registry.Accuracy.{IsAccurate}
use rideshare_simulation_pla.Agents.{Rider}
use rideshare_simulation_pla.Agents.Statistics.{DriverStatistics}
use rideshare_simulation_pla.Server.{
  Server, EventType, trip_state, no_drivers, TripEvent, change_rider,
}
use rideshare_simulation_pla.Server.Responses.{count_on}

abbrev state_of : EventType → List TripState
state_of (trip_state s) = s ∷ []
state_of no_drivers = []

-- The states of a trip that were published, the oldest first.
abbrev pub trace : ℕ → List TripEvent → List TripState
trace t [] = []
trace t (e ∷ es) = (if e.trip_id == t then state_of e.event_type else []) ++ trace t es

pub trace-append :
    (t : ℕ) (es : List TripEvent) (fs : List TripEvent)
    → trace t (es ++ fs) ≡ trace t es ++ trace t fs
trace-append t [] fs = refl
trace-append t (e ∷ es) fs =
    ap (◌++◌ first) (trace-append t es fs) ∙ sym (append_assoc first (trace t es) (trace t fs))
  where
    first : List TripState
    first = if e.trip_id == t then state_of e.event_type else []

-- What a step leaves as it was for trip `t` and driver `d`.
pub record Steady (d t : ℕ) (w w' : Server) : Type 0 where
  pub state : (w'.trip t).state ≡ (w.trip t).state
  pub driver_id : (w'.trip t).driver_id ≡ (w.trip t).driver_id
  pub driver_trip : (w'.driver d).active_trip ≡ (w.driver d).active_trip
  pub driver_status : (w'.driver d).status ≡ (w.driver d).status
  pub located : is_some (w'.driver d).location ≡ is_some (w.driver d).location
  pub accurate : IsAccurate w.fleet.registry → IsAccurate w'.fleet.registry
  pub config : w'.config ≡ w.config
  pub told : trace t w'.events ≡ trace t w.events
  pub active : member t w'.active_trips ≡ member t w.active_trips
  pub reserved : member d w'.reserved ≡ member d w.reserved

-- The trip is in `st` with driver `d`, who is somewhere; `js` was told of it.
pub record At (d t : ℕ) (st : TripState) (js : List TripState) (w : Server) : Type 0 where
  pub state : (w.trip t).state ≡ st
  pub driver_id : (w.trip t).driver_id ≡ some d
  pub located : is_some (w.driver d).location ≡ true
  pub accurate : IsAccurate w.fleet.registry
  pub kafka : w.config.has_kafka ≡ true
  pub told : trace t w.events ≡ js

pub At-Steady :
    {d t : ℕ} {st : TripState} {js : List TripState} {w w' : Server}
    → At d t st js w
    → Steady d t w w'
    → At d t st js w'
At-Steady a s = record {
  state = s.state ∙ a.state;
  driver_id = s.driver_id ∙ a.driver_id;
  located = s.located ∙ a.located;
  accurate = s.accurate a.accurate;
  kafka = ap (λ c. c.has_kafka) s.config ∙ a.kafka;
  told = s.told ∙ a.told;
}

pub At-retold :
    {d t : ℕ} {st : TripState} {js ks : List TripState} {w : Server}
    → js ≡ ks
    → At d t st js w
    → At d t st ks w
At-retold e a = rw⁻¹ e a

-- The driver is free.
pub record IsFree (d : ℕ) (w : Server) : Type 0 where
  pub driver_trip : (w.driver d).active_trip ≡ none
  pub driver_status : (w.driver d).status ≡ available

pub IsFree-Steady : {d t : ℕ} {w w' : Server} → IsFree d w → Steady d t w w' → IsFree d w'
IsFree-Steady f s = record {
  driver_trip = s.driver_trip ∙ f.driver_trip;
  driver_status = s.driver_status ∙ f.driver_status;
}

-- The trip has ended in `st`, after `js` was told of it: nobody drives it, and the server does not track it.
pub record Closed (d t : ℕ) (st : TripState) (js : List TripState) (w : Server) : Type 0 where
  pub at : At d t st js w
  pub free : IsFree d w
  pub inactive : member t w.active_trips ≡ false
  pub unreserved : member d w.reserved ≡ false

pub Closed-Steady :
    {d t : ℕ} {st : TripState} {js : List TripState} {w w' : Server}
    → Closed d t st js w
    → Steady d t w w'
    → Closed d t st js w'
Closed-Steady c s = record {
  at = At-Steady c.at s;
  free = IsFree-Steady c.free s;
  inactive = s.active ∙ c.inactive;
  unreserved = s.reserved ∙ c.unreserved;
}

pub Closed-retold :
    {d t : ℕ} {st : TripState} {js ks : List TripState} {w : Server}
    → js ≡ ks
    → Closed d t st js w
    → Closed d t st ks w
Closed-retold e c = rw⁻¹ e c

module _ (d t : ℕ) (w : Server) where
  pub change_rider-Steady : (f : Rider → Rider) → Steady d t w (change_rider t f w)
  unfolding change_rider
  change_rider-Steady f = ground arith

  pub count_on-Steady : (f : DriverStatistics → DriverStatistics) → Steady d t w (count_on d f w)
  count_on-Steady f = ground arith
