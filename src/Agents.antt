-- ===== src/Agents.antt =====
-- The agents as the matching server sees and changes them: services/simulation/src/agents/
-- driver_agent.py, rider_agent.py and statistics.py. Persistence, the action history and the agents'
-- own events are left out; the calls of the registry manager are made by the server's model.
pub mod Statistics
use rideshare_simulation_pla.Prelude.Ratio.{Ratio}
use rideshare_simulation_pla.Prelude.{ℕ, ◌+◌, ◌*◌, Bool, true, false, Option, none, some}
use rideshare_simulation_pla.Registry.{DriverStatus, available, en_route_pickup, on_trip}
use rideshare_simulation_pla.Trip.{Location, TripState, requested}
use rideshare_simulation_pla.Agents.Statistics.{
  DriverStatistics, RiderStatistics, record_trip_requested,
}

-- The fields of the DNA that the modelled code reads.
pub record DriverDna : Type 0 where
  pub acceptance_rate : Ratio
  pub surge_acceptance_modifier : Ratio
  pub min_rider_rating : Ratio
  pub service_quality : Ratio
  pub cancellation_tendency : Ratio
  pub home_location : Location

-- `reposition_process` is the number of the live process that drives home, `repositions` the next number:
-- every use of the source's field asks whether the process is alive.
pub record Driver : Type 0 where
  pub dna : DriverDna
  pub current_rating : Ratio
  pub rating_count : ℕ
  pub status : DriverStatus
  pub active_trip : Option ℕ
  pub location : Option Location
  pub route_progress_index : Option ℕ
  pub pickup_route_progress_index : Option ℕ
  pub reposition_process : Option ℕ
  pub repositions : ℕ
  pub is_puppet : Bool
  pub statistics : DriverStatistics

pub data RiderStatus : Type 0 where
  offline idle requesting awaiting_pickup riding : RiderStatus

pub record Rider : Type 0 where
  pub behavior_factor : Ratio
  pub status : RiderStatus
  pub active_trip : Option ℕ
  pub trip_state_value : Option TripState
  pub location : Option Location
  pub current_rating : Ratio
  pub rating_count : ℕ
  pub statistics : RiderStatistics

unfoldable pub accept_trip : ℕ → Driver → Driver
accept_trip trip_id d = record d { status = en_route_pickup; active_trip = some trip_id }

unfoldable pub start_pickup : Driver → Driver
start_pickup d = record d { status = en_route_pickup }

unfoldable pub start_trip : Driver → Driver
start_trip d = record d { status = on_trip }

unfoldable pub complete_trip : Driver → Driver
complete_trip d = record d {
  status = available;
  active_trip = none;
  route_progress_index = none;
  pickup_route_progress_index = none;
}

-- `on_driver_en_route`.
unfoldable pub on_driver_en_route : Rider → Rider
on_driver_en_route r = elim r.status [ requesting ↦ record r { status = awaiting_pickup } | _ ↦ r ]

unfoldable pub rider_start_trip : Rider → Rider
rider_start_trip r = record r { status = riding }

-- `complete_trip` and `cancel_trip` of a rider change the same fields.
unfoldable pub rider_idle : Rider → Rider
rider_idle r = record r { status = idle; active_trip = none; trip_state_value = none }

unfoldable pub update_trip_state : TripState → Rider → Rider
update_trip_state s r = record r { trip_state_value = some s }

unfoldable pub request_trip : ℕ → Rider → Rider
request_trip trip_id r = record r {
  status = requesting;
  trip_state_value = some requested;
  active_trip = some trip_id;
  statistics = record_trip_requested r.statistics;
}

unfoldable pub rider_located : Location → Rider → Rider
rider_located l r = record r { location = some l }

unfoldable pub update_route_progress : Option ℕ → Option ℕ → Driver → Driver
update_route_progress route pickup d = record d {
  route_progress_index = route;
  pickup_route_progress_index = pickup;
}

-- The rolling average with one more rating.
unfoldable pub rolled : ℕ → Ratio → ℕ → Ratio
rolled count r new_rating = record {
  num = r.num * count + new_rating * r.den;
  den = r.den * (count + 1);
}

unfoldable pub update_driver_rating : ℕ → Driver → Driver
unfolding rolled
update_driver_rating new_rating d = record d {
  current_rating = rolled d.rating_count d.current_rating new_rating;
  rating_count = d.rating_count + 1;
}

unfoldable pub update_rider_rating : ℕ → Rider → Rider
unfolding rolled
update_rider_rating new_rating r = record r {
  current_rating = rolled r.rating_count r.current_rating new_rating;
  rating_count = r.rating_count + 1;
}
