-- ===== src/Scenarios/Data.antt =====
-- A small city: two drivers, one rider, and their trips. Cells are multiples of ten, distances differences.
use rideshare_simulation_pla.Prelude.{
  inl, ℕ, ◌+◌, ◌-◌, ◌/◌, refl, true, false, Option, none, some, List, [], ◌∷◌, ◌==◌, if◌then◌else◌,
}
use rideshare_simulation_pla.Prelude.Dict.{lookup, insert}
use rideshare_simulation_pla.Prelude.Ratio.{Ratio, whole}
use rideshare_simulation_pla.Trip.{requested, offer_sent}
use rideshare_simulation_pla.Trip.{Trip, TripState, Location, driver_assigned}
use rideshare_simulation_pla.Registry.{
  DriverRegistry, DriverStatus, available, offline, register_driver,
}
use rideshare_simulation_pla.Registry
use rideshare_simulation_pla.Registry.Accuracy.{
  IsAccurate, init-IsAccurate, register_driver-IsAccurate,
}
use rideshare_simulation_pla.Index.{Grid, DriverIndex, add_driver}
use rideshare_simulation_pla.Index
use rideshare_simulation_pla.Index.Cells.{IsIndexed, init-IsIndexed, add_driver-IsIndexed}
use rideshare_simulation_pla.Agents.{Driver, Rider, requesting}
use rideshare_simulation_pla.Server.{Server, Config, TripStats, Deferred}
use rideshare_simulation_pla.Server.Search.{Outside, Request}

abbrev pub centre : Location
centre = (100, 0)

abbrev pub grid : Grid
grid = record {
  latlng_to_cell = λ l. l.0 / 10;
  grid_disk = λ c k. c ∷ (c + 1) ∷ [];
  haversine_m = λ l m. (l.0 - m.0) + (m.0 - l.0);
}

abbrev pub outside : Outside
outside = record {
  grid = grid;
  get_route = λ l m. some (record { duration_seconds = 120; geometry = l ∷ m ∷ [] });
  random = λ n. record { num = 1; den = 4 };
  zone_of = λ l. some 7;
}

-- A trip from the centre that has been offered twice.
abbrev pub a_trip : ℕ → TripState → Option ℕ → Trip
a_trip t s d = record {
  trip_id = t;
  rider_id = 50;
  driver_id = d;
  state = s;
  pickup_location = centre;
  dropoff_location = (300, 0);
  pickup_zone_id = 7;
  dropoff_zone_id = 8;
  surge_multiplier = whole 1;
  fare = 20;
  offer_sequence = 2;
  cancelled_by = none;
  cancellation_reason = none;
  cancellation_stage = none;
  requested_at = some 5;
  matched_at = none;
  driver_arrived_at = none;
  started_at = none;
  completed_at = none;
  route = none;
  pickup_route = none;
  route_progress_index = 0;
  pickup_route_progress_index = 0;
}

abbrev pub a_driver : Driver
a_driver = record {
  dna = record {
    acceptance_rate = record { num = 4; den = 5 };
    surge_acceptance_modifier = whole 1;
    min_rider_rating = whole 3;
    service_quality = record { num = 1; den = 2 };
    cancellation_tendency = record { num = 1; den = 10 };
    home_location = centre;
  };
  current_rating = record { num = 9; den = 2 };
  rating_count = 4;
  status = available;
  active_trip = none;
  location = some centre;
  route_progress_index = none;
  pickup_route_progress_index = none;
  reposition_process = none;
  repositions = 0;
  is_puppet = false;
  statistics = record {
    trips_completed = 0;
    trips_cancelled = 0;
    offers_received = 0;
    offers_accepted = 0;
    offers_rejected = 0;
    offers_expired = 0;
    total_earnings = 0;
    total_pickup_time_seconds = 0;
    total_trip_duration_seconds = 0;
    total_rating_given = 0;
    ratings_given_count = 0;
  };
}

abbrev pub a_rider : Rider
a_rider = record {
  behavior_factor = record { num = 1; den = 2 };
  status = requesting;
  active_trip = some 1;
  trip_state_value = none;
  location = none;
  current_rating = whole 5;
  rating_count = 1;
  statistics = record {
    trips_completed = 0;
    trips_cancelled = 0;
    trips_requested = 0;
    requests_timed_out = 0;
    total_spent = 0;
    total_wait_time_seconds = 0;
    total_pickup_wait_seconds = 0;
    total_rating_given = 0;
    ratings_given_count = 0;
    surge_trips = 0;
  };
}

abbrev pub two_drivers : DriverRegistry
two_drivers =
    register_driver 2 available (some 7) (some centre)
      (register_driver 1 available (some 7) (some centre) Registry.init)

pub two_drivers-IsAccurate : IsAccurate two_drivers
unfolding register_driver Registry.init lookup insert
two_drivers-IsAccurate =
    register_driver-IsAccurate 2 available (some 7) (some centre) _ refl
      (register_driver-IsAccurate 1 available (some 7) (some centre) _ refl init-IsAccurate)

abbrev pub one_indexed : DriverIndex
one_indexed = add_driver grid 1 centre available Index.init

pub one_indexed-IsIndexed : IsIndexed grid one_indexed
unfolding lookup
one_indexed-IsIndexed =
    add_driver-IsIndexed grid 1 centre available Index.init (inl refl) (init-IsIndexed grid)

abbrev pub no_stats : TripStats
no_stats = record {
  total_fare = 0;
  duration_sum = 0;
  duration_count = 0;
  match_time_sum = 0;
  match_time_count = 0;
  pickup_sum = 0;
  pickup_count = 0;
  cancellation_by_reason = [];
}

abbrev pub config : Config
config = record {
  has_kafka = true;
  has_registry_manager = true;
  has_surge_calculator = true;
  has_event_loop = true;
  max_trip_history = 2;
  retry_interval_seconds = 10;
  osrm_candidate_limit = 5;
  eta_weight = whole 1;
  rating_weight = whole 1;
  acceptance_weight = whole 1;
}

-- Trip 1 in a state, with the trips that are active and the drivers that are reserved. Every other trip
-- was assigned to driver 1.
abbrev pub a_server : TripState → List ℕ → List ℕ → Server
a_server s active reserved = record {
  config = config;
  now = 100;
  trip = λ t. if t == 1 then a_trip 1 s none else a_trip t driver_assigned (some 1);
  driver = λ d. a_driver;
  riders = (50, a_rider) ∷ [];
  fleet = record { index = one_indexed; registry = two_drivers };
  registered = 1 ∷ 2 ∷ [];
  pending_requests = [];
  pending_offers = [];
  candidates = [];
  active_trips = active;
  pending_trip_executions = [];
  deferred_offers = [];
  offer_timeouts = [];
  responses = [];
  timeouts = record {
    timeout_seconds = 15;
    pending_offers = (1, record { driver_id = 2; offer_sequence = 2; timeout_process = 0 }) ∷ [];
    running = record { process = 0; trip_id = 1; due = 110 } ∷ [];
    next_process = 1;
  };
  executions = [];
  completed_trips = [];
  cancelled_trips = [];
  reserved = reserved;
  retry_queue = [];
  retry_in_progress = false;
  retries_scheduled = 0;
  draws = 0;
  counters = record {
    offers_sent = 2;
    offers_accepted = 0;
    offers_rejected = 0;
    offers_expired = 1;
  };
  stats = no_stats;
  puppet_drives = [];
  events = [];
  payments = [];
}

-- Driver 1 accepts trip 1, whose offer stands with driver 2 by now.
abbrev pub late_answer : Deferred
late_answer = record { driver_id = 1; trip_id = 1; accepted = true; eta_seconds = 120 }

abbrev pub a_request : Request
a_request = record {
  trip_id = 3;
  rider_id = 50;
  pickup_location = centre;
  dropoff_location = (300, 0);
  pickup_zone_id = 7;
  dropoff_zone_id = 8;
  surge_multiplier = whole 1;
  fare = 20;
}

abbrev pub draw : ℕ → Ratio
draw n = record { num = 1; den = 4 }

abbrev pub quiet : Server
quiet = a_server requested (1 ∷ []) []

abbrev pub asking : Server
asking = a_server offer_sent (1 ∷ []) (2 ∷ [])
