-- ===== src/Server/Search.antt =====
-- Finding and ranking drivers in matching_server.py, the request of a match and the retries. Between the
-- awaits of a coroutine other steps may run; here a coroutine runs through.
use rideshare_simulation_pla.Prelude.{
  ℕ, ◌+◌, ◌-◌, Bool, true, false, not, ◌||◌, Option, none, some, List, [], ◌∷◌, ◌++◌, leb, ◌==◌,
  is_some, take, if◌then◌else◌, min, max,
}
use rideshare_simulation_pla.Prelude.Dict.{Dict, insert, erase}
use rideshare_simulation_pla.Prelude.IdSet.{member, add}
use rideshare_simulation_pla.Prelude.Ratio.{
  Ratio, add as add_ratio, multiply, divide, less_one, whole, ltb_ratio,
}
use rideshare_simulation_pla.Trip.{Trip, Location, requested}
use rideshare_simulation_pla.Registry.{DriverStatus, available, driving_closer_to_home}
use rideshare_simulation_pla.Index.{Grid}
use rideshare_simulation_pla.Index
use rideshare_simulation_pla.Agents.{Driver}
use rideshare_simulation_pla.Server.{Server, Config, M, Outcome, done, raised, set_trip, Ranked}
use rideshare_simulation_pla.Server.Offers.{send_offer_cycle, keep_for_retry}

-- A route of the OSRM service; `int(duration_seconds)`.
pub record Route : Type 0 where
  pub geometry : List Location
  pub duration_seconds : ℕ

-- A driver that may be asked: its identifier and location.
pub record Found : Type 0 where
  pub driver_id : ℕ
  pub location : Location

pub record Timed : Type 0 where
  pub driver_id : ℕ
  pub eta_seconds : ℕ

-- `status_filter={"available", "driving_closer_to_home"}`.
abbrev pub matchable : DriverStatus → Bool
matchable available = true
matchable driving_closer_to_home = true
matchable _ = false

-- A driver of the index is passed over if it is reserved, unknown, nowhere, or on a trip.
abbrev pub found_at : ℕ → Option Location → List Found
found_at d none = []
found_at d (some l) = record { driver_id = d; location = l } ∷ []

unfoldable pub eligible : Server → ℕ → List Found
eligible w d =
    if member d w.reserved || not (member d w.registered) || is_some (w.driver d).active_trip
    then []
    else found_at d (w.driver d).location

unfoldable pub valid_drivers : Server → List (ℕ × ℕ) → List Found
unfolding eligible
valid_drivers w [] = []
valid_drivers w ((d, m) ∷ rest) = eligible w d ++ valid_drivers w rest

unfoldable pub composite_score : Config → ℕ → ℕ → Timed → Driver → Ratio
composite_score c min_eta max_eta t d =
    let eta : Ratio =
      if max_eta == min_eta
      then whole 1
      else record { num = max_eta - t.eta_seconds; den = max_eta - min_eta } in
    let rating = divide (less_one d.current_rating) (whole 4) in
    add_ratio (add_ratio (multiply eta c.eta_weight) (multiply rating c.rating_weight))
      (multiply d.dna.acceptance_rate c.acceptance_weight)

unfoldable pub min_eta : ℕ → List Timed → ℕ
min_eta m [] = m
min_eta m (t ∷ ts) = min_eta (min m t.eta_seconds) ts

unfoldable pub max_eta : ℕ → List Timed → ℕ
max_eta m [] = m
max_eta m (t ∷ ts) = max_eta (max m t.eta_seconds) ts

-- `scored.sort(key=score, reverse=True)`: equal scores keep their order.
unfoldable pub insert_by_score : Ranked → List Ranked → List Ranked
insert_by_score r [] = r ∷ []
insert_by_score r (s ∷ ss) =
    let later = insert_by_score r ss in if ltb_ratio r.score s.score then s ∷ later else r ∷ s ∷ ss

unfoldable pub score_all : Server → ℕ → ℕ → List Timed → List Ranked
unfolding composite_score
score_all w lo hi [] = []
score_all w lo hi (t ∷ ts) =
    record {
      driver_id = t.driver_id;
      eta_seconds = t.eta_seconds;
      score = composite_score w.config lo hi t (w.driver t.driver_id);
    }
    ∷ score_all w lo hi ts

unfoldable pub sort_by_score : List Ranked → List Ranked
unfolding insert_by_score
sort_by_score [] = []
sort_by_score (r ∷ rs) = insert_by_score r (sort_by_score rs)

unfoldable pub rank_drivers : Server → List Timed → List Ranked
unfolding score_all sort_by_score min_eta max_eta
rank_drivers w [] = []
rank_drivers w (t ∷ ts) =
    sort_by_score (score_all w (min_eta t.eta_seconds ts) (max_eta t.eta_seconds ts) (t ∷ ts))

-- What a request for a match brings.
pub record Request : Type 0 where
  pub trip_id : ℕ
  pub rider_id : ℕ
  pub pickup_location : Location
  pub dropoff_location : Location
  pub pickup_zone_id : ℕ
  pub dropoff_zone_id : ℕ
  pub surge_multiplier : Ratio
  pub fare : ℕ

abbrev pub geometry_of : Option Route → Option (List Location)
geometry_of none = none
geometry_of (some r) = some r.geometry

-- The new trip, with its route if the service gives one.
unfoldable pub new_trip : ℕ → Option Route → Request → Trip
new_trip now route q = record {
  trip_id = q.trip_id;
  rider_id = q.rider_id;
  driver_id = none;
  state = requested;
  pickup_location = q.pickup_location;
  dropoff_location = q.dropoff_location;
  pickup_zone_id = q.pickup_zone_id;
  dropoff_zone_id = q.dropoff_zone_id;
  surge_multiplier = q.surge_multiplier;
  fare = q.fare;
  offer_sequence = 0;
  cancelled_by = none;
  cancellation_reason = none;
  cancellation_stage = none;
  requested_at = some now;
  matched_at = none;
  driver_arrived_at = none;
  started_at = none;
  completed_at = none;
  route = geometry_of route;
  pickup_route = none;
  route_progress_index = 0;
  pickup_route_progress_index = 0;
}

abbrev pub tracked : Trip → Server → Server
tracked t w =
    let stored = set_trip t.trip_id t w in
    record stored { active_trips = add t.trip_id w.active_trips }

due_trips : ℕ → Dict ℕ → List ℕ
due_trips now [] = []
due_trips now ((t, at) ∷ q) = if leb at now then t ∷ due_trips now q else due_trips now q

-- The outside: the grid of the index, the OSRM service, and the draws of `random`.
pub record Outside : Type 0 where
  pub grid : Grid
  pub get_route : Location → Location → Option Route
  pub random : ℕ → Ratio
  pub zone_of : Location → Option ℕ

module _ (o : Outside) where
  open o use {grid, get_route, random}

  -- `fetch_route`: a failed call and a long way drop the driver.
  unfoldable pub fetch_route : Location → ℕ → Found → List Timed
  fetch_route pickup max_eta_seconds f = elim (get_route f.location pickup) [
    | none ↦ []
    | some r ↦
        if leb r.duration_seconds max_eta_seconds
        then record { driver_id = f.driver_id; eta_seconds = r.duration_seconds } ∷ []
        else []
  ]

  unfoldable pub fetch_routes : Location → ℕ → List Found → List Timed
  unfolding fetch_route
  fetch_routes pickup max_eta_seconds [] = []
  fetch_routes pickup max_eta_seconds (f ∷ fs) =
      fetch_route pickup max_eta_seconds f ++ fetch_routes pickup max_eta_seconds fs

  -- A radius of 10 km and 900 seconds, as the callers leave them. The index always answers (Index).
  unfoldable pub find_nearby_drivers : Location → Server → List Timed
  unfolding valid_drivers fetch_routes
  find_nearby_drivers pickup w =
      elim (Index.find_nearest_drivers grid pickup 10000 matchable w.fleet.index) [
        | none ↦ []
        | some near ↦
            fetch_routes pickup 900 (take w.config.osrm_candidate_limit (valid_drivers w near))
      ]

  -- Nobody near: the trip waits. Otherwise the offers go out, at most five.
  unfoldable pub search_and_offer : ℕ → M (Unit {0})
  unfolding find_nearby_drivers rank_drivers
  search_and_offer t w = elim (find_nearby_drivers (w.trip t).pickup_location w) [
    | [] ↦ done tt (keep_for_retry t w)
    | f ∷ fs ↦ send_offer_cycle random t (rank_drivers w (f ∷ fs)) 5 w
  ]

  unfoldable pub request_match : Request → M (Unit {0})
  unfolding search_and_offer new_trip
  request_match q w =
      let route = get_route q.pickup_location q.dropoff_location in
      search_and_offer q.trip_id (tracked (new_trip w.now route q) w)

  -- One due trip: gone, offered again, or put off by another interval.
  unfoldable pub retry_trip : ℕ → ℕ → M (Unit {0})
  retry_trip now t w =
      if member t w.active_trips
      then elim (find_nearby_drivers (w.trip t).pickup_location w) [
        | [] ↦
            (let told = keep_for_retry t w in
              done tt (record told {
                retry_queue = insert t (now + w.config.retry_interval_seconds) w.retry_queue;
              }))
        | f ∷ fs ↦
            send_offer_cycle random t (rank_drivers w (f ∷ fs)) 5
              (record w { retry_queue = erase t w.retry_queue })
      ]
      else done tt (record w { retry_queue = erase t w.retry_queue })

  unfoldable pub retry_each : ℕ → List ℕ → M (Unit {0})
  unfolding retry_trip
  retry_each now [] w = done tt w
  retry_each now (t ∷ ts) w = elim (retry_trip now t w) [
    | raised e w' ↦ raised e w'
    | done _ w' ↦ retry_each now ts w'
  ]

  -- The guard is reset also when a retry raises.
  abbrev pub finally_reset : {A : Type 0} → Outcome A → Outcome A
  finally_reset (done a w) = done a (record w { retry_in_progress = false })
  finally_reset (raised e w) = raised e (record w { retry_in_progress = false })

  unfoldable pub retry_pending_matches : M (Unit {0})
  unfolding retry_each due_trips
  retry_pending_matches w = finally_reset (retry_each w.now (due_trips w.now w.retry_queue) w)
