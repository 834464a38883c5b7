-- ===== src/Executor.antt =====
-- services/simulation/src/trips/trip_executor.py: what an executor is given, its route requests and its
-- cancellations. The executor of a trip is a process, and `timeout` stands for everything that SimPy runs
-- while it is suspended. Headings, the payment method and the events of the agents are left out. There is
-- always a matching server, and the rider is one that the registry manager has: no executor is started
-- otherwise.
pub mod Drives
pub mod Ratings
pub mod Phases
pub mod Steady
pub mod Steps
pub mod Travels
pub mod Retries
pub mod Legs
pub mod Arrivals
pub mod Journeys
use rideshare_simulation_pla.Prelude.{
  ℕ, zero, suc, ◌+◌, ◌*◌, ◌/◌, Bool, true, false, ◌&&◌, Option, none, some, List, [], ◌∷◌, ◌++◌,
  leb, if◌then◌else◌,
}
use rideshare_simulation_pla.Prelude.Ratio.{Ratio, multiply, whole, ltb_ratio}
use Prim.Native.String.{String}
use rideshare_simulation_pla.Trip.{
  Location, TripState, CancellationActor, Reason, cancelled, cancel,
}
use rideshare_simulation_pla.Index.{Grid}
use rideshare_simulation_pla.Registry.{available}
use rideshare_simulation_pla.Agents.{complete_trip as driver_complete_trip, rider_idle}
use rideshare_simulation_pla.Agents.Statistics.{
  record_driver_trip_cancelled, record_rider_trip_cancelled,
}
use rideshare_simulation_pla.Server.{
  Server, M, done, raised, no_location, no_route, route_unavailable, ◌>>=◌, ◌>>◌, modify, emit,
  change_rider, set_trip, trip_state,
}
use rideshare_simulation_pla.Server.Search.{Outside, Route}
use rideshare_simulation_pla.Server.Responses.{count_on}
use rideshare_simulation_pla.Server.Endings.{complete_trip}
use rideshare_simulation_pla.Server.Puppets.{driver_turns}

-- The settings that the executor reads, its test flag, and `GPS_PING_INTERVAL_MOVING`, which is not 0.
pub record Settings : Type 0 where
  pub osrm_max_retries : ℕ
  pub osrm_retry_base_delay : Ratio
  pub osrm_retry_multiplier : Ratio
  pub arrival_proximity_threshold_m : ℕ
  pub mid_trip_cancellation_rate : Ratio
  pub driver_mid_trip_cancellation_rate : Ratio
  pub rider_cancels_mid_trip : Bool
  pub gps_interval : ℕ

-- An answer of the OSRM service: a route, or one of the two kinds of exception.
pub data Reply : Type 0 where
  routed : Route → Reply
  permanent transient : Reply

-- What is outside: the n-th request of a route in a state, the suspension for some time, and the draws.
pub record Surroundings : Type 0 where
  pub outside : Outside
  pub settings : Settings
  pub get_route_sync : ℕ → Server → Location → Location → Reply
  pub timeout : Ratio → Server → Server
  pub in_box : Location → Location → ℕ → Bool
  pub randint : ℕ → ℕ → ℕ → ℕ
  pub gauss : Ratio → Ratio → ℕ → ℕ

abbrev pub power : Ratio → ℕ → Ratio
power r zero = whole 1
power r (suc n) = multiply r (power r n)

-- `_emit_trip_event`.
abbrev pub tell : ℕ → TripState → M (Unit {0})
tell t s = modify λ w. emit (trip_state s) t (w.trip t).driver_id (w.trip t).offer_sequence w

-- The box that is looked at first is a parameter: it compares differences of degrees.
abbrev pub is_within_proximity :
    (Location → Location → ℕ → Bool) → Grid → Location → Location → ℕ → Bool
is_within_proximity in_box g l m threshold =
    in_box l m threshold && leb (g.haversine_m l m) threshold

-- What follows once the driver is free: the rider, the statistics of both, the matching server.
unfoldable pub close_cancelled : ℕ → ℕ → Server → Server
unfolding complete_trip
close_cancelled d t w =
    let idle = change_rider t rider_idle w in
    let counted = count_on d record_driver_trip_cancelled idle in
    complete_trip t true (
      change_rider t (λ r. record r { statistics = record_rider_trip_cancelled r.statistics })
        counted)

-- The calls that every cancellation of the executor makes.
unfoldable pub abort : ℕ → ℕ → CancellationActor → Reason → String → M (Unit {0})
unfolding driver_turns close_cancelled
abort d t by reason stage = do
  modify (λ w. set_trip t (cancel by reason stage (w.trip t)) w)
  tell t cancelled
  driver_turns d driver_complete_trip available
  modify (close_cancelled d t)

module _ (s : Surroundings) where
  open s use {outside, settings, get_route_sync, timeout}

  -- `yield self._env.timeout(delay)`.
  abbrev pub suspend : Ratio → M (Unit {0})
  suspend delay = modify (timeout delay)

  -- `random.random() < rate`.
  unfoldable pub draw_below : Ratio → M Bool
  draw_below rate w =
      done (ltb_ratio (outside.random w.draws) rate) (record w { draws = w.draws + 1 })

  abbrev pub delay_of : ℕ → Ratio
  delay_of attempt =
      multiply settings.osrm_retry_base_delay (power settings.osrm_retry_multiplier attempt)

  -- The loop over the attempts, of which `left` are left.
  unfoldable pub request_route : ℕ → ℕ → Location → Location → M Route
  request_route zero attempt from to w = raised route_unavailable w
  request_route (suc left) attempt from to w = elim (get_route_sync attempt w from to) [
    | routed r ↦ done r w
    | permanent ↦ raised no_route w
    | transient ↦ elim left [
      | zero ↦ raised route_unavailable w
      | suc n ↦ request_route left (attempt + 1) from to (timeout (delay_of attempt) w)
    ]
  ]

  unfoldable pub get_route_with_retry : Location → Location → M Route
  unfolding request_route
  get_route_with_retry from to = request_route (suc settings.osrm_max_retries) 0 from to

-- `driver.location`, with the exception of `_drive_to_pickup` if there is none.
abbrev pub location_of : ℕ → M Location
location_of d w = elim (w.driver d).location [ none ↦ raised no_location w | some l ↦ done l w ]
