-- ===== src/Executor/Phases.antt =====
-- The phases of services/simulation/src/trips/trip_executor.py, in the order of `execute`.
use rideshare_simulation_pla.Prelude.{
  ℕ, ◌+◌, ◌-◌, ◌*◌, ◌/◌, Bool, true, false, not, ◌&&◌, Option, none, some, List, [], ◌∷◌, ◌++◌, ltb,
  length, if◌then◌else◌,
}
use rideshare_simulation_pla.Prelude.Ratio.{Ratio, multiply, whole, ltb_ratio}
use rideshare_simulation_pla.Trip.{
  Location, driver, driver_cancelled_before_pickup, en_route_pickup, at_pickup, in_transit,
  completed, cancelled, same_state,
}
use rideshare_simulation_pla.Registry
use rideshare_simulation_pla.Registry.{same_status, available, on_trip}
use rideshare_simulation_pla.Agents.{
  Driver, start_pickup, start_trip, rider_start_trip, rider_idle, rider_located, on_driver_en_route,
  complete_trip as driver_complete_trip,
}
use rideshare_simulation_pla.Agents.Statistics.{
  record_driver_trip_completed, record_rider_trip_completed,
}
use rideshare_simulation_pla.Server.{
  Server, M, done, ◌>>=◌, ◌>>◌, modify, transition, change_rider, set_trip, set_driver,
}
use rideshare_simulation_pla.Server.Search.{Route}
use rideshare_simulation_pla.Server.Responses.{count_on}
use rideshare_simulation_pla.Server.Endings.{complete_trip}
use rideshare_simulation_pla.Server.Puppets.{driver_turns, driver_moves, span}
use rideshare_simulation_pla.Executor.{
  Surroundings, tell, abort, suspend, draw_below, get_route_with_retry, location_of,
}
use rideshare_simulation_pla.Executor.Drives.{no_cancels, simulate_drive, intervals}
use rideshare_simulation_pla.Executor.Ratings.{submit_ratings}

-- `max(0.5, min(2.0, eta_minutes / 10.0))`, from the seconds of the route.
unfoldable pub distance_scaling : ℕ → Ratio
distance_scaling duration =
    if ltb duration 300
    then record { num = 1; den = 2 }
    else if ltb 1200 duration
    then whole 2
    else record { num = duration; den = 600 }

abbrev pub pickup_routed : ℕ → Route → Server → Server
pickup_routed t r w = set_trip t (record (w.trip t) { pickup_route = some r.geometry }) w

abbrev pub trip_routed : ℕ → Route → Server → Server
trip_routed t r w = set_trip t (record (w.trip t) { route = some r.geometry }) w

-- The time of arrival; a pickup route that is there is driven to its end.
abbrev pub arrived : ℕ → Server → Server
arrived t w = set_trip t (record (w.trip t) { driver_arrived_at = some w.now }) w

abbrev last_index : Option (List Location) → ℕ → ℕ
last_index none idx = idx
last_index (some []) idx = idx
last_index (some (l ∷ ls)) idx = length ls

abbrev pub pickup_driven : ℕ → Server → Server
pickup_driven t w =
    set_trip t
      (record (w.trip t) {
        pickup_route_progress_index =
            last_index (w.trip t).pickup_route (w.trip t).pickup_route_progress_index;
      })
      w

abbrev pub completed_now : ℕ → Server → Server
completed_now t w = set_trip t (record (w.trip t) { completed_at = some w.now }) w

-- `_emit_payment_event`: only with a producer, and for a trip that has a driver.
unfoldable pub emit_payment : ℕ → Server → Server
emit_payment t w = elim (w.trip t).driver_id [
  | none ↦ w
  | some d ↦
      if w.config.has_kafka
      then record w {
        payments =
            w.payments
            ++ record {
              trip_id = t;
              rider_id = (w.trip t).rider_id;
              driver_id = d;
              fare_amount = (w.trip t).fare;
              platform_fee_amount = record { num = (w.trip t).fare; den = 4 };
              driver_payout_amount = record { num = (w.trip t).fare * 3; den = 4 };
            }
              ∷ [];
      }
      else w
]

unfoldable pub record_completion_stats : ℕ → ℕ → Server → Server
record_completion_stats d t w =
    let trip = w.trip t in
    let pickup = span trip.matched_at trip.driver_arrived_at in
    let driven =
      count_on d
        (record_driver_trip_completed trip.fare pickup (span trip.started_at trip.completed_at))
        w in
    change_rider t
      (λ r. record r {
        statistics =
            record_rider_trip_completed trip.fare (span trip.requested_at trip.matched_at) pickup
              (ltb_ratio (whole 1) trip.surge_multiplier) r.statistics;
      })
      driven

-- `driver.on_trip_completed`: a process that drives toward home, in place of the old one.
unfoldable pub start_repositioning : Driver → Driver
start_repositioning d =
    if same_status d.status available
    then record d { reposition_process = some d.repositions; repositions = d.repositions + 1 }
    else d

module _ (s : Surroundings) where
  open s use {outside, settings, randint}

  -- The interval of a cancellation in the second half of a drive.
  unfoldable pub pick_interval : ℕ → M (Option ℕ)
  pick_interval n = if ltb 1 n then draw_interval else λ v. done none v
    where
      draw_interval : M (Option ℕ)
      draw_interval w =
          done (some (randint w.draws (n / 2) (n - 1))) (record w { draws = w.draws + 1 })

  -- A rate of 0 draws nothing.
  unfoldable pub draw_cancel : Bool → Ratio → ℕ → M (Option ℕ)
  unfolding draw_below pick_interval
  draw_cancel allowed rate n =
      if allowed && ltb 0 rate.num
      then (do hit ← draw_below s rate; if hit then pick_interval n else λ v. done none v)
      else λ v. done none v

  -- After the route to the pickup is known: the driver gives up, or drives.
  unfoldable pub drive_or_give_up : ℕ → ℕ → Route → Bool → M (Unit {0})
  unfolding abort simulate_drive
  drive_or_give_up d t r true = abort d t driver driver_cancelled_before_pickup "pickup"
  drive_or_give_up d t r false = do
    tell t en_route_pickup
    modify (change_rider t on_driver_en_route)
    λ w. simulate_drive s d t no_cancels (w.trip t).pickup_location r w

  -- The pickup route is stored, then the driver's DNA decides.
  unfoldable pub decide : ℕ → ℕ → Route → M (Unit {0})
  unfolding draw_below drive_or_give_up distance_scaling
  decide d t r = do
    modify (pickup_routed t r)
    gives_up ← λ w.
        draw_below s
          (multiply (w.driver d).dna.cancellation_tendency (distance_scaling r.duration_seconds)) w
    drive_or_give_up d t r gives_up

  unfoldable pub set_out : ℕ → ℕ → Location → M (Unit {0})
  unfolding get_route_with_retry decide
  set_out d t from = do
    r ← λ w. get_route_with_retry s from (w.trip t).pickup_location w
    decide d t r

  unfoldable pub drive_to_pickup : ℕ → ℕ → M (Unit {0})
  unfolding driver_turns set_out
  drive_to_pickup d t = do
    transition t en_route_pickup
    driver_turns d start_pickup Registry.en_route_pickup
    from ← location_of d
    set_out d t from

  unfoldable pub wait_for_rider : ℕ → ℕ → M (Unit {0})
  unfolding driver_moves
  wait_for_rider d t = do
    transition t at_pickup
    modify (arrived t)
    λ w. driver_moves outside d (w.trip t).pickup_location w
    modify (pickup_driven t)
    tell t at_pickup
    suspend s (whole 30)

  unfoldable pub begin_trip : ℕ → ℕ → M (Unit {0})
  unfolding driver_turns
  begin_trip d t = do
    transition t in_transit
    driver_turns d start_trip on_trip
    modify (change_rider t rider_start_trip)
    tell t in_transit
    suspend s (whole 0)

  -- The draws of the two cancellations, then the drive.
  unfoldable pub drive_with_passenger : ℕ → ℕ → Route → M (Unit {0})
  unfolding draw_cancel simulate_drive
  drive_with_passenger d t r = do
    rider_cancel ←
        draw_cancel (not settings.rider_cancels_mid_trip) settings.mid_trip_cancellation_rate
          (intervals s r)
    driver_cancel ← draw_cancel true settings.driver_mid_trip_cancellation_rate (intervals s r)
    λ w.
        simulate_drive s d t
          (record {
            check_rider_cancel = true;
            probabilistic_cancel_interval = rider_cancel;
            driver_cancel_interval = driver_cancel;
          })
          (w.trip t).dropoff_location r w

  unfoldable pub drive_to_destination : ℕ → ℕ → M (Unit {0})
  unfolding get_route_with_retry drive_with_passenger
  drive_to_destination d t = do
    r ← λ w. get_route_with_retry s (w.trip t).pickup_location (w.trip t).dropoff_location w
    modify (trip_routed t r)
    drive_with_passenger d t r

  -- The ratings, the way home, the matching server.
  unfoldable pub wind_up : ℕ → ℕ → M (Unit {0})
  unfolding submit_ratings start_repositioning complete_trip
  wind_up d t = do
    submit_ratings s d t
    modify (λ w. set_driver d (start_repositioning (w.driver d)) w)
    modify (complete_trip t true)
    suspend s (whole 0)

  unfoldable pub settle : ℕ → ℕ → M (Unit {0})
  unfolding emit_payment driver_turns record_completion_stats wind_up
  settle d t = do
    modify (λ w. change_rider t (rider_located (w.trip t).dropoff_location) w)
    tell t completed
    modify (emit_payment t)
    driver_turns d driver_complete_trip available
    modify (change_rider t rider_idle)
    modify (record_completion_stats d t)
    wind_up d t

  unfoldable pub finish_trip : ℕ → ℕ → M (Unit {0})
  unfolding driver_moves settle
  finish_trip d t = do
    transition t completed
    modify (completed_now t)
    λ w. driver_moves outside d (w.trip t).dropoff_location w
    settle d t

  -- `if self._trip.state == TripState.CANCELLED: return`.
  abbrev pub unless_cancelled : ℕ → M (Unit {0}) → M (Unit {0})
  unless_cancelled t rest w = if same_state (w.trip t).state cancelled then done tt w else rest w

  -- From the boarding on.
  unfoldable pub carry : ℕ → ℕ → M (Unit {0})
  unfolding begin_trip drive_to_destination finish_trip
  carry d t = do begin_trip d t; drive_to_destination d t; unless_cancelled t (finish_trip d t)

  -- From the arrival at the pickup on.
  unfoldable pub await_rider : ℕ → ℕ → M (Unit {0})
  unfolding wait_for_rider carry
  await_rider d t = do wait_for_rider d t; unless_cancelled t (carry d t)

  unfoldable pub execute : ℕ → ℕ → M (Unit {0})
  unfolding drive_to_pickup await_rider
  execute d t = do drive_to_pickup d t; unless_cancelled t (await_rider d t)
