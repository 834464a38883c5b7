-- ===== src/Executor/Drives.antt =====
-- `_simulate_drive` of services/simulation/src/trips/trip_executor.py: the driver along the route, one
-- interval after the other.
use rideshare_simulation_pla.Prelude.{
  ℕ, zero, suc, ◌+◌, ◌-◌, ◌*◌, ◌/◌, max, min, Bool, true, false, ◌&&◌, Option, none, some, List,
  length, get_elem?, ◌==◌, if◌then◌else◌,
}
use rideshare_simulation_pla.Prelude.Ratio.{Ratio}
use rideshare_simulation_pla.Trip.{
  Location, CancellationActor, rider, driver, Reason, rider_cancelled_mid_trip,
  driver_cancelled_mid_trip, same_state, in_transit, en_route_pickup,
}
use rideshare_simulation_pla.Agents.{update_route_progress, update_trip_state, rider_located}
use rideshare_simulation_pla.Server.{
  Server, M, done, raised, index_error, ◌>>=◌, ◌>>◌, modify, change_rider, set_trip, set_driver,
}
use rideshare_simulation_pla.Server.Search.{Route}
use rideshare_simulation_pla.Server.Puppets.{driver_moves}
use rideshare_simulation_pla.Executor.{Surroundings, is_within_proximity, abort}

-- The intervals at which a drive is cancelled.
pub record Cancels : Type 0 where
  pub check_rider_cancel : Bool
  pub probabilistic_cancel_interval : Option ℕ
  pub driver_cancel_interval : Option ℕ

abbrev pub no_cancels : Cancels
no_cancels = record {
  check_rider_cancel = false;
  probabilistic_cancel_interval = none;
  driver_cancel_interval = none;
}

abbrev pub is_due : ℕ → Option ℕ → Bool
is_due i none = false
is_due i (some k) = i == k

-- The three tests at the head of an interval.
unfoldable pub who_cancels : Bool → Cancels → ℕ → ℕ → Option (CancellationActor × Reason)
who_cancels flag c i n =
    if c.check_rider_cancel && flag && (i == n / 2)
    then some (rider, rider_cancelled_mid_trip)
    else if is_due i c.probabilistic_cancel_interval
    then some (rider, rider_cancelled_mid_trip)
    else if is_due i c.driver_cancel_interval
    then some (driver, driver_cancelled_mid_trip)
    else none

-- `int((i + 1) / max(n, 1) * (len(geometry) - 1))`.
abbrev pub progress_index : ℕ → ℕ → List Location → ℕ
progress_index i n geometry = (i + 1) * (length geometry - 1) / max n 1

-- The progress on the trip and on the agents, by the trip's state.
unfoldable pub track_progress : ℕ → ℕ → ℕ → Server → Server
track_progress d t idx w =
    if same_state (w.trip t).state in_transit
    then (let on_trip = set_trip t (record (w.trip t) { route_progress_index = idx }) w in
        change_rider t (update_trip_state in_transit)
          (set_driver d (update_route_progress (some idx) none (on_trip.driver d)) on_trip))
    else if same_state (w.trip t).state en_route_pickup
    then (let on_trip = set_trip t (record (w.trip t) { pickup_route_progress_index = idx }) w in
        set_driver d (update_route_progress none (some idx) (on_trip.driver d)) on_trip)
    else w

-- The rider sits in the car.
unfoldable pub take_along : ℕ → Location → Server → Server
take_along t l w =
    if same_state (w.trip t).state in_transit then change_rider t (rider_located l) w else w

module _ (s : Surroundings) where
  open s use {outside, settings, in_box}

  -- One interval without a cancellation at the place that it reaches: whether the driver is near the
  -- destination.
  unfoldable pub advance_to : ℕ → ℕ → ℕ → Location → Location → M Bool
  unfolding track_progress driver_moves take_along
  advance_to d t idx destination l = do
    modify (track_progress d t idx)
    driver_moves outside d l
    modify (take_along t l)
    λ v.
        done
          (is_within_proximity in_box outside.grid l destination
            settings.arrival_proximity_threshold_m)
          v

  unfoldable pub advance : ℕ → ℕ → ℕ → Location → List Location → ℕ → M Bool
  unfolding advance_to
  advance d t n destination geometry i w =
      let idx = progress_index i n geometry in
      elim (get_elem? geometry (min idx (length geometry - 1))) [
        | none ↦ raised index_error w
        | some l ↦ advance_to d t idx destination l w
      ]

  -- The loop over the intervals, of which `left` are left.
  unfoldable pub drive_on :
      ℕ → ℕ → ℕ → Cancels → Ratio → Location → List Location → ℕ → M (Unit {0})
  unfolding abort who_cancels advance
  drive_on d t n c pause destination geometry zero w = done tt w
  drive_on d t n c pause destination geometry (suc left) w =
      let i = n - suc left in
      elim (who_cancels settings.rider_cancels_mid_trip c i n) [
        | some (by, reason) ↦ abort d t by reason "in_transit" w
        | none ↦
            (advance d t n destination geometry i >>= λ near v. elim near [
              | true ↦ done tt v
              | false ↦ drive_on d t n c pause destination geometry left (s.timeout pause v)
            ])
              w
      ]

  abbrev pub intervals : Route → ℕ
  intervals r = r.duration_seconds / settings.gps_interval

  unfoldable pub simulate_drive : ℕ → ℕ → Cancels → Location → Route → M (Unit {0})
  unfolding drive_on
  simulate_drive d t c destination r =
      let n = intervals r in
      drive_on d t n c (record { num = r.duration_seconds; den = max n 1 }) destination r.geometry n
