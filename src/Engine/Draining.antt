-- ===== src/Engine/Draining.antt =====
-- The second phase of a pause in services/simulation/src/engine/__init__.py: `_run_drain_process`, and what it
-- forces when the time is up.
use rideshare_simulation_pla.Prelude.{
  ℕ, zero, suc, ◌+◌, Bool, ◌&&◌, List, [], ◌∷◌, ◌++◌, keep, leb, length, ◌==◌, if◌then◌else◌,
}
use rideshare_simulation_pla.Trip.{value, cancelled, system, system_pause, cancel}
use rideshare_simulation_pla.Registry.{same_status, available, driving_closer_to_home}
use rideshare_simulation_pla.Server.{
  Server, M, Error, Outcome, done, raised, ◌>>◌, modify, skip, set_driver, set_trip, emit,
  trip_state,
}
use rideshare_simulation_pla.Server.Puppets.{driver_turns, when}
use rideshare_simulation_pla.Duty.{interrupted}
use rideshare_simulation_pla.Engine.{
  Engine, Trigger, quiescence_achieved, drain_timeout, entered, paused, emit_control_event,
  CancelReport,
}

unfoldable pub get_in_flight_trips : Engine → List ℕ
get_in_flight_trips e = e.server.active_trips

abbrev pub is_repositioning : Server → ℕ → Bool
is_repositioning w d = same_status (w.driver d).status driving_closer_to_home

unfoldable pub get_repositioning_drivers : Engine → List ℕ
get_repositioning_drivers e = keep (is_repositioning e.server) e.active_drivers

-- `_force_cancel_trip`.
unfoldable pub force_cancel_trip : ℕ → Server → Server
force_cancel_trip t w =
    set_trip t (cancel system system_pause (value (w.trip t).state) (w.trip t)) w

-- The report is read off the trip after it was cancelled.
abbrev pub report_of : ℕ → Server → CancelReport
report_of t w = record { trip_id = t; cancellation_stage = value (w.trip t).state }

unfoldable pub force_cancel_one : ℕ → Engine → Engine
unfolding force_cancel_trip
force_cancel_one t e =
    let gone = force_cancel_trip t e.server in
    record e {
      server =
          emit (trip_state cancelled) t (gone.trip t).driver_id (gone.trip t).offer_sequence gone;
      cancel_reports = e.cancel_reports ++ report_of t gone ∷ [];
    }

unfoldable pub force_cancel_trips : List ℕ → Engine → Engine
unfolding force_cancel_one
force_cancel_trips [] e = e
force_cancel_trips (t ∷ ts) e = force_cancel_trips ts (force_cancel_one t e)

-- `driver.force_stop_repositioning()`.
unfoldable pub force_stop_repositioning : ℕ → M (Unit {0})
unfolding driver_turns
force_stop_repositioning d = do
  modify (λ w. set_driver d (interrupted (w.driver d)) w)
  λ w.
      when (is_repositioning w d) (driver_turns d (λ x. record x { status = available }) available)
        w

unfoldable pub force_stop_all : List ℕ → M (Unit {0})
unfolding force_stop_repositioning
force_stop_all [] = skip
force_stop_all (d ∷ ds) = do force_stop_repositioning d; force_stop_all ds

unfoldable pub transition_to_paused : Trigger → Engine → Engine
unfolding emit_control_event
transition_to_paused trigger e =
    emit_control_event (entered paused) e.state trigger (record e { state = paused })

abbrev pub is_quiescent : Engine → Bool
is_quiescent e =
    (length (get_in_flight_trips e) == 0) && (length (get_repositioning_drivers e) == 0)

-- An engine, or an exception of a driver's method with the state at that point.
pub data Drain : Type 0 where
  drained : Engine → Drain
  failed : Error → Server → Drain
  out_of_fuel : Drain

abbrev stopped_all : Engine → Outcome (Unit {0}) → Drain
stopped_all e (raised x w) = failed x w
stopped_all e (done a w) = drained (transition_to_paused drain_timeout (record e { server = w }))

-- When the time is up.
unfoldable pub force_pause : Engine → Drain
unfolding force_cancel_trips force_stop_all transition_to_paused get_repositioning_drivers
    get_in_flight_trips
force_pause e =
    let cancelled_all = force_cancel_trips (get_in_flight_trips e) e in
    stopped_all cancelled_all (force_stop_all (get_repositioning_drivers e) cancelled_all.server)

-- `elapse` is `yield self._env.timeout(5)`: what the other processes do in 5 seconds.
module _ (elapse : Engine → Engine) where
  unfoldable pub drain_until : ℕ → ℕ → Engine → Drain
  unfolding force_pause transition_to_paused get_repositioning_drivers get_in_flight_trips
  drain_until zero timeout_at e = out_of_fuel
  drain_until (suc fuel) timeout_at e =
      let rest = drain_until fuel timeout_at (elapse e) in
      if is_quiescent e
      then drained (transition_to_paused quiescence_achieved e)
      else if leb timeout_at e.server.now
      then force_pause e
      else rest

  -- Two hours, in rounds of 5 seconds.
  unfoldable pub run_drain_process : Engine → Drain
  unfolding drain_until
  run_drain_process e = drain_until 1441 (e.server.now + 7200) e
