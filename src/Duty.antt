-- ===== src/Duty.antt =====
-- A driver between its trips: `go_online`, `go_offline` and the process `_drive_toward_home` of
-- services/simulation/src/agents/driver_agent.py, which sets out in one step and comes home in a later one. What
-- it does on the way is only a sequence of places and is left out, and so are persistence and status events.
pub mod Homecoming
pub mod Shifts
use rideshare_simulation_pla.Prelude.{
  ℕ, ◌+◌, Bool, true, false, Option, none, some, leb, ◌==◌, if◌then◌else◌,
}
use rideshare_simulation_pla.Trip.{Location}
use rideshare_simulation_pla.Registry.{available, offline, driving_closer_to_home}
use rideshare_simulation_pla.Fleet
use rideshare_simulation_pla.Agents.{Driver}
use rideshare_simulation_pla.Server.{
  Server, M, done, raised, key_error, ◌>>=◌, ◌>>◌, modify, skip, set_driver,
}
use rideshare_simulation_pla.Server.Search.{Outside}
use rideshare_simulation_pla.Server.Puppets.{driver_turns, driver_moves, when}

-- A live process is interrupted.
abbrev pub interrupted : Driver → Driver
interrupted d = record d { reposition_process = none }

abbrev pub is_process : ℕ → Option ℕ → Bool
is_process p none = false
is_process p (some q) = p == q

-- The end of process `p`, if nobody has interrupted it.
unfoldable pub comes_home : ℕ → ℕ → M (Unit {0})
unfolding driver_turns
comes_home p d w =
    if is_process p (w.driver d).reposition_process
    then driver_turns d (λ x. record x { status = available; reposition_process = none }) available
        w
    else done tt w

-- `random_place` is the place that two draws make.
module _ (o : Outside) (random_place : ℕ → Location) where
  open o use {grid, zone_of}

  -- A driver without a location is put somewhere.
  unfoldable pub placed : ℕ → Server → Server
  placed d w = elim (w.driver d).location [
    | none ↦
        set_driver d (record (w.driver d) { location = some (random_place w.draws) })
          (record w { draws = w.draws + 2 })
    | some l ↦ w
  ]

  unfoldable pub tell_online : ℕ → M (Unit {0})
  tell_online d w = elim (w.driver d).location [
    | none ↦ done tt w
    | some l ↦
        if w.config.has_registry_manager
        then elim (Fleet.driver_went_online grid d l (zone_of l) w.fleet) [
          | none ↦ raised key_error w
          | some f ↦ done tt (record w { fleet = f })
        ]
        else done tt w
  ]

  unfoldable pub go_online : ℕ → M (Unit {0})
  unfolding placed tell_online
  go_online d = do
    modify (λ w. set_driver d (record (w.driver d) { status = available }) w)
    modify (placed d)
    tell_online d

  unfoldable pub tell_offline : ℕ → M (Unit {0})
  tell_offline d w =
      if w.config.has_registry_manager
      then elim (Fleet.driver_went_offline d w.fleet) [
        | none ↦ raised key_error w
        | some f ↦ done tt (record w { fleet = f })
      ]
      else done tt w

  unfoldable pub go_offline : ℕ → M (Unit {0})
  unfolding driver_moves tell_offline
  go_offline d = do
    modify (λ w. set_driver d (interrupted (w.driver d)) w)
    λ w. driver_moves o d (w.driver d).dna.home_location w
    modify (λ w. set_driver d (record (w.driver d) { status = offline }) w)
    tell_offline d

  -- The drive home starts more than 10 km from home.
  unfoldable pub sets_out_for_home : ℕ → M (Unit {0})
  unfolding driver_turns
  sets_out_for_home d w = elim (w.driver d).location [
    | none ↦ done tt w
    | some l ↦
        if leb (grid.haversine_m l (w.driver d).dna.home_location) 10000
        then done tt w
        else driver_turns d (λ x. record x { status = driving_closer_to_home })
            driving_closer_to_home w
  ]
