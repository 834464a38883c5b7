-- ===== src/Scenarios/Duties.antt =====
-- The theorems on a driver between its trips at concrete states.
use rideshare_simulation_pla.Prelude.{ℕ, ◌≡◌, refl, none, some}
use rideshare_simulation_pla.Prelude.Dict.{lookup, insert}
use rideshare_simulation_pla.Trip.{Location}
use rideshare_simulation_pla.Registry.{available, offline, en_route_pickup, driving_closer_to_home}
use rideshare_simulation_pla.Registry
use rideshare_simulation_pla.Fleet
use rideshare_simulation_pla.Fleet.Agreement.{IsConsistent}
use rideshare_simulation_pla.Fleet.Histories.{empty, registers, no_fleet, lived-IsConsistent}
use rideshare_simulation_pla.Server.{Server, done}
use rideshare_simulation_pla.Server.Responses.{driver_accepts}
use rideshare_simulation_pla.Duty.{go_online, go_offline, comes_home}
use rideshare_simulation_pla.Duty.Homecoming.{comes_home-busy}
use rideshare_simulation_pla.Duty.Shifts.{shift_lem}
use rideshare_simulation_pla.Scenarios.Data.{
  centre, grid, outside, quiet, a_driver, two_drivers-IsAccurate,
}

-- Every driver drives home in its process 0.
abbrev homebound : Server
homebound = record quiet {
  driver = λ d. record a_driver { status = driving_closer_to_home; reposition_process = some 0 };
}

comes_home-busy_example :
    (v : Server) × (u : Server) × (driver_accepts 1 7 homebound ≡ done tt v)
    × (comes_home 0 1 v ≡ done tt u)
    × ((v.driver 1).status ≡ en_route_pickup)
    × ((u.driver 1).status ≡ available)
    × ((u.driver 1).active_trip ≡ some 7)
comes_home-busy_example = comes_home-busy 0 1 7 homebound two_drivers-IsAccurate refl

-- Driver 1 is registered, and offline.
abbrev resting : Server
resting = record quiet { fleet = Fleet.register_driver 1 (some centre) no_fleet }

resting-IsConsistent : IsConsistent grid (resting.fleet)
unfolding lookup Registry.init
resting-IsConsistent = lived-IsConsistent grid (registers 1 (some centre) {f = no_fleet} refl empty)

abbrev anywhere : ℕ → Location
anywhere n = (n, n)

shift_lem_example :
    (v : Server) × (u : Server) × (go_online outside anywhere 1 resting ≡ done tt v)
    × (go_offline outside anywhere 1 v ≡ done tt u)
    × IsConsistent grid v.fleet
    × ((v.driver 1).status ≡ available)
    × (lookup 1 v.fleet.index.driver_status ≡ some available)
    × IsConsistent grid u.fleet
    × ((u.driver 1).status ≡ offline)
    × ((u.driver 1).location ≡ some centre)
    × (lookup 1 u.fleet.index.driver_locations ≡ none)
    × ((p : ℕ) → comes_home p 1 u ≡ done tt u)
unfolding Fleet.register_driver Registry.register_driver insert lookup Registry.init
shift_lem_example = shift_lem outside anywhere 1 centre resting refl refl refl resting-IsConsistent
