-- ===== src/Scenarios/Views.antt =====
-- The theorems on the registry, the index, the facade and the surge prices at concrete states.
use rideshare_simulation_pla.Prelude.{
  inl, ℕ, ◌*◌, ◌≡◌, refl, ◌≢◌, arith, Bool, true, false, none, some, List, [], ◌∷◌, if◌then◌else◌,
  All, leb, ltb,
}
use rideshare_simulation_pla.Prelude.Dict.{lookup, insert}
use rideshare_simulation_pla.Prelude.IdSet.{member}
use rideshare_simulation_pla.Prelude.Ratio.{whole, leb_ratio}
use rideshare_simulation_pla.Registry.{
  DriverRegistry, DriverStatus, available, offline, on_trip, register_driver, get_zone_driver_count,
  get_available_drivers_in_zone, get_status_count, DriverRecord, same_status,
}
use rideshare_simulation_pla.Registry
use rideshare_simulation_pla.Registry.Accuracy.{KeepsAccurate}
use rideshare_simulation_pla.Registry.Histories.{
  Call, registers, updates_status, updates_zone, unregisters, calls, calls-IsAccurate,
}
use rideshare_simulation_pla.Index.{add_driver, remove_driver, find_nearest_drivers}
use rideshare_simulation_pla.Index.Cells.{IsIndexed}
use rideshare_simulation_pla.Index.Reached.{started, added, removed, Reached-IsIndexed}
use rideshare_simulation_pla.Index.Ascending.{IsAscending}
use rideshare_simulation_pla.Index.Nearest.{
  IsNear, IsThere, find_nearest_drivers_sound, find_nearest_drivers_complete,
}
use rideshare_simulation_pla.Fleet.{driver_went_online}
use rideshare_simulation_pla.Fleet
use rideshare_simulation_pla.Fleet.Agreement.{
  IsConsistent, KeepsConsistent, driver_went_online-IsConsistent,
}
use rideshare_simulation_pla.Fleet.Histories.{
  goes_online, empty, goes_online, registers as enters, no_fleet, lived-IsConsistent,
}
use rideshare_simulation_pla.Surge.{
  SurgeCalculator, zone_multiplier, same_ratio, two_and_a_half, pending_of, get_surge,
  calculate_surge_all_zones,
}
use rideshare_simulation_pla.Surge.Pricing.{zone_multiplier_lem, calculate_surge_all_zones_lem}
use rideshare_simulation_pla.Scenarios.Data.{
  grid, centre, two_drivers, one_indexed, one_indexed-IsIndexed,
}

abbrev history : List Call
history =
    registers 1 offline none none
    ∷ updates_zone 1 7
    ∷ updates_status 1 available
    ∷ registers 2 available (some 7) none
    ∷ unregisters 1
    ∷ []

calls-IsAccurate_example : KeepsAccurate (calls Registry.init history)
calls-IsAccurate_example = calls-IsAccurate history

Reached-IsIndexed_example : IsIndexed grid (remove_driver 1 one_indexed)
unfolding lookup
Reached-IsIndexed_example =
    Reached-IsIndexed grid (removed 1 (added 1 centre available (inl refl) started))

abbrev is_available : DriverStatus → Bool
is_available s = same_status s available

find_nearest_drivers_sound_example :
    (found : List (ℕ × ℕ)) × (find_nearest_drivers grid centre 1000 is_available one_indexed
      ≡ some found)
    × All (IsNear grid centre 1000 is_available one_indexed) found
    × IsAscending found
find_nearest_drivers_sound_example =
    find_nearest_drivers_sound grid centre 1000 is_available one_indexed

one-IsThere : IsThere grid centre 1000 is_available one_indexed 1
unfolding add_driver lookup insert member
one-IsThere = record {
  status = available;
  at = centre;
  cell = 10;
  has_status = refl;
  status_passes = refl;
  has_location = refl;
  in_radius = ground arith;
  in_last_ring = refl;
}

find_nearest_drivers_complete_example :
    find_nearest_drivers grid centre 1000 is_available one_indexed ≢ some []
find_nearest_drivers_complete_example =
    find_nearest_drivers_complete grid centre 1000 is_available one_indexed 1 one_indexed-IsIndexed
      one-IsThere

one_entered : IsConsistent grid (Fleet.register_driver 1 (some centre) no_fleet)
unfolding Registry.init lookup
one_entered = lived-IsConsistent grid (enters 1 (some centre) refl empty)

one-KeepsConsistent :
    KeepsConsistent grid
      (driver_went_online grid 1 centre (some 7) (Fleet.register_driver 1 (some centre) no_fleet))
unfolding Fleet.register_driver register_driver Registry.init lookup insert
one-KeepsConsistent =
    driver_went_online-IsConsistent grid 1 centre (some 7)
      (Fleet.register_driver 1 (some centre) no_fleet) refl one_entered

lived-IsConsistent_example : IsConsistent grid (one-KeepsConsistent.0)
unfolding Fleet.register_driver register_driver Registry.init lookup insert
lived-IsConsistent_example =
    lived-IsConsistent grid (
      goes_online 1 centre (some 7) refl (one-KeepsConsistent.1)
        (enters 1 (some centre) refl empty))

zone_multiplier_lem_example :
    (leb_ratio (whole 1) (zone_multiplier 5 2) ≡ true)
    × (leb_ratio (zone_multiplier 5 2) two_and_a_half ≡ true)
    × (same_ratio (zone_multiplier 5 2) (whole 1) ≡ leb 5 2)
    × (same_ratio (zone_multiplier 5 2) two_and_a_half ≡ (if leb (2 * 3) 5 then ltb 0 5 else false))
zone_multiplier_lem_example = zone_multiplier_lem 5 2

abbrev five_wait : SurgeCalculator
five_wait = record {
  has_producer = true;
  current_surge = [];
  pending_requests = (7, 5) ∷ [];
  updates = [];
}

calculate_surge_all_zones_lem_example :
    same_ratio
      (zone_multiplier
        (pending_of 7 (calculate_surge_all_zones two_drivers (6 ∷ 7 ∷ []) five_wait))
        (get_zone_driver_count 7 available two_drivers))
      (get_surge 7 (calculate_surge_all_zones two_drivers (6 ∷ 7 ∷ []) five_wait))
    ≡ true
unfolding member
calculate_surge_all_zones_lem_example =
    calculate_surge_all_zones_lem two_drivers (6 ∷ 7 ∷ []) 7 five_wait refl
