-- ===== src/Fleet.antt =====
-- services/simulation/src/matching/agent_registry_manager.py: one facade over the spatial index and the
-- status registry. Each method holds the lock, so it is one step. `none` is a `KeyError` of the registry, to
-- which it comes only where the counters are not accurate; what the source had changed before it, in the
-- index for one, is not kept here.
pub mod Agreement
pub mod Histories
use rideshare_simulation_pla.Prelude.{ℕ, Bool, Option, none, some, List, [], ◌∷◌}
use rideshare_simulation_pla.Prelude.Dict.{Dict, lookup, insert}
use rideshare_simulation_pla.Registry.{DriverRegistry, DriverStatus, available, offline}
use rideshare_simulation_pla.Registry
use rideshare_simulation_pla.Index.{DriverIndex, Grid}
use rideshare_simulation_pla.Index
use rideshare_simulation_pla.Trip.{Location}

pub record Fleet : Type 0 where
  pub index : DriverIndex
  pub registry : DriverRegistry

-- The registry with an index, or the `KeyError`.
abbrev with_index : DriverIndex → Option DriverRegistry → Option Fleet
with_index x none = none
with_index x (some r) = some (record { index = x; registry = r })

-- `if zone_id: registry.update_driver_zone(...)`.
abbrev zone_if_any : ℕ → Option ℕ → DriverRegistry → Option DriverRegistry
zone_if_any driver_id none r = some r
zone_if_any driver_id (some z) r = Registry.update_driver_zone driver_id z r

-- A driver with a location is entered as offline, in no zone.
unfoldable pub register_driver : ℕ → Option Location → Fleet → Fleet
register_driver driver_id none f = f
register_driver driver_id (some l) f = record f {
  registry = Registry.register_driver driver_id offline none (some l) f.registry;
}

unfoldable pub driver_went_offline : ℕ → Fleet → Option Fleet
driver_went_offline driver_id f =
    with_index (Index.remove_driver driver_id f.index)
      (Registry.update_driver_status driver_id offline f.registry)

unfoldable pub driver_status_changed : ℕ → DriverStatus → Fleet → Option Fleet
driver_status_changed driver_id status f =
    with_index (Index.update_driver_status driver_id status f.index)
      (Registry.update_driver_status driver_id status f.registry)

module _ (g : Grid) where
  unfoldable pub driver_went_online : ℕ → Location → Option ℕ → Fleet → Option Fleet
  driver_went_online driver_id l zone_id f =
      elim (Registry.update_driver_status driver_id available f.registry) [
        | none ↦ none
        | some r ↦
            with_index (Index.add_driver g driver_id l available f.index)
              (zone_if_any driver_id zone_id (Registry.update_driver_location driver_id l r))
      ]

  unfoldable pub driver_location_updated : ℕ → Location → Option ℕ → Fleet → Option Fleet
  driver_location_updated driver_id l zone_id f =
      with_index (Index.update_driver_location g driver_id l f.index)
        (zone_if_any driver_id zone_id (Registry.update_driver_location driver_id l f.registry))
