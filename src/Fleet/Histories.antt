-- ===== src/Fleet/Histories.antt =====
-- Histories of the facade's calls.
use rideshare_simulation_pla.Prelude.{ℕ, ◌≡◌, refl, ◌≢◌, Option, none, some, true, arith, sym, ◌∙◌}
use rideshare_simulation_pla.Prelude.Dict.{lookup, has_key}
use rideshare_simulation_pla.Registry.{
  DriverStatus, available, offline, en_route_pickup, DriverRegistry,
}
use rideshare_simulation_pla.Registry
use rideshare_simulation_pla.Registry.Statuses.{status_of}
use rideshare_simulation_pla.Registry.Accuracy.{init-IsAccurate}
use rideshare_simulation_pla.Index.{Grid}
use rideshare_simulation_pla.Index
use rideshare_simulation_pla.Index.Cells.{init-IsIndexed}
use rideshare_simulation_pla.Trip.{Location}
use rideshare_simulation_pla.Fleet.{
  Fleet, driver_went_online, driver_went_offline, driver_status_changed, driver_location_updated,
  register_driver,
}
use rideshare_simulation_pla.Fleet.Agreement.{
  IsConsistent, KeepsConsistent, driver_went_online-IsConsistent, driver_went_offline-IsConsistent,
  driver_status_changed-IsConsistent, driver_location_updated-IsConsistent,
  register_driver-IsConsistent,
}

abbrev pub no_fleet : Fleet
no_fleet = record { index = Index.init; registry = Registry.init }

module _ (g : Grid) where
  no_fleet-IsConsistent : IsConsistent g no_fleet
  unfolding lookup Registry.init
  no_fleet-IsConsistent = record {
    accurate = init-IsAccurate;
    indexed = init-IsIndexed g;
    agrees = λ d. refl;
  }

  -- A life of the facade, in which a driver is registered once, goes online only from offline, and
  -- changes its status only while it is online.
  pub data Lived : Fleet → Type 0 where
    empty : Lived no_fleet
    registers :
        (d : ℕ) (l : Option Location) {f : Fleet}
        → lookup d f.registry.drivers ≡ none
        → Lived f
        → Lived (register_driver d l f)
    goes_online :
        (d : ℕ) (l : Location) (z : Option ℕ) {f f' : Fleet}
        → status_of d f.registry.drivers ≡ some offline
        → driver_went_online g d l z f ≡ some f'
        → Lived f
        → Lived f'
    goes_offline : (d : ℕ) {f f' : Fleet} → driver_went_offline d f ≡ some f' → Lived f → Lived f'
    moves :
        (d : ℕ) (l : Location) (z : Option ℕ) {f f' : Fleet}
        → driver_location_updated g d l z f ≡ some f'
        → Lived f
        → Lived f'
    changes :
        (d : ℕ) (s : DriverStatus) {f f' : Fleet}
        → has_key d f.index.driver_status ≡ true
        → s ≢ offline
        → driver_status_changed d s f ≡ some f'
        → Lived f
        → Lived f'

  kept : {o : Option Fleet} {f : Fleet} → KeepsConsistent g o → o ≡ some f → IsConsistent g f
  kept (q, e, c) h = rw (some_inj (sym e ∙ h)) at c
    where
      some_inj : {a b : Fleet} → some a ≡ some b → a ≡ b
      some_inj p = ground arith

  -- After any sequence of the facade's calls from empty views, in which a driver is registered once,
  -- goes online only while the registry has it as offline, and changes its status, to another one than
  -- offline, only while the index has it: the counters of the registry are accurate, the cells of the
  -- index are in order, and the index has exactly the drivers that the registry has as registered and
  -- not offline, at the same status.
  pub lived-IsConsistent : {f : Fleet} → Lived f → IsConsistent g f
  lived-IsConsistent empty = no_fleet-IsConsistent
  lived-IsConsistent (registers d l {f} n h) =
      register_driver-IsConsistent g d l f n (lived-IsConsistent h)
  lived-IsConsistent (goes_online d l z {f} n e h) =
      kept (driver_went_online-IsConsistent g d l z f n (lived-IsConsistent h)) e
  lived-IsConsistent (goes_offline d {f} e h) =
      kept (driver_went_offline-IsConsistent g d f (lived-IsConsistent h)) e
  lived-IsConsistent (moves d l z {f} e h) =
      kept (driver_location_updated-IsConsistent g d l z f (lived-IsConsistent h)) e
  lived-IsConsistent (changes d s {f} o n e h) =
      kept (driver_status_changed-IsConsistent g d s f o n (lived-IsConsistent h)) e
