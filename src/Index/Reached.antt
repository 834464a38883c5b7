-- ===== src/Index/Reached.antt =====
-- Every index that a sequence of calls leads to.
use rideshare_simulation_pla.Prelude.{◌⊎◌, ℕ, ◌≡◌, true, none}
use rideshare_simulation_pla.Prelude.Dict.{lookup}
use rideshare_simulation_pla.Registry.{DriverStatus}
use rideshare_simulation_pla.Trip.{Location}
use rideshare_simulation_pla.Index.{
  DriverIndex, Grid, add_driver, update_driver_location, update_driver_status, remove_driver, init,
  clear,
}
use rideshare_simulation_pla.Index.Cells.{
  located, IsIndexed, init-IsIndexed, add_driver-IsIndexed, remove_driver-IsIndexed,
  update_driver_location-IsIndexed, update_driver_status-IsIndexed,
}

module _ (g : Grid) where
  open g use {latlng_to_cell}

  -- The calls on an index, from the empty one. A driver is added while it has no entry or, when it goes
  -- online again, at the place where the index has it.
  pub data Reached : DriverIndex → Type 0 where
    started : Reached init
    added :
        (d : ℕ) (l : Location) (s : DriverStatus) {x : DriverIndex}
        → (lookup d x.driver_locations ≡ none)
          ⊎ (located d (latlng_to_cell l) x.driver_locations ≡ true)
        → Reached x
        → Reached (add_driver g d l s x)
    moved :
        (d : ℕ) (l : Location) {x : DriverIndex}
        → Reached x
        → Reached (update_driver_location g d l x)
    restated :
        (d : ℕ) (s : DriverStatus) {x : DriverIndex}
        → Reached x
        → Reached (update_driver_status d s x)
    removed : (d : ℕ) {x : DriverIndex} → Reached x → Reached (remove_driver d x)
    cleared : {x : DriverIndex} → Reached x → Reached (clear x)

  -- After any sequence of calls, in which a driver is added only while it has no entry or in the cell of
  -- its entry, each driver stands in the set of its location's cell and of no other, and exactly the
  -- drivers with a location have a status.
  pub Reached-IsIndexed : {x : DriverIndex} → Reached x → IsIndexed g x
  unfolding clear
  Reached-IsIndexed started = init-IsIndexed g
  Reached-IsIndexed (added d l s n r) = add_driver-IsIndexed g d l s _ n (Reached-IsIndexed r)
  Reached-IsIndexed (moved d l r) = update_driver_location-IsIndexed g d l _ (Reached-IsIndexed r)
  Reached-IsIndexed (restated d s r) = update_driver_status-IsIndexed g d s _ (Reached-IsIndexed r)
  Reached-IsIndexed (removed d r) = remove_driver-IsIndexed g d _ (Reached-IsIndexed r)
  Reached-IsIndexed (cleared r) = init-IsIndexed g
