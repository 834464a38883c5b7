-- ===== src/Registry/Statuses.antt =====
-- The status that the registry has for a driver, after each operation.
use rideshare_simulation_pla.Prelude.{
  ℕ, ◌≡◌, inl, inr, Option, none, some, ◌==◌, if◌then◌else◌, arith, Option-cases, is_some,
}
use rideshare_simulation_pla.Prelude.Dict.{Dict, lookup, lookup-insert}
use rideshare_simulation_pla.Registry.{
  DriverStatus, DriverRegistry, DriverRecord, restatus, rezone, update_driver_status,
  update_driver_zone, update_driver_location, register_driver,
}

-- The status that the registry has for a driver.
abbrev pub status_of : ℕ → Dict DriverRecord → Option DriverStatus
status_of d m = elim (lookup d m) [ none ↦ none | some r ↦ some r.status ]

pub status_of-update_driver_status :
    (d k : ℕ) (s : DriverStatus) (r q : DriverRegistry)
    → update_driver_status k s r ≡ some q
    → status_of d q.drivers ≡ (
        if k == d
        then (if is_some (status_of k r.drivers) then some s else none)
        else status_of d r.drivers)
unfolding update_driver_status restatus
status_of-update_driver_status d k s r q e = elim (Option-cases (lookup k r.drivers)) [
  | inl n ↦ ground arith
  | inr (v, h) ↦ ground (arith, lookup-insert d k (record v { status = s }) r.drivers)
]

pub status_of-update_driver_zone :
    (d k z : ℕ) (r q : DriverRegistry)
    → update_driver_zone k z r ≡ some q
    → status_of d q.drivers ≡ status_of d r.drivers
unfolding update_driver_zone rezone
status_of-update_driver_zone d k z r q e = elim (Option-cases (lookup k r.drivers)) [
  | inl n ↦ ground arith
  | inr (v, h) ↦ ground (arith, lookup-insert d k (record v { zone_id = some z }) r.drivers)
]

pub status_of-update_driver_location :
    (d k : ℕ) (l : ℕ × ℕ) (r : DriverRegistry)
    → status_of d (update_driver_location k l r).drivers ≡ status_of d r.drivers
unfolding update_driver_location
status_of-update_driver_location d k l r = elim (Option-cases (lookup k r.drivers)) [
  | inl n ↦ ground arith
  | inr (v, h) ↦ ground (arith, lookup-insert d k (record v { location = some l }) r.drivers)
]

pub status_of-register_driver :
    (d k : ℕ) (s : DriverStatus) (z : Option ℕ) (l : Option (ℕ × ℕ)) (r : DriverRegistry)
    → status_of d (register_driver k s z l r).drivers
      ≡ (if k == d then some s else status_of d r.drivers)
unfolding register_driver
status_of-register_driver d k s z l r =
    ground (arith, lookup-insert d k (record { status = s; zone_id = z; location = l }) r.drivers)
