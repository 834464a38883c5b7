-- ===== src/Registry/Histories.antt =====
-- The methods of the registry, one by one and in histories of calls, and its counters.
use rideshare_simulation_pla.Prelude.{
  ℕ, ◌≡◌, refl, inl, inr, Option, none, some, List, [], ◌∷◌, arith, Option-cases,
}
use rideshare_simulation_pla.Prelude.Dict.{lookup, insert, insert-Unique}
use rideshare_simulation_pla.Registry.{
  DriverStatus, DriverRecord, DriverRegistry, no_drivers, init, register_driver,
  update_driver_status, update_driver_zone, update_driver_location, unregister_driver,
  get_status_count, get_zone_driver_count, clear,
}
use rideshare_simulation_pla.Registry.Counting.{count, count-insert_old}
use rideshare_simulation_pla.Registry.Zones.{counted-Leaves, counted-Restatuses}
use rideshare_simulation_pla.Registry.Accuracy.{
  has_status, is_at, IsAccurate, KeepsAccurate, init-IsAccurate, register_driver-IsAccurate,
  zone_counts_driver, restatus-IsAccurate, rezone-IsAccurate, drop_driver-IsAccurate,
}

-- A status update of any driver, known or not, raises no `KeyError` and keeps the counters accurate.
pub update_driver_status-IsAccurate :
    (k : ℕ) (n : DriverStatus) (r : DriverRegistry)
    → IsAccurate r
    → KeepsAccurate (update_driver_status k n r)
unfolding update_driver_status
update_driver_status-IsAccurate k n r v = elim (Option-cases (lookup k r.drivers)) [
  | inl e ↦ (r, ground arith, v)
  | inr (d, e) ↦
      rw (e, update_driver_status)
        (restatus-IsAccurate k d r e v n
          (counted-Restatuses d.zone_id d.status n _ (zone_counts_driver k d r e v)))
]

pub update_driver_zone-IsAccurate :
    (k z : ℕ) (r : DriverRegistry) → IsAccurate r → KeepsAccurate (update_driver_zone k z r)
unfolding update_driver_zone
update_driver_zone-IsAccurate k z r v = elim (Option-cases (lookup k r.drivers)) [
  | inl e ↦ (r, ground arith, v)
  | inr (d, e) ↦
      rw (e, update_driver_zone)
        (rezone-IsAccurate k d r e v z
          (counted-Leaves d.zone_id d.status _ (zone_counts_driver k d r e v)))
]

pub unregister_driver-IsAccurate :
    (k : ℕ) (r : DriverRegistry) → IsAccurate r → KeepsAccurate (unregister_driver k r)
unfolding unregister_driver
unregister_driver-IsAccurate k r v = elim (Option-cases (lookup k r.drivers)) [
  | inl e ↦ (r, ground arith, v)
  | inr (d, e) ↦
      rw (e, unregister_driver)
        (drop_driver-IsAccurate k d r e v
          (counted-Leaves d.zone_id d.status _ (zone_counts_driver k d r e v)))
]

relocated-IsAccurate :
    (k : ℕ) (d : DriverRecord) (l : ℕ × ℕ) (r : DriverRegistry)
    → lookup k r.drivers ≡ some d
    → IsAccurate r
    → IsAccurate (record r { drivers = insert k (record d { location = some l }) r.drivers })
unfolding get_status_count get_zone_driver_count
relocated-IsAccurate k d l r e v = record {
  unique = insert-Unique k _ r.drivers v.unique;
  by_status = λ t. omega (
    arith,
    count-insert_old (has_status t) k (record d { location = some l }) d r.drivers e,
    v.by_status t,
  );
  by_zone = λ w t. omega (
    arith,
    count-insert_old (is_at w t) k (record d { location = some l }) d r.drivers e,
    v.by_zone w t,
  );
}

pub update_driver_location-IsAccurate :
    (k : ℕ) (l : ℕ × ℕ) (r : DriverRegistry)
    → IsAccurate r
    → IsAccurate (update_driver_location k l r)
unfolding update_driver_location
update_driver_location-IsAccurate k l r v = elim (Option-cases (lookup k r.drivers)) [
  | inl e ↦ rw (e, update_driver_location) v
  | inr (d, e) ↦ rw (e, update_driver_location) (relocated-IsAccurate k d l r e v)
]

clear-IsAccurate : (r : DriverRegistry) → IsAccurate (clear r)
unfolding clear get_status_count get_zone_driver_count count no_drivers lookup
clear-IsAccurate r = record { unique = tt; by_status = λ s. refl; by_zone = λ z s. refl }

-- The calls that change the registry. `registers` is a call for a driver that is not there yet.
pub data Call : Type 0 where
  registers : ℕ → DriverStatus → Option ℕ → Option (ℕ × ℕ) → Call
  updates_status : ℕ → DriverStatus → Call
  updates_zone : ℕ → ℕ → Call
  updates_location : ℕ → ℕ × ℕ → Call
  unregisters : ℕ → Call
  clears : Call

-- A first registration; a second one for the same driver is another matter (below), and is not made.
unfoldable pub call : DriverRegistry → Call → Option DriverRegistry
call r (registers k s z l) = elim (lookup k r.drivers) [
  | none ↦ some (register_driver k s z l r)
  | some d ↦ some r
]
call r (updates_status k s) = update_driver_status k s r
call r (updates_zone k z) = update_driver_zone k z r
call r (updates_location k l) = some (update_driver_location k l r)
call r (unregisters k) = unregister_driver k r
call r clears = some (clear r)

call-IsAccurate : (r : DriverRegistry) (c : Call) → IsAccurate r → KeepsAccurate (call r c)
unfolding call
call-IsAccurate r (registers k s z l) v = elim (Option-cases (lookup k r.drivers)) [
  | inl e ↦ (register_driver k s z l r, ground arith, register_driver-IsAccurate k s z l r e v)
  | inr (d, e) ↦ (r, ground arith, v)
]
call-IsAccurate r (updates_status k s) v = update_driver_status-IsAccurate k s r v
call-IsAccurate r (updates_zone k z) v = update_driver_zone-IsAccurate k z r v
call-IsAccurate r (updates_location k l) v =
    (update_driver_location k l r, refl, update_driver_location-IsAccurate k l r v)
call-IsAccurate r (unregisters k) v = unregister_driver-IsAccurate k r v
call-IsAccurate r clears v = (clear r, refl, clear-IsAccurate r)

unfoldable pub calls : DriverRegistry → List Call → Option DriverRegistry
calls r [] = some r
calls r (c ∷ cs) = elim (call r c) [ none ↦ none | some q ↦ calls q cs ]

calls_from-IsAccurate :
    (r : DriverRegistry) (cs : List Call) → IsAccurate r → KeepsAccurate (calls r cs)
unfolding calls
calls_from-IsAccurate r [] v = (r, refl, v)
calls_from-IsAccurate r (c ∷ cs) v =
    let (q, e, w) = call-IsAccurate r c v in rw (e, calls) (calls_from-IsAccurate q cs w)

-- After any history of calls from the empty registry, in which no driver is registered while it is
-- there: no call has raised a `KeyError`, the keys are distinct, every counter by status equals the
-- number of drivers with that status, and every counter by zone the number of those in the zone.
pub calls-IsAccurate : (cs : List Call) → KeepsAccurate (calls init cs)
calls-IsAccurate cs = calls_from-IsAccurate init cs init-IsAccurate
