-- ===== src/Registry.antt =====
-- services/simulation/src/matching/driver_registry.py: driver records with the denormalised counters
-- by status and by zone. `none` of an operation is the `KeyError` of a zone that has no counters; the
-- lock makes each method one step. A zone identifier is never the empty string.
pub mod Counting
mod Zones
pub mod Accuracy
pub mod Histories
pub mod Statuses
use rideshare_simulation_pla.Prelude.{
  ℕ, ◌+◌, ◌-◌, ◌≡◌, Bool, true, false, ◌&&◌, Option, none, some, List, [], ◌∷◌, ◌==◌, if◌then◌else◌,
}
use rideshare_simulation_pla.Prelude.Dict.{Dict, lookup, insert, erase, has_key}

pub data DriverStatus : Type 0 where
  available offline en_route_pickup on_trip driving_closer_to_home : DriverStatus

abbrev pub code : DriverStatus → ℕ
code available = 0
code offline = 1
code en_route_pickup = 2
code on_trip = 3
code driving_closer_to_home = 4

abbrev pub same_status : DriverStatus → DriverStatus → Bool
same_status s t = code s == code t

pub record DriverRecord : Type 0 where
  pub status : DriverStatus
  pub zone_id : Option ℕ
  pub location : Option (ℕ × ℕ)

-- The five counters of one dictionary `status → int`.
abbrev pub StatusCounts : Type 0
StatusCounts = DriverStatus → ℕ

unfoldable pub no_drivers : StatusCounts
no_drivers s = 0

unfoldable pub increment : DriverStatus → StatusCounts → StatusCounts
increment s c t = if same_status s t then c t + 1 else c t

-- The registry never counts below zero (Accuracy), so truncated subtraction is the source's.
unfoldable pub decrement : DriverStatus → StatusCounts → StatusCounts
decrement s c t = if same_status s t then c t - 1 else c t

pub record DriverRegistry : Type 0 where
  pub drivers : Dict DriverRecord
  pub status_counts : StatusCounts
  pub zone_status_counts : Dict StatusCounts

unfoldable pub init : DriverRegistry
init = record { drivers = []; status_counts = no_drivers; zone_status_counts = [] }

-- `counts[zone_id]`, or the `KeyError`.
abbrev pub in_zone :
    ℕ → (StatusCounts → StatusCounts) → Dict StatusCounts → Option (Dict StatusCounts)
in_zone z f zs = elim (lookup z zs) [ none ↦ none | some c ↦ some (insert z (f c) zs) ]

-- `if zone_id not in counts: counts[zone_id] = {...}`, then the counter.
abbrev pub in_new_zone : ℕ → (StatusCounts → StatusCounts) → Dict StatusCounts → Dict StatusCounts
in_new_zone z f zs = elim (lookup z zs) [
  | none ↦ insert z (f no_drivers) zs
  | some c ↦ insert z (f c) zs
]

-- `if zone_id: ...`
abbrev pub in_zone_if_any :
    Option ℕ → (StatusCounts → StatusCounts) → Dict StatusCounts → Option (Dict StatusCounts)
in_zone_if_any none f zs = some zs
in_zone_if_any (some z) f zs = in_zone z f zs

abbrev pub in_new_zone_if_any :
    Option ℕ → (StatusCounts → StatusCounts) → Dict StatusCounts → Dict StatusCounts
in_new_zone_if_any none f zs = zs
in_new_zone_if_any (some z) f zs = in_new_zone z f zs

unfoldable pub register_driver :
    ℕ → DriverStatus → Option ℕ → Option (ℕ × ℕ) → DriverRegistry → DriverRegistry
unfolding increment no_drivers
register_driver driver_id status zone_id location r = record {
  drivers =
      insert driver_id (record { status = status; zone_id = zone_id; location = location })
        r.drivers;
  status_counts = increment status r.status_counts;
  zone_status_counts = in_new_zone_if_any zone_id (increment status) r.zone_status_counts;
}

pub restatus : ℕ → DriverStatus → DriverRecord → DriverRegistry → Option DriverRegistry
unfolding increment decrement
restatus driver_id new_status d r =
    elim (in_zone_if_any d.zone_id (λ c. increment new_status (decrement d.status c))
      r.zone_status_counts) [
        | none ↦ none
        | some zs ↦ some (record {
          drivers = insert driver_id (record d { status = new_status }) r.drivers;
          status_counts = increment new_status (decrement d.status r.status_counts);
          zone_status_counts = zs;
        })
      ]

unfoldable pub update_driver_status : ℕ → DriverStatus → DriverRegistry → Option DriverRegistry
unfolding restatus
update_driver_status driver_id new_status r = elim (lookup driver_id r.drivers) [
  | none ↦ some r
  | some d ↦ restatus driver_id new_status d r
]

pub rezone : ℕ → ℕ → DriverRecord → DriverRegistry → Option DriverRegistry
unfolding increment decrement no_drivers
rezone driver_id new_zone_id d r =
    elim (in_zone_if_any d.zone_id (decrement d.status) r.zone_status_counts) [
      | none ↦ none
      | some zs ↦ some (record r {
        drivers = insert driver_id (record d { zone_id = some new_zone_id }) r.drivers;
        zone_status_counts = in_new_zone new_zone_id (increment d.status) zs;
      })
    ]

unfoldable pub update_driver_zone : ℕ → ℕ → DriverRegistry → Option DriverRegistry
unfolding rezone
update_driver_zone driver_id new_zone_id r = elim (lookup driver_id r.drivers) [
  | none ↦ some r
  | some d ↦ rezone driver_id new_zone_id d r
]

unfoldable pub update_driver_location : ℕ → ℕ × ℕ → DriverRegistry → DriverRegistry
update_driver_location driver_id location r = elim (lookup driver_id r.drivers) [
  | none ↦ r
  | some d ↦ record r {
    drivers = insert driver_id (record d { location = some location }) r.drivers;
  }
]

pub drop_driver : ℕ → DriverRecord → DriverRegistry → Option DriverRegistry
unfolding decrement
drop_driver driver_id d r =
    elim (in_zone_if_any d.zone_id (decrement d.status) r.zone_status_counts) [
      | none ↦ none
      | some zs ↦ some (record {
        drivers = erase driver_id r.drivers;
        status_counts = decrement d.status r.status_counts;
        zone_status_counts = zs;
      })
    ]

unfoldable pub unregister_driver : ℕ → DriverRegistry → Option DriverRegistry
unfolding drop_driver
unregister_driver driver_id r = elim (lookup driver_id r.drivers) [
  | none ↦ some r
  | some d ↦ drop_driver driver_id d r
]

unfoldable pub get_status_count : DriverStatus → DriverRegistry → ℕ
get_status_count status r = r.status_counts status

unfoldable pub get_zone_driver_count : ℕ → DriverStatus → DriverRegistry → ℕ
get_zone_driver_count zone_id status r = elim (lookup zone_id r.zone_status_counts) [
  | none ↦ 0
  | some c ↦ c status
]

abbrev pub is_in_zone : ℕ → Option ℕ → Bool
is_in_zone z none = false
is_in_zone z (some w) = w == z

available_in : ℕ → Dict DriverRecord → List ℕ
available_in z [] = []
available_in z ((k, d) ∷ m) =
    let rest = available_in z m in
    if is_in_zone z d.zone_id && same_status d.status available then k ∷ rest else rest

unfoldable pub get_available_drivers_in_zone : ℕ → DriverRegistry → List ℕ
unfolding available_in
get_available_drivers_in_zone zone_id r = available_in zone_id r.drivers

unfoldable pub clear : DriverRegistry → DriverRegistry
unfolding no_drivers
clear r = record { drivers = []; status_counts = no_drivers; zone_status_counts = [] }
