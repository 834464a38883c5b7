-- ===== src/Index.antt =====
-- services/simulation/src/matching/driver_geospatial_index.py: drivers by H3 cell. The H3 library and
-- the haversine distance (floating point) are parameters; distances are in metres. Sets are listed in
-- the order in which the parameters give them. The lock makes each method one step.
pub mod Cells
pub mod Reached
pub mod Ascending
pub mod Nearest
use rideshare_simulation_pla.Prelude.{
  ℕ, zero, suc, ◌+◌, ◌*◌, ◌/◌, ◌≡◌, Bool, true, false, not, ◌&&◌, ◌||◌, Option, none, some, List,
  [], ◌∷◌, ◌++◌, ◌==◌, leb, ltb, if◌then◌else◌, min, max, keep,
}
use rideshare_simulation_pla.Prelude.Dict.{Dict, lookup, insert, erase, has_key}
use rideshare_simulation_pla.Prelude.IdSet.{IdSet, member, add, discard}
use rideshare_simulation_pla.Registry.{DriverStatus, same_status}
use rideshare_simulation_pla.Trip.{Location}

-- What the index asks of the H3 library and of geo/distance.py.
pub record Grid : Type 0 where
  pub latlng_to_cell : Location → ℕ
  pub grid_disk : ℕ → ℕ → List ℕ
  pub haversine_m : Location → Location → ℕ

pub record DriverIndex : Type 0 where
  pub h3_cells : Dict IdSet
  pub driver_locations : Dict (Location × ℕ)
  pub driver_status : Dict DriverStatus

abbrev pub init : DriverIndex
init = record { h3_cells = []; driver_locations = []; driver_status = [] }

-- `if cell not in cells: cells[cell] = set()`, then `cells[cell].add(driver)`.
unfoldable pub add_to_cell : ℕ → ℕ → Dict IdSet → Dict IdSet
add_to_cell driver_id cell cells = elim (lookup cell cells) [
  | none ↦ insert cell (driver_id ∷ []) cells
  | some s ↦ insert cell (add driver_id s) cells
]

-- A cell that falls empty is dropped.
unfoldable pub remove_from_cell : ℕ → ℕ → Dict IdSet → Dict IdSet
remove_from_cell driver_id cell cells = elim (lookup cell cells) [
  | none ↦ cells
  | some s ↦ elim (discard driver_id s) [
    | [] ↦ erase cell cells
    | j ∷ s' ↦ insert cell (j ∷ s') cells
  ]
]

unfoldable pub update_driver_status : ℕ → DriverStatus → DriverIndex → DriverIndex
update_driver_status driver_id status x =
    if has_key driver_id x.driver_status
    then record x { driver_status = insert driver_id status x.driver_status }
    else x

-- `driver_status` loses the driver as well; the two dictionaries have the same keys (Cells), so that
-- `del` raises no `KeyError`.
unfoldable pub remove_driver : ℕ → DriverIndex → DriverIndex
remove_driver driver_id x = elim (lookup driver_id x.driver_locations) [
  | none ↦ x
  | some (_, cell) ↦ record {
    h3_cells = remove_from_cell driver_id cell x.h3_cells;
    driver_locations = erase driver_id x.driver_locations;
    driver_status = erase driver_id x.driver_status;
  }
]

unfoldable pub clear : DriverIndex → DriverIndex
clear x = record { h3_cells = []; driver_locations = []; driver_status = [] }

-- `candidates.sort(key=distance)`, which is stable.
insert_by_distance : ℕ × ℕ → List (ℕ × ℕ) → List (ℕ × ℕ)
insert_by_distance (d, m) [] = (d, m) ∷ []
insert_by_distance (d, m) ((e, n) ∷ r) =
    let later = insert_by_distance (d, m) r in
    if leb m n then (d, m) ∷ (e, n) ∷ r else (e, n) ∷ later

unfoldable pub sort_by_distance : List (ℕ × ℕ) → List (ℕ × ℕ)
unfolding insert_by_distance
sort_by_distance [] = []
sort_by_distance (c ∷ cs) = insert_by_distance c (sort_by_distance cs)

-- `max(1, int(radius_km * 1000 / 174) + 1)`, for a radius in metres.
abbrev pub max_rings : ℕ → ℕ
max_rings radius = max 1 (radius / 174 + 1)

module _ (g : Grid) where
  open g use {latlng_to_cell, grid_disk, haversine_m}

  unfoldable pub add_driver : ℕ → Location → DriverStatus → DriverIndex → DriverIndex
  add_driver driver_id l status x = record {
    h3_cells = add_to_cell driver_id (latlng_to_cell l) x.h3_cells;
    driver_locations = insert driver_id (l, latlng_to_cell l) x.driver_locations;
    driver_status = insert driver_id status x.driver_status;
  }

  unfoldable pub update_driver_location : ℕ → Location → DriverIndex → DriverIndex
  update_driver_location driver_id l x = elim (lookup driver_id x.driver_locations) [
    | none ↦ x
    | some (_, old_cell) ↦ record x {
      h3_cells =
          if old_cell == latlng_to_cell l
          then x.h3_cells
          else add_to_cell driver_id (latlng_to_cell l)
              (remove_from_cell driver_id old_cell x.h3_cells);
      driver_locations = insert driver_id (l, latlng_to_cell l) x.driver_locations;
    }
  ]

  -- One driver of a cell: kept if its status passes and it is within the radius. A driver with a status
  -- has a location (Cells), so that reading the location raises no `KeyError`.
  unfoldable pub candidate : Location → ℕ → (DriverStatus → Bool) → DriverIndex → ℕ → List (ℕ × ℕ)
  candidate l radius passes x driver_id = elim (lookup driver_id x.driver_status) [
    | none ↦ []
    | some s ↦
        if passes s
        then elim (lookup driver_id x.driver_locations) [
          | none ↦ []
          | some (at, _) ↦
              if leb (haversine_m l at) radius then (driver_id, haversine_m l at) ∷ [] else []
        ]
        else []
  ]

  unfoldable pub candidates_among :
      Location → ℕ → (DriverStatus → Bool) → DriverIndex → List ℕ → List (ℕ × ℕ)
  candidates_among l radius passes x [] = []
  candidates_among l radius passes x (k ∷ ks) =
      candidate l radius passes x k ++ candidates_among l radius passes x ks

  unfoldable pub drivers_of : ℕ → DriverIndex → List ℕ
  drivers_of cell x = elim (lookup cell x.h3_cells) [ none ↦ [] | some s ↦ s ]

  unfoldable pub candidates_in :
      Location → ℕ → (DriverStatus → Bool) → DriverIndex → List ℕ → List (ℕ × ℕ)
  candidates_in l radius passes x [] = []
  candidates_in l radius passes x (c ∷ cs) =
      candidates_among l radius passes x (drivers_of c x) ++ candidates_in l radius passes x cs

  -- The rings double until a candidate is found or the radius is covered; `fuel` bounds the rounds.
  -- `checked` are the cells that earlier rounds have seen.
  unfoldable pub expand :
      ℕ
      → ℕ
      → ℕ
      → List ℕ
      → Location
      → ℕ
      → (DriverStatus → Bool)
      → DriverIndex
      → Option (List (ℕ × ℕ))
  expand zero k max_k checked l radius passes x = none
  expand (suc fuel) k max_k checked l radius passes x =
      let current_k = min k max_k in
      let ring = grid_disk (latlng_to_cell l) current_k in
      let found = candidates_in l radius passes x (keep (λ c. not (member c checked)) ring) in
      let rest = expand fuel (k * 2) max_k (checked ++ ring) l radius passes x in
      elim found [ [] ↦ if leb max_k current_k then some [] else rest | c ∷ cs ↦ some (c ∷ cs) ]

  unfoldable pub find_nearest_drivers :
      Location → ℕ → (DriverStatus → Bool) → DriverIndex → Option (List (ℕ × ℕ))
  unfolding expand
  find_nearest_drivers l radius passes x = elim x.driver_locations [
    | [] ↦ some []
    | _ ∷ _ ↦ elim (expand (suc (max_rings radius)) 5 (max_rings radius) [] l radius passes x) [
      | none ↦ none
      | some found ↦ some (sort_by_distance found)
    ]
  ]
