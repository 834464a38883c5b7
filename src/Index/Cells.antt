-- ===== src/Index/Cells.antt =====
-- The three dictionaries of the index between two calls: the cells, the locations and the statuses.
use rideshare_simulation_pla.Prelude.{
  ◌⊎◌, ℕ, ◌≡◌, refl, inl, inr, ◌∙◌, ap, sym, Bool, true, false, none, some, [], ◌∷◌, ◌==◌,
  if◌then◌else◌, arith, Bool-cases, Option-cases,
}
use rideshare_simulation_pla.Prelude.Dict.{Dict, lookup, lookup-insert, lookup-erase, has_key}
use rideshare_simulation_pla.Prelude.IdSet.{IdSet, member, add, discard, member-add, member-discard}
use rideshare_simulation_pla.Registry.{DriverStatus}
use rideshare_simulation_pla.Trip.{Location}
use rideshare_simulation_pla.Index.{
  DriverIndex, Grid, add_to_cell, remove_from_cell, add_driver, update_driver_location,
  update_driver_status, remove_driver, init,
}

-- Is the driver in the set of this cell?
abbrev pub in_cell : ℕ → ℕ → Dict IdSet → Bool
in_cell d c cells = elim (lookup c cells) [ none ↦ false | some s ↦ member d s ]

-- Is the driver's location in this cell?
abbrev pub located : ℕ → ℕ → Dict (Location × ℕ) → Bool
located d c locations = elim (lookup d locations) [ none ↦ false | some (_, b) ↦ b == c ]

pub in_cell-add_to_cell :
    (e c d b : ℕ) (cells : Dict IdSet)
    → in_cell e c (add_to_cell d b cells)
      ≡ (if b == c then (if d == e then true else in_cell e c cells) else in_cell e c cells)
unfolding add_to_cell member
in_cell-add_to_cell e c d b cells = elim (Option-cases (lookup b cells)) [
  | inl n ↦ ground (arith, lookup-insert c b (d ∷ []) cells)
  | inr (s, h) ↦ ground (arith, lookup-insert c b (add d s) cells, member-add e d s)
]

pub in_cell-remove_from_cell :
    (e c d b : ℕ) (cells : Dict IdSet)
    → in_cell e c (remove_from_cell d b cells)
      ≡ (if b == c then (if d == e then false else in_cell e c cells) else in_cell e c cells)
unfolding remove_from_cell member
in_cell-remove_from_cell e c d b cells = elim (Option-cases (lookup b cells)) [
  | inl n ↦ ground arith
  | inr (s, h) ↦ go s h (discard d s) refl
]
  where
    go :
        (s : IdSet)
        → lookup b cells ≡ some s
        → (r : IdSet) → discard d s ≡ r
        → in_cell e c (remove_from_cell d b cells)
          ≡ (if b == c then (if d == e then false else in_cell e c cells) else in_cell e c cells)
    go s h [] q =
        ground (arith, lookup-erase c b cells, ap (member e) (sym q) ∙ member-discard e d s)
    go s h (j ∷ r) q =
        ground
          (arith, lookup-insert c b (j ∷ r) cells, ap (member e) (sym q) ∙ member-discard e d s)

module _ (g : Grid) where
  open g use {latlng_to_cell}

  -- A driver stands in the cell of its location and in no other, and has a status if it has a location.
  pub record IsIndexed (x : DriverIndex) : Type 0 where
    pub cells : (d c : ℕ) → in_cell d c x.h3_cells ≡ located d c x.driver_locations
    pub statuses : (d : ℕ) → has_key d x.driver_status ≡ has_key d x.driver_locations
    pub cell_of :
        (d c : ℕ) (l : Location) → lookup d x.driver_locations ≡ some (l, c) → latlng_to_cell l ≡ c

  -- The empty index.
  pub init-IsIndexed : IsIndexed init
  unfolding lookup
  init-IsIndexed = record {
    cells = λ d c. refl;
    statuses = λ d. refl;
    cell_of = λ d c l e. ground arith;
  }

  -- Adding a driver that is not in the index, or is there in the same cell.
  pub add_driver-IsIndexed :
      (d : ℕ) (l : Location) (s : DriverStatus) (x : DriverIndex)
      → (lookup d x.driver_locations ≡ none)
        ⊎ (located d (latlng_to_cell l) x.driver_locations ≡ true)
      → IsIndexed x
      → IsIndexed (add_driver g d l s x)
  unfolding add_driver
  add_driver-IsIndexed d l s x n i = record {
    cells = λ e c. ground (
      arith,
      in_cell-add_to_cell e c d (latlng_to_cell l) x.h3_cells,
      i.cells e c,
      lookup-insert e d (l, latlng_to_cell l) x.driver_locations,
    );
    statuses = λ e. ground (
      arith,
      lookup-insert e d s x.driver_status,
      i.statuses e,
      lookup-insert e d (l, latlng_to_cell l) x.driver_locations,
    );
    cell_of = λ e c m h.
        ground (arith, i.cell_of e c m, lookup-insert e d (l, latlng_to_cell l) x.driver_locations);
  }

  pub remove_driver-IsIndexed :
      (d : ℕ) (x : DriverIndex) → IsIndexed x → IsIndexed (remove_driver d x)
  unfolding remove_driver
  remove_driver-IsIndexed d x i = elim (Option-cases (lookup d x.driver_locations)) [
    | inl n ↦ rw (n, remove_driver) i
    | inr ((l, b), h) ↦
        rw (h, remove_driver)
          (record {
            cells = λ e c. ground (
              arith,
              in_cell-remove_from_cell e c d b x.h3_cells,
              i.cells e c,
              lookup-erase e d x.driver_locations,
            );
            statuses = λ e. ground (
              arith,
              lookup-erase e d x.driver_status,
              i.statuses e,
              lookup-erase e d x.driver_locations,
            );
            cell_of =
                λ e c m q. ground (arith, i.cell_of e c m, lookup-erase e d x.driver_locations);
          })
  ]

  pub update_driver_status-IsIndexed :
      (d : ℕ) (s : DriverStatus) (x : DriverIndex)
      → IsIndexed x
      → IsIndexed (update_driver_status d s x)
  unfolding update_driver_status
  update_driver_status-IsIndexed d s x i = elim (Bool-cases (has_key d x.driver_status)) [
    | inr n ↦ rw (n, update_driver_status) i
    | inl h ↦
        rw (h, update_driver_status)
          (record {
            cells = i.cells;
            statuses = λ e. ground (arith, lookup-insert e d s x.driver_status, i.statuses e);
            cell_of = i.cell_of;
          })
  ]

  pub update_driver_location-IsIndexed :
      (d : ℕ) (l : Location) (x : DriverIndex)
      → IsIndexed x
      → IsIndexed (update_driver_location g d l x)
  unfolding update_driver_location
  update_driver_location-IsIndexed d l x i = elim (Option-cases (lookup d x.driver_locations)) [
    | inl n ↦ rw (n, update_driver_location) i
    | inr ((m, b), h) ↦
        rw (h, update_driver_location)
          (record {
            cells = λ e c. ground (
              arith,
              in_cell-remove_from_cell e c d b x.h3_cells,
              in_cell-add_to_cell e c d (latlng_to_cell l) (remove_from_cell d b x.h3_cells),
              i.cells e c,
              lookup-insert e d (l, latlng_to_cell l) x.driver_locations,
            );
            statuses = λ e.
                ground
                  (arith, i.statuses e, lookup-insert e d (l, latlng_to_cell l) x.driver_locations);
            cell_of = λ e c k q. ground (
              arith,
              i.cell_of e c k,
              lookup-insert e d (l, latlng_to_cell l) x.driver_locations,
            );
          })
  ]
