-- ===== src/Registry/Zones.antt =====
-- How the counters by zone read after the three ways in which the registry writes them.
use rideshare_simulation_pla.Prelude.{
  ℕ, ◌+◌, ◌≤◌, ◌≡◌, refl, ◌&&◌, inl, inr, Option, none, some, ◌==◌, arith, Option-cases,
}
use rideshare_simulation_pla.Prelude.Dict.{Dict, lookup, insert, lookup-insert}
use rideshare_simulation_pla.Registry.{
  DriverStatus, same_status, StatusCounts, increment, decrement, no_drivers, in_zone_if_any,
  in_new_zone, in_new_zone_if_any, is_in_zone,
}
use rideshare_simulation_pla.Registry.Counting.{one_if}

abbrev pub read : ℕ → DriverStatus → Dict StatusCounts → ℕ
read z s zs = elim (lookup z zs) [ none ↦ 0 | some c ↦ c s ]

read-in_new_zone :
    (x : ℕ) (s : DriverStatus) (zs : Dict StatusCounts) (w : ℕ) (t : DriverStatus)
    → read w t (in_new_zone x (increment s) zs) ≡ read w t zs + one_if ((x == w) && same_status s t)
unfolding increment no_drivers
read-in_new_zone x s zs w t = elim (Option-cases (lookup x zs)) [
  | inl e ↦ ground (arith, lookup-insert w x (increment s no_drivers) zs)
  | inr (c, e) ↦ ground (arith, lookup-insert w x (increment s c) zs)
]

pub read-in_new_zone_if_any :
    (z : Option ℕ) (s : DriverStatus) (zs : Dict StatusCounts) (w : ℕ) (t : DriverStatus)
    → read w t (in_new_zone_if_any z (increment s) zs)
      ≡ read w t zs + one_if (is_in_zone w z && same_status s t)
read-in_new_zone_if_any none s zs w t = omega arith
read-in_new_zone_if_any (some x) s zs w t = read-in_new_zone x s zs w t

-- The write is made, with no `KeyError`, and the counter of the driver alone falls by one.
abbrev pub Leaves : Option ℕ → DriverStatus → Dict StatusCounts → Type 0
Leaves z s zs =
    (zs' : Dict StatusCounts) × (in_zone_if_any z (decrement s) zs ≡ some zs')
    × ((w : ℕ) (t : DriverStatus)
        → read w t zs' + one_if (is_in_zone w z && same_status s t) ≡ read w t zs)

-- The write is made, and one driver goes over from one counter of its zone to another.
abbrev pub Restatuses : Option ℕ → DriverStatus → DriverStatus → Dict StatusCounts → Type 0
Restatuses z s n zs =
    (zs' : Dict StatusCounts) × (in_zone_if_any z (λ c. increment n (decrement s c)) zs ≡ some zs')
    × ((w : ℕ) (t : DriverStatus)
        → read w t zs' + one_if (is_in_zone w z && same_status s t)
          ≡ read w t zs + one_if (is_in_zone w z && same_status n t))

abbrev pub IsCounted : Option ℕ → DriverStatus → Dict StatusCounts → Type 0
IsCounted z s zs = (x : ℕ) → z ≡ some x → 1 ≤ read x s zs

pub counted-Leaves :
    (z : Option ℕ) (s : DriverStatus) (zs : Dict StatusCounts) → IsCounted z s zs → Leaves z s zs
unfolding decrement
counted-Leaves none s zs h = (zs, refl, λ w t. omega arith)
counted-Leaves (some x) s zs h = elim (Option-cases (lookup x zs)) [
  | inl e ↦ absurd (ground (arith, h x refl))
  | inr (c, e) ↦ (
    insert x (decrement s c) zs,
    ground arith,
    λ w t. ground (arith, h x refl, lookup-insert w x (decrement s c) zs),
  )
]

pub counted-Restatuses :
    (z : Option ℕ) (s n : DriverStatus) (zs : Dict StatusCounts)
    → IsCounted z s zs
    → Restatuses z s n zs
unfolding decrement increment
counted-Restatuses none s n zs h = (zs, refl, λ w t. omega arith)
counted-Restatuses (some x) s n zs h = elim (Option-cases (lookup x zs)) [
  | inl e ↦ absurd (ground (arith, h x refl))
  | inr (c, e) ↦ (
    insert x (increment n (decrement s c)) zs,
    ground arith,
    λ w t. ground (arith, h x refl, lookup-insert w x (increment n (decrement s c)) zs),
  )
]
