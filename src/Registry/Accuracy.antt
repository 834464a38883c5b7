-- ===== src/Registry/Accuracy.antt =====
-- The counters of the driver registry against a count of the records themselves.
use rideshare_simulation_pla.Prelude.{ℕ, ◌≡◌, refl, Bool, ◌&&◌, Option, none, some, arith}
use rideshare_simulation_pla.Prelude.Dict.{
  lookup, insert, erase, Unique, insert-Unique, erase-Unique,
}
use rideshare_simulation_pla.Registry.{
  DriverStatus, same_status, DriverRecord, DriverRegistry, increment, decrement, no_drivers, init,
  register_driver, restatus, rezone, drop_driver, get_status_count, get_zone_driver_count,
  is_in_zone, in_new_zone_if_any,
}
use rideshare_simulation_pla.Registry.Zones.{read-in_new_zone_if_any, Leaves, Restatuses, IsCounted}
use rideshare_simulation_pla.Registry.Counting.{
  count, count-insert_new, count-insert_old, count_found, count-erase,
}

abbrev pub has_status : DriverStatus → DriverRecord → Bool
has_status s d = same_status d.status s

abbrev pub is_at : ℕ → DriverStatus → DriverRecord → Bool
is_at z s d = is_in_zone z d.zone_id && same_status d.status s

-- Every counter equals the number of records that it stands for.
pub record IsAccurate (r : DriverRegistry) : Type 0 where
  pub unique : Unique r.drivers
  pub by_status : (s : DriverStatus) → get_status_count s r ≡ count (has_status s) r.drivers
  pub by_zone :
      (z : ℕ) (s : DriverStatus) → get_zone_driver_count z s r ≡ count (is_at z s) r.drivers

-- The operation raises no `KeyError`, and the registry that it leaves is accurate.
abbrev pub KeepsAccurate : Option DriverRegistry → Type 0
KeepsAccurate o = (r : DriverRegistry) × (o ≡ some r) × IsAccurate r

pub init-IsAccurate : IsAccurate init
unfolding init get_status_count get_zone_driver_count count no_drivers lookup
init-IsAccurate = record { unique = tt; by_status = λ s. refl; by_zone = λ z s. refl }

-- A driver that is registered for the first time is counted once, in its status and in its zone.
pub register_driver-IsAccurate :
    (k : ℕ) (s : DriverStatus) (z : Option ℕ) (l : Option (ℕ × ℕ)) (r : DriverRegistry)
    → lookup k r.drivers ≡ none
    → IsAccurate r
    → IsAccurate (register_driver k s z l r)
unfolding register_driver get_status_count get_zone_driver_count
register_driver-IsAccurate k s z l r new v = record {
  unique = insert-Unique k _ r.drivers v.unique;
  by_status = λ t. registered_status t;
  by_zone = λ w t. omega (
    arith,
    count-insert_new (is_at w t) k d r.drivers new,
    v.by_zone w t,
    read-in_new_zone_if_any z s r.zone_status_counts w t,
  );
}
  where
    d : DriverRecord
    d = record { status = s; zone_id = z; location = l }

    registered_status :
        (t : DriverStatus)
        → get_status_count t (register_driver k s z l r)
          ≡ count (has_status t) (insert k d r.drivers)
    registered_status t =
        unfold increment in
        ground (arith, count-insert_new (has_status t) k d r.drivers new, v.by_status t)

-- The zone of a registered driver counts it.
pub zone_counts_driver :
    (k : ℕ) (d : DriverRecord) (r : DriverRegistry)
    → lookup k r.drivers ≡ some d
    → IsAccurate r
    → IsCounted d.zone_id d.status r.zone_status_counts
unfolding get_zone_driver_count
zone_counts_driver k d r e v x z =
    ground (arith, count_found (is_at x d.status) k d r.drivers e, v.by_zone x d.status)

module _ (k : ℕ) (d : DriverRecord) (r : DriverRegistry) (e : lookup k r.drivers ≡ some d)
    (v : IsAccurate r) where
  status_moves :
      (n t : DriverStatus)
      → increment n (decrement d.status r.status_counts) t
        ≡ count (has_status t) (insert k (record d { status = n }) r.drivers)
  unfolding increment decrement get_status_count
  status_moves n t = ground (
    arith,
    count-insert_old (has_status t) k (record d { status = n }) d r.drivers e,
    count_found (has_status t) k d r.drivers e,
    v.by_status t,
  )

  pub restatus-IsAccurate :
      (n : DriverStatus)
      → Restatuses d.zone_id d.status n r.zone_status_counts
      → KeepsAccurate (restatus k n d r)
  unfolding restatus get_status_count get_zone_driver_count
  restatus-IsAccurate n (zs, done, reads) = (
    record {
      drivers = insert k (record d { status = n }) r.drivers;
      status_counts = increment n (decrement d.status r.status_counts);
      zone_status_counts = zs;
    },
    ground arith,
    record {
      unique = insert-Unique k _ r.drivers v.unique;
      by_status = status_moves n;
      by_zone = λ w t. omega (
        arith,
        count-insert_old (is_at w t) k (record d { status = n }) d r.drivers e,
        v.by_zone w t,
        reads w t,
      );
    },
  )

  pub rezone-IsAccurate :
      (z : ℕ) → Leaves d.zone_id d.status r.zone_status_counts → KeepsAccurate (rezone k z d r)
  unfolding rezone get_status_count get_zone_driver_count
  rezone-IsAccurate z (zs, done, reads) = (
    record r {
      drivers = insert k (record d { zone_id = some z }) r.drivers;
      zone_status_counts = in_new_zone_if_any (some z) (increment d.status) zs;
    },
    ground arith,
    record {
      unique = insert-Unique k _ r.drivers v.unique;
      by_status = λ t. omega (
        arith,
        count-insert_old (has_status t) k (record d { zone_id = some z }) d r.drivers e,
        v.by_status t,
      );
      by_zone = λ w t. omega (
        arith,
        count-insert_old (is_at w t) k (record d { zone_id = some z }) d r.drivers e,
        v.by_zone w t,
        reads w t,
        read-in_new_zone_if_any (some z) d.status zs w t,
      );
    },
  )

  status_leaves :
      (t : DriverStatus)
      → decrement d.status r.status_counts t ≡ count (has_status t) (erase k r.drivers)
  unfolding decrement get_status_count
  status_leaves t =
      ground (arith, count-erase (has_status t) k d r.drivers v.unique e, v.by_status t)

  pub drop_driver-IsAccurate :
      Leaves d.zone_id d.status r.zone_status_counts → KeepsAccurate (drop_driver k d r)
  unfolding drop_driver get_status_count get_zone_driver_count
  drop_driver-IsAccurate (zs, done, reads) = (
    record {
      drivers = erase k r.drivers;
      status_counts = decrement d.status r.status_counts;
      zone_status_counts = zs;
    },
    ground arith,
    record {
      unique = erase-Unique k r.drivers v.unique;
      by_status = status_leaves;
      by_zone = λ w t.
          omega (arith, count-erase (is_at w t) k d r.drivers v.unique e, v.by_zone w t, reads w t);
    },
  )
