-- ===== src/Fleet/Agreement.antt =====
-- The two views of a driver, in the spatial index and in the registry, that the facade keeps together.
use rideshare_simulation_pla.Prelude.{
  inl, ℕ, ◌≡◌, refl, ◌≢◌, ◌∙◌, inl, inr, true, Option, none, some, ◌==◌, if◌then◌else◌, arith,
  Option-cases,
}
use rideshare_simulation_pla.Prelude.Dict.{lookup, lookup-insert, lookup-erase, has_key}
use rideshare_simulation_pla.Registry.{
  DriverStatus, available, offline, en_route_pickup, on_trip, driving_closer_to_home,
  DriverRegistry, DriverRecord, restatus, rezone, update_driver_status, update_driver_zone,
  update_driver_location, register_driver,
}
use rideshare_simulation_pla.Registry
use rideshare_simulation_pla.Registry.Statuses.{
  status_of, status_of-register_driver, status_of-update_driver_status,
  status_of-update_driver_zone, status_of-update_driver_location,
}
use rideshare_simulation_pla.Registry.Accuracy.{IsAccurate, register_driver-IsAccurate}
use rideshare_simulation_pla.Registry.Histories.{
  update_driver_status-IsAccurate, update_driver_zone-IsAccurate, update_driver_location-IsAccurate,
}
use rideshare_simulation_pla.Index.{DriverIndex, Grid}
use rideshare_simulation_pla.Index
use rideshare_simulation_pla.Index.Cells.{
  IsIndexed, add_driver-IsIndexed, remove_driver-IsIndexed, update_driver_location-IsIndexed,
  update_driver_status-IsIndexed,
}
use rideshare_simulation_pla.Trip.{Location}
use rideshare_simulation_pla.Fleet.{
  Fleet, driver_went_online, driver_went_offline, driver_status_changed, driver_location_updated,
}
use rideshare_simulation_pla.Fleet

-- The status that the index should have: none for a driver that is offline or not registered.
abbrev pub shown : Option DriverStatus → Option DriverStatus
shown none = none
shown (some offline) = none
shown (some s) = some s

-- The registry has the keys of the index, and the index each driver that is online, with its status.
pub record IsConsistent (g : Grid) (f : Fleet) : Type 0 where
  pub accurate : IsAccurate f.registry
  pub indexed : IsIndexed g f.index
  pub agrees : (d : ℕ) → lookup d f.index.driver_status ≡ shown (status_of d f.registry.drivers)

abbrev indexed_as : ℕ → DriverIndex → Option DriverStatus
indexed_as d x = lookup d x.driver_status

shown_online : (s : DriverStatus) → s ≢ offline → shown (some s) ≡ some s
shown_online available ne = refl
shown_online offline ne = absurd (ne refl)
shown_online en_route_pickup ne = refl
shown_online on_trip ne = refl
shown_online driving_closer_to_home ne = refl

module _ (g : Grid) where
  -- The facade's method raises nothing and leaves the two views consistent.
  abbrev pub KeepsConsistent : Option Fleet → Type 0
  KeepsConsistent o = (f : Fleet) × (o ≡ some f) × IsConsistent g f

  offline_absent :
      (d : ℕ) (f : Fleet)
      → IsConsistent g f
      → status_of d f.registry.drivers ≡ some offline
      → lookup d f.index.driver_locations ≡ none
  offline_absent d f c h = ground (arith, c.agrees d, c.indexed.statuses d)

  indexed_as-remove_driver :
      (d k : ℕ) (x : DriverIndex)
      → IsIndexed g x
      → indexed_as d (Index.remove_driver k x) ≡ (if k == d then none else indexed_as d x)
  unfolding Index.remove_driver
  indexed_as-remove_driver d k x i = elim (Option-cases (lookup k x.driver_locations)) [
    | inl n ↦ ground (arith, i.statuses k)
    | inr ((l, b), h) ↦ ground (arith, lookup-erase d k x.driver_status)
  ]

  indexed_as-update_driver_status :
      (d k : ℕ) (s : DriverStatus) (x : DriverIndex)
      → indexed_as d (Index.update_driver_status k s x)
        ≡ (if k == d then (if has_key k x.driver_status then some s else none) else indexed_as d x)
  unfolding Index.update_driver_status
  indexed_as-update_driver_status d k s x = ground (arith, lookup-insert d k s x.driver_status)

  indexed_as-update_driver_location :
      (k : ℕ) (l : Location) (x : DriverIndex)
      → (Index.update_driver_location g k l x).driver_status ≡ x.driver_status
  unfolding Index.update_driver_location
  indexed_as-update_driver_location k l x = ground arith

  pub driver_went_offline-IsConsistent :
      (d : ℕ) (f : Fleet) → IsConsistent g f → KeepsConsistent (driver_went_offline d f)
  unfolding driver_went_offline
  driver_went_offline-IsConsistent d f c =
      let (r, e, v) = update_driver_status-IsAccurate d offline f.registry c.accurate in
      (
        record { index = Index.remove_driver d f.index; registry = r },
        rw (e, driver_went_offline) refl,
        record {
          accurate = v;
          indexed = remove_driver-IsIndexed g d f.index c.indexed;
          agrees = λ x. ground (
            arith,
            indexed_as-remove_driver x d f.index c.indexed,
            status_of-update_driver_status x d offline f.registry r e,
            c.agrees x,
          );
        },
      )

  -- A new status of a driver that is online, other than offline.
  pub driver_status_changed-IsConsistent :
      (d : ℕ) (s : DriverStatus) (f : Fleet)
      → has_key d f.index.driver_status ≡ true
      → s ≢ offline
      → IsConsistent g f
      → KeepsConsistent (driver_status_changed d s f)
  unfolding driver_status_changed
  driver_status_changed-IsConsistent d s f on ne c =
      let (r, e, v) = update_driver_status-IsAccurate d s f.registry c.accurate in
      (
        record { index = Index.update_driver_status d s f.index; registry = r },
        rw (e, driver_status_changed) refl,
        record {
          accurate = v;
          indexed = update_driver_status-IsIndexed g d s f.index c.indexed;
          agrees = λ x. ground (
            arith,
            indexed_as-update_driver_status x d s f.index,
            status_of-update_driver_status x d s f.registry r e,
            c.agrees x,
            c.agrees d,
            shown_online s ne,
          );
        },
      )

  pub driver_location_updated-IsConsistent :
      (d : ℕ) (l : Location) (z : Option ℕ) (f : Fleet)
      → IsConsistent g f
      → KeepsConsistent (driver_location_updated g d l z f)
  unfolding driver_location_updated
  driver_location_updated-IsConsistent d l none f c = (
    record {
      index = Index.update_driver_location g d l f.index;
      registry = update_driver_location d l f.registry;
    },
    refl,
    record {
      accurate = update_driver_location-IsAccurate d l f.registry c.accurate;
      indexed = update_driver_location-IsIndexed g d l f.index c.indexed;
      agrees = λ x. ground (
        arith,
        indexed_as-update_driver_location d l f.index,
        status_of-update_driver_location x d l f.registry,
        c.agrees x,
      );
    },
  )
  driver_location_updated-IsConsistent d l (some z) f c =
      let (r, e, v) =
        update_driver_zone-IsAccurate d z (update_driver_location d l f.registry)
          (update_driver_location-IsAccurate d l f.registry c.accurate) in
      (
        record { index = Index.update_driver_location g d l f.index; registry = r },
        rw (e, driver_location_updated) refl,
        record {
          accurate = v;
          indexed = update_driver_location-IsIndexed g d l f.index c.indexed;
          agrees = λ x. ground (
            arith,
            indexed_as-update_driver_location d l f.index,
            status_of-update_driver_zone x d z (update_driver_location d l f.registry) r e,
            status_of-update_driver_location x d l f.registry,
            c.agrees x,
          );
        },
      )

  online_record :
      (d : ℕ) (l : Location) (f : Fleet) (r q : DriverRegistry)
      → status_of d f.registry.drivers ≡ some offline
      → IsConsistent g f
      → Registry.update_driver_status d available f.registry ≡ some r
      → IsAccurate q
      → ((x : ℕ) → status_of x q.drivers ≡ status_of x r.drivers)
      → IsConsistent g (record { index = Index.add_driver g d l available f.index; registry = q })
  unfolding Index.add_driver
  online_record d l f r q h c e v same = record {
    accurate = v;
    indexed = add_driver-IsIndexed g d l available f.index (inl (offline_absent d f c h)) c.indexed;
    agrees = λ x. ground (
      arith,
      lookup-insert x d available f.index.driver_status,
      status_of-update_driver_status x d available f.registry r e,
      same x,
      c.agrees x,
    );
  }

  -- Where the views are consistent, a driver that the registry has as offline goes online: nothing is
  -- raised, and the views are consistent again.
  pub driver_went_online-IsConsistent :
      (d : ℕ) (l : Location) (z : Option ℕ) (f : Fleet)
      → status_of d f.registry.drivers ≡ some offline
      → IsConsistent g f
      → KeepsConsistent (driver_went_online g d l z f)
  unfolding driver_went_online
  driver_went_online-IsConsistent d l none f h c =
      let (r, e, v) = update_driver_status-IsAccurate d available f.registry c.accurate in
      (
        record {
          index = Index.add_driver g d l available f.index;
          registry = update_driver_location d l r;
        },
        rw (e, driver_went_online) refl,
        online_record d l f r (update_driver_location d l r) h c e
            (update_driver_location-IsAccurate d l r v)
            (λ x. status_of-update_driver_location x d l r),
      )
  driver_went_online-IsConsistent d l (some z) f h c =
      let (r, e, v) = update_driver_status-IsAccurate d available f.registry c.accurate in
      let (q, p, u) =
        update_driver_zone-IsAccurate d z (update_driver_location d l r)
          (update_driver_location-IsAccurate d l r v) in
      (
        record { index = Index.add_driver g d l available f.index; registry = q },
        rw (e, p, driver_went_online) refl,
        online_record d l f r q h c e u (λ x.
            status_of-update_driver_zone x d z (update_driver_location d l r) q p
            ∙ status_of-update_driver_location x d l r),
      )

  pub register_driver-IsConsistent :
      (d : ℕ) (l : Option Location) (f : Fleet)
      → lookup d f.registry.drivers ≡ none
      → IsConsistent g f
      → IsConsistent g (Fleet.register_driver d l f)
  unfolding Fleet.register_driver
  register_driver-IsConsistent d none f n c = c
  register_driver-IsConsistent d (some l) f n c = record {
    accurate = register_driver-IsAccurate d offline none (some l) f.registry n c.accurate;
    indexed = c.indexed;
    agrees = λ x.
        ground (arith, status_of-register_driver x d offline none (some l) f.registry, c.agrees x);
  }
