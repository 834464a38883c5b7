-- ===== src/Duty/Shifts.antt =====
-- Going online and offline against the spatial index: who can be found.
use rideshare_simulation_pla.Prelude.{ℕ, ◌≡◌, refl, ap, ◌∙◌, true, Option, none, some, arith}
use rideshare_simulation_pla.Prelude.Dict.{lookup, lookup-insert, lookup-erase}
use rideshare_simulation_pla.Trip.{Location}
use rideshare_simulation_pla.Registry.{available, offline}
use rideshare_simulation_pla.Registry.Statuses.{status_of}
use rideshare_simulation_pla.Index.{Grid, DriverIndex, add_driver, remove_driver}
use rideshare_simulation_pla.Fleet
use rideshare_simulation_pla.Fleet.Agreement.{
  IsConsistent, driver_went_online-IsConsistent, driver_went_offline-IsConsistent,
  driver_location_updated-IsConsistent,
}
use rideshare_simulation_pla.Fleet.{Fleet}
use rideshare_simulation_pla.Agents.{Driver}
use rideshare_simulation_pla.Server.{Server, done, set_driver, bind_done}
use rideshare_simulation_pla.Server.Search.{Outside}
use rideshare_simulation_pla.Server.Puppets.{driver_moves}
use rideshare_simulation_pla.Duty.{
  go_online, go_offline, placed, tell_online, tell_offline, comes_home, interrupted,
}

went_online-status :
    (g : Grid) (d : ℕ) (l : Location) (z : Option ℕ) (x f : Fleet)
    → Fleet.driver_went_online g d l z x ≡ some f
    → lookup d f.index.driver_status ≡ some available
unfolding Fleet.driver_went_online add_driver
went_online-status g d l z x f e =
    ground (arith, e, lookup-insert d d available x.index.driver_status)

removed : (d : ℕ) (x : DriverIndex) → lookup d (remove_driver d x).driver_locations ≡ none
unfolding remove_driver
removed d x = ground (arith, lookup-erase d d x.driver_locations)

went_offline-location :
    (d : ℕ) (x f : Fleet)
    → Fleet.driver_went_offline d x ≡ some f
    → lookup d f.index.driver_locations ≡ none
unfolding Fleet.driver_went_offline
went_offline-location d x f e = ground (arith, e, removed d x.index)

same : (d : ℕ) (x : Driver) (w : Server) → (set_driver d x w).driver d ≡ x
same d x w = ground arith

at_rest :
    (p d : ℕ) (w : Server) → (w.driver d).reposition_process ≡ none → comes_home p d w ≡ done tt w
unfolding comes_home
at_rest p d w h = ground (arith, h)

module _ (o : Outside) (random_place : ℕ → Location) where
  placed-located :
      (d : ℕ) (l : Location) (w : Server)
      → (w.driver d).location ≡ some l
      → placed o random_place d w ≡ w
  unfolding placed
  placed-located d l w h = rw (h, placed) refl

  tell_online-ends :
      (d : ℕ) (l : Location) (w : Server) (f : Fleet)
      → w.config.has_registry_manager ≡ true
      → (w.driver d).location ≡ some l
      → Fleet.driver_went_online o.grid d l (o.zone_of l) w.fleet ≡ some f
      → tell_online o random_place d w ≡ done tt (record w { fleet = f })
  unfolding tell_online
  tell_online-ends d l w f m h e = ground (arith, m, h, e)

  tell_offline-ends :
      (d : ℕ) (w : Server) (f : Fleet)
      → w.config.has_registry_manager ≡ true
      → Fleet.driver_went_offline d w.fleet ≡ some f
      → tell_offline o random_place d w ≡ done tt (record w { fleet = f })
  unfolding tell_offline
  tell_offline-ends d w f m e = ground (arith, m, e)

  driver_moves-ends :
      (d : ℕ) (l : Location) (w : Server) (f : Fleet)
      → w.config.has_registry_manager ≡ true
      → Fleet.driver_location_updated o.grid d l (o.zone_of l) w.fleet ≡ some f
      → driver_moves o d l w
        ≡ done tt
            (record (set_driver d (record (w.driver d) { location = some l }) w) { fleet = f })
  unfolding driver_moves
  driver_moves-ends d l w f m e = ground (arith, m, e)

  go_offline-ends :
      (d : ℕ) (home : Location) (v : Server) (f₁ f₂ : Fleet)
      → v.config.has_registry_manager ≡ true
      → (v.driver d).dna.home_location ≡ home
      → Fleet.driver_location_updated o.grid d home (o.zone_of home) v.fleet ≡ some f₁
      → Fleet.driver_went_offline d f₁ ≡ some f₂
      → (u : Server) × (go_offline o random_place d v ≡ done tt u)
        × (u.fleet ≡ f₂)
        × ((u.driver d).status ≡ offline)
        × ((u.driver d).location ≡ some home)
        × ((u.driver d).reposition_process ≡ none)
  unfolding go_offline
  go_offline-ends d home v f₁ f₂ m h e₁ e₂ =
      let still = set_driver d (interrupted (v.driver d)) v in
      let settled = set_driver d (record (still.driver d) { location = some home }) still in
      let moved = record settled { fleet = f₁ } in
      let off = set_driver d (record (moved.driver d) { status = offline }) moved in
      let first = same d (interrupted (v.driver d)) v in
      let second = same d (record (still.driver d) { location = some home }) still in
      let third = same d (record (moved.driver d) { status = offline }) moved in
      (
        record off { fleet = f₂ },
        bind_done (λ w. driver_moves o d (w.driver d).dna.home_location w) _ still
              (ap (λ l. driver_moves o d l still) (ap (λ x. x.dna.home_location) first ∙ h)
                ∙ driver_moves-ends d home still f₁ m e₁)
            ∙ tell_offline-ends d off f₂ m e₂,
        refl,
        ap (λ x. x.status) third,
        ap (λ x. x.location) third ∙ ap (λ x. x.location) second,
        ap (λ x. x.reposition_process) third
            ∙ (ap (λ x. x.reposition_process) second ∙ ap (λ x. x.reposition_process) first),
      )

  -- A driver that has a place and is offline goes online, and offline again, where registry and index agree
  -- and the registries are there: neither call raises an exception, and both keep the agreement. When it is
  -- online it is available and stands as such in the index. When it is offline it is at home and has no
  -- place in the index, and no drive home goes on.
  pub shift_lem :
      (d : ℕ) (l : Location) (w : Server)
      → w.config.has_registry_manager ≡ true
      → (w.driver d).location ≡ some l
      → status_of d w.fleet.registry.drivers ≡ some offline
      → IsConsistent o.grid w.fleet
      → (v : Server) × (u : Server) × (go_online o random_place d w ≡ done tt v)
        × (go_offline o random_place d v ≡ done tt u)
        × IsConsistent o.grid v.fleet
        × ((v.driver d).status ≡ available)
        × (lookup d v.fleet.index.driver_status ≡ some available)
        × IsConsistent o.grid u.fleet
        × ((u.driver d).status ≡ offline)
        × ((u.driver d).location ≡ some (w.driver d).dna.home_location)
        × (lookup d u.fleet.index.driver_locations ≡ none)
        × ((p : ℕ) → comes_home p d u ≡ done tt u)
  unfolding go_online
  shift_lem d l w m h s c =
      let home = (w.driver d).dna.home_location in
      let online = record (w.driver d) { status = available } in
      let up = set_driver d online w in
      let (f, e, k) = driver_went_online-IsConsistent o.grid d l (o.zone_of l) w.fleet s c in
      let (f₁, e₁, k₁) = driver_location_updated-IsConsistent o.grid d home (o.zone_of home) f k in
      let (f₂, e₂, k₂) = driver_went_offline-IsConsistent o.grid d f₁ k₁ in
      let first = same d online w in
      let (u, done_u, fleet, status, place, rest) =
        go_offline-ends d home (record up { fleet = f }) f₁ f₂ m
          (ap (λ x. x.dna.home_location) first) e₁ e₂ in
      let there = ap (λ x. x.location) first ∙ h in
      (
        record up { fleet = f },
        u,
        ap (tell_online o random_place d) (placed-located d l up there)
            ∙ tell_online-ends d l up f m there e,
        done_u,
        k,
        ap (λ x. x.status) first,
        went_online-status o.grid d l (o.zone_of l) w.fleet f e,
        rw fleet k₂,
        status,
        place,
        rw fleet (went_offline-location d f₁ f₂ e₂),
        λ p. at_rest p d u rest,
      )
