-- ===== src/Server/Driving.antt =====
-- What the start of a puppet's drive leaves alone.
use rideshare_simulation_pla.Prelude.{
  ℕ, ◌≡◌, refl, inl, inr, Bool, true, false, Option, none, some, arith, Option-cases, ◌∙◌,
}
use rideshare_simulation_pla.Trip.{Location}
use rideshare_simulation_pla.Registry.{DriverStatus, same_status}
use rideshare_simulation_pla.Registry
use rideshare_simulation_pla.Server.{Server, M, Outcome, done, raised, after, emit}
use rideshare_simulation_pla.Server.Search.{Outside, Route}
use rideshare_simulation_pla.Server.Puppets.{
  caught, stop_drive, begin_drive, drive_from, start_puppet_drive, start_puppet_drive_to_pickup,
}

-- What a drive that starts does not touch.
pub record Undriven (t : ℕ) (w w' : Server) : Type 0 where
  pub state : (w'.trip t).state ≡ (w.trip t).state
  pub driver_id : (w'.trip t).driver_id ≡ (w.trip t).driver_id
  pub driver : w'.driver ≡ w.driver
  pub reserved : w'.reserved ≡ w.reserved
  pub offers : w'.pending_offers ≡ w.pending_offers

Undriven-trans : {t : ℕ} {u v w : Server} → Undriven t u v → Undriven t v w → Undriven t u w
Undriven-trans p q = record {
  state = q.state ∙ p.state;
  driver_id = q.driver_id ∙ p.driver_id;
  driver = q.driver ∙ p.driver;
  reserved = q.reserved ∙ p.reserved;
  offers = q.offers ∙ p.offers;
}

stop_drive-Undriven : (d t : ℕ) (w : Server) → Undriven t w (stop_drive d w)
stop_drive-Undriven d t w = ground arith

pub caught_lem : {A : Type 0} (m : M A) (w : Server) → caught m w ≡ done tt (after (m w))
caught_lem {A = A} m w = go (m w) refl
  where
    go : (x : Outcome A) → m w ≡ x → caught m w ≡ done tt (after (m w))
    go (done a v) e = rw (e, caught) refl
    go (raised a v) e = rw (e, caught) refl

module _ (o : Outside) where
  begin_drive-Undriven :
      (d t : ℕ) (b : Bool) (r : Route) (w : Server) → Undriven t w (after (begin_drive o d t b r w))
  unfolding begin_drive emit
  begin_drive-Undriven d t true r w = ground arith
  begin_drive-Undriven d t false r w = ground arith

  drive_from-Undriven :
      (d t : ℕ) (b : Bool) (l : Option Location) (to : Location) (w : Server)
      → Undriven t w (after (drive_from o d t b l to w))
  unfolding drive_from
  drive_from-Undriven d t b none to w = ground arith
  drive_from-Undriven d t b (some l) to w = elim (Option-cases (o.get_route l to)) [
    | inl n ↦ rw (n, drive_from) (stop_drive-Undriven d t w)
    | inr (r, h) ↦
        rw (h, drive_from)
          (Undriven-trans (stop_drive-Undriven d t w)
            (begin_drive-Undriven d t b r (stop_drive d w)))
  ]

  start_puppet_drive-Undriven :
      (d t : ℕ) (b : Bool) (s : DriverStatus) (to : Location) (w : Server)
      → Undriven t w (after (start_puppet_drive o d t b s to w))
  unfolding start_puppet_drive
  start_puppet_drive-Undriven d t b s to w =
      ground (arith, drive_from-Undriven d t b (w.driver d).location to w)

  pub start_drive-Undriven :
      (d t : ℕ) (w : Server) → Undriven t w (after (start_puppet_drive_to_pickup o d t w))
  unfolding start_puppet_drive_to_pickup
  start_drive-Undriven d t w =
      start_puppet_drive-Undriven d t true Registry.en_route_pickup (w.trip t).pickup_location w
