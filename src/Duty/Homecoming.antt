-- ===== src/Duty/Homecoming.antt =====
-- What the end of a drive home does to a driver that has been given a trip meanwhile.
use rideshare_simulation_pla.Prelude.{ℕ, ◌≡◌, ◌==◌, ap, ◌∙◌, true, none, some, arith}
use rideshare_simulation_pla.Registry.{available, en_route_pickup}
use rideshare_simulation_pla.Registry.Accuracy.{IsAccurate}
use rideshare_simulation_pla.Agents.{accept_trip}
use rideshare_simulation_pla.Server.{Server, done, set_driver}
use rideshare_simulation_pla.Server.Responses.{driver_accepts}
use rideshare_simulation_pla.Server.Answers.{driver_status_changed-ok}
use rideshare_simulation_pla.Server.Puppets.{driver_turns}
use rideshare_simulation_pla.Duty.{comes_home, is_process}

comes_home-ends :
    (p d : ℕ) (v : Server)
    → IsAccurate v.fleet.registry
    → (v.driver d).reposition_process ≡ some p
    → (u : Server) × (comes_home p d v ≡ done tt u)
      × ((u.driver d).status ≡ available)
      × ((u.driver d).active_trip ≡ (v.driver d).active_trip)
unfolding comes_home driver_turns
comes_home-ends p d v a r =
    let back =
      set_driver d (record (v.driver d) { status = available; reposition_process = none }) v in
    let (g, h, c) = driver_status_changed-ok d available back a in
    let live = ap (is_process p) r ∙ same p in
    (record back { fleet = g }, rw (live, comes_home) h, ground arith, ground arith)
  where
    same : (n : ℕ) → (n == n) ≡ true
    same n = ground arith

-- A driver is driving home in process `p` when its acceptance of a trip is applied. The process is not
-- interrupted: where the counters are accurate, neither step raises an exception, and at the end of the
-- drive the driver is available although it has the trip.
pub comes_home-busy :
    (p d t : ℕ) (w : Server)
    → IsAccurate w.fleet.registry
    → (w.driver d).reposition_process ≡ some p
    → (v : Server) × (u : Server) × (driver_accepts d t w ≡ done tt v)
      × (comes_home p d v ≡ done tt u)
      × ((v.driver d).status ≡ en_route_pickup)
      × ((u.driver d).status ≡ available)
      × ((u.driver d).active_trip ≡ some t)
unfolding driver_accepts accept_trip
comes_home-busy p d t w a r =
    let taken = set_driver d (accept_trip t (w.driver d)) w in
    let (f, e, b) = driver_status_changed-ok d en_route_pickup taken a in
    let v = record taken { fleet = f } in
    let (u, h, status, trip) = comes_home-ends p d v b (ground (arith, r)) in
    (v, u, e, h, ground arith, status, trip ∙ ground arith)
