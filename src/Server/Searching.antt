-- ===== src/Server/Searching.antt =====
-- What the search for drivers answers, and in what order they are asked.
use rideshare_simulation_pla.Prelude.{
  ℕ, zero, suc, ◌≤◌, ◌≡◌, inl, inr, true, List, [], ◌∷◌, ◌++◌, arith, Option-cases, length, take,
  All,
}
use rideshare_simulation_pla.Prelude.IdSet.{member}
use rideshare_simulation_pla.Trip.{Location}
use rideshare_simulation_pla.Index
use rideshare_simulation_pla.Server.{Server}
use rideshare_simulation_pla.Server.Asking.{IsFree}
use rideshare_simulation_pla.Server.Search.{
  Found, Timed, Outside, eligible, valid_drivers, fetch_route, fetch_routes, find_nearby_drivers,
  matchable,
}

-- A driver that may be asked: known to the server, neither reserved nor on a trip.
abbrev pub CanBeAsked : Server → ℕ → Type 0
CanBeAsked w d = (member d w.registered ≡ true) × IsFree d w

abbrev AllFound : Server → List Found → Type 0
AllFound w = All (λ f. CanBeAsked w f.driver_id)

abbrev pub AllTimed : Server → List Timed → Type 0
AllTimed w = All (λ t. CanBeAsked w t.driver_id × (t.eta_seconds ≤ 900))

eligible-AllFound :
    (w : Server) (d : ℕ) (fs : List Found) → AllFound w fs → AllFound w (eligible w d ++ fs)
unfolding eligible
eligible-AllFound w d fs a = ground arith

valid_drivers-AllFound : (w : Server) (ds : List (ℕ × ℕ)) → AllFound w (valid_drivers w ds)
unfolding valid_drivers
valid_drivers-AllFound w [] = tt
valid_drivers-AllFound w ((d, m) ∷ ds) =
    eligible-AllFound w d (valid_drivers w ds) (valid_drivers-AllFound w ds)

take-AllFound : (w : Server) (n : ℕ) (fs : List Found) → AllFound w fs → AllFound w (take n fs)
take-AllFound w zero fs a = tt
take-AllFound w (suc n) [] a = tt
take-AllFound w (suc n) (f ∷ fs) a = (a.0, take-AllFound w n fs a.1)

length-take_le : (n : ℕ) (fs : List Found) → length (take n fs) ≤ n
length-take_le zero fs = omega arith
length-take_le (suc n) [] = omega arith
length-take_le (suc n) (f ∷ fs) = omega (arith, length-take_le n fs)

module _ (o : Outside) where
  fetch_routes-AllTimed :
      (l : Location) (w : Server) (fs : List Found)
      → AllFound w fs
      → AllTimed w (fetch_routes o l 900 fs) × (length (fetch_routes o l 900 fs) ≤ length fs)
  unfolding fetch_routes fetch_route
  fetch_routes-AllTimed l w [] a = (tt, omega arith)
  fetch_routes-AllTimed l w (f ∷ fs) a = ground (arith, fetch_routes-AllTimed l w fs a.1)

  -- Every driver that the search answers is known to the server, neither reserved nor on a trip, and at
  -- most 900 seconds away; and there are no more of them than the limit on routes.
  pub find_nearby_drivers-AllTimed :
      (l : Location) (w : Server)
      → AllTimed w (find_nearby_drivers o l w)
        × (length (find_nearby_drivers o l w) ≤ w.config.osrm_candidate_limit)
  unfolding find_nearby_drivers
  find_nearby_drivers-AllTimed l w =
      elim (Option-cases (Index.find_nearest_drivers o.grid l 10000 matchable w.fleet.index)) [
        | inl e ↦ rw (e, find_nearby_drivers) (tt, omega arith)
        | inr (near, e) ↦
            (let fs = take w.config.osrm_candidate_limit (valid_drivers w near) in
              let r =
                fetch_routes-AllTimed l w fs
                  (take-AllFound w _ _ (valid_drivers-AllFound w near)) in
              rw (e, find_nearby_drivers)
                (
                  r.0,
                  omega (
                    arith,
                    r.1,
                    length-take_le w.config.osrm_candidate_limit (valid_drivers w near),
                  ),
                ))
      ]
