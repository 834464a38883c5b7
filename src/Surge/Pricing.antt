-- ===== src/Surge/Pricing.antt =====
-- The multiplier between its bounds, and the zones after a round of the loop.
use rideshare_simulation_pla.Prelude.{
  ◌+◌, ◌-◌, ℕ, zero, suc, ◌*◌, ◌≡◌, refl, true, false, List, [], ◌∷◌, ◌==◌, ltb, leb, if◌then◌else◌,
  arith, Bool-cases, ◌⊎◌, inl, inr, ◌≢◌,
}
use rideshare_simulation_pla.Prelude.Dict.{insert, lookup-insert}
use rideshare_simulation_pla.Prelude.IdSet.{member}
use rideshare_simulation_pla.Prelude.Ratio.{whole, leb_ratio}
use rideshare_simulation_pla.Registry.{DriverRegistry, available, get_zone_driver_count}
use rideshare_simulation_pla.Surge.{
  increment_pending_request, decrement_pending_request, SurgeCalculator, calculate_multiplier,
  zone_multiplier, get_surge, update_zone_surge, calculate_zone_surge, calculate_surge_all_zones,
  pending_of, same_ratio, two_and_a_half,
}

-- The multiplier of a zone is at least 1 and at most 2.5, with any number of requests and drivers. It is
-- 1 if and only if there are no more requests than available drivers, and 2.5 if and
-- only if there are requests and at least three times as many as drivers.
pub zone_multiplier_lem :
    (pending n : ℕ)
    → (leb_ratio (whole 1) (zone_multiplier pending n) ≡ true)
      × (leb_ratio (zone_multiplier pending n) two_and_a_half ≡ true)
      × (same_ratio (zone_multiplier pending n) (whole 1) ≡ leb pending n)
      × (same_ratio (zone_multiplier pending n) two_and_a_half
          ≡ (if leb (n * 3) pending then ltb 0 pending else false))
unfolding zone_multiplier calculate_multiplier
zone_multiplier_lem pending zero = ground arith
zone_multiplier_lem pending (suc n) = ground arith

-- One zone's round: no request is counted, and no other zone's multiplier changes.
record AfterZone (r : DriverRegistry) (z : ℕ) (s s' : SurgeCalculator) : Type 0 where
  requests : s'.pending_requests ≡ s.pending_requests
  others : (x : ℕ) → z ≢ x → get_surge x s' ≡ get_surge x s
  priced :
      same_ratio
        (zone_multiplier (pending_of z s) (get_zone_driver_count z available r))
        (get_surge z s')
      ≡ true

calculate_zone_surge-AfterZone :
    (r : DriverRegistry) (z : ℕ) (s : SurgeCalculator)
    → AfterZone r z s (calculate_zone_surge r z s)
unfolding calculate_zone_surge update_zone_surge get_surge
calculate_zone_surge-AfterZone r z s =
    let m = zone_multiplier (pending_of z s) (get_zone_driver_count z available r) in
    elim (Bool-cases (same_ratio m (get_surge z s))) [
      | inl e ↦
          rw (e, update_zone_surge) (record { requests = refl; others = λ x ne. refl; priced = e })
      | inr e ↦
          rw (e, update_zone_surge)
            (record {
              requests = refl;
              others = λ x ne. ground (arith, lookup-insert x z m s.current_surge);
              priced = ground (arith, lookup-insert z z m s.current_surge);
            })
    ]

-- The multiplier that a zone should have.
abbrev IsPriced : DriverRegistry → ℕ → SurgeCalculator → Type 0
IsPriced r x s =
    same_ratio (zone_multiplier (pending_of x s) (get_zone_driver_count x available r))
      (get_surge x s)
    ≡ true

stays-IsPriced :
    (r : DriverRegistry) (z x : ℕ) (s : SurgeCalculator)
    → (z ≡ x) ⊎ ((z ≢ x) × IsPriced r x s)
    → IsPriced r x (calculate_zone_surge r z s)
unfolding calculate_zone_surge
stays-IsPriced r z x s (inl e) =
    let a = calculate_zone_surge-AfterZone r z s in rw (← e) (rw (a.requests) (a.priced))
stays-IsPriced r z x s (inr (ne, p)) =
    let a = calculate_zone_surge-AfterZone r z s in rw (a.others x ne, a.requests) p

round-IsPriced :
    (r : DriverRegistry) (zs : List ℕ) (x : ℕ) (s : SurgeCalculator)
    → IsPriced r x s ⊎ (member x zs ≡ true)
    → IsPriced r x (calculate_surge_all_zones r zs s)
unfolding calculate_surge_all_zones member
round-IsPriced r [] x s (inl p) = p
round-IsPriced r [] x s (inr m) = ground arith
round-IsPriced r (z ∷ zs) x s h = elim (Bool-cases (z == x)) [
  | inl e ↦
      round-IsPriced r zs x (calculate_zone_surge r z s)
        (inl (stays-IsPriced r z x s (inl (ground arith))))
  | inr e ↦ round-IsPriced r zs x (calculate_zone_surge r z s) (go (ground arith) (ground arith) h)
]
  where
    go :
        z ≢ x
        → (z == x) ≡ false
        → IsPriced r x s ⊎ ((if z == x then true else member x zs) ≡ true)
        → IsPriced r x (calculate_zone_surge r z s) ⊎ (member x zs ≡ true)
    go ne e (inl p) = inl (stays-IsPriced r z x s (inr (ne, p)))
    go ne e (inr m) = inr (ground arith)

-- After a round over the zones, the multiplier of each of them is the one for its pending requests and its
-- available drivers, as the registry counts them, whatever the multipliers were before.
pub calculate_surge_all_zones_lem :
    (r : DriverRegistry) (zs : List ℕ) (x : ℕ) (s : SurgeCalculator)
    → member x zs ≡ true
    → same_ratio
        (zone_multiplier
          (pending_of x (calculate_surge_all_zones r zs s))
          (get_zone_driver_count x available r))
        (get_surge x (calculate_surge_all_zones r zs s))
      ≡ true
calculate_surge_all_zones_lem r zs x s m = round-IsPriced r zs x s (inr m)

counted_back :
    (z x : ℕ) (s : SurgeCalculator)
    → pending_of x (decrement_pending_request z (increment_pending_request z s)) ≡ pending_of x s
unfolding decrement_pending_request increment_pending_request
counted_back z x s =
    let n = pending_of z s in
    let once = insert z (n + 1) s.pending_requests in
    ground (
      arith,
      lookup-insert z z (n + 1) s.pending_requests,
      lookup-insert x z (n + 1) s.pending_requests,
      lookup-insert x z (n + 1 - 1) once,
    )
