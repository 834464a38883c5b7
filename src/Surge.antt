-- ===== src/Surge.antt =====
-- services/simulation/src/matching/surge_pricing.py: the surge multiplier of each zone, from the pending
-- requests and the available drivers. The zone loader gives the list of zones; the event of a change is a
-- message in `updates`, and `has_producer` says whether there is a producer.
pub mod Pricing
use rideshare_simulation_pla.Prelude.{
  ℕ, zero, suc, ◌+◌, ◌-◌, ◌*◌, Bool, Option, none, some, List, [], ◌∷◌, ◌++◌, ◌==◌, ltb,
  if◌then◌else◌,
}
use rideshare_simulation_pla.Prelude.Dict.{Dict, lookup, insert}
use rideshare_simulation_pla.Prelude.Ratio.{Ratio, add, multiply, less_one, whole, leb_ratio}
use rideshare_simulation_pla.Registry.{DriverRegistry, available, get_zone_driver_count}

pub record SurgeUpdate : Type 0 where
  pub zone_id : ℕ
  pub previous_multiplier : Ratio
  pub new_multiplier : Ratio
  pub available_drivers : ℕ
  pub pending_requests : ℕ

pub record SurgeCalculator : Type 0 where
  pub has_producer : Bool
  pub current_surge : Dict Ratio
  pub pending_requests : Dict ℕ
  pub updates : List SurgeUpdate

abbrev pub half : Ratio
half = record { num = 1; den = 2 }

abbrev pub one_and_a_half : Ratio
one_and_a_half = record { num = 3; den = 2 }

abbrev pub two_and_a_half : Ratio
two_and_a_half = record { num = 5; den = 2 }

unfoldable pub calculate_multiplier : Ratio → Ratio
calculate_multiplier ratio =
    if leb_ratio ratio (whole 1)
    then whole 1
    else if leb_ratio ratio (whole 2)
    then add (whole 1) (multiply (less_one ratio) half)
    else if leb_ratio ratio (whole 3)
    then add one_and_a_half (multiply (less_one (less_one ratio)) (whole 1))
    else two_and_a_half

-- `_calculate_zone_surge`, up to the new multiplier.
unfoldable pub zone_multiplier : ℕ → ℕ → Ratio
unfolding calculate_multiplier
zone_multiplier pending zero = if ltb 0 pending then two_and_a_half else whole 1
zone_multiplier pending (suc n) = calculate_multiplier (record { num = pending; den = suc n })

abbrev pub or_else {ℓ} : {A : Type ℓ} → A → Option A → A
or_else a none = a
or_else a (some b) = b

-- Equality of two numbers that are given as fractions.
abbrev pub same_ratio : Ratio → Ratio → Bool
same_ratio a b = a.num * b.den == b.num * a.den

unfoldable pub get_surge : ℕ → SurgeCalculator → Ratio
get_surge zone_id s = or_else (whole 1) (lookup zone_id s.current_surge)

-- Only a changed multiplier is stored and announced.
unfoldable pub update_zone_surge : ℕ → Ratio → ℕ → ℕ → SurgeCalculator → SurgeCalculator
unfolding get_surge
update_zone_surge zone_id new_multiplier available_drivers pending s =
    if same_ratio new_multiplier (get_surge zone_id s) then s else record s {
      updates =
          if s.has_producer
          then s.updates
            ++ record {
              zone_id = zone_id;
              previous_multiplier = get_surge zone_id s;
              new_multiplier = new_multiplier;
              available_drivers = available_drivers;
              pending_requests = pending;
            }
              ∷ []
          else s.updates;
      current_surge = insert zone_id new_multiplier s.current_surge;
    }

abbrev pub pending_of : ℕ → SurgeCalculator → ℕ
pending_of zone_id s = or_else 0 (lookup zone_id s.pending_requests)

unfoldable pub calculate_zone_surge : DriverRegistry → ℕ → SurgeCalculator → SurgeCalculator
unfolding update_zone_surge zone_multiplier
calculate_zone_surge r zone_id s =
    let free = get_zone_driver_count zone_id available r in
    update_zone_surge zone_id (zone_multiplier (pending_of zone_id s) free) free
      (pending_of zone_id s) s

unfoldable pub calculate_surge_all_zones :
    DriverRegistry → List ℕ → SurgeCalculator → SurgeCalculator
unfolding calculate_zone_surge
calculate_surge_all_zones r [] s = s
calculate_surge_all_zones r (z ∷ zs) s = calculate_surge_all_zones r zs (calculate_zone_surge r z s)

unfoldable pub set_pending_requests : ℕ → ℕ → SurgeCalculator → SurgeCalculator
set_pending_requests zone_id count s = record s {
  pending_requests = insert zone_id count s.pending_requests;
}

unfoldable pub increment_pending_request : ℕ → SurgeCalculator → SurgeCalculator
increment_pending_request zone_id s = record s {
  pending_requests = insert zone_id (pending_of zone_id s + 1) s.pending_requests;
}

unfoldable pub decrement_pending_request : ℕ → SurgeCalculator → SurgeCalculator
decrement_pending_request zone_id s = elim (lookup zone_id s.pending_requests) [
  | none ↦ s
  | some n ↦
      if ltb 0 n
      then record s { pending_requests = insert zone_id (n - 1) s.pending_requests }
      else s
]

unfoldable pub clear : SurgeCalculator → SurgeCalculator
clear s = record s { current_surge = []; pending_requests = [] }
