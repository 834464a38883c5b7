-- ===== src/Server/Decision.antt =====
-- `_compute_offer_decision`: whether a driver accepts, from its DNA, the surge, the rider's rating and
-- one draw of `random.random()`.
use rideshare_simulation_pla.Prelude.{Bool, if◌then◌else◌}
use rideshare_simulation_pla.Prelude.Ratio.{
  Ratio, add, multiply, divide, less_one, whole, ltb_ratio, leb_ratio,
}
use rideshare_simulation_pla.Agents.{DriverDna}

unfoldable pub surge_adjusted : DriverDna → Ratio → Ratio
surge_adjusted dna surge =
    if ltb_ratio (whole 1) surge
    then multiply dna.acceptance_rate
        (add (whole 1) (multiply (less_one surge) dna.surge_acceptance_modifier))
    else dna.acceptance_rate

unfoldable pub rating_adjusted : DriverDna → Ratio → Ratio → Ratio
rating_adjusted dna rider_rating rate =
    if ltb_ratio rider_rating dna.min_rider_rating
    then multiply rate (divide rider_rating dna.min_rider_rating)
    else rate

-- `min(1.0, rate)`.
abbrev pub at_most_one : Ratio → Ratio
at_most_one r = if leb_ratio r (whole 1) then r else whole 1

unfoldable pub adjusted_rate : DriverDna → Ratio → Ratio → Ratio
unfolding surge_adjusted rating_adjusted
adjusted_rate dna surge rider_rating =
    at_most_one (rating_adjusted dna rider_rating (surge_adjusted dna surge))

unfoldable pub compute_offer_decision : DriverDna → Ratio → Ratio → Ratio → Bool
compute_offer_decision dna surge rider_rating draw =
    ltb_ratio draw (adjusted_rate dna surge rider_rating)
