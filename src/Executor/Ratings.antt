-- ===== src/Executor/Ratings.antt =====
-- The ratings after a completed trip: services/simulation/src/agents/rating_logic.py, and
-- `submit_rating_for_trip` of both agents. The draw of `random.gauss` is rounded; a rounded draw below 0
-- counts as 0, since both are raised to 1.
use rideshare_simulation_pla.Prelude.{
  ℕ, ◌+◌, Bool, true, false, ◌||◌, min, max, leb, ◌==◌, if◌then◌else◌,
}
use rideshare_simulation_pla.Prelude.Ratio.{Ratio, ltb_ratio}
use rideshare_simulation_pla.Trip.{same_state, completed}
use rideshare_simulation_pla.Agents.{update_driver_rating, update_rider_rating}
use rideshare_simulation_pla.Agents.Statistics.{
  record_driver_rating_given, record_rider_rating_given,
}
use rideshare_simulation_pla.Prelude.{none, some}
use rideshare_simulation_pla.Server.{
  Server, M, done, ◌>>=◌, ◌>>◌, modify, change_rider, get_rider, set_driver,
}
use rideshare_simulation_pla.Server.Responses.{count_on}
use rideshare_simulation_pla.Server.Puppets.{when}
use rideshare_simulation_pla.Executor.{Surroundings, draw_below}

abbrev tenths : ℕ → Ratio
tenths n = record { num = n; den = 10 }

-- The mean and the deviation, by the factor; `service` is the source's `"service_quality"`.
unfoldable pub rating_mean : Bool → Ratio → Ratio
rating_mean service factor =
    if ltb_ratio factor (tenths 3)
    then tenths 35
    else if ltb_ratio factor (tenths 7)
    then tenths 42
    else if service
    then tenths 45
    else tenths 47

unfoldable pub rating_deviation : Bool → Ratio → Ratio
rating_deviation service factor =
    if ltb_ratio factor (tenths 3)
    then (if service then tenths 9 else tenths 8)
    else if ltb_ratio factor (tenths 7)
    then (if service then tenths 7 else tenths 6)
    else if service
    then tenths 5
    else tenths 4

abbrev pub clamp : ℕ → ℕ
clamp rating = max 1 (min 5 rating)

-- The share of the ratings of a value that are submitted.
abbrev pub submit_threshold : ℕ → Ratio
submit_threshold rating =
    if leb rating 2 || rating == 5
    then record { num = 85; den = 100 }
    else record { num = 60; den = 100 }

module _ (s : Surroundings) where
  open s use {gauss}

  unfoldable pub generate_rating_value : Bool → Ratio → M ℕ
  unfolding rating_mean rating_deviation
  generate_rating_value service factor w =
      done (clamp (gauss (rating_mean service factor) (rating_deviation service factor) w.draws))
        (record w { draws = w.draws + 1 })

  unfoldable pub should_submit_rating : ℕ → M Bool
  unfolding draw_below
  should_submit_rating rating = draw_below s (submit_threshold rating)

  -- What a rating does: to the rated agent, and to the statistics of the other one.
  abbrev pub rate_driver : ℕ → ℕ → ℕ → Server → Server
  rate_driver d t rating w =
      change_rider t (λ r. record r { statistics = record_rider_rating_given rating r.statistics })
        (set_driver d (update_driver_rating rating (w.driver d)) w)

  abbrev pub rate_rider : ℕ → ℕ → ℕ → Server → Server
  rate_rider d t rating w =
      count_on d (record_driver_rating_given rating) (change_rider t (update_rider_rating rating) w)

  unfoldable pub submit : Bool → Ratio → (ℕ → Server → Server) → M (Unit {0})
  unfolding generate_rating_value should_submit_rating
  submit service factor effect = do
    rating ← generate_rating_value service factor
    submitted ← should_submit_rating rating
    when submitted (modify (effect rating))

  unfoldable pub rider_submits_rating : ℕ → ℕ → M (Unit {0})
  unfolding submit
  rider_submits_rating d t w =
      when (same_state (w.trip t).state completed)
        (submit true (w.driver d).dna.service_quality (rate_driver d t)) w

  unfoldable pub driver_submits_rating : ℕ → ℕ → M (Unit {0})
  unfolding submit
  driver_submits_rating d t w = elim (get_rider (w.trip t).rider_id w) [
    | none ↦ done tt w
    | some r ↦
        when (same_state (w.trip t).state completed)
          (submit false r.behavior_factor (rate_rider d t)) w
  ]

  unfoldable pub submit_ratings : ℕ → ℕ → M (Unit {0})
  unfolding rider_submits_rating driver_submits_rating
  submit_ratings d t = do rider_submits_rating d t; driver_submits_rating d t
