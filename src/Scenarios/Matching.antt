-- ===== src/Scenarios/Matching.antt =====
-- The theorems on the matching server at concrete states.
use rideshare_simulation_pla.Prelude.{
  ◌≤◌, ◌≡◌, refl, ◌⊎◌, inl, inr, map, arith, true, List, [], ◌∷◌, length,
}
use mathlib.Core.List.{Perm}
use rideshare_simulation_pla.Prelude.IdSet.{member}
use rideshare_simulation_pla.Prelude.Ratio.{whole, ltb_ratio}
use rideshare_simulation_pla.Server.Scores.{nearer_scores_better}
use rideshare_simulation_pla.Trip.{
  Trip, requested, offer_sent, driver_assigned, in_transit, completed, cancelled, cancel, system,
  system_pause, patience_timeout,
}
use rideshare_simulation_pla.Trip.Graph.{fresh}
use rideshare_simulation_pla.Server
use rideshare_simulation_pla.Trip
use rideshare_simulation_pla.Server.{Server, Outcome, done, after, release, Ranked}
use rideshare_simulation_pla.Server.Offers.{send_offer, skipped, continue_deferred_offer_cycle}
use rideshare_simulation_pla.Server.Search.{
  Timed, composite_score, request_match, retry_trip, find_nearby_drivers, rank_drivers,
}
use rideshare_simulation_pla.Server.Cycle.{SendEnds, send_offer_lem, send_offer-exclusive}
use rideshare_simulation_pla.Server.Asking.{to_ask}
use rideshare_simulation_pla.Server.CycleEnds.{CycleEnds}
use rideshare_simulation_pla.Server.Rounds.{continue_deferred_offer_cycle-CycleEnds}
use rideshare_simulation_pla.Server.Retries.{RetryEnds}
use rideshare_simulation_pla.Server.Requests.{Waits, FirstOffer, request_match_lem, retry_trip_lem}
use rideshare_simulation_pla.Server.Searching.{AllTimed, find_nearby_drivers-AllTimed}
use rideshare_simulation_pla.Server.Ranking.{IsRanked, scored, rank_drivers_lem}
use rideshare_simulation_pla.Server.{PendingOffer}
use rideshare_simulation_pla.Trip.{en_route_pickup}
use rideshare_simulation_pla.Trip.{offer_expired, offer_rejected}
use rideshare_simulation_pla.Scenarios.Data.{a_driver, draw, quiet, outside, a_request, centre}

abbrev ranking : List Ranked
ranking =
    record { driver_id = 1; eta_seconds = 60; score = whole 1 }
    ∷ record { driver_id = 2; eta_seconds = 90; score = whole 0 }
    ∷ []

request_match_lem_example :
    (w' : Server) × (request_match outside a_request quiet ≡ done tt w')
    × (member 3 w'.active_trips ≡ true)
    × (Waits 3 quiet w' ⊎ FirstOffer 3 quiet w')
request_match_lem_example = request_match_lem outside a_request quiet

retry_trip_lem_example :
    (w' : Server) × (retry_trip outside 100 1 quiet ≡ done tt w') × RetryEnds outside 1 quiet w'
retry_trip_lem_example = retry_trip_lem outside 1 quiet fresh

send_offer_lem_example : SendEnds 1 1 quiet (send_offer draw 1 1 3 60 quiet)
send_offer_lem_example = send_offer_lem draw 1 1 3 60 quiet

continue_deferred_offer_cycle-CycleEnds_example :
    CycleEnds (to_ask 1 quiet) 1 quiet (continue_deferred_offer_cycle draw 1 quiet)
continue_deferred_offer_cycle-CycleEnds_example =
    continue_deferred_offer_cycle-CycleEnds draw 1 quiet fresh

find_nearby_drivers-AllTimed_example :
    AllTimed quiet (find_nearby_drivers outside centre quiet)
    × (length (find_nearby_drivers outside centre quiet) ≤ 5)
find_nearby_drivers-AllTimed_example = find_nearby_drivers-AllTimed outside centre quiet

abbrev timed : List Timed
timed = record { driver_id = 1; eta_seconds = 60 } ∷ record { driver_id = 2; eta_seconds = 30 } ∷ []

rank_drivers_lem_example :
    Perm (rank_drivers quiet timed) (map (scored quiet 30 60) timed)
    × IsRanked (rank_drivers quiet timed)
rank_drivers_lem_example =
    rank_drivers_lem quiet timed 30 60 (ground arith) (inr (inl refl)) (inl refl)

nearer_scores_better_example :
    ltb_ratio
      (composite_score quiet.config 30 60 (record { driver_id = 1; eta_seconds = 60 }) a_driver)
      (composite_score quiet.config 30 60 (record { driver_id = 2; eta_seconds = 30 }) a_driver)
    ≡ true
nearer_scores_better_example =
    nearer_scores_better quiet.config 30 60 (record { driver_id = 2; eta_seconds = 30 })
      (record { driver_id = 1; eta_seconds = 60 }) a_driver a_driver (omega arith) (omega arith)
      (omega arith) refl refl (ground arith)

abbrev offered_once : Server
unfolding send_offer member Server.transition Trip.transition_to
offered_once = after (send_offer draw 1 1 3 60 quiet)

send_offer-exclusive_example : send_offer draw 1 2 1 60 offered_once ≡ done skipped offered_once
unfolding send_offer member Server.transition Trip.transition_to
send_offer-exclusive_example = send_offer-exclusive draw 1 1 3 60 quiet offered_once refl 2 1 60
