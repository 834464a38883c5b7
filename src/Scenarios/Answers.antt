-- ===== src/Scenarios/Answers.antt =====
-- The theorems on answers and endings at concrete states.
use rideshare_simulation_pla.Prelude.{
  ℕ, ◌+◌, ◌≡◌, refl, arith, true, false, none, some, [], ◌∷◌, if◌then◌else◌, ◌==◌, min,
}
use rideshare_simulation_pla.Prelude.Dict.{lookup}
use rideshare_simulation_pla.Prelude.IdSet.{member}
use rideshare_simulation_pla.Prelude.Ratio.{whole}
use rideshare_simulation_pla.Trip.{offer_sent, completed, cancel, system, patience_timeout, value}
use rideshare_simulation_pla.Server.{Server, done}
use rideshare_simulation_pla.Server.Responses.{
  deferred_offer_response, apply_acceptance, handle_offer_expired,
}
use rideshare_simulation_pla.Server.Endings.{
  complete_trip, cancel_trip, resolve_reason, get_trip_stats,
}
use rideshare_simulation_pla.Server.Answers.{Matched, apply_acceptance-Matched}
use rideshare_simulation_pla.Server.Ended.{Goes, Freed}
use rideshare_simulation_pla.Server.Refusals.{handle_offer_expired-Goes}
use rideshare_simulation_pla.Server.Closing.{
  IsBounded, Unreserved, complete_trip_lem, cancel_trip-closed,
}
use rideshare_simulation_pla.Server.Averages.{complete_all, fares, avg_fare_drifts}
use rideshare_simulation_pla.Server.Stale.{stale_acceptance}
use rideshare_simulation_pla.Server.{PendingOffer}
use rideshare_simulation_pla.Trip.{en_route_pickup}
use rideshare_simulation_pla.Prelude.Dict.{insert}
use rideshare_simulation_pla.Server.Timeouts.{
  TimedOffer, OfferTimeouts, fire, clear_offer, start_offer_timeout,
}
use rideshare_simulation_pla.Server.Timers.{Managed, starts, idle, Managed-fire}
use rideshare_simulation_pla.Server.Puppets.{process_puppet_accept}
use rideshare_simulation_pla.Server.PuppetAnswers.{process_puppet_accept_lem}
use rideshare_simulation_pla.Registry
use rideshare_simulation_pla.Trip.{offer_expired, offer_rejected}
use rideshare_simulation_pla.Server.Responses.{apply_rejection}
use rideshare_simulation_pla.Server.Refusals.{apply_rejection-Goes}
use rideshare_simulation_pla.Server.Responding.{Responded, deferred_offer_response-Responded}
use rideshare_simulation_pla.Scenarios.Data.{
  a_server, a_driver, draw, quiet, asking, outside, late_answer, two_drivers-IsAccurate,
}

apply_acceptance-Matched_example :
    (w' : Server) × (apply_acceptance 2 1 asking ≡ done tt w') × Matched 2 1 asking w'
apply_acceptance-Matched_example = apply_acceptance-Matched 2 1 asking refl two_drivers-IsAccurate

handle_offer_expired-Goes_example :
    (v : Server) × (w' : Server) × (handle_offer_expired draw 1 2 asking ≡ done tt w')
    × Freed 2 asking v
    × (v.counters.offers_expired ≡ asking.counters.offers_expired + 1)
    × Goes offer_expired 1 v w'
unfolding member
handle_offer_expired-Goes_example = handle_offer_expired-Goes draw 1 2 asking refl refl

cancel_trip-closed_example :
    (w' : Server) × (cancel_trip 1 system patience_timeout asking ≡ done tt w')
    × (w'.trip 1
        ≡ cancel system
            (resolve_reason (asking.trip 1).offer_sequence patience_timeout)
            (value (asking.trip 1).state)
            (asking.trip 1))
    × ((x : ℕ) → w'.trip x ≡ (if 1 == x then w'.trip 1 else asking.trip x))
    × (member 1 w'.active_trips ≡ false)
    × (lookup 1 w'.candidates ≡ none)
    × (lookup 1 w'.retry_queue ≡ none)
unfolding member
cancel_trip-closed_example =
    cancel_trip-closed 1 system patience_timeout asking refl two_drivers-IsAccurate

complete_trip_lem_example :
    IsBounded (complete_trip 2 true quiet)
    × ((x : ℕ)
        → member x (complete_trip 2 true quiet).active_trips
          ≡ (if 2 == x then false else member x quiet.active_trips))
    × Unreserved true (quiet.trip 2).driver_id (complete_trip 2 true quiet)
complete_trip_lem_example = complete_trip_lem 2 true quiet (ground arith)

deferred_offer_response-Responded_example :
    (w' : Server) × (deferred_offer_response draw late_answer asking ≡ done tt w')
    × Responded late_answer asking w'
deferred_offer_response-Responded_example =
    deferred_offer_response-Responded draw late_answer asking two_drivers-IsAccurate

-- Trip 1 has an offer out to driver 2, and every driver is on trip 2, which is active.
abbrev on_another : Server
on_another = record (a_server offer_sent (1 ∷ 2 ∷ []) (2 ∷ [])) {
  driver = λ d. record (a_driver) { active_trip = some 2 };
}

stale_acceptance_example :
    (w' : Server) × (deferred_offer_response draw late_answer on_another ≡ done tt w')
    × (member 2 w'.reserved ≡ true)
    × (lookup 1 w'.timeouts.pending_offers ≡ none)
    × ((w'.trip 1).driver_id ≡ some 1)
    × (member 1 w'.active_trips ≡ true)
    × (w'.trip 2 ≡ on_another.trip 2)
    × ((w'.trip 2).driver_id ≡ some 1)
    × (member 2 w'.active_trips ≡ true)
    × ((w'.driver 1).active_trip ≡ some 1)
unfolding member lookup
stale_acceptance_example =
    stale_acceptance draw late_answer
      (record { driver_id = 2; offer_sequence = 2; timeout_process = 0 }) 2 on_another refl refl
      refl refl two_drivers-IsAccurate refl (ground arith) refl (ground arith) refl refl refl

abbrev all_ended : Server
all_ended = record quiet { trip = λ t. record (quiet.trip t) { state = completed } }

avg_fare_drifts_example :
    (get_trip_stats (complete_all (1 ∷ 2 ∷ 3 ∷ []) all_ended)).avg_fare
    ≡ (fares (1 ∷ 2 ∷ 3 ∷ []) all_ended.trip, min 3 2)
avg_fare_drifts_example = avg_fare_drifts (1 ∷ 2 ∷ 3 ∷ []) all_ended (ground arith) refl refl

abbrev started_once : OfferTimeouts
started_once = record {
  timeout_seconds = 15;
  pending_offers = (1, record { driver_id = 2; offer_sequence = 1; timeout_process = 0 }) ∷ [];
  running = record { process = 0; trip_id = 1; due = 115 } ∷ [];
  next_process = 1;
}

started_once-Managed : Managed 15 started_once
unfolding start_offer_timeout lookup insert
started_once-Managed = starts 100 1 2 1 refl idle

Managed-fire_example :
    (o : TimedOffer) × (lookup 1 started_once.pending_offers ≡ some o)
    × (o.timeout_process ≡ 0)
    × (fire (record { process = 0; trip_id = 1; due = 115 }) started_once
        ≡ (clear_offer 1 started_once, some o.driver_id))
Managed-fire_example =
    Managed-fire 15 [] [] (record { process = 0; trip_id = 1; due = 115 }) started_once
      started_once-Managed refl

abbrev puppet_offer : PendingOffer
puppet_offer = record {
  trip_id = 1;
  surge_multiplier = whole 1;
  rider_rating = whole 5;
  eta_seconds = 120;
}

abbrev waiting_puppet : Server
waiting_puppet = record asking { pending_offers = (2, puppet_offer) ∷ [] }

process_puppet_accept_lem_example :
    (w' : Server) × (process_puppet_accept outside 2 1 waiting_puppet ≡ done tt w')
    × ((w'.trip 1).state ≡ en_route_pickup)
    × ((w'.trip 1).driver_id ≡ some 2)
    × ((w'.driver 2).active_trip ≡ some 1)
    × ((w'.driver 2).status ≡ Registry.en_route_pickup)
    × ((e : ℕ)
        → member e w'.reserved ≡ (if 2 == e then false else member e waiting_puppet.reserved))
    × (lookup 2 w'.pending_offers ≡ none)
unfolding member lookup
process_puppet_accept_lem_example =
    process_puppet_accept_lem outside 2 1 puppet_offer waiting_puppet refl refl refl refl
      two_drivers-IsAccurate

apply_rejection-Goes_example :
    (v : Server) × (w' : Server) × (apply_rejection draw 2 1 asking ≡ done tt w')
    × Freed 2 asking v
    × (v.counters.offers_rejected ≡ asking.counters.offers_rejected + 1)
    × Goes offer_rejected 1 v w'
apply_rejection-Goes_example = apply_rejection-Goes draw 1 2 asking refl
