-- ===== src/Server/Responses.antt =====
-- The answers of matching_server.py: a driver's deferred response, the expiry of an offer, and the SimPy
-- thread's turn at the queues.
use rideshare_simulation_pla.Prelude.{
  ℕ, ◌+◌, ◌-◌, Bool, true, false, not, ◌&&◌, ◌||◌, none, some, List, [], ◌∷◌, ◌++◌, leb, ltb,
  if◌then◌else◌,
}
use rideshare_simulation_pla.Prelude.Dict.{Dict, lookup, insert, erase}
use rideshare_simulation_pla.Prelude.IdSet.{member}
use rideshare_simulation_pla.Prelude.Ratio.{Ratio}
use rideshare_simulation_pla.Trip.{offer_expired, offer_rejected, driver_assigned, is_offer_sent}
use rideshare_simulation_pla.Registry.{available, en_route_pickup}
use rideshare_simulation_pla.Index
use rideshare_simulation_pla.Agents.{accept_trip}
use rideshare_simulation_pla.Agents.Statistics.{
  DriverStatistics, record_offer_accepted, record_offer_rejected, record_offer_expired,
}
use rideshare_simulation_pla.Server.{
  Server, M, done, ◌>>◌, modify, transition, emit, get_rider, driver_status_changed, set_driver,
  set_trip, release, Deferred, QueuedTimeout, trip_state,
}
use rideshare_simulation_pla.Server.Timeouts.{Timer, start_offer_timeout, fire, clear_offer}
use rideshare_simulation_pla.Server.Offers.{continue_deferred_offer_cycle}

abbrev pub count_on : ℕ → (DriverStatistics → DriverStatistics) → Server → Server
count_on d f w = set_driver d (record (w.driver d) { statistics = f (w.driver d).statistics }) w

abbrev pub accepted_counted : Server → Server
accepted_counted w = record w {
  counters = record (w.counters) { offers_accepted = w.counters.offers_accepted + 1 };
}

abbrev pub rejected_counted : Server → Server
rejected_counted w = record w {
  counters = record (w.counters) { offers_rejected = w.counters.offers_rejected + 1 };
}

abbrev pub expired_counted : Server → Server
expired_counted w = record w {
  counters = record (w.counters) { offers_expired = w.counters.offers_expired + 1 };
}

-- `driver.accept_trip(trip_id)`: the driver, then the registries.
unfoldable pub driver_accepts : ℕ → ℕ → M (Unit {0})
driver_accepts d t = do
  modify (λ w. set_driver d (accept_trip t (w.driver d)) w)
  driver_status_changed d en_route_pickup

-- `driver_index.update_driver_status(driver_id, "available")`.
unfoldable pub index_available : ℕ → Server → Server
index_available d w = record w {
  fleet = record (w.fleet) { index = Index.update_driver_status d available w.fleet.index };
}

-- `_start_trip_execution_internal`: no executor without a registry manager or the rider.
unfoldable pub start_trip_execution_internal : ℕ → ℕ → Server → Server
start_trip_execution_internal d t w = elim (get_rider (w.trip t).rider_id w) [
  | none ↦ w
  | some r ↦ record w { executions = w.executions ++ (d, t) ∷ [] }
]

-- `decrement_pending_request` of the surge calculator, for the zone of the trip.
unfoldable pub request_served : ℕ → Server → Server
request_served t w =
    if w.config.has_surge_calculator
    then elim (lookup (w.trip t).pickup_zone_id w.pending_requests) [
      | none ↦ w
      | some n ↦
          if ltb 0 n
          then record w {
            pending_requests = insert (w.trip t).pickup_zone_id (n - 1) w.pending_requests;
          }
          else w
    ]
    else w

abbrev pub taken_by : ℕ → ℕ → Server → Server
taken_by d t w =
    let counted = accepted_counted (count_on d record_offer_accepted w) in
    set_trip t (record (counted.trip t) { driver_id = some d }) counted

abbrev pub matched_now : ℕ → Server → Server
matched_now t w = set_trip t (record (w.trip t) { matched_at = some w.now }) w

abbrev pub forget_candidates : ℕ → Server → Server
forget_candidates t w = record w { candidates = erase t w.candidates }

-- The event, the reservation, the surge's request, the candidates, the executor.
unfoldable pub settled : ℕ → ℕ → Server → Server
unfolding start_trip_execution_internal request_served
settled d t w =
    let told =
      emit (trip_state driver_assigned) t (w.trip t).driver_id (w.trip t).offer_sequence w in
    start_trip_execution_internal d t (forget_candidates t (request_served t (release d told)))

unfoldable pub apply_acceptance : ℕ → ℕ → M (Unit {0})
unfolding driver_accepts settled
apply_acceptance d t = do
  driver_accepts d t
  modify (taken_by d t)
  transition t driver_assigned
  modify (λ w. settled d t (matched_now t w))

-- The test on the timeout manager, which is there exactly if the producer is.
unfoldable pub clear_timeout : ℕ → Server → Server
clear_timeout t w =
    if w.config.has_kafka then record w { timeouts = clear_offer t w.timeouts } else w

-- `start_pending_trip_executions`, but for the retries: the queued answers become processes, then the
-- queued timeouts, then the queued executions.
unfoldable pub start_timeouts : List QueuedTimeout → Server → Server
start_timeouts [] w = w
start_timeouts (q ∷ qs) w = start_timeouts qs (
    if w.config.has_kafka
    then record w {
      timeouts = start_offer_timeout w.now q.trip_id q.driver_id q.offer_sequence w.timeouts;
    }
    else w)

unfoldable pub start_executions : List (ℕ × ℕ) → Server → Server
unfolding start_trip_execution_internal
start_executions [] w = w
start_executions ((d, t) ∷ rest) w = start_executions rest (start_trip_execution_internal d t w)

unfoldable pub any_due : ℕ → Dict ℕ → Bool
any_due now [] = false
any_due now ((k, at) ∷ q) = leb at now || any_due now q

-- The coroutine that is put on the event loop is counted in `retries_scheduled`.
unfoldable pub schedule_pending_retries : Server → Server
unfolding any_due
schedule_pending_retries w =
    if not w.retry_in_progress && any_due w.now w.retry_queue && w.config.has_event_loop
    then record w { retry_in_progress = true; retries_scheduled = w.retries_scheduled + 1 }
    else w

unfoldable pub start_pending_trip_executions : Server → Server
unfolding start_timeouts start_executions schedule_pending_retries
start_pending_trip_executions w =
    let taken = record w {
      responses = w.responses ++ w.deferred_offers;
      deferred_offers = [];
      offer_timeouts = [];
      pending_trip_executions = [];
    } in
    schedule_pending_retries
      (start_executions w.pending_trip_executions (start_timeouts w.offer_timeouts taken))

-- `_start_trip_execution`: only queued.
unfoldable pub start_trip_execution : ℕ → ℕ → Server → Server
start_trip_execution d t w = record w {
  pending_trip_executions = w.pending_trip_executions ++ (d, t) ∷ [];
}

module _ (random : ℕ → Ratio) where
  unfoldable pub apply_rejection : ℕ → ℕ → M (Unit {0})
  unfolding index_available
  apply_rejection d t = do
    modify (λ w. rejected_counted (count_on d record_offer_rejected w))
    modify (λ w. index_available d (release d w))
    transition t offer_rejected
    modify (λ w. emit (trip_state offer_rejected) t (some d) (w.trip t).offer_sequence w)
    continue_deferred_offer_cycle random t

  -- The driver's think time is over: the decision that was made with the offer is applied.
  unfoldable pub deferred_offer_response : Deferred → M (Unit {0})
  unfolding apply_acceptance apply_rejection clear_timeout
  deferred_offer_response r w =
      if is_offer_sent (w.trip r.trip_id).state
      then (let answered = clear_timeout r.trip_id w in
          if member r.trip_id w.active_trips
          then (if r.accepted
              then apply_acceptance r.driver_id r.trip_id answered
              else apply_rejection r.driver_id r.trip_id answered)
          else done tt (release r.driver_id answered))
      else done tt (release r.driver_id w)

  unfoldable pub expire_trip : ℕ → ℕ → M (Unit {0})
  expire_trip t d = do
    transition t offer_expired
    modify (λ w. emit (trip_state offer_expired) t (some d) (w.trip t).offer_sequence w)
    continue_deferred_offer_cycle random t

  -- `_handle_offer_expired`. The driver's counter moves only if the server knows the driver.
  unfoldable pub handle_offer_expired : ℕ → ℕ → M (Unit {0})
  unfolding expire_trip index_available
  handle_offer_expired t d w =
      let counted =
        expired_counted (if member d w.registered then count_on d record_offer_expired w else w) in
      let freed = index_available d (release d counted) in
      if member t w.active_trips
      then (if is_offer_sent (w.trip t).state then expire_trip t d freed else done tt freed)
      else done tt (record freed { candidates = erase t freed.candidates })

  -- A timer of the timeout manager runs out: the callback, if its trip still has a pending offer.
  unfoldable pub timer_fires : Timer → M (Unit {0})
  unfolding handle_offer_expired
  timer_fires timer w =
      let fired = fire timer w.timeouts in
      elim fired.1 [
        | none ↦ done tt (record w { timeouts = fired.0 })
        | some d ↦ handle_offer_expired timer.trip_id d (record w { timeouts = fired.0 })
      ]
