-- ===== src/Server/Offers.antt =====
-- The offer cycle of matching_server.py: one offer, the next candidate, and the loop over them.
use rideshare_simulation_pla.Prelude.{
  ℕ, zero, suc, ◌+◌, ◌||◌, Option, none, some, List, [], ◌∷◌, ◌++◌, leb, is_some, length,
  if◌then◌else◌,
}
use rideshare_simulation_pla.Prelude.Dict.{lookup, insert, erase}
use rideshare_simulation_pla.Prelude.IdSet.{member, add}
use rideshare_simulation_pla.Prelude.Ratio.{Ratio, whole}
use rideshare_simulation_pla.Trip.{offer_sent}
use rideshare_simulation_pla.Agents.{Rider, update_trip_state}
use rideshare_simulation_pla.Agents.Statistics.{record_offer_received}
use rideshare_simulation_pla.Server.{
  Server, M, done, raised, no_fuel, ◌>>◌, return, modify, transition, emit, get_rider, change_rider,
  set_driver, Ranked, Candidates, trip_state, no_drivers,
}
use rideshare_simulation_pla.Server.Decision.{compute_offer_decision}

-- `None`: the driver was passed over. `False`: the offer is out.
pub data Sent : Type 0 where
  skipped waiting : Sent

-- `self._offers_sent += 1` and the driver's own counter.
abbrev pub offer_counted : ℕ → Server → Server
offer_counted d w =
    let counted = record w {
      counters = record (w.counters) { offers_sent = w.counters.offers_sent + 1 };
    } in
    set_driver d
      (record (w.driver d) { statistics = record_offer_received (w.driver d).statistics }) counted

abbrev pub rating_of : Option Rider → Ratio
rating_of none = whole 5
rating_of (some r) = r.current_rating

abbrev pub no_more : ℕ → Server → Option Ranked × Server
no_more t w = (none, record w { candidates = erase t w.candidates })

unfoldable pub next_of : ℕ → Candidates → List Ranked → Server → Option Ranked × Server
next_of t c [] w = no_more t w
next_of t c (r ∷ rs) w = if leb c.max_attempts c.current_attempt then no_more t w else (
  some r,
  record w {
    candidates =
        insert t (record c { remaining_drivers = rs; current_attempt = c.current_attempt + 1 })
          w.candidates;
  },
)

unfoldable pub pop_next_candidate : ℕ → Server → Option Ranked × Server
unfolding next_of
pop_next_candidate t w = elim (lookup t w.candidates) [
  | none ↦ no_more t w
  | some c ↦ next_of t c c.remaining_drivers w
]

-- No driver: the event, and the trip is kept for another try.
unfoldable pub keep_for_retry : ℕ → Server → Server
keep_for_retry t w =
    let told = emit no_drivers t none (w.trip t).offer_sequence w in
    record told { retry_queue = insert t (w.now + w.config.retry_interval_seconds) w.retry_queue }

abbrev pub remaining : ℕ → Server → ℕ
remaining t w = elim (lookup t w.candidates) [ none ↦ 0 | some c ↦ length c.remaining_drivers ]

abbrev pub start_cycle : ℕ → List Ranked → ℕ → Server → Server
start_cycle t rest max_attempts w = record w {
  candidates =
      insert t
        (record { remaining_drivers = rest; current_attempt = 1; max_attempts = max_attempts })
        w.candidates;
  active_trips = add t w.active_trips;
}

-- `random.random()` at each draw in turn.
module _ (random : ℕ → Ratio) where
  -- A puppet's offer waits for the API; any other driver's answer is decided now and applied later,
  -- with a timeout if there is a timeout manager.
  unfoldable pub deliver : ℕ → ℕ → ℕ → ℕ → Server → Server
  deliver d t seq eta w =
      let rating = rating_of (get_rider (w.trip t).rider_id w) in
      if (w.driver d).is_puppet
      then record w {
        pending_offers =
            insert d
              (record {
                trip_id = t;
                surge_multiplier = (w.trip t).surge_multiplier;
                rider_rating = rating;
                eta_seconds = eta;
              })
              w.pending_offers;
      }
      else record w {
        draws = w.draws + 1;
        deferred_offers =
            w.deferred_offers
            ++ record {
              driver_id = d;
              trip_id = t;
              accepted =
                  compute_offer_decision (w.driver d).dna (w.trip t).surge_multiplier rating
                    (random w.draws);
              eta_seconds = eta;
            }
              ∷ [];
        offer_timeouts =
            if w.config.has_kafka
            then w.offer_timeouts
              ++ record { trip_id = t; driver_id = d; offer_sequence = seq } ∷ []
            else w.offer_timeouts;
      }

  -- What follows the reservation.
  unfoldable pub make_offer : ℕ → ℕ → ℕ → ℕ → M Sent
  unfolding deliver
  make_offer d t seq eta = do
    transition t offer_sent
    modify (offer_counted d)
    modify (emit (trip_state offer_sent) t (some d) seq)
    modify (change_rider t (update_trip_state offer_sent))
    modify (deliver d t seq eta)
    return waiting

  unfoldable pub send_offer : ℕ → ℕ → ℕ → ℕ → M Sent
  unfolding make_offer
  send_offer d t seq eta w =
      if member d w.reserved || is_some (w.driver d).active_trip
      then done skipped w
      else make_offer d t seq eta (record w { reserved = add d w.reserved })

  -- The loop of `_continue_deferred_offer_cycle`; each round takes one candidate off.
  unfoldable pub continue_with : ℕ → ℕ → M (Unit {0})
  continue_with zero t w = raised no_fuel w
  continue_with (suc fuel) t w =
      let popped = pop_next_candidate t w in
      elim popped.0 [
        | none ↦ done tt (keep_for_retry t popped.1)
        | some r ↦
            elim (send_offer r.driver_id t ((popped.1.trip t).offer_sequence + 1) r.eta_seconds
              popped.1) [
                | raised e w' ↦ raised e w'
                | done s w' ↦ elim s [ skipped ↦ continue_with fuel t w' | waiting ↦ done tt w' ]
              ]
      ]

  unfoldable pub continue_deferred_offer_cycle : ℕ → M (Unit {0})
  unfolding continue_with pop_next_candidate send_offer keep_for_retry
  continue_deferred_offer_cycle t w = continue_with (suc (remaining t w)) t w

  unfoldable pub send_offer_cycle : ℕ → List Ranked → ℕ → M (Unit {0})
  unfolding continue_deferred_offer_cycle
  send_offer_cycle t [] max_attempts w = done tt (keep_for_retry t w)
  send_offer_cycle t (r ∷ rs) max_attempts w =
      let begun = start_cycle t rs max_attempts w in
      elim (send_offer r.driver_id t ((w.trip t).offer_sequence + 1) r.eta_seconds begun) [
        | raised e w' ↦ raised e w'
        | done s w' ↦ elim s [ skipped ↦ continue_deferred_offer_cycle t w' | waiting ↦ done tt w' ]
      ]
