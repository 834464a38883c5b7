-- ===== src/Server/Rounds.antt =====
-- The loop of `_continue_deferred_offer_cycle` over any list of candidates.
use rideshare_simulation_pla.Prelude.{
  sym, take, ◌-◌, ℕ, zero, suc, ◌+◌, ◌<◌, ◌≡◌, refl, ◌⊎◌, inl, inr, true, List, [], ◌∷◌, arith, ◌∙◌,
}
use rideshare_simulation_pla.Prelude.Dict.{Dict, insert, erase, lookup-insert}
use rideshare_simulation_pla.Prelude.IdSet.{member, add}
use rideshare_simulation_pla.Prelude.Ratio.{Ratio}
use rideshare_simulation_pla.Trip.Graph.{IsOpen}
use rideshare_simulation_pla.Server.{Server, Outcome, done, Ranked, Candidates}
use rideshare_simulation_pla.Server.Offers.{
  Sent, skipped, waiting, send_offer, keep_for_retry, continue_with, continue_deferred_offer_cycle,
  send_offer_cycle, remaining, start_cycle,
}
use rideshare_simulation_pla.Server.Asking.{
  IsFree, first_free-nil, first_free-free, to_ask, asked_in, left_of, to_ask-some,
}
use rideshare_simulation_pla.Server.Cycle.{
  Offered, send_offer_lem, pop_next_candidate-Pops, with_candidates,
}
use rideshare_simulation_pla.Server.CycleEnds.{
  Asks, CycleEnds, keep_for_retry-Exhausted, of_popped, of_same, of_passed,
}

module _ (random : ℕ → Ratio) (t : ℕ) where
  abbrev begin : Ranked → Server → Outcome Sent
  begin r w = send_offer random r.driver_id t ((w.trip t).offer_sequence + 1) r.eta_seconds w

  -- The first driver is free, and has the offer.
  round_sent :
      (r : Ranked) (rs : List Ranked) (w w' : Server) (c : Dict Candidates)
      → IsFree r.driver_id w
      → Offered r.driver_id t (with_candidates c w) w'
      → Asks (r ∷ rs) t w w'
  round_sent r rs w w' c free f = inr (
    record {
      asked = r.driver_id;
      was_free = free;
      now_reserved = f.now_reserved;
      others = f.others;
      trip_sent = f.trip_sent;
      sent_one = f.sent_one;
      active = f.active;
      retries = f.retries;
    },
    first_free-free r rs w free,
  )

  -- One round on a state whose trip is open: the offer goes out, or the driver is passed over.
  round :
      (r : Ranked) (w : Server)
      → IsOpen (w.trip t).state
      → ((IsFree r.driver_id w → ⊥) × (begin r w ≡ done skipped w))
        ⊎ (IsFree r.driver_id w
            × ((w' : Server) × (begin r w ≡ done waiting w') × Offered r.driver_id t w w'))
  round r w o =
      elim (send_offer_lem random r.driver_id t ((w.trip t).offer_sequence + 1) r.eta_seconds w) [
        | inl (busy, e) ↦ inl (busy, e)
        | inr (inl (free, _, sent)) ↦ inr (free, sent)
        | inr (inr (_, shut, _)) ↦ absurd (shut o)
      ]

  continue_with-CycleEnds :
      (fuel : ℕ) (w : Server)
      → IsOpen (w.trip t).state
      → remaining t w < fuel
      → CycleEnds (to_ask t w) t w (continue_with random fuel t w)
  unfolding continue_with
  continue_with-CycleEnds zero w o h = elim h [ ]
  continue_with-CycleEnds (suc fuel) w o h = elim (pop_next_candidate-Pops t w) [
    | inl (e, s, q) ↦
        let left = with_candidates (erase t w.candidates) w in
        (
          keep_for_retry t left,
          rw (e, s, continue_with) refl,
          of_same t q
              (of_popped t [] _ w (inl (first_free-nil w, keep_for_retry-Exhausted t left))),
        )
    | inr (r, c, e, s, less, q) ↦
        let left = with_candidates (insert t c w.candidates) w in
        elim (round r left o) [
          | inl (busy, passed) ↦
              (let (w', ends, how) =
                  continue_with-CycleEnds fuel left o
                    (ground (arith, lookup-insert t t c w.candidates)) in
                (
                  w',
                  rw (e, s, passed, continue_with) ends,
                  of_same t q (
                      of_passed t r (left_of c) w busy
                        (of_popped t _ _ w (of_same t (sym (left_to_ask c w)) how))),
                ))
          | inr (free, (w', sent, f)) ↦ (
            w',
            rw (e, s, sent, continue_with) refl,
            of_same t q (round_sent r (left_of c) w w' _ free f),
          )
        ]
  ]
    where
      left_to_ask :
          (c : Candidates) (w : Server)
          → to_ask t (with_candidates (insert t c w.candidates) w) ≡ left_of c
      left_to_ask c w =
          to_ask-some t c (with_candidates (insert t c w.candidates) w)
            (ground (arith, lookup-insert t t c w.candidates))

  -- The cycle of an open trip always ends and raises nothing, whatever candidates are left. Those to
  -- ask are the candidates left, as far as the attempts left reach. Either the first of them that is
  -- neither reserved nor on a trip has an offer more, is reserved, and the trip is in `offer_sent`; or
  -- each of them is reserved or on a trip, no trip, reservation or counter has changed, and the trip
  -- waits for a retry after the interval.
  pub continue_deferred_offer_cycle-CycleEnds :
      (w : Server)
      → IsOpen (w.trip t).state
      → CycleEnds (to_ask t w) t w (continue_deferred_offer_cycle random t w)
  unfolding continue_deferred_offer_cycle
  continue_deferred_offer_cycle-CycleEnds w o =
      continue_with-CycleEnds (suc (remaining t w)) w o (omega arith)

  active_stays :
      (rs : List Ranked) (n : ℕ) (w : Server)
      → member t w.active_trips ≡ true
      → (start_cycle t rs n w).active_trips ≡ w.active_trips
  unfolding add
  active_stays rs n w a = ground arith

  of_begun :
      (ss rs : List Ranked) (n : ℕ) (w : Server)
      → member t w.active_trips ≡ true
      → {w' : Server} → Asks ss t (start_cycle t rs n w) w'
      → Asks ss t w w'
  of_begun ss rs n w a (inl (e, x)) = inl (
    e,
    record {
      trips = x.trips;
      reserved = x.reserved;
      counters = x.counters;
      active = x.active ∙ active_stays rs n w a;
      due = x.due;
    },
  )
  of_begun ss rs n w a (inr (x, e)) = inr (
    record {
      asked = x.asked;
      was_free = x.was_free;
      now_reserved = x.now_reserved;
      others = x.others;
      trip_sent = x.trip_sent;
      sent_one = x.sent_one;
      active = x.active ∙ active_stays rs n w a;
      retries = x.retries;
    },
    e,
  )

  -- A whole cycle over a ranking of drivers, for a trip that is active and open: of the drivers within
  -- the attempts, the first that is free is asked, or the trip waits for its retry.
  pub send_offer_cycle-CycleEnds :
      (rs : List Ranked) (n : ℕ) (w : Server)
      → IsOpen (w.trip t).state
      → member t w.active_trips ≡ true
      → CycleEnds (asked_in n rs) t w (send_offer_cycle random t rs n w)
  unfolding send_offer_cycle
  send_offer_cycle-CycleEnds [] n w o a =
      (keep_for_retry t w, refl, inl (first_free-nil w, keep_for_retry-Exhausted t w))
  send_offer_cycle-CycleEnds (r ∷ rs) n w o a =
      let begun = start_cycle t rs n w in
      elim (round r begun o) [
        | inl (busy, passed) ↦
            (let (w', ends, how) = continue_deferred_offer_cycle-CycleEnds begun o in
              (
                w',
                rw (passed, send_offer_cycle) ends,
                of_passed t r (take (n - 1) rs) w busy
                    (of_begun (take (n - 1) rs) rs n w a (of_same t (sym begun_to_ask) how)),
              ))
        | inr (free, (w', sent, f)) ↦ (
          w',
          rw (sent, send_offer_cycle) refl,
          of_begun (r ∷ take (n - 1) rs) rs n w a
              (round_sent r (take (n - 1) rs) begun w' begun.candidates free f),
        )
      ]
    where
      begun_to_ask : to_ask t (start_cycle t rs n w) ≡ take (n - 1) rs
      begun_to_ask =
          to_ask-some t (record { remaining_drivers = rs; current_attempt = 1; max_attempts = n })
            (start_cycle t rs n w)
            (ground (
              arith,
              lookup-insert t t
                  (record { remaining_drivers = rs; current_attempt = 1; max_attempts = n })
                  w.candidates,
            ))
