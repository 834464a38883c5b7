-- ===== src/Server/Refusals.antt =====
-- What follows an offer that is refused or runs out.
use mathlib.Core.Path.{subst, sym}
use rideshare_simulation_pla.Trip.{offer_rejected}
use rideshare_simulation_pla.Prelude.{ok, refl}
use rideshare_simulation_pla.Trip.{TripState}
use rideshare_simulation_pla.Trip.Graph.{refused}
use rideshare_simulation_pla.Agents.Statistics.{record_offer_rejected}
use rideshare_simulation_pla.Server.Responses.{apply_rejection, rejected_counted}
use rideshare_simulation_pla.Server.{M}
use rideshare_simulation_pla.Prelude.{ℕ, ◌+◌, ◌≡◌, true, some, if◌then◌else◌, arith, ◌∙◌}
use rideshare_simulation_pla.Prelude.IdSet.{member, member-discard}
use rideshare_simulation_pla.Prelude.Ratio.{Ratio}
use rideshare_simulation_pla.Trip.{Trip, offer_sent, offer_expired, transition_to, entered}
use rideshare_simulation_pla.Trip.Graph.{IsOpen, lapsed}
use rideshare_simulation_pla.Agents.Statistics.{record_offer_expired}
use rideshare_simulation_pla.Server.{
  Server, done, ◌>>◌, modify, transition, emit, trip_state, release, bind_done, transition-ok,
}
use rideshare_simulation_pla.Server.Offers.{continue_deferred_offer_cycle}
use rideshare_simulation_pla.Server.Rounds.{continue_deferred_offer_cycle-CycleEnds}
use rideshare_simulation_pla.Server.Responses.{
  expire_trip, handle_offer_expired, index_available, expired_counted, count_on,
}
use rideshare_simulation_pla.Server.Ended.{
  Freed, Goes, ended_told, ended_told-trip, ended_told-Goes,
}

module _ (random : ℕ → Ratio) where
  -- An offer ends in an open state, and the cycle goes on.
  abbrev end_offer : TripState → ℕ → ℕ → M (Unit {0})
  end_offer s t d = do
    transition t s
    modify (λ v. emit (trip_state s) t (some d) (v.trip t).offer_sequence v)
    continue_deferred_offer_cycle random t

  end_offer-Goes :
      (s : TripState) (t d : ℕ) (w : Server)
      → IsOpen s
      → transition_to s (w.trip t) ≡ ok (entered s (w.trip t))
      → (w' : Server) × (end_offer s t d w ≡ done tt w') × Goes s t w w'
  end_offer-Goes s t d w o e =
      let (w', ends, how) =
        continue_deferred_offer_cycle-CycleEnds random t (ended_told s t d w)
          (subst (λ (u : Trip). IsOpen u.state) (sym (ended_told-trip s t d w o)) o) in
      (
        w',
        bind_done (transition t s)
              (λ _.
                modify (λ v. emit (trip_state s) t (some d) (v.trip t).offer_sequence v)
                >> continue_deferred_offer_cycle random t)
              w (transition-ok t s w e)
            ∙ ends,
        ended_told-Goes s t d w o how,
      )

  expire_trip-Goes :
      (t d : ℕ) (w : Server)
      → (w.trip t).state ≡ offer_sent
      → (w' : Server) × (expire_trip random t d w ≡ done tt w') × Goes offer_expired t w w'
  unfolding expire_trip transition_to
  expire_trip-Goes t d w s = end_offer-Goes offer_expired t d w lapsed (ground arith)

  -- A driver's refusal of a trip that waits for the answer: nothing is raised, one refusal is counted, and
  -- the driver is released, all else that the cycle reads being as before. Then, of the candidates left as
  -- far as the attempts left reach, either each is reserved or on a trip, and the trip stands in
  -- `offer_rejected` with its retry due after the interval, or the first that is neither has the one
  -- offer more, with the trip back in `offer_sent` and its sequence counted up.
  pub apply_rejection-Goes :
      (t d : ℕ) (w : Server)
      → (w.trip t).state ≡ offer_sent
      → (v : Server) × (w' : Server) × (apply_rejection random d t w ≡ done tt w')
        × Freed d w v
        × (v.counters.offers_rejected ≡ w.counters.offers_rejected + 1)
        × Goes offer_rejected t v w'
  unfolding apply_rejection index_available transition_to record_offer_rejected
  apply_rejection-Goes t d w s =
      let freed =
        index_available d (release d (rejected_counted (count_on d record_offer_rejected w))) in
      let (w', ends, how) = end_offer-Goes offer_rejected t d freed refused (ground arith) in
      (
        freed,
        w',
        ends,
        record {
          released = λ x. ground (arith, member-discard x d w.reserved);
          trip = refl;
          on_trip = λ x. ground arith;
          now = refl;
          config = refl;
          active = refl;
          candidates = refl;
          sent = refl;
        },
        refl,
        how,
      )

  -- A timeout that runs out while its trip is active and waits for the answer: nothing is raised, one
  -- expired offer is counted, and the driver is released, all else that the cycle reads being as before.
  -- Then, of the candidates left as far as the attempts left reach, either each is reserved or on a trip,
  -- and the trip stands in `offer_expired` with its retry due after the interval, or the first that is
  -- neither has the one offer more, with the trip back in `offer_sent` and its sequence counted up.
  pub handle_offer_expired-Goes :
      (t d : ℕ) (w : Server)
      → member t w.active_trips ≡ true
      → (w.trip t).state ≡ offer_sent
      → (v : Server) × (w' : Server) × (handle_offer_expired random t d w ≡ done tt w')
        × Freed d w v
        × (v.counters.offers_expired ≡ w.counters.offers_expired + 1)
        × Goes offer_expired t v w'
  unfolding handle_offer_expired index_available record_offer_expired
  handle_offer_expired-Goes t d w m s =
      let counted =
        expired_counted (if member d w.registered then count_on d record_offer_expired w else w) in
      let freed = index_available d (release d counted) in
      let (w', e, how) = expire_trip-Goes t d freed (ground arith) in
      (
        freed,
        w',
        ground (arith, e),
        record {
          released = λ x. ground (arith, member-discard x d w.reserved);
          trip = ground arith;
          on_trip = λ x. ground arith;
          now = ground arith;
          config = ground arith;
          active = ground arith;
          candidates = ground arith;
          sent = ground arith;
        },
        ground arith,
        how,
      )
