-- ===== src/Server/Responding.antt =====
-- Every way in which `_deferred_offer_response` can end.
use rideshare_simulation_pla.Prelude.{
  ℕ, ◌+◌, ◌==◌, if◌then◌else◌, ◌≡◌, refl, ap, inl, inr, true, false, some, arith, Bool-cases, ◌∙◌,
}
use rideshare_simulation_pla.Prelude.IdSet.{member, member-discard}
use rideshare_simulation_pla.Prelude.Ratio.{Ratio}
use rideshare_simulation_pla.Trip.{
  Trip, TripState, offer_sent, driver_assigned, offer_rejected, is_offer_sent,
}
use rideshare_simulation_pla.Registry.Accuracy.{IsAccurate}
use rideshare_simulation_pla.Agents.{Driver}
use rideshare_simulation_pla.Server.{Server, OfferCounters, done, Deferred, release}
use rideshare_simulation_pla.Server.Responses.{
  deferred_offer_response, apply_rejection, clear_timeout,
}
use rideshare_simulation_pla.Server.Answers.{apply_acceptance-Matched}
use rideshare_simulation_pla.Server.Ended.{Goes, Freed}
use rideshare_simulation_pla.Server.Refusals.{apply_rejection-Goes}
use rideshare_simulation_pla.Server.Stale.{Untimed, clear_timeout-Untimed, response_applied}

-- The driver gets the trip and the trip the driver, who alone is released.
pub record Taken (d t : ℕ) (w w' : Server) : Type 0 where
  pub trip_assigned : (w'.trip t).state ≡ driver_assigned
  pub trip_driver : (w'.trip t).driver_id ≡ some d
  pub driver_trip : (w'.driver d).active_trip ≡ some t
  pub released : (e : ℕ) → member e w'.reserved ≡ (if d == e then false else member e w.reserved)
  pub counted : w'.counters.offers_accepted ≡ w.counters.offers_accepted + 1
  pub active : w'.active_trips ≡ w.active_trips
  pub other_trips : (x : ℕ) → w'.trip x ≡ (if t == x then w'.trip t else w.trip x)

-- The four ends of a driver's think time: the trip has moved on; or it waits for the answer, and it is not
-- active; or it is, and the driver takes it, or refuses it and the cycle goes on from a state `v` in
-- which the driver is released.
pub data Responded (r : Deferred) (w w' : Server) : Type 0 where
  late :
      is_offer_sent (w.trip r.trip_id).state ≡ false → w' ≡ release r.driver_id w → Responded r w w'
  gone :
      (w.trip r.trip_id).state ≡ offer_sent
      → member r.trip_id w.active_trips ≡ false
      → Freed r.driver_id w w'
      → w'.counters ≡ w.counters
      → Responded r w w'
  takes :
      (w.trip r.trip_id).state ≡ offer_sent
      → member r.trip_id w.active_trips ≡ true
      → r.accepted ≡ true
      → Taken r.driver_id r.trip_id w w'
      → Responded r w w'
  refuses :
      (w.trip r.trip_id).state ≡ offer_sent
      → member r.trip_id w.active_trips ≡ true
      → r.accepted ≡ false
      → (v : Server) → Freed r.driver_id w v
      → v.counters.offers_rejected ≡ w.counters.offers_rejected + 1
      → Goes offer_rejected r.trip_id v w'
      → Responded r w w'

-- Taking the timeout off does not touch what is said of the release that follows.
untimed-Freed : (d : ℕ) (w u v : Server) → Untimed w u → Freed d u v → Freed d w v
untimed-Freed d w u v a f = record {
  released = λ x. ground (arith, f.released x, a.reserved);
  trip = f.trip ∙ a.trip;
  on_trip = λ x. f.on_trip x ∙ ap (λ (g : ℕ → Driver). (g x).active_trip) a.driver;
  now = f.now ∙ a.now;
  config = f.config ∙ a.config;
  active = f.active ∙ a.active;
  candidates = f.candidates ∙ a.candidates;
  sent = f.sent ∙ ap (λ (c : OfferCounters). c.offers_sent) a.counters;
}

release-Freed : (d : ℕ) (w : Server) → Freed d w (release d w)
release-Freed d w = record {
  released = λ x. ground (arith, member-discard x d w.reserved);
  trip = refl;
  on_trip = λ x. refl;
  now = refl;
  config = refl;
  active = refl;
  candidates = refl;
  sent = refl;
}

waits_for_answer : (s : TripState) → is_offer_sent s ≡ true → s ≡ offer_sent
waits_for_answer s h = ground arith

module _ (random : ℕ → Ratio) where
  Ends : Deferred → Server → Type 0
  Ends r w = (w' : Server) × (deferred_offer_response random r w ≡ done tt w') × Responded r w w'

  Ends-late :
      (r : Deferred) (w : Server) → is_offer_sent (w.trip r.trip_id).state ≡ false → Ends r w
  unfolding Ends deferred_offer_response
  Ends-late r w s = (release r.driver_id w, ground arith, late s refl)

  Ends-gone :
      (r : Deferred) (w : Server)
      → (w.trip r.trip_id).state ≡ offer_sent
      → member r.trip_id w.active_trips ≡ false
      → Ends r w
  unfolding Ends deferred_offer_response
  Ends-gone r w s m =
      let u = clear_timeout-Untimed r.trip_id w in
      (
        release r.driver_id (clear_timeout r.trip_id w),
        ground arith,
        gone s m
            (untimed-Freed r.driver_id w _ _ u
              (release-Freed r.driver_id (clear_timeout r.trip_id w)))
            u.counters,
      )

  Ends-accepted :
      (r : Deferred) (w : Server)
      → (w.trip r.trip_id).state ≡ offer_sent
      → member r.trip_id w.active_trips ≡ true
      → r.accepted ≡ true
      → IsAccurate w.fleet.registry
      → Ends r w
  unfolding Ends
  Ends-accepted r w s m a v =
      let u = clear_timeout-Untimed r.trip_id w in
      let (w', e, f) =
        apply_acceptance-Matched r.driver_id r.trip_id (clear_timeout r.trip_id w)
          (ap (λ (g : ℕ → Trip). (g r.trip_id).state) u.trip ∙ s) (accurate u.fleet) in
      (
        w',
        response_applied random r w s m a ∙ e,
        takes s m a (record {
          trip_assigned = f.trip_assigned;
          trip_driver = f.trip_driver;
          driver_trip = f.driver_trip;
          released = λ x. ground (arith, f.released x, u.reserved);
          counted = ground (arith, f.counted, u.counters);
          active = f.active ∙ u.active;
          other_trips = λ x. ground (arith, f.other_trips x, ap (λ (g : ℕ → Trip). g x) u.trip);
        }),
      )
    where
      accurate :
          (clear_timeout r.trip_id w).fleet ≡ w.fleet
          → IsAccurate (clear_timeout r.trip_id w).fleet.registry
      accurate e = rw e v

  refusal_applied :
      (r : Deferred) (w : Server)
      → (w.trip r.trip_id).state ≡ offer_sent
      → member r.trip_id w.active_trips ≡ true
      → r.accepted ≡ false
      → deferred_offer_response random r w
        ≡ apply_rejection random r.driver_id r.trip_id (clear_timeout r.trip_id w)
  unfolding deferred_offer_response
  refusal_applied r w s m a = ground arith

  Ends-refused :
      (r : Deferred) (w : Server)
      → (w.trip r.trip_id).state ≡ offer_sent
      → member r.trip_id w.active_trips ≡ true
      → r.accepted ≡ false
      → Ends r w
  unfolding Ends
  Ends-refused r w s m a =
      let u = clear_timeout-Untimed r.trip_id w in
      let (v, w', e, free, counted, goes) =
        apply_rejection-Goes random r.trip_id r.driver_id (clear_timeout r.trip_id w)
          (ap (λ (g : ℕ → Trip). (g r.trip_id).state) u.trip ∙ s) in
      (
        w',
        refusal_applied r w s m a ∙ e,
        refuses s m a v (untimed-Freed r.driver_id w _ v u free)
            (counted ∙ ap (λ (c : OfferCounters). c.offers_rejected + 1) u.counters) goes,
      )

  -- A driver's answer never raises, on any branch, where the driver counters are accurate. If the trip is
  -- no longer in `offer_sent`, all that changes is the driver's reservation, which goes. If it is, but
  -- is not active, the driver alone is released, and trips, counters, candidates and the drivers' trips
  -- are as before. If it is active and the driver accepts, the trip has the driver and the driver the
  -- trip, the driver alone is released, one accepted offer is counted, and no other trip and no active
  -- trip changes. If it is active and the driver refuses, the refusal is counted and the driver alone is
  -- released, and from there the cycle goes on: either each candidate left, as far as the attempts left
  -- reach, is reserved or on a trip, and the trip is in `offer_rejected` with its retry due after the
  -- interval, or the first that is neither has the trip's next offer.
  pub deferred_offer_response-Responded :
      (r : Deferred) (w : Server)
      → IsAccurate w.fleet.registry
      → (w' : Server) × (deferred_offer_response random r w ≡ done tt w') × Responded r w w'
  unfolding Ends
  deferred_offer_response-Responded r w v =
      elim (Bool-cases (is_offer_sent (w.trip r.trip_id).state)) [
        | inr n ↦ Ends-late r w n
        | inl s ↦ elim (Bool-cases (member r.trip_id w.active_trips)) [
          | inr n ↦ Ends-gone r w (waits_for_answer _ s) n
          | inl m ↦ elim (Bool-cases r.accepted) [
            | inl a ↦ Ends-accepted r w (waits_for_answer _ s) m a v
            | inr a ↦ Ends-refused r w (waits_for_answer _ s) m a
          ]
        ]
      ]
