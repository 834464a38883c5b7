-- ===== src/Server/Answers.antt =====
-- What the answer to an offer does: the acceptance of a driver, on a state whose registry is accurate.
use rideshare_simulation_pla.Prelude.{
  ℕ, ◌+◌, ◌≡◌, ap, inl, inr, false, none, some, if◌then◌else◌, arith, Bool-cases, ◌==◌, ◌∙◌,
}
use rideshare_simulation_pla.Prelude.Dict.{lookup, erase, lookup-erase}
use rideshare_simulation_pla.Prelude.IdSet.{member, discard, member-discard}
use rideshare_simulation_pla.Trip.{Trip, offer_sent, driver_assigned, transition_to, entered}
use rideshare_simulation_pla.Registry.{DriverStatus, en_route_pickup}
use rideshare_simulation_pla.Registry.Accuracy.{IsAccurate}
use rideshare_simulation_pla.Registry.Histories.{update_driver_status-IsAccurate}
use rideshare_simulation_pla.Index
use rideshare_simulation_pla.Fleet
use rideshare_simulation_pla.Fleet.{Fleet}
use rideshare_simulation_pla.Agents.{Driver, accept_trip}
use rideshare_simulation_pla.Agents.Statistics.{record_offer_accepted}
use rideshare_simulation_pla.Server.{
  Server, done, ◌>>◌, modify, transition, emit, driver_status_changed, set_driver, set_trip,
  release, trip_state, bind_done, transition-ok,
}
use rideshare_simulation_pla.Server.Frame.{
  emit-Kept, request_served-Kept, start_trip_execution_internal-Kept,
}
use rideshare_simulation_pla.Server.Responses.{
  apply_acceptance, driver_accepts, request_served, settled, taken_by, matched_now,
  forget_candidates,
}

-- A status change of a driver raises nothing where the counters are accurate, and keeps them so.
pub driver_status_changed-ok :
    (d : ℕ) (s : DriverStatus) (w : Server)
    → IsAccurate w.fleet.registry
    → (f : Fleet) × (driver_status_changed d s w ≡ done tt (record w { fleet = f }))
      × IsAccurate f.registry
unfolding driver_status_changed Fleet.driver_status_changed
driver_status_changed-ok d s w v =
    let (r, e, u) = update_driver_status-IsAccurate d s w.fleet.registry v in
    elim (Bool-cases w.config.has_registry_manager) [
      | inl b ↦ (
        record { index = Index.update_driver_status d s w.fleet.index; registry = r },
        ground arith,
        u,
      )
      | inr b ↦ (w.fleet, ground arith, v)
    ]

-- Driver `d` has trip `t`, and nobody waits for its answer any more.
pub record Matched (d t : ℕ) (w w' : Server) : Type 0 where
  pub trip_assigned : (w'.trip t).state ≡ driver_assigned
  pub trip_driver : (w'.trip t).driver_id ≡ some d
  pub matched_at : (w'.trip t).matched_at ≡ some w.now
  pub driver_trip : (w'.driver d).active_trip ≡ some t
  pub driver_status : (w'.driver d).status ≡ en_route_pickup
  pub released : (e : ℕ) → member e w'.reserved ≡ (if d == e then false else member e w.reserved)
  pub no_candidates : lookup t w'.candidates ≡ none
  pub counted : w'.counters.offers_accepted ≡ w.counters.offers_accepted + 1
  pub active : w'.active_trips ≡ w.active_trips
  pub timers : w'.timeouts ≡ w.timeouts
  pub other_trips : (x : ℕ) → w'.trip x ≡ (if t == x then w'.trip t else w.trip x)
  pub accurate : IsAccurate w'.fleet.registry

record Settled (d t : ℕ) (w w' : Server) : Type 0 where
  trip : w'.trip ≡ w.trip
  driver : w'.driver ≡ w.driver
  fleet : w'.fleet ≡ w.fleet
  reserved : w'.reserved ≡ discard d w.reserved
  candidates : w'.candidates ≡ erase t w.candidates
  counters : w'.counters ≡ w.counters
  active : w'.active_trips ≡ w.active_trips
  timers : w'.timeouts ≡ w.timeouts

settled-Settled : (d t : ℕ) (w : Server) → Settled d t w (settled d t w)
unfolding settled
settled-Settled d t w =
    let told =
      emit (trip_state driver_assigned) t (w.trip t).driver_id (w.trip t).offer_sequence w in
    let a =
      emit-Kept (trip_state driver_assigned) t (w.trip t).driver_id (w.trip t).offer_sequence w in
    let b = request_served-Kept t (release d told) in
    let c =
      start_trip_execution_internal-Kept d t
        (forget_candidates t (request_served t (release d told))) in
    record {
      trip = c.trip ∙ b.trip ∙ a.trip;
      driver = c.driver ∙ b.driver ∙ a.driver;
      fleet = c.fleet ∙ b.fleet ∙ a.fleet;
      reserved = c.reserved ∙ b.reserved ∙ ap (discard d) a.reserved;
      candidates = c.candidates ∙ ap (erase t) (b.candidates ∙ a.candidates);
      counters = c.counters ∙ b.counters ∙ a.counters;
      active = c.active_trips ∙ b.active_trips ∙ a.active_trips;
      timers = c.timeouts ∙ b.timeouts ∙ a.timeouts;
    }

-- The state in which the rest of an acceptance is settled.
abbrev assigned : ℕ → ℕ → Fleet → Server → Server
assigned d t f w =
    let accepted = record (set_driver d (accept_trip t (w.driver d)) w) { fleet = f } in
    let taken = taken_by d t accepted in
    matched_now t (set_trip t (entered driver_assigned (taken.trip t)) taken)

apply_acceptance-steps :
    (d t : ℕ) (w : Server) (f : Fleet)
    → (w.trip t).state ≡ offer_sent
    → driver_status_changed d en_route_pickup (set_driver d (accept_trip t (w.driver d)) w)
      ≡ done tt (record (set_driver d (accept_trip t (w.driver d)) w) { fleet = f })
    → apply_acceptance d t w ≡ done tt (settled d t (assigned d t f w))
unfolding apply_acceptance driver_accepts transition_to
apply_acceptance-steps d t w f s e =
    bind_done (driver_accepts d t)
      (λ _.
        modify (taken_by d t)
        >> (transition t driver_assigned >> modify (λ v. settled d t (matched_now t v))))
      w e
    ∙ bind_done (transition t driver_assigned) (λ _. modify (λ v. settled d t (matched_now t v)))
        (taken_by d t (record (set_driver d (accept_trip t (w.driver d)) w) { fleet = f }))
        (transition-ok t driver_assigned _ (ground arith))

-- Applying an acceptance of a trip that is in `offer_sent`, where the driver counters are accurate, raises
-- nothing. The trip is in `driver_assigned` with this driver, matched now, and the driver is on its way
-- with this trip; the driver alone is released; the trip has no candidates any more; one accepted offer
-- is counted; no other trip, active trip or timeout changes; and the counters of the drivers stay accurate.
pub apply_acceptance-Matched :
    (d t : ℕ) (w : Server)
    → (w.trip t).state ≡ offer_sent
    → IsAccurate w.fleet.registry
    → (w' : Server) × (apply_acceptance d t w ≡ done tt w') × Matched d t w w'
unfolding accept_trip record_offer_accepted
apply_acceptance-Matched d t w s v =
    let (f, e, u) =
      driver_status_changed-ok d en_route_pickup (set_driver d (accept_trip t (w.driver d)) w) v in
    let k = settled-Settled d t (assigned d t f w) in
    (
      settled d t (assigned d t f w),
      apply_acceptance-steps d t w f s e,
      record {
        trip_assigned = ground (arith, ap (λ (g : ℕ → Trip). (g t).state) k.trip);
        trip_driver = ground (arith, ap (λ (g : ℕ → Trip). (g t).driver_id) k.trip);
        matched_at = ground (arith, ap (λ (g : ℕ → Trip). (g t).matched_at) k.trip);
        driver_trip = ground (arith, ap (λ (g : ℕ → Driver). (g d).active_trip) k.driver);
        driver_status = ground (arith, ap (λ (g : ℕ → Driver). (g d).status) k.driver);
        released = λ x. ground (arith, k.reserved, member-discard x d w.reserved);
        no_candidates = ground (arith, k.candidates, lookup-erase t t w.candidates);
        counted = ground (arith, k.counters);
        active = k.active;
        timers = k.timers;
        other_trips = λ x.
            ground (arith, ap (λ (g : ℕ → Trip). g x) k.trip, ap (λ (g : ℕ → Trip). g t) k.trip);
        accurate = rw (k.fleet) u;
      },
    )
