-- ===== src/Server/PuppetAnswers.antt =====
-- What the acceptance of an offer by a puppet driver does.
use rideshare_simulation_pla.Prelude.{
  ℕ, ◌≡◌, ap, true, false, Option, none, some, if◌then◌else◌, arith, ◌==◌, ◌∙◌,
}
use rideshare_simulation_pla.Prelude.Dict.{lookup, erase, lookup-erase}
use rideshare_simulation_pla.Prelude.IdSet.{member, member-discard}
use rideshare_simulation_pla.Trip.{
  Trip, TripState, offer_sent, driver_assigned, en_route_pickup, entered, transition_to,
}
use rideshare_simulation_pla.Registry.{DriverStatus, same_status}
use rideshare_simulation_pla.Registry
use rideshare_simulation_pla.Registry.Accuracy.{IsAccurate}
use rideshare_simulation_pla.Fleet.{Fleet}
use rideshare_simulation_pla.Agents.{
  Driver, Rider, accept_trip, start_pickup, on_driver_en_route, update_trip_state,
}
use rideshare_simulation_pla.Agents.Statistics.{record_offer_accepted}
use rideshare_simulation_pla.Server.{
  EventType, Server, M, done, after, ◌>>◌, modify, emit, change_rider, trip_state, set_trip,
  set_driver, release, bind_done, driver_status_changed, transition, transition-ok, PendingOffer,
}
use rideshare_simulation_pla.Server.Frame.{emit-Kept, change_rider-Kept}
use rideshare_simulation_pla.Server.Answers.{driver_status_changed-ok}
use rideshare_simulation_pla.Server.Responses.{count_on, accepted_counted, driver_accepts}
use rideshare_simulation_pla.Server.Search.{Outside}
use rideshare_simulation_pla.Server.Puppets.{
  caught, driver_turns, emit_state, start_puppet_drive_to_pickup, puppet_accepts,
  process_puppet_accept,
}
use rideshare_simulation_pla.Server.Driving.{caught_lem, start_drive-Undriven}

-- The states between the steps of an acceptance.
abbrev freed : ℕ → Server → Server
freed d w = release d (accepted_counted (count_on d record_offer_accepted w))

abbrev accepting : ℕ → ℕ → Server → Server
accepting d t w = set_driver d (accept_trip t (w.driver d)) w

abbrev picking_up : ℕ → Server → Server
picking_up d w = set_driver d (start_pickup (w.driver d)) w

abbrev in_fleet : Fleet → Server → Server
in_fleet f w = record w { fleet = f }

abbrev given_to : ℕ → ℕ → Server → Server
given_to d t w = set_trip t (record (w.trip t) { driver_id = some d }) w

abbrev matched : ℕ → Server → Server
matched t w = set_trip t (record (w.trip t) { matched_at = some w.now }) w

abbrev told : ℕ → Server → Server
told t w = emit (trip_state (w.trip t).state) t (w.trip t).driver_id (w.trip t).offer_sequence w

abbrev enters : ℕ → TripState → Server → Server
enters t s w = set_trip t (entered s (w.trip t)) w

abbrev rider_waits : ℕ → Server → Server
rider_waits t = change_rider t (λ r. update_trip_state en_route_pickup (on_driver_en_route r))

module _ (o : Outside) where
  abbrev depart : ℕ → ℕ → M (Unit {0})
  depart d t = do
    transition t en_route_pickup
    modify (rider_waits t)
    caught (start_puppet_drive_to_pickup o d t)

  abbrev assign : ℕ → ℕ → M (Unit {0})
  assign d t = do
    modify (given_to d t)
    transition t driver_assigned
    modify (matched t)
    emit_state t
    depart d t

  puppet_accepts-turns :
      (d t : ℕ) (w : Server) (f g : Fleet)
      → driver_status_changed d Registry.en_route_pickup (accepting d t (freed d w))
        ≡ done tt (in_fleet f (accepting d t (freed d w)))
      → driver_status_changed d Registry.en_route_pickup
          (picking_up d (in_fleet f (accepting d t (freed d w))))
        ≡ done tt (in_fleet g (picking_up d (in_fleet f (accepting d t (freed d w)))))
      → puppet_accepts o d t w
        ≡ assign d t (in_fleet g (picking_up d (in_fleet f (accepting d t (freed d w)))))
  unfolding puppet_accepts driver_accepts driver_turns
  puppet_accepts-turns d t w f g e h =
      bind_done (driver_accepts d t)
        (λ _. driver_turns d start_pickup Registry.en_route_pickup >> assign d t) (freed d w) e
      ∙ bind_done (driver_turns d start_pickup Registry.en_route_pickup) (λ _. assign d t)
          (in_fleet f (accepting d t (freed d w))) h

  assign-ends :
      (d t : ℕ) (w : Server)
      → (w.trip t).state ≡ offer_sent
      → assign d t w ≡ depart d t (told t (matched t (enters t driver_assigned (given_to d t w))))
  unfolding transition_to
  assign-ends d t w s =
      bind_done (transition t driver_assigned)
        (λ _. modify (matched t) >> (emit_state t >> depart d t)) (given_to d t w)
        (transition-ok t driver_assigned (given_to d t w) (ground arith))

  depart-ends :
      (d t : ℕ) (w : Server)
      → (w.trip t).state ≡ driver_assigned
      → depart d t w
        ≡ done tt (
            after (start_puppet_drive_to_pickup o d t (rider_waits t (enters t en_route_pickup w))))
  unfolding transition_to
  depart-ends d t w s =
      bind_done (transition t en_route_pickup)
        (λ _. modify (rider_waits t) >> caught (start_puppet_drive_to_pickup o d t)) w
        (transition-ok t en_route_pickup w (ground arith))
      ∙ caught_lem (start_puppet_drive_to_pickup o d t) (rider_waits t (enters t en_route_pickup w))

  -- What the last two parts leave of the state before them.
  record Departed (d t : ℕ) (w w' : Server) : Type 0 where
    state : (w'.trip t).state ≡ en_route_pickup
    driver_id : (w'.trip t).driver_id ≡ some d
    driver : w'.driver ≡ w.driver
    reserved : w'.reserved ≡ w.reserved
    offers : w'.pending_offers ≡ w.pending_offers

  change_rider-offers :
      (t : ℕ) (f : Rider → Rider) (w : Server)
      → (change_rider t f w).pending_offers ≡ w.pending_offers
  unfolding change_rider
  change_rider-offers t f w = ground arith

  emit-offers :
      (e : EventType) (t : ℕ) (d : Option ℕ) (n : ℕ) (w : Server)
      → (emit e t d n w).pending_offers ≡ w.pending_offers
  unfolding emit
  emit-offers e t d n w = ground arith

  assign-Departed :
      (d t : ℕ) (w : Server)
      → (w.trip t).state ≡ offer_sent
      → (w' : Server) × (assign d t w ≡ done tt w') × Departed d t w w'
  assign-Departed d t w s =
      let m = matched t (enters t driver_assigned (given_to d t w)) in
      let k =
        emit-Kept (trip_state (m.trip t).state) t (m.trip t).driver_id (m.trip t).offer_sequence
          m in
      let entering = enters t en_route_pickup (told t m) in
      let r =
        change_rider-Kept t (λ r. update_trip_state en_route_pickup (on_driver_en_route r))
          entering in
      let u = start_drive-Undriven o d t (rider_waits t entering) in
      let same = ap (λ (h : ℕ → Trip). h t) k.trip in
      let entered_trip = ap (λ (h : ℕ → Trip). h t) r.trip in
      (
        after (start_puppet_drive_to_pickup o d t (rider_waits t entering)),
        assign-ends d t w s ∙ depart-ends d t (told t m) (ground (arith, same)),
        record {
          state = u.state ∙ ground (arith, entered_trip);
          driver_id = u.driver_id ∙ ground (arith, entered_trip, same);
          driver = u.driver ∙ r.driver ∙ k.driver;
          reserved = u.reserved ∙ r.reserved ∙ k.reserved;
          offers = u.offers ∙ change_rider-offers t _ entering ∙ emit-offers _ t _ _ m;
        },
      )

  -- An acceptance through the API by a puppet driver that has an offer and is known to the server, of an
  -- active trip that is in `offer_sent`, where the driver counters are accurate, raises nothing, whether
  -- or not the drive to the pickup can be started. The trip is in `en_route_pickup` with this driver, the driver
  -- has the trip and is on its way; this driver alone is released; and its offer is used up.
  pub process_puppet_accept_lem :
      (d t : ℕ) (p : PendingOffer) (w : Server)
      → lookup d w.pending_offers ≡ some p
      → member t w.active_trips ≡ true
      → member d w.registered ≡ true
      → (w.trip t).state ≡ offer_sent
      → IsAccurate w.fleet.registry
      → (w' : Server) × (process_puppet_accept o d t w ≡ done tt w')
        × ((w'.trip t).state ≡ en_route_pickup)
        × ((w'.trip t).driver_id ≡ some d)
        × ((w'.driver d).active_trip ≡ some t)
        × ((w'.driver d).status ≡ Registry.en_route_pickup)
        × ((e : ℕ) → member e w'.reserved ≡ (if d == e then false else member e w.reserved))
        × (lookup d w'.pending_offers ≡ none)
  unfolding process_puppet_accept accept_trip start_pickup
  process_puppet_accept_lem d t p w has active known s v =
      let taken = record w { pending_offers = erase d w.pending_offers } in
      let (f, e, u) =
        driver_status_changed-ok d Registry.en_route_pickup (accepting d t (freed d taken)) v in
      let (g, h, _) =
        driver_status_changed-ok d Registry.en_route_pickup
          (picking_up d (in_fleet f (accepting d t (freed d taken)))) u in
      let ready = in_fleet g (picking_up d (in_fleet f (accepting d t (freed d taken)))) in
      let (w', ends, k) = assign-Departed d t ready s in
      (
        w',
        rw (has, active, known, process_puppet_accept)
            (puppet_accepts-turns d t taken f g e h ∙ ends),
        k.state,
        k.driver_id,
        ground (arith, ap (λ (x : ℕ → Driver). (x d).active_trip) k.driver),
        ground (arith, ap (λ (x : ℕ → Driver). (x d).status) k.driver),
        λ x. ground (arith, k.reserved, member-discard x d w.reserved),
        ground (arith, k.offers, lookup-erase d d w.pending_offers),
      )
