-- ===== src/Server/Puppets.antt =====
-- The puppet drivers of matching_server.py, which the API controls: their answers, the signals of a trip
-- and the drives of their own threads (puppet/drive_controller.py).
use rideshare_simulation_pla.Prelude.{
  ℕ, ◌-◌, Bool, true, false, not, ◌&&◌, Option, none, some, List, length, if◌then◌else◌,
}
use rideshare_simulation_pla.Prelude.Dict.{lookup, insert, erase}
use rideshare_simulation_pla.Prelude.IdSet.{member}
use rideshare_simulation_pla.Prelude.Ratio.{ltb_ratio, whole}
use rideshare_simulation_pla.Trip.{
  Trip, Location, offer_rejected, driver_assigned, en_route_pickup, at_pickup, in_transit,
  completed, is_offer_sent, same_state,
}
use rideshare_simulation_pla.Registry.{DriverStatus, same_status, on_trip}
use rideshare_simulation_pla.Registry
use rideshare_simulation_pla.Fleet
use rideshare_simulation_pla.Agents.{
  Driver, Rider, start_pickup, start_trip, rider_start_trip, rider_idle, update_trip_state,
  on_driver_en_route,
}
use rideshare_simulation_pla.Agents
use rideshare_simulation_pla.Agents.Statistics.{
  record_offer_accepted, record_offer_rejected, record_offer_expired, record_driver_trip_completed,
  record_rider_trip_completed,
}
use rideshare_simulation_pla.Server.{
  Server, M, done, raised, key_error, no_such_driver, not_a_puppet, no_such_trip, wrong_status,
  no_location, no_route, ◌>>◌, modify, skip, transition, emit, change_rider, driver_status_changed,
  set_driver, set_trip, release, trip_state, PendingOffer,
}
use rideshare_simulation_pla.Server.Responses.{
  count_on, accepted_counted, rejected_counted, expired_counted, driver_accepts, index_available,
  expire_trip,
}
use rideshare_simulation_pla.Server.Offers.{continue_deferred_offer_cycle}
use rideshare_simulation_pla.Server.Endings.{complete_trip}
use rideshare_simulation_pla.Server.Search.{Outside, Route}

unfoldable pub get_pending_offer_for_driver : ℕ → Server → Option PendingOffer
get_pending_offer_for_driver d w = lookup d w.pending_offers

-- `try: ... except Exception: log`.
abbrev pub caught : {A : Type 0} → M A → M (Unit {0})
caught m w = elim (m w) [ done a w' ↦ done tt w' | raised e w' ↦ done tt w' ]

abbrev pub when : Bool → M (Unit {0}) → M (Unit {0})
when true m = m
when false m = skip

-- `_emit_trip_state_event`.
abbrev pub emit_state : ℕ → M (Unit {0})
emit_state t =
    modify
      λ w. emit (trip_state (w.trip t).state) t (w.trip t).driver_id (w.trip t).offer_sequence w

-- A driver's own transition, with the registries told.
unfoldable pub driver_turns : ℕ → (Driver → Driver) → DriverStatus → M (Unit {0})
driver_turns d f s = do modify (λ w. set_driver d (f (w.driver d)) w); driver_status_changed d s

abbrev pub stop_drive : ℕ → Server → Server
stop_drive d w = elim (lookup d w.puppet_drives) [
  | none ↦ w
  | some p ↦ record w { puppet_drives = insert d (record p { is_running = false }) w.puppet_drives }
]

abbrev pub span : Option ℕ → Option ℕ → ℕ
span (some a) (some b) = b - a
span _ _ = 0

unfoldable pub record_trip_completion_stats : ℕ → ℕ → Server → Server
record_trip_completion_stats d t w =
    let trip = w.trip t in
    let pickup = span trip.matched_at trip.driver_arrived_at in
    change_rider t
      (λ r. record r {
        statistics =
            record_rider_trip_completed trip.fare (span trip.requested_at trip.matched_at) pickup
              (ltb_ratio (whole 1) trip.surge_multiplier) r.statistics;
      })
      (count_on d
        (record_driver_trip_completed trip.fare pickup (span trip.started_at trip.completed_at)) w)

unfoldable pub get_puppet_drive_status : ℕ → Server → Option (Bool × Bool)
get_puppet_drive_status d w = elim (lookup d w.puppet_drives) [
  | none ↦ none
  | some p ↦ some (p.is_running, p.is_completed)
]

unfoldable pub signal_driver_arrived : ℕ → ℕ → M (Unit {0})
signal_driver_arrived d t w =
    if member t w.active_trips && member d w.registered
    then (do
      transition t at_pickup
      modify (change_rider t (update_trip_state at_pickup))
      emit_state t)
        w
    else done tt w

unfoldable pub signal_trip_completed : ℕ → ℕ → M (Unit {0})
unfolding driver_turns record_trip_completion_stats
signal_trip_completed d t w =
    if member t w.active_trips && member d w.registered
    then (do
      driver_turns d Agents.complete_trip Registry.available
      modify (change_rider t rider_idle)
      transition t completed
      modify (λ v. set_trip t (record (v.trip t) { completed_at = some v.now }) v)
      modify (record_trip_completion_stats d t)
      emit_state t
      modify (complete_trip t true))
        w
    else done tt w

module _ (o : Outside) where
  open o use {grid, get_route, random, zone_of}

  -- `driver.update_location`, with the registries told of the place and its zone.
  unfoldable pub driver_moves : ℕ → Location → M (Unit {0})
  driver_moves d l w =
      let moved = set_driver d (record (w.driver d) { location = some l }) w in
      if w.config.has_registry_manager
      then elim (Fleet.driver_location_updated grid d l (zone_of l) w.fleet) [
        | none ↦ raised key_error moved
        | some f ↦ done tt (record moved { fleet = f })
      ]
      else done tt moved

  -- The last part of both starts: the trip's route, the event, the controller.
  unfoldable pub begin_drive : ℕ → ℕ → Bool → Route → M (Unit {0})
  begin_drive d t is_pickup r = do
    modify (λ w.
        set_trip t
          (if is_pickup
            then record (w.trip t) { pickup_route = some r.geometry }
            else record (w.trip t) { route = some r.geometry })
          w)
    modify (λ w.
        emit (trip_state (if is_pickup then en_route_pickup else in_transit)) t (w.trip t).driver_id
          (w.trip t).offer_sequence w)
    modify (λ w. record w {
      puppet_drives =
          insert d
            (record {
              trip_id = t;
              is_pickup_drive = is_pickup;
              is_running = true;
              is_completed = false;
            })
            w.puppet_drives;
    })

  unfoldable pub drive_from : ℕ → ℕ → Bool → Option Location → Location → M (Unit {0})
  unfolding begin_drive
  drive_from d t is_pickup none to w = raised no_location w
  drive_from d t is_pickup (some l) to w =
      let stopped = stop_drive d w in
      elim (get_route l to) [
        | none ↦ raised no_route stopped
        | some r ↦ begin_drive d t is_pickup r stopped
      ]

  -- The prerequisites of both starts, in the source's order.
  unfoldable pub start_puppet_drive : ℕ → ℕ → Bool → DriverStatus → Location → M (Unit {0})
  unfolding drive_from
  start_puppet_drive d t is_pickup s to w =
      if not (member d w.registered)
      then raised no_such_driver w
      else if not (w.driver d).is_puppet
      then raised not_a_puppet w
      else if not (member t w.active_trips)
      then raised no_such_trip w
      else if not (same_status (w.driver d).status s)
      then raised wrong_status w
      else drive_from d t is_pickup (w.driver d).location to w

  unfoldable pub start_puppet_drive_to_pickup : ℕ → ℕ → M (Unit {0})
  unfolding start_puppet_drive
  start_puppet_drive_to_pickup d t w =
      start_puppet_drive d t true Registry.en_route_pickup (w.trip t).pickup_location w

  unfoldable pub start_puppet_drive_to_destination : ℕ → ℕ → M (Unit {0})
  unfolding start_puppet_drive
  start_puppet_drive_to_destination d t w =
      start_puppet_drive d t false on_trip (w.trip t).dropoff_location w

  unfoldable pub puppet_accepts : ℕ → ℕ → M (Unit {0})
  unfolding driver_accepts driver_turns start_puppet_drive_to_pickup
  puppet_accepts d t = do
    modify (λ w. release d (accepted_counted (count_on d record_offer_accepted w)))
    driver_accepts d t
    driver_turns d start_pickup Registry.en_route_pickup
    modify (λ w. set_trip t (record (w.trip t) { driver_id = some d }) w)
    transition t driver_assigned
    modify (λ w. set_trip t (record (w.trip t) { matched_at = some w.now }) w)
    emit_state t
    transition t en_route_pickup
    modify (change_rider t (λ r. update_trip_state en_route_pickup (on_driver_en_route r)))
    caught (start_puppet_drive_to_pickup d t)

  unfoldable pub process_puppet_accept : ℕ → ℕ → M (Unit {0})
  unfolding puppet_accepts
  process_puppet_accept d t w = elim (lookup d w.pending_offers) [
    | none ↦ done tt w
    | some _ ↦
        (let taken = record w { pending_offers = erase d w.pending_offers } in
          if not (member t w.active_trips)
          then done tt (index_available d (release d taken))
          else if member d w.registered
          then puppet_accepts d t taken
          else done tt taken)
  ]

  unfoldable pub puppet_freed : ℕ → (Server → Server) → (Driver → Driver) → Server → Server
  puppet_freed d f g w =
      let taken = f (record w { pending_offers = erase d w.pending_offers }) in
      let counted =
        if member d w.registered then set_driver d (g (taken.driver d)) taken else taken in
      index_available d (release d counted)

  unfoldable pub reject_trip : ℕ → ℕ → M (Unit {0})
  reject_trip d t = do
    transition t offer_rejected
    modify (λ w. emit (trip_state offer_rejected) t (some d) (w.trip t).offer_sequence w)
    continue_deferred_offer_cycle random t

  unfoldable pub process_puppet_reject : ℕ → ℕ → M (Unit {0})
  unfolding puppet_freed reject_trip
  process_puppet_reject d t w =
      let freed =
        puppet_freed d rejected_counted
          (λ v. record v { statistics = record_offer_rejected v.statistics }) w in
      if member t w.active_trips
      then reject_trip d t freed
      else done tt (record freed { candidates = erase t freed.candidates })

  unfoldable pub process_puppet_timeout : ℕ → ℕ → M (Unit {0})
  unfolding puppet_freed
  process_puppet_timeout d t w =
      let freed =
        puppet_freed d expired_counted
          (λ v. record v { statistics = record_offer_expired v.statistics }) w in
      if member t w.active_trips
      then (if is_offer_sent (w.trip t).state then expire_trip random t d freed else done tt freed)
      else done tt (record freed { candidates = erase t freed.candidates })

  abbrev pub to_end : Option (List Location) → Trip → Trip
  to_end none t = t
  to_end (some r) t = record t { pickup_route_progress_index = length r - 1 }

  unfoldable pub on_puppet_pickup_drive_complete : ℕ → ℕ → M (Unit {0})
  unfolding driver_moves signal_driver_arrived
  on_puppet_pickup_drive_complete d t w =
      if member t w.active_trips && same_state (w.trip t).state en_route_pickup
      then (do
        when (member d w.registered) (driver_moves d (w.trip t).pickup_location)
        modify (λ v. set_trip t (to_end (v.trip t).pickup_route (v.trip t)) v)
        signal_driver_arrived d t)
          w
      else done tt w

  unfoldable pub signal_trip_started : ℕ → ℕ → M (Unit {0})
  unfolding driver_turns start_puppet_drive_to_destination
  signal_trip_started d t w =
      if member t w.active_trips && member d w.registered
      then (do
        driver_turns d start_trip on_trip
        modify (change_rider t (λ r. update_trip_state in_transit (rider_start_trip r)))
        transition t in_transit
        modify (λ v. set_trip t (record (v.trip t) { started_at = some v.now }) v)
        emit_state t
        when (w.driver d).is_puppet (caught (start_puppet_drive_to_destination d t)))
          w
      else done tt w

  -- A drive comes to its end: its callback runs, and what that raises is logged.
  unfoldable pub drive_completes : ℕ → M (Unit {0})
  unfolding on_puppet_pickup_drive_complete signal_trip_completed
  drive_completes d w = elim (lookup d w.puppet_drives) [
    | none ↦ done tt w
    | some p ↦
        (let ended = record w {
          puppet_drives =
              insert d (record p { is_completed = true; is_running = false }) w.puppet_drives;
        } in
          if p.is_running
          then caught
              (if p.is_pickup_drive
                then on_puppet_pickup_drive_complete d p.trip_id
                else signal_trip_completed d p.trip_id)
              ended
          else done tt w)
  ]
