-- ===== src/Executor/Legs.antt =====
-- The phases of services/simulation/src/trips/trip_executor.py up to the destination, in quiet
-- surroundings.
use rideshare_simulation_pla.Prelude.{
  ℕ, ◌<◌, ◌≡◌, ◌⊎◌, inl, inr, Bool, true, false, not, List, [], ◌∷◌, ◌++◌, ◌&&◌, ltb, arith,
  Option-cases, length,
}
use rideshare_simulation_pla.Prelude.Ratio.{Ratio, whole, ltb_ratio}
use rideshare_simulation_pla.Trip.{
  TripState, driver_assigned, en_route_pickup, at_pickup, in_transit, cancelled, driver,
  driver_cancelled_before_pickup,
}
use rideshare_simulation_pla.Trip.Graph.{set_out, arrive, depart}
use rideshare_simulation_pla.Registry.{on_trip, available}
use rideshare_simulation_pla.Registry
use rideshare_simulation_pla.Agents.{start_pickup, start_trip, rider_start_trip, on_driver_en_route}
use rideshare_simulation_pla.Server.{Server, Error, transition, change_rider, emit, trip_state}
use rideshare_simulation_pla.Server.Search.{Route}
use rideshare_simulation_pla.Server.Puppets.{driver_turns, driver_moves}
use rideshare_simulation_pla.Server.Triples.{Post, bind-Post, returned, Post-weaken, if-Post}
use rideshare_simulation_pla.Executor.{Surroundings, get_route_with_retry, location_of, draw_below}
use rideshare_simulation_pla.Executor.Drives.{intervals}
use rideshare_simulation_pla.Executor.Phases.{
  distance_scaling, drive_or_give_up, decide, drive_to_pickup, wait_for_rider, begin_trip,
  draw_cancel, drive_with_passenger, drive_to_destination, wind_up, settle, finish_trip, carry,
  execute, unless_cancelled, pickup_routed, trip_routed, arrived, pickup_driven, completed_now,
  emit_payment, record_completion_stats, start_repositioning,
}
use rideshare_simulation_pla.Executor.Phases
use rideshare_simulation_pla.Executor.Steady.{At, At-Steady, Closed, change_rider-Steady}
use rideshare_simulation_pla.Executor.Steps.{
  transition-At, tell-At, driver_turns-At, driver_moves-At, abort-Closed,
}
use rideshare_simulation_pla.Executor.Travels.{
  IsQuiet, HasPoints, is_route_error, simulate_drive-At, simulate_drive-Post,
  get_route_with_retry-At,
}

location_of-At :
    {E : Error → Server → Type 0} (d t : ℕ) {st : TripState} {js : List TripState} (w : Server)
    → At d t st js w
    → Post E (λ _ v. At d t st js v) (location_of d w)
location_of-At d t w a = elim (Option-cases (w.driver d).location) [
  | inl n ↦ absurd (ground (arith, a.located))
  | inr (l, e) ↦ returned (location_of d w) {a = l} {v = w} (ground (arith, e)) a
]

module _ (s : Surroundings) (d t : ℕ) (quiet : IsQuiet s d t) (points : HasPoints s) where
  drive_or_give_up-Post :
      {E : Error → Server → Type 0} {js : List TripState} (r : Route) (gives_up : Bool) (w : Server)
      → 0 < length r.geometry
      → At d t en_route_pickup js w
      → Post E
          (λ _ v.
            At d t en_route_pickup (js ++ en_route_pickup ∷ []) v
            ⊎ Closed d t cancelled (js ++ cancelled ∷ []) v)
          (drive_or_give_up s d t r gives_up w)
  unfolding drive_or_give_up
  drive_or_give_up-Post r true w h a =
      Post-weaken _ (abort-Closed d t driver driver_cancelled_before_pickup "pickup" w a)
        (λ _ v. inr)
  drive_or_give_up-Post r false w h a =
      let told =
        emit (trip_state en_route_pickup) t (w.trip t).driver_id (w.trip t).offer_sequence w in
      let b =
        At-Steady (tell-At d t en_route_pickup w a)
          (change_rider-Steady d t told on_driver_en_route) in
      Post-weaken _ (simulate_drive-At s d t _ r (change_rider t on_driver_en_route told) quiet h b)
        (λ _ v. inl)

  decide-Post :
      {E : Error → Server → Type 0} {js : List TripState} (r : Route) (w : Server)
      → 0 < length r.geometry
      → At d t en_route_pickup js w
      → Post E
          (λ _ v.
            At d t en_route_pickup (js ++ en_route_pickup ∷ []) v
            ⊎ Closed d t cancelled (js ++ cancelled ∷ []) v)
          (decide s d t r w)
  unfolding decide draw_below
  decide-Post r w h a = drive_or_give_up-Post r _ _ h (record {
    state = ground (arith, a);
    driver_id = ground (arith, a);
    located = a.located;
    accurate = a.accurate;
    kafka = a.kafka;
    told = a.told;
  })

  pub drive_to_pickup-Post :
      {E : Error → Server → Type 0} {js : List TripState} (w : Server)
      → ((e : Error) (v : Server) → is_route_error e ≡ true → At d t en_route_pickup js v → E e v)
      → At d t driver_assigned js w
      → Post E
          (λ _ v.
            At d t en_route_pickup (js ++ en_route_pickup ∷ []) v
            ⊎ Closed d t cancelled (js ++ cancelled ∷ []) v)
          (drive_to_pickup s d t w)
  unfolding drive_to_pickup Phases.set_out start_pickup
  drive_to_pickup-Post w fails a =
      bind-Post (transition t en_route_pickup) _ w (transition-At d t w set_out a) λ _ v b.
        bind-Post (driver_turns d start_pickup Registry.en_route_pickup) _ v
          (driver_turns-At d t start_pickup Registry.en_route_pickup v b.located b)
          λ _ v (b, _, _). bind-Post (location_of d) _ v (location_of-At d t v b) λ from v b.
            bind-Post (λ u. get_route_with_retry s from (u.trip t).pickup_location u) _ v
              (get_route_with_retry-At s d t from _ v quiet points fails b)
              λ r v (b, h). decide-Post r v h b

  pub wait_for_rider-Post :
      {E : Error → Server → Type 0} (js : List TripState) (w : Server)
      → At d t en_route_pickup js w
      → Post E (λ _ v. At d t at_pickup (js ++ at_pickup ∷ []) v) (wait_for_rider s d t w)
  unfolding wait_for_rider
  wait_for_rider-Post js w a =
      bind-Post (transition t at_pickup) _ w (transition-At d t w arrive a) λ _ v b.
        bind-Post (λ u. driver_moves s.outside d (u.trip t).pickup_location u) _ (arrived t v)
          (driver_moves-At d t {st = at_pickup} {js = js} s.outside _ (arrived t v)
            (ground (arith, b)))
          λ _ v b. record {
            holds =
                At-Steady (tell-At d t at_pickup (pickup_driven t v) (ground (arith, b)))
                  (quiet (whole 30) _);
          }

  pub begin_trip-Post :
      {E : Error → Server → Type 0} {js : List TripState} (w : Server)
      → At d t at_pickup js w
      → Post E (λ _ v. At d t in_transit (js ++ in_transit ∷ []) v) (begin_trip s d t w)
  unfolding begin_trip start_trip
  begin_trip-Post w a =
      bind-Post (transition t in_transit) _ w (transition-At d t w depart a) λ _ v b.
        bind-Post (driver_turns d start_trip on_trip) _ v
          (driver_turns-At d t start_trip on_trip v b.located b)
          λ _ v (b, _, _). record {
            holds =
                At-Steady
                  (tell-At d t in_transit _
                    (At-Steady b (change_rider-Steady d t v rider_start_trip)))
                  (quiet (whole 0) _);
          }

  draw_cancel-At :
      {E : Error → Server → Type 0} {st : TripState} {js : List TripState} (allowed : Bool)
      (rate : Ratio) (n : ℕ) (w : Server)
      → At d t st js w
      → Post E (λ _ v. At d t st js v) (draw_cancel s allowed rate n w)
  unfolding draw_cancel draw_below Phases.pick_interval
  draw_cancel-At allowed rate n w a =
      if-Post (allowed && ltb 0 rate.num) _ _ w
        (if-Post (ltb_ratio (s.outside.random w.draws) rate) _ _ _
          (if-Post (ltb 1 n) _ _ _ (record { holds = ground (arith, a) })
            (record { holds = ground (arith, a) }))
          (record { holds = ground (arith, a) }))
        (record { holds = a })

  pub drive_to_destination-Post :
      {js : List TripState} {E : Error → Server → Type 0} (w : Server)
      → ((e : Error) (v : Server) → is_route_error e ≡ true → At d t in_transit js v → E e v)
      → At d t in_transit js w
      → Post E
          (λ _ v. At d t in_transit js v ⊎ Closed d t cancelled (js ++ cancelled ∷ []) v)
          (drive_to_destination s d t w)
  unfolding drive_to_destination drive_with_passenger
  drive_to_destination-Post w fails a =
      bind-Post
        (λ u. get_route_with_retry s (u.trip t).pickup_location (u.trip t).dropoff_location u) _ w
        (get_route_with_retry-At s d t _ _ w quiet points fails a)
        λ r v (b, h).
          bind-Post
            (draw_cancel s (not s.settings.rider_cancels_mid_trip)
              s.settings.mid_trip_cancellation_rate (intervals s r))
            _ (trip_routed t r v)
            (draw_cancel-At (not s.settings.rider_cancels_mid_trip)
              s.settings.mid_trip_cancellation_rate (intervals s r) (trip_routed t r v)
              (ground (arith, b)))
            λ c v b.
              bind-Post
                (draw_cancel s true s.settings.driver_mid_trip_cancellation_rate (intervals s r)) _
                v
                (draw_cancel-At true s.settings.driver_mid_trip_cancellation_rate (intervals s r) v
                  b)
                λ e v b.
                  simulate_drive-Post s d t
                    (record {
                      check_rider_cancel = true;
                      probabilistic_cancel_interval = c;
                      driver_cancel_interval = e;
                    })
                    (v.trip t).dropoff_location r v quiet h b
