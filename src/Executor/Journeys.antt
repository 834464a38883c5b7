-- ===== src/Executor/Journeys.antt =====
-- `TripExecutor.execute` of services/simulation/src/trips/trip_executor.py against the life of a trip: what it
-- publishes, and how it leaves the trip, the driver and the matching server.
use rideshare_simulation_pla.Prelude.{
  ℕ, ◌≡◌, refl, ap, ◌∙◌, ◌⊎◌, inl, inr, true, List, [], ◌∷◌, ◌++◌, append_assoc,
}
use rideshare_simulation_pla.Trip.{
  TripState, driver_assigned, en_route_pickup, at_pickup, in_transit, completed, cancelled,
  is_terminal,
}
use rideshare_simulation_pla.Trip.Graph.{◌⟶◌, set_out, arrive, depart, drop_off, abandon}
use rideshare_simulation_pla.Server.{Server, Error}
use rideshare_simulation_pla.Server.Triples.{Post, bind-Post, Post-weaken}
use rideshare_simulation_pla.Executor.{Surroundings}
use rideshare_simulation_pla.Executor.Phases.{
  drive_to_pickup, wait_for_rider, begin_trip, drive_to_destination, finish_trip, carry,
  await_rider, execute,
}
use rideshare_simulation_pla.Executor.Steady.{trace, At, Closed, At-retold, Closed-retold}
use rideshare_simulation_pla.Executor.Legs.{
  drive_to_pickup-Post, wait_for_rider-Post, begin_trip-Post, drive_to_destination-Post,
}
use rideshare_simulation_pla.Executor.Arrivals.{finish_trip-Closed, unless_live, unless_ended}
use rideshare_simulation_pla.Executor.Travels.{IsQuiet, HasPoints, is_route_error}

-- A path in the life of a trip, with the states that it enters.
pub data Journey : TripState → List TripState → TripState → Type 0 where
  stay : {s : TripState} → Journey s [] s
  go_on : {s u v : TripState} {js : List TripState} → s ⟶ u → Journey u js v → Journey s (u ∷ js) v

-- The service failed: the trip is left on its way to the pickup or to the destination, after `js`.
abbrev pub Stranded : ℕ → ℕ → List TripState → Error → Server → Type 0
Stranded d t js e v =
    (is_route_error e ≡ true)
    × (At d t en_route_pickup js v
        ⊎ At d t in_transit (js ++ en_route_pickup ∷ at_pickup ∷ in_transit ∷ []) v)

-- The trip has ended at the end of a path from its assignment, and all of the path was published.
abbrev pub Ended : ℕ → ℕ → List TripState → Server → Type 0
Ended d t base v =
    (js : List TripState) × (st : TripState) × Journey driver_assigned js st
    × (is_terminal st ≡ true)
    × Closed d t st (base ++ js) v

-- The states of a trip that was carried, one after the other.
told :
    (base : List TripState) (st : TripState)
    → ((base ++ en_route_pickup ∷ at_pickup ∷ []) ++ in_transit ∷ []) ++ st ∷ []
      ≡ base ++ en_route_pickup ∷ at_pickup ∷ in_transit ∷ st ∷ []
told base st =
    ap (λ xs. xs ++ st ∷ [])
      (append_assoc base (en_route_pickup ∷ at_pickup ∷ []) (in_transit ∷ []))
    ∙ append_assoc base (en_route_pickup ∷ at_pickup ∷ in_transit ∷ []) (st ∷ [])

module _ (s : Surroundings) (d t : ℕ) where
  carry-Ended :
      (base : List TripState) (w : Server)
      → IsQuiet s d t
      → HasPoints s
      → At d t at_pickup (base ++ en_route_pickup ∷ at_pickup ∷ []) w
      → Post (Stranded d t base) (λ _ v. Ended d t base v) (carry s d t w)
  unfolding carry
  carry-Ended base w quiet points a =
      bind-Post (begin_trip s d t) _ w (begin_trip-Post s d t quiet points w a) λ _ v b.
        bind-Post (drive_to_destination s d t) _ v
          (drive_to_destination-Post s d t quiet points v
            (λ e u h c. (h, inr (At-retold (append_assoc base _ _) c))) b)
          λ _ v b. elim b [
            | inl on ↦ unless_live s d t quiet points (finish_trip s d t) v refl on (
                Post-weaken _ (finish_trip-Closed s d t quiet points _ v on) (λ _ u c. (
                  _,
                  completed,
                  go_on set_out (go_on arrive (go_on depart (go_on drop_off stay))),
                  refl,
                  Closed-retold (told base completed) c,
                )))
            | inr c ↦ unless_ended s d t quiet points (finish_trip s d t) v c (
              _,
              cancelled,
              go_on set_out (go_on arrive (go_on depart (go_on (abandon refl) stay))),
              refl,
              Closed-retold (told base cancelled) c,
            )
          ]

  -- An executor starts on an assigned trip, whose driver is somewhere, with accurate counters and a producer.
  -- If every route has a point, and if the other processes leave the trip and its driver alone while it is
  -- suspended, then it returns or it raises an exception of the route service, and no other. If it returns,
  -- the states that it has published since are a path in the life of a trip from its assignment to its
  -- end, in which the trip is; the driver is free, nobody reserves it, and the trip is not active any more.
  -- If it raises, the trip is left on the way to the pickup or to the destination, with all that
  -- happened before published.
  pub execute-Ended :
      (w : Server)
      → IsQuiet s d t
      → HasPoints s
      → At d t driver_assigned (trace t w.events) w
      → Post
          (Stranded d t (trace t w.events))
          (λ _ v. Ended d t (trace t w.events) v)
          (execute s d t w)
  unfolding execute await_rider
  execute-Ended w quiet points a =
      bind-Post (drive_to_pickup s d t) _ w
        (drive_to_pickup-Post s d t quiet points w (λ e u h c. (h, inl c)) a)
        λ _ v b. elim b [
          | inr c ↦
              unless_ended s d t quiet points (await_rider s d t) v c
                (_, cancelled, go_on (abandon refl) stay, refl, c)
          | inl on ↦ unless_live s d t quiet points (await_rider s d t) v refl on (
              bind-Post (wait_for_rider s d t) _ v (wait_for_rider-Post s d t quiet points _ v on)
                λ _ u c. unless_live s d t quiet points (carry s d t) u refl c (
                  carry-Ended (trace t w.events) u quiet points
                    (At-retold (append_assoc (trace t w.events) _ _) c)))
        ]
