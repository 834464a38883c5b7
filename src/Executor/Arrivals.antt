-- ===== src/Executor/Arrivals.antt =====
-- The end of a trip in services/simulation/src/trips/trip_executor.py, with its ratings, in quiet
-- surroundings.
use rideshare_simulation_pla.Prelude.{
  ℕ, ◌+◌, ◌≡◌, inl, inr, Bool, true, false, List, [], ◌∷◌, ◌++◌, arith, Option-cases,
}
use rideshare_simulation_pla.Prelude.Ratio.{Ratio, whole}
use rideshare_simulation_pla.Trip.{TripState, in_transit, completed, cancelled, same_state}
use rideshare_simulation_pla.Trip.Graph.{drop_off}
use rideshare_simulation_pla.Registry.{available}
use rideshare_simulation_pla.Agents.{
  update_driver_rating, rider_idle, rider_located, complete_trip as driver_complete_trip,
}
use rideshare_simulation_pla.Server.{
  Server, M, Error, modify, transition, change_rider, emit, trip_state, set_driver, get_rider,
}
use rideshare_simulation_pla.Server.Puppets.{driver_turns, driver_moves}
use rideshare_simulation_pla.Server.Triples.{Post, bind-Post, returned, when-Post}
use rideshare_simulation_pla.Executor.{Surroundings}
use rideshare_simulation_pla.Executor.Ratings.{
  submit, submit_ratings, rider_submits_rating, driver_submits_rating, rate_driver, rate_rider,
}
use rideshare_simulation_pla.Executor.Phases.{
  wind_up, settle, finish_trip, unless_cancelled, completed_now, emit_payment,
  record_completion_stats, start_repositioning,
}
use rideshare_simulation_pla.Executor.Steady.{
  Steady, At, At-Steady, IsFree, IsFree-Steady, Closed, Closed-Steady, change_rider-Steady,
}
use rideshare_simulation_pla.Executor.Steps.{
  transition-At, tell-At, driver_turns-At, driver_moves-At, complete_trip-Closed,
}
use rideshare_simulation_pla.Executor.Travels.{IsQuiet, HasPoints}

rate_driver-Steady :
    (s : Surroundings) (d t n : ℕ) (w : Server) → Steady d t w (rate_driver s d t n w)
unfolding change_rider update_driver_rating
rate_driver-Steady s d t n w = ground arith

rate_rider-Steady :
    (s : Surroundings) (d t n : ℕ) (w : Server) → Steady d t w (rate_rider s d t n w)
unfolding change_rider
rate_rider-Steady s d t n w = ground arith

emit_payment-Steady : (d t : ℕ) (w : Server) → Steady d t w (emit_payment t w)
unfolding emit_payment
emit_payment-Steady d t w = ground arith

record_completion_stats-Steady :
    (d t : ℕ) (w : Server) → Steady d t w (record_completion_stats d t w)
unfolding record_completion_stats change_rider
record_completion_stats-Steady d t w = ground arith

start_repositioning-Steady :
    (d t : ℕ) (w : Server) → Steady d t w (set_driver d (start_repositioning (w.driver d)) w)
unfolding start_repositioning
start_repositioning-Steady d t w = ground arith

module _ (s : Surroundings) (d t : ℕ) (quiet : IsQuiet s d t) (points : HasPoints s) where
  -- The ratings change neither the trip nor what the driver is doing.
  submit-Post :
      {E : Error → Server → Type 0} {st : TripState} {js : List TripState} (service : Bool)
      (factor : Ratio) (effect : ℕ → Server → Server) (w : Server)
      → ((n : ℕ) (v : Server) → Steady d t v (effect n v))
      → At d t st js w × IsFree d w
      → Post E (λ _ v. At d t st js v × IsFree d v) (submit s service factor effect w)
  unfolding submit
  submit-Post {st = st} {js} service factor effect w same a =
      when-Post _ (modify (effect _)) _
        (record { holds = (At-Steady drawn.0 (same _ _), IsFree-Steady drawn.1 (same _ _)) }) drawn
    where
      drawn :
          At d t st js (record w { draws = w.draws + 1 + 1 })
          × IsFree d (record w { draws = w.draws + 1 + 1 })
      drawn = ground (arith, a)

  submit_ratings-Post :
      {E : Error → Server → Type 0} {st : TripState} {js : List TripState} (w : Server)
      → At d t st js w × IsFree d w
      → Post E (λ _ v. At d t st js v × IsFree d v) (submit_ratings s d t w)
  unfolding submit_ratings rider_submits_rating driver_submits_rating
  submit_ratings-Post {st = st} {js} w a =
      bind-Post (rider_submits_rating s d t) _ w
        (when-Post (same_state (w.trip t).state completed) _ w
          (submit-Post true (w.driver d).dna.service_quality (rate_driver s d t) w
            (rate_driver-Steady s d t) a)
          a)
        λ _ v b. elim (Option-cases (get_rider (v.trip t).rider_id v)) [
          | inl n ↦ returned (driver_submits_rating s d t v) {a = tt} {v = v} (ground (arith, n)) b
          | inr (r, e) ↦
              rw (e, driver_submits_rating)
                (when-Post (same_state (v.trip t).state completed) _ v
                  (submit-Post false r.behavior_factor (rate_rider s d t) v
                    (rate_rider-Steady s d t) b)
                  b)
        ]

  settle-Closed :
      {E : Error → Server → Type 0} (js : List TripState) (w : Server)
      → At d t completed js w
      → Post E (λ _ v. Closed d t completed (js ++ completed ∷ []) v) (settle s d t w)
  unfolding settle wind_up driver_complete_trip
  settle-Closed js w a =
      bind-Post (driver_turns d driver_complete_trip available) _ paid
        (driver_turns-At d t driver_complete_trip available paid here.located here)
        λ _ v (b, no_trip, status).
          let idle = change_rider t rider_idle v in
          let s₁ = change_rider-Steady d t v rider_idle in
          let s₂ = record_completion_stats-Steady d t idle in
          let free : IsFree d v = record { driver_trip = no_trip; driver_status = status } in
          bind-Post (submit_ratings s d t) _ (record_completion_stats d t idle)
            (submit_ratings-Post _
              (At-Steady (At-Steady b s₁) s₂, IsFree-Steady (IsFree-Steady free s₁) s₂))
            λ _ u (b, f).
              let s₃ = start_repositioning-Steady d t u in
              record {
                holds =
                    Closed-Steady (complete_trip-Closed d t _ (At-Steady b s₃) (IsFree-Steady f s₃))
                      (quiet (whole 0) _);
              }
    where
      seated : Server
      seated = change_rider t (rider_located (w.trip t).dropoff_location) w

      told : Server
      told =
          emit (trip_state completed) t (seated.trip t).driver_id (seated.trip t).offer_sequence
            seated

      paid : Server
      paid = emit_payment t told

      here : At d t completed (js ++ completed ∷ []) paid
      here =
          At-Steady (tell-At d t completed seated (At-Steady a (change_rider-Steady d t w _)))
            (emit_payment-Steady d t told)

  pub finish_trip-Closed :
      {E : Error → Server → Type 0} (js : List TripState) (w : Server)
      → At d t in_transit js w
      → Post E (λ _ v. Closed d t completed (js ++ completed ∷ []) v) (finish_trip s d t w)
  unfolding finish_trip
  finish_trip-Closed js w a =
      bind-Post (transition t completed) _ w (transition-At d t w drop_off a) λ _ v b.
        bind-Post (λ u. driver_moves s.outside d (u.trip t).dropoff_location u) _
          (completed_now t v)
          (driver_moves-At d t {st = completed} {js = js} s.outside _ (completed_now t v)
            (ground (arith, b)))
          λ _ v b. settle-Closed js v b

  pub unless_live :
      {E : Error → Server → Type 0} {Q : Server → Type 0} {st : TripState} {js : List TripState}
      (rest : M (Unit {0})) (w : Server)
      → same_state st cancelled ≡ false
      → At d t st js w
      → Post E (λ _ v. Q v) (rest w)
      → Post E (λ _ v. Q v) (unless_cancelled s t rest w)
  unless_live rest w h a p = rw (a.state, h) p

  pub unless_ended :
      {E : Error → Server → Type 0} {Q : Server → Type 0} {js : List TripState}
      (rest : M (Unit {0})) (w : Server)
      → Closed d t cancelled js w
      → Q w
      → Post E (λ _ v. Q v) (unless_cancelled s t rest w)
  unless_ended rest w c q = rw c.at.state (record { holds = q })
