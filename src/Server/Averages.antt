-- ===== src/Server/Averages.antt =====
-- `get_trip_stats` of matching_server.py over any run of completed trips.
use rideshare_simulation_pla.Prelude.{
  ℕ, ◌+◌, ◌-◌, ◌≤◌, ◌≡◌, ap, true, List, [], ◌∷◌, ◌++◌, arith, ◌∙◌, sym, length, length-drop,
  length-append, min,
}
use rideshare_simulation_pla.Trip.{Trip, completed}
use mathlib.Core.Path.{subst}
use rideshare_simulation_pla.Server.{Server, Config}
use rideshare_simulation_pla.Server.Endings.{
  append_bounded, accumulate_trip_stats, track_ending, complete_trip, get_trip_stats,
}

-- Trips that come to their end one after another.
pub complete_all : List ℕ → Server → Server
complete_all [] w = w
complete_all (t ∷ ts) w = complete_all ts (complete_trip t true w)

abbrev pub fares : List ℕ → (ℕ → Trip) → ℕ
fares [] trip = 0
fares (t ∷ ts) trip = (trip t).fare + fares ts trip

abbrev pub AllCompleted : List ℕ → (ℕ → Trip) → Type 0
AllCompleted [] trip = Unit
AllCompleted (t ∷ ts) trip = ((trip t).state ≡ completed) × AllCompleted ts trip

record Counted (t : ℕ) (w w' : Server) : Type 0 where
  total : w'.stats.total_fare ≡ w.stats.total_fare + (w.trip t).fare
  history : w'.completed_trips ≡ append_bounded w.config.max_trip_history w.completed_trips t
  trip : w'.trip ≡ w.trip
  config : w'.config ≡ w.config

complete_trip-Counted :
    (t : ℕ) (w : Server) → (w.trip t).state ≡ completed → Counted t w (complete_trip t true w)
unfolding complete_trip track_ending accumulate_trip_stats
complete_trip-Counted t w s = ground arith

length-append_bounded-min :
    (n : ℕ) (xs : List ℕ) (x : ℕ)
    → length xs ≤ n
    → length (append_bounded n xs x) ≡ min (length xs + 1) n
unfolding append_bounded
length-append_bounded-min n xs x h =
    omega (arith, length-drop (length xs + 1 - n) (xs ++ x ∷ []), length-append xs (x ∷ []))

complete_all_stats :
    (ts : List ℕ) (w : Server)
    → AllCompleted ts w.trip
    → length w.completed_trips ≤ w.config.max_trip_history
    → ((complete_all ts w).stats.total_fare ≡ w.stats.total_fare + fares ts w.trip)
      × (length (complete_all ts w).completed_trips
          ≡ min (length w.completed_trips + length ts) w.config.max_trip_history)
unfolding complete_all
complete_all_stats [] w a h = omega arith
complete_all_stats (t ∷ ts) w a h =
    let c = complete_trip-Counted t w a.0 in
    let limit : ℕ = w.config.max_trip_history in
    let same_limit = ap (λ (x : Config). x.max_trip_history) c.config in
    let grown = ap length c.history ∙ length-append_bounded-min limit w.completed_trips t h in
    let rest =
      complete_all_stats ts (complete_trip t true w) (subst (AllCompleted ts) (sym c.trip) a.1)
        (omega arith) in
    omega (arith, rest.0, rest.1, ap (fares ts) c.trip, c.total)

-- The flaw: after any run of completed trips, from an empty history and a sum of 0, the average fare
-- that is reported is the sum of the fares of all of them, divided by the smaller of their number
-- and `max_trip_history`.
pub avg_fare_drifts :
    (ts : List ℕ) (w : Server)
    → AllCompleted ts w.trip
    → w.completed_trips ≡ []
    → w.stats.total_fare ≡ 0
    → (get_trip_stats (complete_all ts w)).avg_fare
      ≡ (fares ts w.trip, min (length ts) w.config.max_trip_history)
unfolding get_trip_stats
avg_fare_drifts ts w a e z =
    let s = complete_all_stats ts w a (omega (arith, ap length e)) in
    let total : (complete_all ts w).stats.total_fare ≡ fares ts w.trip = omega (arith, s.0) in
    let held : length (complete_all ts w).completed_trips
        ≡ min (length ts) w.config.max_trip_history =
      omega (arith, s.1, ap length e) in
    λ i. (total i, held i)
