-- ===== src/Server/Endings.antt =====
-- How a trip leaves matching_server.py: completion, cancellation, the accumulated statistics and the
-- reset. The clock does not go back, so that the differences of times are exact.
use rideshare_simulation_pla.Prelude.{
  ℕ, ◌+◌, ◌-◌, Bool, true, false, ◌||◌, Option, none, some, List, [], ◌∷◌, ◌++◌, ltb, length, drop,
  if◌then◌else◌,
}
use rideshare_simulation_pla.Prelude.Dict.{Dict, lookup, insert, erase}
use rideshare_simulation_pla.Prelude.IdSet.{member, discard}
use rideshare_simulation_pla.Trip.{
  Trip, completed, cancelled, CancellationActor, Reason, no_drivers_available,
  rider_cancelled_before_pickup, patience_timeout, same_state, cancel, value,
}
use rideshare_simulation_pla.Registry.{available}
use rideshare_simulation_pla.Index
use rideshare_simulation_pla.Agents.{Rider, complete_trip as driver_complete_trip, rider_idle}
use rideshare_simulation_pla.Agents.Statistics.{
  record_driver_trip_cancelled, record_rider_trip_cancelled,
}
use rideshare_simulation_pla.Server.{
  Server, M, done, ◌>>◌, modify, emit, change_rider, driver_status_changed, set_driver, set_trip,
  release, trip_state, TripStats, reason_key,
}
use rideshare_simulation_pla.Server.Responses.{count_on}

-- `deque(maxlen=n).append(x)`: the oldest entries fall off.
unfoldable pub append_bounded : ℕ → List ℕ → ℕ → List ℕ
append_bounded n xs x = drop (length xs + 1 - n) (xs ++ x ∷ [])

-- A difference of two times is added if both are known.
abbrev add_span : Option ℕ → Option ℕ → ℕ → ℕ
add_span (some a) (some b) n = n + (b - a)
add_span _ _ n = n

abbrev count_span : Option ℕ → Option ℕ → ℕ → ℕ
count_span (some a) (some b) n = n + 1
count_span _ _ n = n

unfoldable pub accumulate_trip_stats : Trip → TripStats → TripStats
accumulate_trip_stats t s = record s {
  total_fare = s.total_fare + t.fare;
  duration_sum = add_span t.matched_at t.completed_at s.duration_sum;
  duration_count = count_span t.matched_at t.completed_at s.duration_count;
  match_time_sum = add_span t.requested_at t.matched_at s.match_time_sum;
  match_time_count = count_span t.requested_at t.matched_at s.match_time_count;
  pickup_sum = add_span t.matched_at t.driver_arrived_at s.pickup_sum;
  pickup_count = count_span t.matched_at t.driver_arrived_at s.pickup_count;
}

unfoldable pub count_reason : Option Reason → Dict ℕ → Dict ℕ
count_reason none m = m
count_reason (some r) m = elim (lookup (reason_key r) m) [
  | none ↦ m
  | some n ↦ insert (reason_key r) (n + 1) m
]

-- The safety net: whoever drove the trip is no longer reserved.
abbrev pub release_driver_of : ℕ → Server → Server
release_driver_of t w = elim (w.trip t).driver_id [ none ↦ w | some d ↦ release d w ]

unfoldable pub track_ending : ℕ → Server → Server
unfolding append_bounded accumulate_trip_stats count_reason
track_ending t w =
    if same_state (w.trip t).state cancelled
    then record w {
      cancelled_trips = append_bounded w.config.max_trip_history w.cancelled_trips t;
      stats = record (w.stats) {
        cancellation_by_reason =
            count_reason (w.trip t).cancellation_reason w.stats.cancellation_by_reason;
      };
    }
    else if same_state (w.trip t).state completed
    then record w {
      completed_trips = append_bounded w.config.max_trip_history w.completed_trips t;
      stats = accumulate_trip_stats (w.trip t) w.stats;
    }
    else w

-- `complete_trip(trip_id, trip)`; `given` says whether the caller hands the trip over. Without it only
-- an active trip is tracked.
unfoldable pub complete_trip : ℕ → Bool → Server → Server
unfolding track_ending
complete_trip t given w =
    let removed = record w { active_trips = discard t w.active_trips } in
    if given || member t w.active_trips
    then track_ending t (release_driver_of t removed)
    else removed

-- `patience_timeout` is told apart by whether any offer was made.
unfoldable pub resolve_reason : ℕ → Reason → Reason
resolve_reason offers patience_timeout =
    if ltb 0 offers then rider_cancelled_before_pickup else no_drivers_available
resolve_reason offers r = r

-- The driver of the trip: its puppet drive is stopped and dropped, its reservation released, and the
-- driver itself set free if the server knows it.
unfoldable pub free_driver : Option ℕ → M (Unit {0})
free_driver none w = done tt w
free_driver (some d) w =
    let freed = release d (record w { puppet_drives = erase d w.puppet_drives }) in
    if member d w.registered
    then (do
      modify (λ v. set_driver d (driver_complete_trip (v.driver d)) v)
      driver_status_changed d available
      modify (count_on d record_driver_trip_cancelled))
        freed
    else done tt freed

abbrev pub rider_cancels : Rider → Rider
rider_cancels r =
    let idle = rider_idle r in record idle { statistics = record_rider_trip_cancelled r.statistics }

abbrev pub trip_cancelled : ℕ → CancellationActor → Reason → Server → Server
trip_cancelled t by reason w = set_trip t (cancel by reason (value (w.trip t).state) (w.trip t)) w

abbrev pub forget_matching : ℕ → Server → Server
forget_matching t w = record w {
  candidates = erase t w.candidates;
  retry_queue = erase t w.retry_queue;
}

-- What happens to the trip itself and to the server's records of it.
unfoldable pub close_trip : ℕ → CancellationActor → Reason → Server → Server
unfolding complete_trip
close_trip t by reason w =
    let idle = change_rider t rider_cancels w in
    let ended = trip_cancelled t by reason idle in
    let told =
      emit (trip_state cancelled) t (ended.trip t).driver_id (ended.trip t).offer_sequence ended in
    complete_trip t true (forget_matching t told)

unfoldable pub cancel_trip : ℕ → CancellationActor → Reason → M (Unit {0})
unfolding free_driver close_trip resolve_reason
cancel_trip t by reason w =
    if member t w.active_trips
    then (do
      free_driver (w.trip t).driver_id
      modify (close_trip t by (resolve_reason (w.trip t).offer_sequence reason)))
        w
    else done tt w

-- The averages of `get_trip_stats` as a sum and a count; an average over a count of 0 is 0.0.
pub record TripAverages : Type 0 where
  pub completed_count : ℕ
  pub cancelled_count : ℕ
  pub avg_fare : ℕ × ℕ
  pub avg_duration : ℕ × ℕ
  pub avg_match_seconds : ℕ × ℕ
  pub avg_pickup_seconds : ℕ × ℕ

unfoldable pub get_trip_stats : Server → TripAverages
get_trip_stats w = record {
  completed_count = length w.completed_trips;
  cancelled_count = length w.cancelled_trips;
  avg_fare = (w.stats.total_fare, length w.completed_trips);
  avg_duration = (w.stats.duration_sum, w.stats.duration_count);
  avg_match_seconds = (w.stats.match_time_sum, w.stats.match_time_count);
  avg_pickup_seconds = (w.stats.pickup_sum, w.stats.pickup_count);
}

abbrev zeroed : Dict ℕ → Dict ℕ
zeroed [] = []
zeroed ((k, n) ∷ m) = (k, 0) ∷ zeroed m

unfoldable pub clear : Server → Server
clear w = record w {
  puppet_drives = [];
  active_trips = [];
  completed_trips = [];
  cancelled_trips = [];
  pending_offers = [];
  candidates = [];
  pending_trip_executions = [];
  retry_queue = [];
  retry_in_progress = false;
  deferred_offers = [];
  offer_timeouts = [];
  registered = [];
  reserved = [];
  counters = record {
    offers_sent = 0;
    offers_accepted = 0;
    offers_rejected = 0;
    offers_expired = 0;
  };
  stats = record {
    total_fare = 0;
    duration_sum = 0;
    duration_count = 0;
    match_time_sum = 0;
    match_time_count = 0;
    pickup_sum = 0;
    pickup_count = 0;
    cancellation_by_reason = zeroed w.stats.cancellation_by_reason;
  };
  timeouts = record (w.timeouts) { pending_offers = [] };
  fleet = record (w.fleet) { index = Index.clear w.fleet.index };
}
