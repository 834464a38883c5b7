-- ===== src/Agents/Statistics.antt =====
-- services/simulation/src/agents/statistics.py: the counters of one agent. Sums of money and of seconds
-- are sums in a fixed unit.
use rideshare_simulation_pla.Prelude.{ℕ, ◌+◌, Bool, if◌then◌else◌}

pub record DriverStatistics : Type 0 where
  pub trips_completed : ℕ
  pub trips_cancelled : ℕ
  pub offers_received : ℕ
  pub offers_accepted : ℕ
  pub offers_rejected : ℕ
  pub offers_expired : ℕ
  pub total_earnings : ℕ
  pub total_pickup_time_seconds : ℕ
  pub total_trip_duration_seconds : ℕ
  pub total_rating_given : ℕ
  pub ratings_given_count : ℕ

unfoldable pub record_offer_received : DriverStatistics → DriverStatistics
record_offer_received s = record s { offers_received = s.offers_received + 1 }

unfoldable pub record_offer_accepted : DriverStatistics → DriverStatistics
record_offer_accepted s = record s { offers_accepted = s.offers_accepted + 1 }

unfoldable pub record_offer_rejected : DriverStatistics → DriverStatistics
record_offer_rejected s = record s { offers_rejected = s.offers_rejected + 1 }

unfoldable pub record_offer_expired : DriverStatistics → DriverStatistics
record_offer_expired s = record s { offers_expired = s.offers_expired + 1 }

unfoldable pub record_driver_trip_completed : ℕ → ℕ → ℕ → DriverStatistics → DriverStatistics
record_driver_trip_completed fare pickup duration s = record s {
  trips_completed = s.trips_completed + 1;
  total_earnings = s.total_earnings + fare;
  total_pickup_time_seconds = s.total_pickup_time_seconds + pickup;
  total_trip_duration_seconds = s.total_trip_duration_seconds + duration;
}

unfoldable pub record_driver_trip_cancelled : DriverStatistics → DriverStatistics
record_driver_trip_cancelled s = record s { trips_cancelled = s.trips_cancelled + 1 }

pub record RiderStatistics : Type 0 where
  pub trips_completed : ℕ
  pub trips_cancelled : ℕ
  pub trips_requested : ℕ
  pub requests_timed_out : ℕ
  pub total_spent : ℕ
  pub total_wait_time_seconds : ℕ
  pub total_pickup_wait_seconds : ℕ
  pub total_rating_given : ℕ
  pub ratings_given_count : ℕ
  pub surge_trips : ℕ

unfoldable pub record_rider_trip_completed : ℕ → ℕ → ℕ → Bool → RiderStatistics → RiderStatistics
record_rider_trip_completed fare wait pickup_wait had_surge s = record s {
  trips_completed = s.trips_completed + 1;
  total_spent = s.total_spent + fare;
  total_wait_time_seconds = s.total_wait_time_seconds + wait;
  total_pickup_wait_seconds = s.total_pickup_wait_seconds + pickup_wait;
  surge_trips = if had_surge then s.surge_trips + 1 else s.surge_trips;
}

unfoldable pub record_rider_trip_cancelled : RiderStatistics → RiderStatistics
record_rider_trip_cancelled s = record s { trips_cancelled = s.trips_cancelled + 1 }

unfoldable pub record_driver_rating_given : ℕ → DriverStatistics → DriverStatistics
record_driver_rating_given rating s = record s {
  total_rating_given = s.total_rating_given + rating;
  ratings_given_count = s.ratings_given_count + 1;
}

unfoldable pub record_rider_rating_given : ℕ → RiderStatistics → RiderStatistics
record_rider_rating_given rating s = record s {
  total_rating_given = s.total_rating_given + rating;
  ratings_given_count = s.ratings_given_count + 1;
}

unfoldable pub record_trip_requested : RiderStatistics → RiderStatistics
record_trip_requested s = record s { trips_requested = s.trips_requested + 1 }

unfoldable pub record_request_timed_out : RiderStatistics → RiderStatistics
record_request_timed_out s = record s { requests_timed_out = s.requests_timed_out + 1 }
