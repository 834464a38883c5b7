-- ===== src/Scenarios/Execution.antt =====
-- The theorems on the executor of a trip at concrete states: trip 2, which driver 1 has been given.
use rideshare_simulation_pla.Prelude.{
  ℕ, ◌+◌, ◌≡◌, refl, arith, true, false, [], ◌∷◌, ◌==◌, if◌then◌else◌,
}
use rideshare_simulation_pla.Prelude.Ratio.{whole}
use rideshare_simulation_pla.Trip.{Location, requested, driver_assigned}
use rideshare_simulation_pla.Server.{Server}
use rideshare_simulation_pla.Server.Triples.{Post}
use rideshare_simulation_pla.Server.Search.{Route}
use rideshare_simulation_pla.Executor.{
  Settings, Reply, Surroundings, routed, transient, get_route_with_retry,
}
use rideshare_simulation_pla.Executor.Phases.{execute}
use rideshare_simulation_pla.Executor.Steady.{At}
use rideshare_simulation_pla.Executor.Travels.{IsQuiet, HasPoints}
use rideshare_simulation_pla.Executor.Retries.{paused, answer, verdict, get_route_with_retry_lem}
use rideshare_simulation_pla.Executor.Journeys.{Ended, Stranded, execute-Ended}
use rideshare_simulation_pla.Scenarios.Data.{centre, outside, a_server, two_drivers-IsAccurate}

abbrev settings : Settings
settings = record {
  osrm_max_retries = 2;
  osrm_retry_base_delay = whole 1;
  osrm_retry_multiplier = whole 2;
  arrival_proximity_threshold_m = 50;
  mid_trip_cancellation_rate = record { num = 1; den = 10 };
  driver_mid_trip_cancellation_rate = record { num = 1; den = 20 };
  rider_cancels_mid_trip = false;
  gps_interval = 2;
}

abbrev a_route : Location → Location → Route
a_route l m = record { duration_seconds = 120; geometry = l ∷ m ∷ [] }

abbrev surroundings : (ℕ → Location → Location → Reply) → Surroundings
surroundings service = record {
  outside = outside;
  settings = settings;
  get_route_sync = λ n w. service n;
  timeout = λ x w. record w { now = w.now + 1 };
  in_box = λ l m n. true;
  randint = λ n a b. a;
  gauss = λ mean deviation n. 4;
}

-- The service always has a route, or only at the second attempt.
abbrev willing : Surroundings
willing = surroundings (λ n l m. routed (a_route l m))

abbrev hesitant : Surroundings
hesitant = surroundings (λ n l m. if n == 0 then transient else routed (a_route l m))

abbrev assigned : Server
assigned = a_server requested (2 ∷ []) (1 ∷ [])

willing-IsQuiet : IsQuiet willing 1 2
willing-IsQuiet x w = ground arith

willing-HasPoints : HasPoints willing
willing-HasPoints n w l m r e = ground arith

execute-Ended_example :
    Post (Stranded 1 2 []) (λ _ v. Ended 1 2 [] v) (execute willing 1 2 assigned)
execute-Ended_example =
    execute-Ended willing 1 2 assigned willing-IsQuiet willing-HasPoints assigned-At
  where
    assigned-At : At 1 2 driver_assigned [] assigned
    assigned-At = record {
      state = refl;
      driver_id = refl;
      located = refl;
      accurate = two_drivers-IsAccurate;
      kafka = refl;
      told = refl;
    }

get_route_with_retry_lem_example :
    get_route_with_retry hesitant centre (300, 0) assigned
    ≡ verdict (routed (a_route centre (300, 0))) (record assigned { now = 101 })
unfolding paused answer
get_route_with_retry_lem_example =
    get_route_with_retry_lem hesitant centre (300, 0) 1 assigned (omega arith) (refl, tt) refl
