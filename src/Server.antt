-- ===== src/Server.antt =====
-- The state of services/simulation/src/matching/matching_server.py, with the objects that it shares:
-- trips and drivers stand in a store by their identifier, so that a queue, a process and a dictionary
-- that hold one trip see one state. A method is a step on this state that may raise.
pub mod Timeouts
pub mod Timers
pub mod Decision
pub mod Offers
pub mod Responses
pub mod Endings
pub mod Puppets
pub mod Search
pub mod Driving
pub mod PuppetAnswers
pub mod Frame
pub mod Triples
pub mod Asking
pub mod Cycle
pub mod CycleEnds
pub mod Rounds
pub mod Answers
pub mod Ended
pub mod Refusals
pub mod Stale
pub mod Responding
pub mod Closing
pub mod Averages
pub mod Searching
pub mod Ranking
pub mod Scores
pub mod Retries
pub mod Requests
use rideshare_simulation_pla.Prelude.{
  ℕ, ◌≡◌, refl, suc, ◌+◌, Bool, true, false, Option, none, some, List, [], ◌∷◌, ◌++◌, Result, ok,
  err, ◌==◌, if◌then◌else◌,
}
use rideshare_simulation_pla.Prelude.Dict.{Dict, lookup, insert, erase}
use rideshare_simulation_pla.Prelude.IdSet.{IdSet, member, add, discard}
use rideshare_simulation_pla.Prelude.Ratio.{Ratio}
use rideshare_simulation_pla.Trip.{
  Trip, TripState, TripError, Reason, Location, transition_to, no_drivers_available,
  rider_cancelled_before_pickup, driver_cancelled_before_pickup, rider_cancelled_mid_trip,
  driver_cancelled_mid_trip, system_pause, patience_timeout, other_reason,
}
use rideshare_simulation_pla.Registry.{DriverStatus}
use rideshare_simulation_pla.Fleet.{Fleet}
use rideshare_simulation_pla.Fleet
use rideshare_simulation_pla.Agents.{Driver, Rider}
use rideshare_simulation_pla.Agents
use Timeouts.{OfferTimeouts}

-- Which of the optional collaborators there are, and the settings that the server reads.
pub record Config : Type 0 where
  pub has_kafka : Bool
  pub has_registry_manager : Bool
  pub has_surge_calculator : Bool
  pub has_event_loop : Bool
  pub max_trip_history : ℕ
  pub retry_interval_seconds : ℕ
  pub osrm_candidate_limit : ℕ
  pub eta_weight : Ratio
  pub rating_weight : Ratio
  pub acceptance_weight : Ratio

-- The events of the topic `trips`.
pub data EventType : Type 0 where
  trip_state : TripState → EventType
  no_drivers : EventType

pub record TripEvent : Type 0 where
  pub event_type : EventType
  pub trip_id : ℕ
  pub driver_id : Option ℕ
  pub offer_sequence : ℕ

pub record PendingOffer : Type 0 where
  pub trip_id : ℕ
  pub surge_multiplier : Ratio
  pub rider_rating : Ratio
  pub eta_seconds : ℕ

-- A ranked driver: its identifier, its time of arrival, its score.
pub record Ranked : Type 0 where
  pub driver_id : ℕ
  pub eta_seconds : ℕ
  pub score : Ratio

pub record Candidates : Type 0 where
  pub remaining_drivers : List Ranked
  pub current_attempt : ℕ
  pub max_attempts : ℕ

-- An offer whose answer is decided and not yet applied.
pub record Deferred : Type 0 where
  pub driver_id : ℕ
  pub trip_id : ℕ
  pub accepted : Bool
  pub eta_seconds : ℕ

pub record QueuedTimeout : Type 0 where
  pub trip_id : ℕ
  pub driver_id : ℕ
  pub offer_sequence : ℕ

pub record PuppetDrive : Type 0 where
  pub trip_id : ℕ
  pub is_pickup_drive : Bool
  pub is_running : Bool
  pub is_completed : Bool

pub record OfferCounters : Type 0 where
  pub offers_sent : ℕ
  pub offers_accepted : ℕ
  pub offers_rejected : ℕ
  pub offers_expired : ℕ

-- The event of the topic `payments`: the fee is a quarter of the fare, the payout three quarters.
pub record PaymentEvent : Type 0 where
  pub trip_id : ℕ
  pub rider_id : ℕ
  pub driver_id : ℕ
  pub fare_amount : ℕ
  pub platform_fee_amount : Ratio
  pub driver_payout_amount : Ratio

-- The accumulators. The sum of durations is kept in seconds, the source's in minutes.
pub record TripStats : Type 0 where
  pub total_fare : ℕ
  pub duration_sum : ℕ
  pub duration_count : ℕ
  pub match_time_sum : ℕ
  pub match_time_count : ℕ
  pub pickup_sum : ℕ
  pub pickup_count : ℕ
  pub cancellation_by_reason : Dict ℕ

pub record Server : Type 0 where
  pub config : Config
  pub now : ℕ
  pub trip : ℕ → Trip
  pub driver : ℕ → Driver
  pub riders : Dict Rider
  pub fleet : Fleet
  pub registered : IdSet
  pub pending_requests : Dict ℕ
  pub pending_offers : Dict PendingOffer
  pub candidates : Dict Candidates
  pub active_trips : IdSet
  pub pending_trip_executions : List (ℕ × ℕ)
  pub deferred_offers : List Deferred
  pub offer_timeouts : List QueuedTimeout
  pub responses : List Deferred
  pub timeouts : OfferTimeouts
  pub executions : List (ℕ × ℕ)
  pub completed_trips : List ℕ
  pub cancelled_trips : List ℕ
  pub reserved : IdSet
  pub retry_queue : Dict ℕ
  pub retry_in_progress : Bool
  pub retries_scheduled : ℕ
  pub draws : ℕ
  pub counters : OfferCounters
  pub stats : TripStats
  pub puppet_drives : Dict PuppetDrive
  pub events : List TripEvent
  pub payments : List PaymentEvent

pub data Error : Type 0 where
  trip_error : TripError → Error
  key_error no_such_driver not_a_puppet no_such_trip wrong_status no_location no_route no_fuel :
      Error
  route_unavailable index_error : Error

-- What a method leaves: its result, or the exception, with the state at that point.
pub data Outcome (A : Type 0) : Type 0 where
  done : A → Server → Outcome A
  raised : Error → Server → Outcome A

abbrev pub M : Type 0 → Type 0
M A = Server → Outcome A

infixl 5 ◌>>=◌ ◌>>◌
abbrev pub ◌>>=◌ : {A B : Type 0} → M A → (A → M B) → M B
◌>>=◌ m f w = elim (m w) [ done a w' ↦ f a w' | raised e w' ↦ raised e w' ]

abbrev pub ◌>>◌ : {A B : Type 0} → M A → M B → M B
m >> k = m >>= λ _. k

abbrev pub return : {A : Type 0} → A → M A
return a w = done a w

abbrev pub raise : {A : Type 0} → Error → M A
raise e w = raised e w

abbrev pub modify : (Server → Server) → M (Unit {0})
modify f w = done tt (f w)

abbrev pub skip : M (Unit {0})
skip w = done tt w

-- The state after a method, whether it returned or raised.
abbrev pub after : {A : Type 0} → Outcome A → Server
after (done a w) = w
after (raised e w) = w

abbrev pub returns : {A : Type 0} → Outcome A → Bool
returns (done a w) = true
returns (raised e w) = false

abbrev pub update {ℓ} : {A : Type ℓ} → (ℕ → A) → ℕ → A → ℕ → A
update f k a j = if k == j then a else f j

-- Writes to the shared objects.
abbrev pub set_trip : ℕ → Trip → Server → Server
set_trip k t w = record w { trip = update w.trip k t }

abbrev pub set_driver : ℕ → Driver → Server → Server
set_driver k d w = record w { driver = update w.driver k d }

abbrev pub release : ℕ → Server → Server
release k w = record w { reserved = discard k w.reserved }

-- `trip.transition_to(state)`.
unfoldable pub transition : ℕ → TripState → M (Unit {0})
transition k s w = elim (transition_to s (w.trip k)) [
  | ok t ↦ done tt (set_trip k t w)
  | err e ↦ raised (trip_error e) w
]

-- The call of the registry manager in the driver's own methods.
unfoldable pub driver_status_changed : ℕ → DriverStatus → M (Unit {0})
driver_status_changed k s w =
    if w.config.has_registry_manager
    then elim (Fleet.driver_status_changed k s w.fleet) [
      | none ↦ raised key_error w
      | some f ↦ done tt (record w { fleet = f })
    ]
    else done tt w

-- Every `_emit_..._event`: nothing without a producer.
unfoldable pub emit : EventType → ℕ → Option ℕ → ℕ → Server → Server
emit e k d n w =
    if w.config.has_kafka
    then record w {
      events =
          w.events
          ++ record { event_type = e; trip_id = k; driver_id = d; offer_sequence = n } ∷ [];
    }
    else w

-- `registry_manager.get_rider`.
unfoldable pub get_rider : ℕ → Server → Option Rider
get_rider k w = if w.config.has_registry_manager then lookup k w.riders else none

-- A change of the trip's rider, if the registry knows one.
unfoldable pub change_rider : ℕ → (Rider → Rider) → Server → Server
unfolding get_rider
change_rider trip_id f w = elim (get_rider (w.trip trip_id).rider_id w) [
  | none ↦ w
  | some r ↦ record w { riders = insert (w.trip trip_id).rider_id (f r) w.riders }
]

-- The key of a reason among those that are counted; any other has a key that the table lacks.
abbrev pub reason_key : Reason → ℕ
reason_key no_drivers_available = 0
reason_key rider_cancelled_before_pickup = 1
reason_key driver_cancelled_before_pickup = 2
reason_key rider_cancelled_mid_trip = 3
reason_key driver_cancelled_mid_trip = 4
reason_key system_pause = 5
reason_key patience_timeout = 6
reason_key (other_reason s) = 7

-- A step that returns, and one that raises, at the head of a block.
pub bind_done :
    {A B : Type 0} (m : M A) (f : A → M B) (w : Server) {a : A} {w' : Server}
    → m w ≡ done a w'
    → (m >>= f) w ≡ f a w'
bind_done m f w e = rw (e, ◌>>=◌) refl

pub transition-ok :
    (t : ℕ) (s : TripState) (w : Server) {u : Trip}
    → transition_to s (w.trip t) ≡ ok u
    → transition t s w ≡ done tt (set_trip t u w)
unfolding transition
transition-ok t s w e = rw (e, transition) refl
