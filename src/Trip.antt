-- ===== src/Trip.antt =====
-- services/simulation/src/trip.py: the trip and its state machine. Identifiers are opaque tokens;
-- a coordinate pair is handed on and never computed with; fares, multipliers and times are in a
-- fixed unit, so that the sums of the source are sums of ℕ.
pub mod Graph
use Prim.Native.String.{String, ◌++◌ as str_append}
use rideshare_simulation_pla.Prelude.Ratio.{Ratio}
use rideshare_simulation_pla.Prelude.{
  ℕ, suc, Bool, true, false, ◌||◌, Option, none, some, List, [], ◌∷◌, Result, ok, err,
  if◌then◌else◌, ◌==◌, ◌+◌,
}

pub data TripState : Type 0 where
  requested offer_sent offer_expired offer_rejected driver_assigned : TripState
  en_route_pickup at_pickup in_transit completed cancelled : TripState

-- The string that the enumeration's member carries.
abbrev pub value : TripState → String
value requested = "requested"
value offer_sent = "offer_sent"
value offer_expired = "offer_expired"
value offer_rejected = "offer_rejected"
value driver_assigned = "driver_assigned"
value en_route_pickup = "en_route_pickup"
value at_pickup = "at_pickup"
value in_transit = "in_transit"
value completed = "completed"
value cancelled = "cancelled"

unfoldable pub to_event_type : TripState → String
to_event_type s = str_append "trip." (value s)

-- `VALID_TRANSITIONS`.
unfoldable pub valid_transitions : TripState → List TripState
valid_transitions requested = offer_sent ∷ cancelled ∷ []
valid_transitions offer_sent = offer_expired ∷ offer_rejected ∷ driver_assigned ∷ cancelled ∷ []
valid_transitions offer_expired = offer_sent ∷ cancelled ∷ []
valid_transitions offer_rejected = offer_sent ∷ cancelled ∷ []
valid_transitions driver_assigned = en_route_pickup ∷ cancelled ∷ []
valid_transitions en_route_pickup = at_pickup ∷ cancelled ∷ []
valid_transitions at_pickup = in_transit ∷ cancelled ∷ []
valid_transitions in_transit = completed ∷ cancelled ∷ []
valid_transitions completed = []
valid_transitions cancelled = []

-- The position of a state in the enumeration, by which states are compared.
abbrev pub ordinal : TripState → ℕ
ordinal requested = 0
ordinal offer_sent = 1
ordinal offer_expired = 2
ordinal offer_rejected = 3
ordinal driver_assigned = 4
ordinal en_route_pickup = 5
ordinal at_pickup = 6
ordinal in_transit = 7
ordinal completed = 8
ordinal cancelled = 9

abbrev pub Location : Type 0
Location = ℕ × ℕ

pub data CancellationActor : Type 0 where
  rider driver system : CancellationActor

-- `_stats_cancellation_by_reason` counts the first six; callers pass any other text.
pub data Reason : Type 0 where
  no_drivers_available rider_cancelled_before_pickup driver_cancelled_before_pickup : Reason
  rider_cancelled_mid_trip driver_cancelled_mid_trip system_pause patience_timeout : Reason
  other_reason : String → Reason

pub record Trip : Type 0 where
  pub trip_id : ℕ
  pub rider_id : ℕ
  pub driver_id : Option ℕ
  pub state : TripState
  pub pickup_location : Location
  pub dropoff_location : Location
  pub pickup_zone_id : ℕ
  pub dropoff_zone_id : ℕ
  pub surge_multiplier : Ratio
  pub fare : ℕ
  pub offer_sequence : ℕ
  pub cancelled_by : Option CancellationActor
  pub cancellation_reason : Option Reason
  pub cancellation_stage : Option String
  pub requested_at : Option ℕ
  pub matched_at : Option ℕ
  pub driver_arrived_at : Option ℕ
  pub started_at : Option ℕ
  pub completed_at : Option ℕ
  pub route : Option (List Location)
  pub pickup_route : Option (List Location)
  pub route_progress_index : ℕ
  pub pickup_route_progress_index : ℕ

-- The two messages of the `ValueError`.
pub data TripError : Type 0 where
  terminal_state : TripState → TripError
  invalid_transition : TripState → TripState → TripError

abbrev pub same_state : TripState → TripState → Bool
same_state s t = ordinal s == ordinal t

abbrev pub is_terminal : TripState → Bool
is_terminal completed = true
is_terminal cancelled = true
is_terminal _ = false

abbrev pub is_offer_sent : TripState → Bool
is_offer_sent offer_sent = true
is_offer_sent _ = false

-- `state in set_of_states`.
abbrev pub is_among : TripState → List TripState → Bool
is_among s [] = false
is_among s (t ∷ ts) = same_state t s || is_among s ts

-- The assignments of `transition_to` once the state is admitted.
abbrev pub entered : TripState → Trip → Trip
entered s t =
    let moved = record t { state = s } in
    if is_offer_sent s then record moved { offer_sequence = t.offer_sequence + 1 } else moved

unfoldable pub transition_to : TripState → Trip → Result TripError Trip
unfolding valid_transitions
transition_to s t =
    if is_terminal t.state
    then err (terminal_state t.state)
    else if is_among s (valid_transitions t.state)
    then ok (entered s t)
    else err (invalid_transition t.state s)

-- `cancel` takes no look at the state that it leaves.
unfoldable pub cancel : CancellationActor → Reason → String → Trip → Trip
cancel by reason stage t = record t {
  cancelled_by = some by;
  cancellation_reason = some reason;
  cancellation_stage = some stage;
  state = cancelled;
}
