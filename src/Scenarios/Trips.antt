-- ===== src/Scenarios/Trips.antt =====
-- The theorems on trips at concrete trips.
use rideshare_simulation_pla.Prelude.{◌≡◌, ◌⊎◌, none, ok, err, if◌then◌else◌}
use rideshare_simulation_pla.Trip.{
  Trip, transition_to, entered, is_terminal, terminal_state, invalid_transition, requested,
  completed,
}
use rideshare_simulation_pla.Trip.Graph.{◌⟶◌, transition_to-edge}
use rideshare_simulation_pla.Scenarios.Data.{a_trip}

abbrev fresh_trip : Trip
fresh_trip = a_trip 1 requested none

transition_to-edge_example :
    ((fresh_trip.state ⟶ completed)
      × (transition_to completed fresh_trip ≡ ok (entered completed fresh_trip)))
    ⊎ ((fresh_trip.state ⟶ completed → ⊥)
        × (transition_to completed fresh_trip
            ≡ err (
                if is_terminal fresh_trip.state
                then terminal_state fresh_trip.state
                else invalid_transition fresh_trip.state completed)))
transition_to-edge_example = transition_to-edge completed fresh_trip
