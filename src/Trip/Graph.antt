-- ===== src/Trip/Graph.antt =====
-- The trip's state machine against an independent description: the edges, grouped by what they mean.
use rideshare_simulation_pla.Prelude.{
  ◌≡◌, ◌⊎◌, inl, inr, true, false, ok, err, if◌then◌else◌, arith, Bool-cases,
}
use rideshare_simulation_pla.Trip.{
  TripState, requested, offer_sent, offer_expired, offer_rejected, driver_assigned, en_route_pickup,
  at_pickup, in_transit, completed, cancelled, Trip, terminal_state, invalid_transition,
  transition_to, entered, valid_transitions, is_terminal, is_among,
}

-- A trip can be offered while it has no driver and no offer is out.
pub data IsOpen : TripState → Type 0 where
  fresh : IsOpen requested
  lapsed : IsOpen offer_expired
  refused : IsOpen offer_rejected

-- The life of a trip: an offer goes out, is answered, and the assigned driver goes on leg by leg.
-- Whatever has not ended can be cancelled.
infix 40 ◌⟶◌
pub data ◌⟶◌ : TripState → TripState → Type 0 where
  offer : {s : TripState} → IsOpen s → s ⟶ offer_sent
  expire : offer_sent ⟶ offer_expired
  reject : offer_sent ⟶ offer_rejected
  assign : offer_sent ⟶ driver_assigned
  set_out : driver_assigned ⟶ en_route_pickup
  arrive : en_route_pickup ⟶ at_pickup
  depart : at_pickup ⟶ in_transit
  drop_off : in_transit ⟶ completed
  abandon : {s : TripState} → is_terminal s ≡ false → s ⟶ cancelled

ruleset edges = (
  fresh, lapsed, refused, offer, expire, reject, assign, set_out, arrive, depart, drop_off, abandon,
)

pub edge→among :
    {s t : TripState} → s ⟶ t → (is_terminal s ≡ false) × (is_among t (valid_transitions s) ≡ true)
unfolding valid_transitions
edge→among (offer fresh) = ground arith
edge→among (offer lapsed) = ground arith
edge→among (offer refused) = ground arith
edge→among expire = ground arith
edge→among reject = ground arith
edge→among assign = ground arith
edge→among set_out = ground arith
edge→among arrive = ground arith
edge→among depart = ground arith
edge→among drop_off = ground arith
edge→among (abandon {s = s} h) = ground arith

among→edge : (s t : TripState) → is_among t (valid_transitions s) ≡ true → s ⟶ t
unfolding valid_transitions
among→edge s t h = grind (arith, edges)

-- `transition_to` succeeds exactly along the edges of the life of a trip, with the new state entered;
-- otherwise it raises, the terminal states with their own message.
pub transition_to-edge :
    (s : TripState) (t : Trip)
    → ((t.state ⟶ s) × (transition_to s t ≡ ok (entered s t)))
      ⊎ ((t.state ⟶ s → ⊥)
          × (transition_to s t
              ≡ err (
                  if is_terminal t.state
                  then terminal_state t.state
                  else invalid_transition t.state s)))
unfolding transition_to
transition_to-edge s t = elim (Bool-cases (is_terminal t.state)) [
  | inl e ↦ inr (λ d. ground (arith, edge→among d), ground arith)
  | inr e ↦ elim (Bool-cases (is_among s (valid_transitions t.state))) [
    | inl h ↦ inl (among→edge t.state s h, ground arith)
    | inr h ↦ inr (λ d. ground (arith, edge→among d), ground arith)
  ]
]
