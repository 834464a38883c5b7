-- ===== src/Server/Ended.antt =====
-- The state that an offer leaves when it ends without an acceptance, and how the cycle goes on from it.
use mathlib.Core.Path.{sym}
use rideshare_simulation_pla.Trip.{
  requested, offer_rejected, driver_assigned, en_route_pickup, at_pickup, in_transit, completed,
  cancelled,
}
use rideshare_simulation_pla.Prelude.{refl}
use rideshare_simulation_pla.Trip.{TripState}
use rideshare_simulation_pla.Prelude.{
  ℕ, ◌+◌, ◌≡◌, ap, inl, inr, true, false, some, if◌then◌else◌, arith, ◌==◌, ==_self, ◌∙◌,
}
use rideshare_simulation_pla.Prelude.Dict.{lookup}
use rideshare_simulation_pla.Prelude.IdSet.{member}
use rideshare_simulation_pla.Trip.{Trip, offer_sent, offer_expired, entered}
use rideshare_simulation_pla.Trip.Graph.{IsOpen}
use rideshare_simulation_pla.Server.{Server, emit, trip_state, set_trip}
use rideshare_simulation_pla.Server.Frame.{emit-Kept}
use rideshare_simulation_pla.Agents.{Driver}
use rideshare_simulation_pla.Prelude.{none}
use rideshare_simulation_pla.Server.Asking.{first_free, to_ask, first_free-same}
use rideshare_simulation_pla.Server.CycleEnds.{Asks}

-- The state in which the cycle goes on: the offer has ended in the given state, and that is told.
abbrev pub ended_told : TripState → ℕ → ℕ → Server → Server
ended_told s t d w =
    let moved = set_trip t (entered s (w.trip t)) w in
    emit (trip_state s) t (some d) (moved.trip t).offer_sequence moved

-- The state from which the cycle goes on: the driver `d` is released, its refusal or its silence is
-- counted, and what the cycle reads is otherwise as before.
pub record Freed (d : ℕ) (w v : Server) : Type 0 where
  pub released : (e : ℕ) → member e v.reserved ≡ (if d == e then false else member e w.reserved)
  pub trip : v.trip ≡ w.trip
  pub on_trip : (e : ℕ) → (v.driver e).active_trip ≡ (w.driver e).active_trip
  pub now : v.now ≡ w.now
  pub config : v.config ≡ w.config
  pub active : v.active_trips ≡ w.active_trips
  pub candidates : v.candidates ≡ w.candidates
  pub sent : v.counters.offers_sent ≡ w.counters.offers_sent

-- The outcome for the trip: none of the drivers to ask is free, and it stands in the given state and waits
-- for a retry; or the first of them that is free has an offer.
pub data Goes (s : TripState) (t : ℕ) (w w' : Server) : Type 0 where
  waits :
      first_free w.reserved w.driver (to_ask t w) ≡ none
      → (w'.trip t).state ≡ s
      → w'.reserved ≡ w.reserved
      → w'.counters ≡ w.counters
      → w'.active_trips ≡ w.active_trips
      → lookup t w'.retry_queue ≡ some (w.now + w.config.retry_interval_seconds)
      → Goes s t w w'
  asks :
      (d : ℕ)
      → first_free w.reserved w.driver (to_ask t w) ≡ some d
      → member d w.reserved ≡ false
      → (w.driver d).active_trip ≡ none
      → ((e : ℕ) → member e w'.reserved ≡ (if d == e then true else member e w.reserved))
      → (w'.trip t).state ≡ offer_sent
      → (w'.trip t).offer_sequence ≡ (w.trip t).offer_sequence + 1
      → w'.counters.offers_sent ≡ w.counters.offers_sent + 1
      → w'.active_trips ≡ w.active_trips
      → Goes s t w w'

entered-IsOpen : (s : TripState) (t : Trip) → IsOpen s → entered s t ≡ record t { state = s }
entered-IsOpen requested t o = refl
entered-IsOpen offer_expired t o = refl
entered-IsOpen offer_rejected t o = refl
entered-IsOpen offer_sent t o = elim o [ ]
entered-IsOpen driver_assigned t o = elim o [ ]
entered-IsOpen en_route_pickup t o = elim o [ ]
entered-IsOpen at_pickup t o = elim o [ ]
entered-IsOpen in_transit t o = elim o [ ]
entered-IsOpen completed t o = elim o [ ]
entered-IsOpen cancelled t o = elim o [ ]

-- The trip after the telling.
pub ended_told-trip :
    (s : TripState) (t d : ℕ) (w : Server)
    → IsOpen s
    → (ended_told s t d w).trip t ≡ record (w.trip t) { state = s }
ended_told-trip s t d w o =
    let moved = set_trip t (entered s (w.trip t)) w in
    ap (λ (g : ℕ → Trip). g t)
      (emit-Kept (trip_state s) t (some d) (moved.trip t).offer_sequence moved).trip
    ∙ at_self (==_self t)
    ∙ entered-IsOpen s (w.trip t) o
  where
    at_self : (t == t) ≡ true → (set_trip t (entered s (w.trip t)) w).trip t ≡ entered s (w.trip t)
    at_self e = rw e refl

-- To whom the cycle turns is the same before the telling.
ended_told-first_free :
    (s : TripState) (t d : ℕ) (w : Server)
    → first_free w.reserved w.driver (to_ask t w)
      ≡ (let v = ended_told s t d w in first_free v.reserved v.driver (to_ask t v))
ended_told-first_free s t d w =
    let moved = set_trip t (entered s (w.trip t)) w in
    let k = emit-Kept (trip_state s) t (some d) (moved.trip t).offer_sequence moved in
    first_free-same t w (ended_told s t d w) (sym k.reserved) (sym k.driver) (sym k.candidates)

pub ended_told-Goes :
    (s : TripState) (t d : ℕ) (w : Server) {w' : Server}
    → IsOpen s
    → (let v = ended_told s t d w in Asks (to_ask t v) t v w')
    → Goes s t w w'
ended_told-Goes s t d w o (inl (n, x)) =
    let moved = set_trip t (entered s (w.trip t)) w in
    let k = emit-Kept (trip_state s) t (some d) (moved.trip t).offer_sequence moved in
    waits (ended_told-first_free s t d w ∙ n)
      (ap (λ (g : ℕ → Trip). (g t).state) x.trips
        ∙ ap (λ (u : Trip). u.state) (ended_told-trip s t d w o))
      (x.reserved ∙ k.reserved) (x.counters ∙ k.counters) (x.active ∙ k.active_trips)
      (ground (arith, x.due, k.now, k.config))
ended_told-Goes s t d w o (inr (x, e)) =
    let moved = set_trip t (entered s (w.trip t)) w in
    let k = emit-Kept (trip_state s) t (some d) (moved.trip t).offer_sequence moved in
    asks x.asked (ended_told-first_free s t d w ∙ e) (ground (arith, x.was_free, k.reserved))
      (ap (λ (g : ℕ → Driver). (g x.asked).active_trip) (sym k.driver) ∙ x.was_free.1)
      (λ y. ground (arith, x.others y, k.reserved)) (ap (λ (u : Trip). u.state) x.trip_sent)
      (ap (λ (u : Trip). u.offer_sequence) x.trip_sent
        ∙ ap (λ (u : Trip). u.offer_sequence + 1) (ended_told-trip s t d w o))
      (ground (arith, x.sent_one, k.counters)) (x.active ∙ k.active_trips)
