-- ===== src/Server/Cycle.antt =====
-- What the offer cycle does to the server: who is asked, how often, and what is left behind.
use rideshare_simulation_pla.Prelude.{
  ℕ, ◌+◌, ◌≤◌, ◌<◌, ◌≡◌, refl, ap, ◌⊎◌, inl, inr, true, false, Option, none, some, List, [], ◌∷◌,
  leb, length, suc, take, take-nil, ◌-◌, ◌∙◌, if◌then◌else◌, arith, Bool-cases, Option-cases, ok,
  err, ◌==◌,
}
use rideshare_simulation_pla.Prelude.Dict.{Dict, lookup, insert, erase}
use rideshare_simulation_pla.Prelude.IdSet.{member, add, member-add}
use rideshare_simulation_pla.Prelude.Ratio.{Ratio}
use rideshare_simulation_pla.Trip.{Trip, TripError, TripState, offer_sent, transition_to, entered}
use rideshare_simulation_pla.Trip.Graph.{◌⟶◌, IsOpen, offer, transition_to-edge}
use rideshare_simulation_pla.Agents.Statistics.{record_offer_received}
use rideshare_simulation_pla.Agents.{Driver, update_trip_state}
use rideshare_simulation_pla.Server.{
  Server, Outcome, done, raised, trip_error, transition, emit, change_rider, set_trip, Ranked,
  Candidates, trip_state,
}
use rideshare_simulation_pla.Server.Frame.{
  Kept, Kept-trans, emit-Kept, change_rider-Kept, deliver-Kept,
}
use rideshare_simulation_pla.Server.Asking.{IsFree, to_ask, left_of, to_ask-some, to_ask-none}
use rideshare_simulation_pla.Server.Offers.{
  Sent, skipped, waiting, send_offer, deliver, pop_next_candidate, next_of, remaining,
  offer_counted,
}

-- What one offer leaves behind.
pub record Offered (d t : ℕ) (w w' : Server) : Type 0 where
  pub now_reserved : member d w'.reserved ≡ true
  pub others : (e : ℕ) → member e w'.reserved ≡ (if d == e then true else member e w.reserved)
  pub trip_sent : w'.trip t ≡ entered offer_sent (w.trip t)
  pub sent_one : w'.counters.offers_sent ≡ w.counters.offers_sent + 1
  pub active : w'.active_trips ≡ w.active_trips
  pub retries : w'.retry_queue ≡ w.retry_queue
  pub candidates : w'.candidates ≡ w.candidates
  pub drivers : (e : ℕ) → (w'.driver e).active_trip ≡ (w.driver e).active_trip

-- The state behind an offer, before it is told.
abbrev offered : ℕ → ℕ → Trip → Server → Server
offered d t u w = offer_counted d (set_trip t u (record w { reserved = add d w.reserved }))

module _ (random : ℕ → Ratio) (d t seq eta : ℕ) (w : Server) where
  send_offer-ok :
      (u : Trip)
      → IsFree d w
      → transition_to offer_sent (w.trip t) ≡ ok u
      → (w' : Server) × (send_offer random d t seq eta w ≡ done waiting w')
        × Kept (offered d t u w) w'
  unfolding send_offer transition
  send_offer-ok u free e =
      let told = emit (trip_state offer_sent) t (some d) seq (offered d t u w) in
      let known = change_rider t (update_trip_state offer_sent) told in
      (
        deliver random d t seq eta known,
        ground arith,
        Kept-trans (emit-Kept (trip_state offer_sent) t (some d) seq (offered d t u w)) (
            Kept-trans (change_rider-Kept t (update_trip_state offer_sent) told)
              (deliver-Kept random d t seq eta known)),
      )

  send_offer-err :
      (x : TripError)
      → IsFree d w
      → transition_to offer_sent (w.trip t) ≡ err x
      → send_offer random d t seq eta w
        ≡ raised (trip_error x) (record w { reserved = add d w.reserved })
  unfolding send_offer transition
  send_offer-err x free e = ground arith

  send_offer-busy : (IsFree d w → ⊥) → send_offer random d t seq eta w ≡ done skipped w
  unfolding send_offer
  send_offer-busy busy = ground arith

IsFree-or-busy : (d : ℕ) (w : Server) → IsFree d w ⊎ (IsFree d w → ⊥)
IsFree-or-busy d w = elim (Bool-cases (member d w.reserved)) [
  | inl e ↦ inr (λ f. ground arith)
  | inr e ↦ elim (Option-cases (w.driver d).active_trip) [
    | inl n ↦ inl (e, n)
    | inr (t, s) ↦ inr (λ f. ground arith)
  ]
]

IsOpen-edge : {s : TripState} → s ⟶ offer_sent → IsOpen s
IsOpen-edge (offer o) = o

offered-Offered :
    (d t : ℕ) (u : Trip) (w w' : Server)
    → u ≡ entered offer_sent (w.trip t)
    → Kept (offered d t u w) w'
    → Offered d t w w'
unfolding record_offer_received
offered-Offered d t u w w' e k = record {
  now_reserved = ground (arith, k.reserved, member-add d d w.reserved);
  others = λ x. ground (arith, k.reserved, member-add x d w.reserved);
  trip_sent = ground (arith, k.trip, ap (λ (f : ℕ → Trip). f t) k.trip);
  sent_one = ground (arith, k.counters);
  active = k.active_trips;
  retries = k.retry_queue;
  candidates = k.candidates;
  drivers = λ x. ground (arith, ap (λ (f : ℕ → Driver). f x) k.driver);
}

-- The three ends of an offer.
abbrev pub SendEnds : ℕ → ℕ → Server → Outcome Sent → Type 0
SendEnds d t w o =
    ((IsFree d w → ⊥) × (o ≡ done skipped w))
    ⊎ (IsFree d w
        × IsOpen (w.trip t).state
        × ((w' : Server) × (o ≡ done waiting w') × Offered d t w w'))
    ⊎ (IsFree d w
        × (IsOpen (w.trip t).state → ⊥)
        × ((x : TripError) × (o
              ≡ raised (trip_error x) (record w { reserved = add d w.reserved }))))

-- `send_offer`, on every branch. A driver that is reserved or on a trip is passed over and nothing
-- changes. Otherwise, if the trip is open for an offer, the offer is out: the driver is reserved and no
-- other reservation changed, the trip is in `offer_sent` with its sequence counted up, one offer is
-- counted, and active trips, retries, candidates and the drivers' trips are as before. If the trip is
-- not open, the exception of the transition is raised, and the driver stays reserved.
pub send_offer_lem :
    (random : ℕ → Ratio) (d t seq eta : ℕ) (w : Server)
    → SendEnds d t w (send_offer random d t seq eta w)
send_offer_lem random d t seq eta w = elim (IsFree-or-busy d w) [
  | inr busy ↦ inl (busy, send_offer-busy random d t seq eta w busy)
  | inl free ↦ elim (transition_to-edge offer_sent (w.trip t)) [
    | inl (edge, e) ↦
        (let (w', sent, kept) =
            send_offer-ok random d t seq eta w (entered offer_sent (w.trip t)) free e in
          inr (inl (free, IsOpen-edge edge, (w', sent, offered-Offered d t _ w w' refl kept))))
    | inr (shut, e) ↦
        inr (inr (free, (λ o. shut (offer o)), (_, send_offer-err random d t seq eta w _ free e)))
  ]
]

-- Once an offer to a driver is out, another offer to this driver, of any trip, passes it over and
-- changes nothing.
pub send_offer-exclusive :
    (random : ℕ → Ratio) (d t seq eta : ℕ) (w w' : Server)
    → send_offer random d t seq eta w ≡ done waiting w'
    → (t' seq' eta' : ℕ) → send_offer random d t' seq' eta' w' ≡ done skipped w'
send_offer-exclusive random d t seq eta w w' h t' seq' eta' =
    send_offer-busy random d t' seq' eta' w' (λ f. ground (arith, reserved_then, f))
  where
    reserved_then : member d w'.reserved ≡ true
    reserved_then = ground (arith, send_offer_lem random d t seq eta w)

abbrev pub with_candidates : Dict Candidates → Server → Server
with_candidates c w = record w { candidates = c }

-- The next candidate, taken off the list, or the end of the cycle.
abbrev pub Pops : ℕ → Server → Option Ranked × Server → Type 0
Pops t w p =
    ((p.0 ≡ none) × (p.1 ≡ with_candidates (erase t w.candidates) w) × (to_ask t w ≡ []))
    ⊎ ((r : Ranked) × (c : Candidates) × (p.0 ≡ some r)
        × (p.1 ≡ with_candidates (insert t c w.candidates) w)
        × (length c.remaining_drivers < remaining t w)
        × (to_ask t w ≡ r ∷ left_of c))

-- One candidate less, and one attempt less.
left_of-next :
    (c : Candidates) (r : Ranked) (rs : List Ranked)
    → leb c.max_attempts c.current_attempt ≡ false
    → take (c.max_attempts - c.current_attempt) (r ∷ rs)
      ≡ r ∷ take (c.max_attempts - (c.current_attempt + 1)) rs
left_of-next c r rs h = ap (λ m. take m (r ∷ rs)) one_more
  where
    one_more : c.max_attempts - c.current_attempt ≡ suc (c.max_attempts - (c.current_attempt + 1))
    one_more = ground arith

left_of-end :
    (c : Candidates) (rs : List Ranked)
    → leb c.max_attempts c.current_attempt ≡ true
    → take (c.max_attempts - c.current_attempt) rs ≡ []
left_of-end c rs h = ap (λ m. take m rs) none_left
  where
    none_left : c.max_attempts - c.current_attempt ≡ 0
    none_left = ground arith

next_of-Pops :
    (t : ℕ) (c : Candidates) (rs : List Ranked) (w : Server)
    → length rs ≤ remaining t w
    → to_ask t w ≡ take (c.max_attempts - c.current_attempt) rs
    → Pops t w (next_of t c rs w)
unfolding next_of
next_of-Pops t c [] w h q = inl (refl, refl, q ∙ take-nil (c.max_attempts - c.current_attempt))
next_of-Pops t c (r ∷ rs) w h q = elim (Bool-cases (leb c.max_attempts c.current_attempt)) [
  | inl e ↦ inl (ground arith, ground arith, q ∙ left_of-end c (r ∷ rs) e)
  | inr e ↦ inr (
    r,
    record c { remaining_drivers = rs; current_attempt = c.current_attempt + 1 },
    ground arith,
    ground arith,
    omega arith,
    q ∙ left_of-next c r rs e,
  )
]

pub pop_next_candidate-Pops : (t : ℕ) (w : Server) → Pops t w (pop_next_candidate t w)
unfolding pop_next_candidate
pop_next_candidate-Pops t w = elim (Option-cases (lookup t w.candidates)) [
  | inl e ↦ rw (e, pop_next_candidate) (inl (refl, refl, to_ask-none t w e))
  | inr (c, e) ↦
      rw (e, pop_next_candidate)
        (next_of-Pops t c c.remaining_drivers w (ground arith) (to_ask-some t c w e))
]
