-- ===== src/Server/Asking.antt =====
-- Whom the offer cycle of matching_server.py asks, said without its loop: the first driver of the
-- list, as far as the attempts reach, to whom an offer may go.
use rideshare_simulation_pla.Prelude.{
  ℕ, ◌-◌, ◌≡◌, ◌||◌, refl, Option, none, some, List, [], ◌∷◌, take, false, is_some, if◌then◌else◌,
  arith,
}
use rideshare_simulation_pla.Prelude.Dict.{lookup}
use rideshare_simulation_pla.Prelude.IdSet.{IdSet, member}
use rideshare_simulation_pla.Agents.{Driver}
use rideshare_simulation_pla.Server.{Server, Ranked, Candidates}

-- A driver that an offer may go to: not asked already, and on no trip.
abbrev pub IsFree : ℕ → Server → Type 0
IsFree d w = (member d w.reserved ≡ false) × ((w.driver d).active_trip ≡ none)

-- The first of the drivers that is neither reserved nor on a trip.
unfoldable pub first_free : IdSet → (ℕ → Driver) → List Ranked → Option ℕ
first_free reserved driver [] = none
first_free reserved driver (r ∷ rs) =
    let later = first_free reserved driver rs in
    if member r.driver_id reserved || is_some (driver r.driver_id).active_trip
    then later
    else some r.driver_id

-- Of a cycle that has begun: the drivers left, as far as the attempts left reach.
abbrev pub left_of : Candidates → List Ranked
left_of c = take (c.max_attempts - c.current_attempt) c.remaining_drivers

unfoldable pub to_ask : ℕ → Server → List Ranked
to_ask t w = elim (lookup t w.candidates) [ none ↦ [] | some c ↦ left_of c ]

-- Of a cycle that begins: its first driver is asked in any case.
abbrev pub asked_in : ℕ → List Ranked → List Ranked
asked_in max_attempts [] = []
asked_in max_attempts (r ∷ rs) = r ∷ take (max_attempts - 1) rs

pub first_free-nil : (w : Server) → first_free w.reserved w.driver [] ≡ none
unfolding first_free
first_free-nil w = refl

pub first_free-busy :
    (r : Ranked) (rs : List Ranked) (w : Server)
    → (IsFree r.driver_id w → ⊥)
    → first_free w.reserved w.driver (r ∷ rs) ≡ first_free w.reserved w.driver rs
unfolding first_free
first_free-busy r rs w busy = ground arith

pub first_free-free :
    (r : Ranked) (rs : List Ranked) (w : Server)
    → IsFree r.driver_id w
    → first_free w.reserved w.driver (r ∷ rs) ≡ some r.driver_id
unfolding first_free
first_free-free r rs w free = ground arith

pub to_ask-some :
    (t : ℕ) (c : Candidates) (w : Server) → lookup t w.candidates ≡ some c → to_ask t w ≡ left_of c
unfolding to_ask
to_ask-some t c w e = rw (e, to_ask) refl

pub to_ask-none : (t : ℕ) (w : Server) → lookup t w.candidates ≡ none → to_ask t w ≡ []
unfolding to_ask
to_ask-none t w e = rw (e, to_ask) refl

-- Two states that agree on what the question reads.
pub first_free-same :
    (t : ℕ) (v w : Server)
    → v.reserved ≡ w.reserved
    → v.driver ≡ w.driver
    → v.candidates ≡ w.candidates
    → first_free v.reserved v.driver (to_ask t v) ≡ first_free w.reserved w.driver (to_ask t w)
unfolding to_ask
first_free-same t v w r d c = rw (r, d, c) refl
