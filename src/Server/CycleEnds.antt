-- ===== src/Server/CycleEnds.antt =====
-- The ends of the offer cycle of matching_server.py, and what they do not depend on.
use mathlib.Core.Path.{subst}
use rideshare_simulation_pla.Prelude.{
  sym, ℕ, ◌+◌, ◌≡◌, ◌⊎◌, inl, inr, true, none, some, List, ◌∷◌, if◌then◌else◌, arith, ◌==◌, ◌∙◌,
}
use rideshare_simulation_pla.Prelude.Dict.{Dict, lookup, lookup-insert}
use rideshare_simulation_pla.Prelude.IdSet.{member}
use rideshare_simulation_pla.Trip.{offer_sent, entered}
use rideshare_simulation_pla.Server.{Server, Outcome, done, Ranked, Candidates, no_drivers}
use rideshare_simulation_pla.Server.Frame.{emit-Kept}
use rideshare_simulation_pla.Server.Offers.{keep_for_retry}
use rideshare_simulation_pla.Server.Asking.{IsFree, first_free, first_free-busy}
use rideshare_simulation_pla.Server.Cycle.{with_candidates}

-- The trip waits for another try: nobody was asked, and the retry is due after one interval.
pub record Exhausted (t : ℕ) (w w' : Server) : Type 0 where
  pub trips : w'.trip ≡ w.trip
  pub reserved : w'.reserved ≡ w.reserved
  pub counters : w'.counters ≡ w.counters
  pub active : w'.active_trips ≡ w.active_trips
  pub due : lookup t w'.retry_queue ≡ some (w.now + w.config.retry_interval_seconds)

-- Exactly one new offer is out: to some driver that was free, and to no other.
pub record OneOffer (t : ℕ) (w w' : Server) : Type 0 where
  pub asked : ℕ
  pub was_free : IsFree asked w
  pub now_reserved : member asked w'.reserved ≡ true
  pub others : (e : ℕ) → member e w'.reserved ≡ (if asked == e then true else member e w.reserved)
  pub trip_sent : w'.trip t ≡ entered offer_sent (w.trip t)
  pub sent_one : w'.counters.offers_sent ≡ w.counters.offers_sent + 1
  pub active : w'.active_trips ≡ w.active_trips
  pub retries : w'.retry_queue ≡ w.retry_queue

-- What the cycle makes of the drivers that it may ask: none of them can be asked, or the first that can.
abbrev pub Asks : List Ranked → ℕ → Server → Server → Type 0
Asks rs t w w' =
    ((first_free w.reserved w.driver rs ≡ none) × Exhausted t w w')
    ⊎ ((x : OneOffer t w w') × (first_free w.reserved w.driver rs ≡ some x.asked))

abbrev pub CycleEnds : List Ranked → ℕ → Server → Outcome (Unit {0}) → Type 0
CycleEnds rs t w o = (w' : Server) × (o ≡ done tt w') × Asks rs t w w'

pub keep_for_retry-Exhausted : (t : ℕ) (w : Server) → Exhausted t w (keep_for_retry t w)
unfolding keep_for_retry
keep_for_retry-Exhausted t w =
    let k = emit-Kept no_drivers t none (w.trip t).offer_sequence w in
    record {
      trips = k.trip;
      reserved = k.reserved;
      counters = k.counters;
      active = k.active_trips;
      due =
          ground (arith, lookup-insert t t (w.now + w.config.retry_interval_seconds) w.retry_queue);
    }

module _ (t : ℕ) where
  -- Which candidates are left is no part of the outcome.
  pub of_popped :
      (rs : List Ranked) (c : Dict Candidates) (w : Server) {w' : Server}
      → Asks rs t (with_candidates c w) w'
      → Asks rs t w w'
  of_popped rs c w (inl (n, x)) = inl (
    n,
    record {
      trips = x.trips;
      reserved = x.reserved;
      counters = x.counters;
      active = x.active;
      due = x.due;
    },
  )
  of_popped rs c w (inr (x, e)) = inr (
    record {
      asked = x.asked;
      was_free = x.was_free;
      now_reserved = x.now_reserved;
      others = x.others;
      trip_sent = x.trip_sent;
      sent_one = x.sent_one;
      active = x.active;
      retries = x.retries;
    },
    e,
  )

  -- The drivers to ask, named in another way.
  pub of_same : {rs ss : List Ranked} {w w' : Server} → ss ≡ rs → Asks rs t w w' → Asks ss t w w'
  of_same {w} {w'} e a = subst (λ l. Asks l t w w') (sym e) a

  -- A driver that was passed over does not count.
  pub of_passed :
      (r : Ranked) (rs : List Ranked) (w : Server) {w' : Server}
      → (IsFree r.driver_id w → ⊥)
      → Asks rs t w w'
      → Asks (r ∷ rs) t w w'
  of_passed r rs w busy (inl (n, x)) = inl (first_free-busy r rs w busy ∙ n, x)
  of_passed r rs w busy (inr (x, e)) = inr (x, first_free-busy r rs w busy ∙ e)
