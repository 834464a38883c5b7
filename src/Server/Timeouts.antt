-- ===== src/Server/Timeouts.antt =====
-- services/simulation/src/matching/offer_timeout.py: at most one pending offer for each trip, and the
-- SimPy processes that wait for their timeout. A process is named by a number; it is alive while it
-- stands in `running`, and an interrupt takes it off.
use rideshare_simulation_pla.Prelude.{ℕ, suc, ◌+◌, not, Option, none, some, List, ◌∷◌, ◌==◌, keep}
use rideshare_simulation_pla.Prelude.Dict.{Dict, lookup, insert, erase}

pub record TimedOffer : Type 0 where
  pub driver_id : ℕ
  pub offer_sequence : ℕ
  pub timeout_process : ℕ

-- A process that waits for `env.timeout(timeout_seconds)` to pass, for one trip.
pub record Timer : Type 0 where
  pub process : ℕ
  pub trip_id : ℕ
  pub due : ℕ

pub record OfferTimeouts : Type 0 where
  pub timeout_seconds : ℕ
  pub pending_offers : Dict TimedOffer
  pub running : List Timer
  pub next_process : ℕ

unfoldable pub start_offer_timeout : ℕ → ℕ → ℕ → ℕ → OfferTimeouts → OfferTimeouts
start_offer_timeout now trip_id driver_id offer_sequence m = record m {
  running =
      record { process = m.next_process; trip_id = trip_id; due = now + m.timeout_seconds }
      ∷ m.running;
  next_process = suc m.next_process;
  pending_offers =
      insert trip_id
        (record {
          driver_id = driver_id;
          offer_sequence = offer_sequence;
          timeout_process = m.next_process;
        })
        m.pending_offers;
}

abbrev pub without_process : ℕ → List Timer → List Timer
without_process p = keep (λ t. not (t.process == p))

-- The process resumes: the pending offer of its trip, if there is one, is taken out and its driver is
-- handed to the callback.
unfoldable pub fire : Timer → OfferTimeouts → OfferTimeouts × Option ℕ
fire t m =
    let ended = record m { running = without_process t.process m.running } in
    elim (lookup t.trip_id m.pending_offers) [
      | none ↦ (ended, none)
      | some o ↦
          (record ended { pending_offers = erase t.trip_id m.pending_offers }, some o.driver_id)
    ]

-- `clear_offer`. Interrupting a process that has ended changes nothing here, as the source's test on
-- `triggered` has it.
unfoldable pub clear_offer : ℕ → OfferTimeouts → OfferTimeouts
clear_offer trip_id m = elim (lookup trip_id m.pending_offers) [
  | none ↦ m
  | some o ↦ record m {
    running = without_process o.timeout_process m.running;
    pending_offers = erase trip_id m.pending_offers;
  }
]

unfoldable pub invalidate_offer : ℕ → OfferTimeouts → OfferTimeouts
unfolding clear_offer
invalidate_offer trip_id m = clear_offer trip_id m
