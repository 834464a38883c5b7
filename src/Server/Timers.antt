-- ===== src/Server/Timers.antt =====
-- The timeouts of offers over any history of calls.
use mathlib.Core.Path.{subst, sym}
use rideshare_simulation_pla.Prelude.{
  ℕ, suc, ◌<◌, ◌≡◌, refl, inl, inr, Option, none, some, List, [], ◌∷◌, ◌++◌, ap, ◌==◌, arith,
  Bool-cases, Option-cases, All,
}
use rideshare_simulation_pla.Prelude.Dict.{Dict, lookup, insert, erase, lookup-insert, lookup-erase}
use rideshare_simulation_pla.Server.Timeouts.{
  TimedOffer, Timer, OfferTimeouts, start_offer_timeout, fire, clear_offer, without_process,
}

-- Does this timer wait for the offer that is pending for its trip?
abbrev pub IsPending : Dict TimedOffer → Timer → Type 0
IsPending p t = (o : TimedOffer) × (lookup t.trip_id p ≡ some o) × (o.timeout_process ≡ t.process)

-- Every timer is that of a pending offer, and processes are numbered below the next one.
pub record IsTimed (m : OfferTimeouts) : Type 0 where
  pub pending : All (IsPending m.pending_offers) m.running
  pub numbered : All (λ (t : Timer). t.process < m.next_process) m.running

All-lt_suc :
    (n : ℕ) (ts : List Timer)
    → All (λ (t : Timer). t.process < n) ts
    → All (λ (t : Timer). t.process < suc n) ts
All-lt_suc n [] a = tt
All-lt_suc n (t ∷ ts) a = (omega (arith, a.0), All-lt_suc n ts a.1)

All-insert :
    (k : ℕ) (o : TimedOffer) (p : Dict TimedOffer) (ts : List Timer)
    → lookup k p ≡ none
    → All (IsPending p) ts
    → All (IsPending (insert k o p)) ts
All-insert k o p [] n a = tt
All-insert k o p (t ∷ ts) n ((q, e, f), a) =
    ((q, ground (arith, lookup-insert t.trip_id k o p), f), All-insert k o p ts n a)

start_offer_timeout-IsTimed :
    (now t d n : ℕ) (m : OfferTimeouts)
    → lookup t m.pending_offers ≡ none
    → IsTimed m
    → IsTimed (start_offer_timeout now t d n m)
unfolding start_offer_timeout
start_offer_timeout-IsTimed now t d n m e i = record {
  pending = (
    (
      record { driver_id = d; offer_sequence = n; timeout_process = m.next_process },
      ground (
        arith,
        lookup-insert t t
            (record { driver_id = d; offer_sequence = n; timeout_process = m.next_process })
            m.pending_offers,
      ),
      refl,
    ),
    All-insert t _ m.pending_offers m.running e i.pending,
  );
  numbered = (omega arith, All-lt_suc m.next_process m.running i.numbered);
}

-- The timers that are left when the offer of trip `k` and its process go.
All-erase :
    (k : ℕ) (o : TimedOffer) (p : Dict TimedOffer) (ts : List Timer)
    → lookup k p ≡ some o
    → All (IsPending p) ts
    → All (IsPending (erase k p)) (without_process o.timeout_process ts)
All-erase k o p [] h a = tt
All-erase k o p (t ∷ ts) h ((q, e, f), a) = elim (Bool-cases (t.process == o.timeout_process)) [
  | inl s ↦ rw s (All-erase k o p ts h a)
  | inr s ↦ rw s ((q, ground (arith, lookup-erase t.trip_id k p), f), All-erase k o p ts h a)
]

All-without :
    (n k : ℕ) (ts : List Timer)
    → All (λ (t : Timer). t.process < n) ts
    → All (λ (t : Timer). t.process < n) (without_process k ts)
All-without n k [] a = tt
All-without n k (t ∷ ts) a = elim (Bool-cases (t.process == k)) [
  | inl s ↦ rw s (All-without n k ts a.1)
  | inr s ↦ rw s (a.0, All-without n k ts a.1)
]

clear_offer-IsTimed : (k : ℕ) (m : OfferTimeouts) → IsTimed m → IsTimed (clear_offer k m)
unfolding clear_offer
clear_offer-IsTimed k m i = elim (Option-cases (lookup k m.pending_offers)) [
  | inl n ↦ rw (n, clear_offer) i
  | inr (o, h) ↦
      rw (h, clear_offer)
        (record {
          pending = All-erase k o m.pending_offers m.running h i.pending;
          numbered = All-without m.next_process o.timeout_process m.running i.numbered;
        })
]

All-at :
    (p : Dict TimedOffer) (us vs : List Timer) (t : Timer)
    → All (IsPending p) (us ++ t ∷ vs)
    → IsPending p t
All-at p [] vs t a = a.0
All-at p (u ∷ us) vs t a = All-at p us vs t a.1

fire_pending :
    (t : Timer) (m : OfferTimeouts) (o : TimedOffer)
    → lookup t.trip_id m.pending_offers ≡ some o
    → o.timeout_process ≡ t.process
    → fire t m ≡ (clear_offer t.trip_id m, some o.driver_id)
unfolding fire clear_offer
fire_pending t m o h f = rw (h, fire, clear_offer, f) refl

-- A running timer that runs out does to the timeouts what clearing its trip's offer does, and reports the
-- driver of that offer.
fire_running :
    (us vs : List Timer) (t : Timer) (m : OfferTimeouts)
    → m.running ≡ us ++ t ∷ vs
    → IsTimed m
    → (o : TimedOffer) × (lookup t.trip_id m.pending_offers ≡ some o)
      × (o.timeout_process ≡ t.process)
      × (fire t m ≡ (clear_offer t.trip_id m, some o.driver_id))
fire_running us vs t m e i =
    let (o, h, f) =
      All-at m.pending_offers us vs t (subst (All (IsPending m.pending_offers)) e i.pending) in
    (o, h, f, fire_pending t m o h f)

abbrev no_timeouts : ℕ → OfferTimeouts
no_timeouts s = record { timeout_seconds = s; pending_offers = []; running = []; next_process = 0 }

-- The life of the timeout manager: an offer is started only for a trip without a pending one.
pub data Managed (s : ℕ) : OfferTimeouts → Type 0 where
  idle : Managed s (no_timeouts s)
  starts :
      (now t d n : ℕ) {m : OfferTimeouts}
      → lookup t m.pending_offers ≡ none
      → Managed s m
      → Managed s (start_offer_timeout now t d n m)
  clears : (t : ℕ) {m : OfferTimeouts} → Managed s m → Managed s (clear_offer t m)
  fires :
      (us vs : List Timer) (t : Timer) {m : OfferTimeouts}
      → m.running ≡ us ++ t ∷ vs
      → Managed s m
      → Managed s ((fire t m).0)

Managed-IsTimed : {s : ℕ} {m : OfferTimeouts} → Managed s m → IsTimed m
Managed-IsTimed idle = record { pending = tt; numbered = tt }
Managed-IsTimed (starts now t d n {m} e h) =
    start_offer_timeout-IsTimed now t d n m e (Managed-IsTimed h)
Managed-IsTimed (clears t {m} h) = clear_offer-IsTimed t m (Managed-IsTimed h)
Managed-IsTimed (fires us vs t {m} e h) =
    let (o, _, _, f) = fire_running us vs t m e (Managed-IsTimed h) in
    subst IsTimed (sym (ap (λ (p : OfferTimeouts × Option ℕ). p.0) f))
      (clear_offer-IsTimed t.trip_id m (Managed-IsTimed h))

-- No stale timeout: after any life of the manager in which an offer is started only for a trip without a
-- pending one, a timer that is still running and runs out belongs to the offer that is pending for its
-- trip; it reports the driver of this offer, and does to the rest what clearing the offer does.
pub Managed-fire :
    (s : ℕ) (us vs : List Timer) (t : Timer) (m : OfferTimeouts)
    → Managed s m
    → m.running ≡ us ++ t ∷ vs
    → (o : TimedOffer) × (lookup t.trip_id m.pending_offers ≡ some o)
      × (o.timeout_process ≡ t.process)
      × (fire t m ≡ (clear_offer t.trip_id m, some o.driver_id))
Managed-fire s us vs t m h e = fire_running us vs t m e (Managed-IsTimed h)
