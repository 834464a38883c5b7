-- ===== src/Server/Stale.antt =====
-- The process that applies a driver's answer, `_deferred_offer_response`, and what it cannot tell: to
-- whom the offer that is out now was made.
use rideshare_simulation_pla.Prelude.{
  ℕ, ◌≡◌, ap, ◌≢◌, true, false, none, some, if◌then◌else◌, arith, ◌==◌, ◌∙◌,
}
use rideshare_simulation_pla.Prelude.Dict.{lookup, lookup-erase}
use rideshare_simulation_pla.Prelude.IdSet.{member}
use rideshare_simulation_pla.Prelude.Ratio.{Ratio}
use rideshare_simulation_pla.Trip.{Trip, offer_sent, driver_assigned}
use rideshare_simulation_pla.Registry.Accuracy.{IsAccurate}
use rideshare_simulation_pla.Server.{Server, done, Deferred}
use rideshare_simulation_pla.Server.Timeouts.{TimedOffer, clear_offer}
use rideshare_simulation_pla.Server.Responses.{
  deferred_offer_response, apply_acceptance, clear_timeout,
}
use rideshare_simulation_pla.Server.Answers.{apply_acceptance-Matched}

clear_timeout-pending :
    (t x : ℕ) (w : Server)
    → w.config.has_kafka ≡ true
    → lookup x (clear_timeout t w).timeouts.pending_offers
      ≡ (if t == x then none else lookup x w.timeouts.pending_offers)
unfolding clear_timeout clear_offer
clear_timeout-pending t x w k = ground (arith, lookup-erase x t w.timeouts.pending_offers)

pub record Untimed (w w' : Server) : Type 0 where
  pub trip : w'.trip ≡ w.trip
  pub driver : w'.driver ≡ w.driver
  pub fleet : w'.fleet ≡ w.fleet
  pub reserved : w'.reserved ≡ w.reserved
  pub active : w'.active_trips ≡ w.active_trips
  pub now : w'.now ≡ w.now
  pub counters : w'.counters ≡ w.counters
  pub config : w'.config ≡ w.config
  pub candidates : w'.candidates ≡ w.candidates

pub clear_timeout-Untimed : (t : ℕ) (w : Server) → Untimed w (clear_timeout t w)
unfolding clear_timeout
clear_timeout-Untimed t w = ground arith

module _ (random : ℕ → Ratio) where
  pub response_applied :
      (r : Deferred) (w : Server)
      → (w.trip r.trip_id).state ≡ offer_sent
      → member r.trip_id w.active_trips ≡ true
      → r.accepted ≡ true
      → deferred_offer_response random r w
        ≡ apply_acceptance r.driver_id r.trip_id (clear_timeout r.trip_id w)
  unfolding deferred_offer_response
  response_applied r w s m a = ground (arith, (clear_timeout-Untimed r.trip_id w).active)

  -- An acceptance of a trip that is active and in `offer_sent` goes through, whoever the offer that is
  -- out was made to, where there is a timeout manager and the driver counters are accurate: the
  -- answering driver gets the trip and the trip the driver, the driver is released and no other
  -- reservation changes, no other trip and no active trip changes, and the trip has no pending timeout
  -- any more.
  acceptance_goes_through :
      (r : Deferred) (w : Server)
      → (w.trip r.trip_id).state ≡ offer_sent
      → member r.trip_id w.active_trips ≡ true
      → r.accepted ≡ true
      → w.config.has_kafka ≡ true
      → IsAccurate w.fleet.registry
      → (w' : Server) × (deferred_offer_response random r w ≡ done tt w')
        × ((w'.trip r.trip_id).state ≡ driver_assigned)
        × ((w'.trip r.trip_id).driver_id ≡ some r.driver_id)
        × ((w'.driver r.driver_id).active_trip ≡ some r.trip_id)
        × ((e : ℕ)
            → member e w'.reserved ≡ (if r.driver_id == e then false else member e w.reserved))
        × (lookup r.trip_id w'.timeouts.pending_offers ≡ none)
        × ((x : ℕ) → w'.trip x ≡ (if r.trip_id == x then w'.trip r.trip_id else w.trip x))
        × (w'.active_trips ≡ w.active_trips)
  acceptance_goes_through r w s m a k v =
      let cleared = clear_timeout r.trip_id w in
      let u = clear_timeout-Untimed r.trip_id w in
      let (w', e, f) =
        apply_acceptance-Matched r.driver_id r.trip_id cleared
          (ap (λ (g : ℕ → Trip). (g r.trip_id).state) u.trip ∙ s) (accurate u.fleet) in
      (
        w',
        response_applied r w s m a ∙ e,
        f.trip_assigned,
        f.trip_driver,
        f.driver_trip,
        λ x. ground (arith, f.released x, u.reserved),
        ground (arith, f.timers, clear_timeout-pending r.trip_id r.trip_id w k),
        λ x. ground (arith, f.other_trips x, ap (λ (g : ℕ → Trip). g x) u.trip),
        f.active ∙ u.active,
      )
    where
      accurate :
          (clear_timeout r.trip_id w).fleet ≡ w.fleet
          → IsAccurate (clear_timeout r.trip_id w).fleet.registry
      accurate e = rw e v

  -- The flaw: under the conditions of an acceptance, let the offer that is pending for the trip be
  -- another driver's, who is reserved, and let the answering driver be on another trip, which is active
  -- and names this driver. Then the late answer goes through. The driver who was asked last stays
  -- reserved, with no timeout left that would free it. And the answering driver is booked twice: both
  -- trips are active and name it, the one that it was on exactly as before, while the driver knows only
  -- the new one.
  pub stale_acceptance :
      (r : Deferred) (o : TimedOffer) (t₀ : ℕ) (w : Server)
      → (w.trip r.trip_id).state ≡ offer_sent
      → member r.trip_id w.active_trips ≡ true
      → r.accepted ≡ true
      → w.config.has_kafka ≡ true
      → IsAccurate w.fleet.registry
      → lookup r.trip_id w.timeouts.pending_offers ≡ some o
      → o.driver_id ≢ r.driver_id
      → member o.driver_id w.reserved ≡ true
      → r.trip_id ≢ t₀
      → member t₀ w.active_trips ≡ true
      → (w.trip t₀).driver_id ≡ some r.driver_id
      → (w.driver r.driver_id).active_trip ≡ some t₀
      → (w' : Server) × (deferred_offer_response random r w ≡ done tt w')
        × (member o.driver_id w'.reserved ≡ true)
        × (lookup r.trip_id w'.timeouts.pending_offers ≡ none)
        × ((w'.trip r.trip_id).driver_id ≡ some r.driver_id)
        × (member r.trip_id w'.active_trips ≡ true)
        × (w'.trip t₀ ≡ w.trip t₀)
        × ((w'.trip t₀).driver_id ≡ some r.driver_id)
        × (member t₀ w'.active_trips ≡ true)
        × ((w'.driver r.driver_id).active_trip ≡ some r.trip_id)
  stale_acceptance r o t₀ w s m a k v p ne held other busy booked on =
      let (w', e, _, d, b, rs, q, ts, act) = acceptance_goes_through r w s m a k v in
      let same : w'.trip t₀ ≡ w.trip t₀ = ground (arith, ts t₀) in
      (
        w',
        e,
        ground (arith, rs o.driver_id),
        q,
        d,
        ap (member r.trip_id) act ∙ m,
        same,
        ap (λ (u : Trip). u.driver_id) same ∙ booked,
        ap (member t₀) act ∙ busy,
        b,
      )
