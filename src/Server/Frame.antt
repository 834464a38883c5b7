-- ===== src/Server/Frame.antt =====
-- What the steps that tell others (events, riders, the outgoing offer) do to the fields on which matching
-- decides.
use rideshare_simulation_pla.Prelude.{ℕ, ◌≡◌, ◌∙◌, Option, arith}
use rideshare_simulation_pla.Prelude.Ratio.{Ratio}
use rideshare_simulation_pla.Agents.{Rider}
use rideshare_simulation_pla.Server.{Server, EventType, emit, change_rider}
use rideshare_simulation_pla.Server.Offers.{deliver}
use rideshare_simulation_pla.Server.Responses.{request_served, start_trip_execution_internal}

pub record Kept (w w' : Server) : Type 0 where
  pub config : w'.config ≡ w.config
  pub now : w'.now ≡ w.now
  pub trip : w'.trip ≡ w.trip
  pub driver : w'.driver ≡ w.driver
  pub fleet : w'.fleet ≡ w.fleet
  pub registered : w'.registered ≡ w.registered
  pub candidates : w'.candidates ≡ w.candidates
  pub active_trips : w'.active_trips ≡ w.active_trips
  pub responses : w'.responses ≡ w.responses
  pub timeouts : w'.timeouts ≡ w.timeouts
  pub completed_trips : w'.completed_trips ≡ w.completed_trips
  pub cancelled_trips : w'.cancelled_trips ≡ w.cancelled_trips
  pub reserved : w'.reserved ≡ w.reserved
  pub retry_queue : w'.retry_queue ≡ w.retry_queue
  pub counters : w'.counters ≡ w.counters
  pub stats : w'.stats ≡ w.stats
  pub puppet_drives : w'.puppet_drives ≡ w.puppet_drives

pub Kept-trans : {u v w : Server} → Kept u v → Kept v w → Kept u w
Kept-trans p q = record {
  config = q.config ∙ p.config;
  now = q.now ∙ p.now;
  trip = q.trip ∙ p.trip;
  driver = q.driver ∙ p.driver;
  fleet = q.fleet ∙ p.fleet;
  registered = q.registered ∙ p.registered;
  candidates = q.candidates ∙ p.candidates;
  active_trips = q.active_trips ∙ p.active_trips;
  responses = q.responses ∙ p.responses;
  timeouts = q.timeouts ∙ p.timeouts;
  completed_trips = q.completed_trips ∙ p.completed_trips;
  cancelled_trips = q.cancelled_trips ∙ p.cancelled_trips;
  reserved = q.reserved ∙ p.reserved;
  retry_queue = q.retry_queue ∙ p.retry_queue;
  counters = q.counters ∙ p.counters;
  stats = q.stats ∙ p.stats;
  puppet_drives = q.puppet_drives ∙ p.puppet_drives;
}

pub emit-Kept :
    (e : EventType) (t : ℕ) (d : Option ℕ) (n : ℕ) (w : Server) → Kept w (emit e t d n w)
unfolding emit
emit-Kept e t d n w = ground arith

pub change_rider-Kept : (t : ℕ) (f : Rider → Rider) (w : Server) → Kept w (change_rider t f w)
unfolding change_rider
change_rider-Kept t f w = ground arith

pub deliver-Kept :
    (random : ℕ → Ratio) (d t seq eta : ℕ) (w : Server) → Kept w (deliver random d t seq eta w)
unfolding deliver
deliver-Kept random d t seq eta w = ground arith

pub request_served-Kept : (t : ℕ) (w : Server) → Kept w (request_served t w)
unfolding request_served
request_served-Kept t w = ground arith

pub start_trip_execution_internal-Kept :
    (d t : ℕ) (w : Server) → Kept w (start_trip_execution_internal d t w)
unfolding start_trip_execution_internal
start_trip_execution_internal-Kept d t w = ground arith
