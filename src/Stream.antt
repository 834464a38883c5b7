-- ===== src/Stream.antt =====
-- services/stream-processor/src: the deduplication of events and the window of the GPS pings. Redis and the
-- validation of a message are parameters: a message is here what its validation gives, and an identifier is
-- `none` where the source finds none or an empty one.
pub mod Once
pub mod Window
pub mod Processor
pub mod Redelivery
use rideshare_simulation_pla.Prelude.{
  ℕ, ◌+◌, ◌≡◌, Bool, true, false, not, ◌&&◌, Option, none, some, List, [], ◌∷◌, map, ltb, leb,
  length, ◌==◌, if◌then◌else◌,
}
use rideshare_simulation_pla.Prelude.Dict.{Dict, lookup, insert, values}

-- A Redis server, for `SET key 1 NX EX ttl`: whether the key was set, and the store afterwards; and whether a
-- key is there at a time.
pub record Redis : Type 1 where
  pub Store : Type 0
  pub exists_at : ℕ → ℕ → Store → Bool
  pub set_nx : ℕ → ℕ → ℕ → Store → Bool × Store

-- The documented behaviour: a key is set only if it is not there, and is there for `ttl` seconds then.
pub record IsRedis (r : Redis) : Type 0 where
  pub was_set : (now ttl k : ℕ) (s : r.Store) → (r.set_nx now ttl k s).0 ≡ not (r.exists_at now k s)
  pub expires :
      (now ttl k t j : ℕ) (s : r.Store)
      → r.exists_at t j (r.set_nx now ttl k s).1
        ≡ (if (k == j) && not (r.exists_at now k s) then ltb t (now + ttl) else r.exists_at t j s)

pub record Deduplicator (S : Type 0) : Type 0 where
  pub redis : S
  pub ttl_seconds : ℕ
  pub duplicates_skipped : ℕ
  pub events_processed : ℕ

abbrev answered : {S : Type 0} → Deduplicator S → Bool × S → Bool × Deduplicator S
answered d (true, s) = (false, record d { redis = s; events_processed = d.events_processed + 1 })
answered d (false, s) =
    (true, record d { redis = s; duplicates_skipped = d.duplicates_skipped + 1 })

unfoldable pub is_duplicate :
    (r : Redis) → ℕ → Option ℕ → Deduplicator r.Store → Bool × Deduplicator r.Store
is_duplicate r now none d = (false, d)
is_duplicate r now (some k) d = answered d (r.set_nx now d.ttl_seconds k d.redis)

pub data EntityType : Type 0 where
  driver_entity rider_entity : EntityType

-- `GPSPingEvent`; the fields that are only handed on are one token.
pub record GpsPing : Type 0 where
  pub entity_id : ℕ
  pub entity_type : EntityType
  pub fields : ℕ

pub data Strategy : Type 0 where
  latest sample other_strategy : Strategy

pub record GpsHandler : Type 0 where
  pub strategy : Strategy
  pub sample_rate : ℕ
  pub window_state : Dict GpsPing
  pub sample_counters : Dict ℕ
  pub messages_received : ℕ
  pub messages_emitted : ℕ

abbrev pub counter_of : Option ℕ → ℕ
counter_of none = 0
counter_of (some n) = n

abbrev kept : GpsPing → GpsHandler → GpsHandler
kept e h = record h { window_state = insert e.entity_id e h.window_state }

-- One ping in `sample_rate` of an entity is kept.
unfoldable pub sampled : GpsPing → GpsHandler → GpsHandler
sampled e h =
    let n = counter_of (lookup e.entity_id h.sample_counters) + 1 in
    if leb h.sample_rate n
    then kept e (record h { sample_counters = insert e.entity_id 0 h.sample_counters })
    else record h { sample_counters = insert e.entity_id n h.sample_counters }

abbrev aggregated : Strategy → GpsPing → GpsHandler → GpsHandler
aggregated latest e h = kept e h
aggregated sample e h = sampled e h
aggregated other_strategy e h = h

-- `handle`, which returns no event; a message that is not valid changes nothing.
unfoldable pub handle : Option GpsPing → GpsHandler → GpsHandler
unfolding sampled
handle none h = h
handle (some e) h =
    aggregated h.strategy e (record h { messages_received = h.messages_received + 1 })

pub data Channel : Type 0 where
  driver_updates rider_updates trip_updates surge_updates : Channel

abbrev channel_of : EntityType → Channel
channel_of driver_entity = driver_updates
channel_of rider_entity = rider_updates

abbrev pub routed : GpsPing → Channel × GpsPing
routed e = (channel_of e.entity_type, e)

unfoldable pub flush : GpsHandler → List (Channel × GpsPing) × GpsHandler
flush h = (
  map routed (values h.window_state),
  record h { window_state = []; messages_emitted = h.messages_emitted + length h.window_state },
)
