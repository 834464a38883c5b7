-- ===== src/Scenarios/Streams.antt =====
-- The theorems on the stream processor at concrete states.
use rideshare_simulation_pla.Prelude.{
  ℕ, ◌+◌, ◌≡◌, refl, arith, Bool, true, false, Option, none, some, List, [], ◌∷◌, ltb, ◌==◌,
  if◌then◌else◌,
}
use rideshare_simulation_pla.Prelude.Dict.{Dict, lookup, insert, values, lookup-insert}
use rideshare_simulation_pla.Stream.{
  Redis, IsRedis, Deduplicator, is_duplicate, GpsPing, GpsHandler, latest, driver_entity,
  rider_entity, flush,
}
use rideshare_simulation_pla.Stream.Processor.{
  Topic, trips, Message, event, Processor, process_message, process_all,
}
use rideshare_simulation_pla.Stream.Redelivery.{Untouched, redelivery_lem}
use rideshare_simulation_pla.Stream.Window.{of_entity, handle_all, last_of, flush_lem}

-- A store that keeps for every key the time at which it expires.
abbrev lives_at : ℕ → Option ℕ → Bool
lives_at t none = false
lives_at t (some end) = ltb t end

abbrev expiring : Redis
expiring = record {
  Store = Dict ℕ;
  exists_at = λ t k s. lives_at t (lookup k s);
  set_nx = λ now ttl k s.
      if lives_at now (lookup k s) then (false, s) else (true, insert k (now + ttl) s);
}

expiring-IsRedis : IsRedis expiring
expiring-IsRedis = record {
  was_set = λ now ttl k s. ground arith;
  expires = λ now ttl k t j s. ground (arith, lookup-insert j k (now + ttl) s);
}

abbrev deduplicator : Deduplicator (Dict ℕ)
deduplicator = record {
  redis = [];
  ttl_seconds = 3600;
  duplicates_skipped = 0;
  events_processed = 0;
}

abbrev ping : ℕ → GpsPing
ping n = record { entity_id = 8; entity_type = driver_entity; fields = n }

abbrev gps_handler : GpsHandler
gps_handler = record {
  strategy = latest;
  sample_rate = 10;
  window_state = [];
  sample_counters = [];
  messages_received = 0;
  messages_emitted = 0;
}

abbrev messages : List (Option GpsPing)
messages =
    some (ping 1)
    ∷ none
    ∷ some (record { entity_id = 9; entity_type = rider_entity; fields = 3 })
    ∷ some (ping 2)
    ∷ []

flush_lem_example :
    ((k : ℕ) → of_entity k (flush (handle_all messages gps_handler)).0 ≡ last_of k [] messages)
    × ((flush (handle_all messages gps_handler)).1.window_state ≡ [])
    × ((flush (handle_all messages gps_handler)).1.messages_emitted ≡ 2)
unfolding handle_all flush insert values
flush_lem_example = flush_lem messages gps_handler refl refl

abbrev processor : Processor (Dict ℕ)
processor = record {
  deduplicator = deduplicator;
  gps_handler = gps_handler;
  sink = record { max_retries = 3; attempts = 0; sent = []; publish_errors = 0 };
  offsets = record {
    enable_auto_commit = false;
    batch_commit_size = 100;
    commit_interval_sec = 5;
    pending_commits = 0;
    last_commit_time = 0;
    commits = 0;
  };
  messages_consumed = 0;
  messages_published = 0;
  last_window_flush = 0;
  window_duration = 1;
}

-- Only the fourth attempt at a publication succeeds.
abbrev fourth : ℕ → Bool
fourth n = n == 3

abbrev all_enabled : Topic → Bool
all_enabled topic = true

abbrev a_message : ℕ → Message
a_message k = record { topic = trips; event_id = some k; body = event true k }

redelivery_lem_example :
    Untouched
      (process_all expiring fourth all_enabled
        ((11, a_message 5) ∷ [])
        (process_message expiring fourth all_enabled 10 (a_message 4) processor))
      (process_message expiring fourth all_enabled 12 (a_message 4) (
        process_all expiring fourth all_enabled
          ((11, a_message 5) ∷ [])
          (process_message expiring fourth all_enabled 10 (a_message 4) processor)))
unfolding is_duplicate lookup
redelivery_lem_example =
    redelivery_lem expiring expiring-IsRedis fourth all_enabled 4 10 12 (a_message 4)
      ((11, a_message 5) ∷ []) processor refl refl refl (omega arith)
