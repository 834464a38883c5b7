-- ===== src/Stream/Processor.antt =====
-- services/stream-processor/src/processor.py and sinks/redis_sink.py: a message from its topic to Redis, the
-- windows and the commits. Which attempts at a `PUBLISH` succeed is a parameter, and so is Redis. A message
-- carries what its validation gives; tracing and metrics are left out.
use rideshare_simulation_pla.Prelude.{
  ℕ, zero, suc, ◌+◌, ◌-◌, Bool, true, false, not, ◌&&◌, Option, none, some, List, [], ◌∷◌, ◌++◌,
  map, ltb, leb, ◌==◌, if◌then◌else◌,
}
use rideshare_simulation_pla.Stream.{
  Redis, Deduplicator, is_duplicate, GpsPing, GpsHandler, handle, flush, Channel, driver_updates,
  rider_updates, trip_updates, surge_updates as surge_channel,
}

pub data Topic : Type 0 where
  gps_pings trips driver_status surge_updates driver_profiles rider_profiles ratings other_topic :
      Topic

-- A validated message: a ping, or an event that is passed on. Of a rating it is known who was rated.
pub data Body : Type 0 where
  invalid : Body
  ping : GpsPing → Body
  event : Bool → ℕ → Body

pub record Message : Type 0 where
  pub topic : Topic
  pub event_id : Option ℕ
  pub body : Body

pub data Published : Type 0 where
  gps : GpsPing → Published
  passed : ℕ → Published

pub record Sink : Type 0 where
  pub max_retries : ℕ
  pub attempts : ℕ
  pub sent : List (Channel × Published)
  pub publish_errors : ℕ

pub record Offsets : Type 0 where
  pub enable_auto_commit : Bool
  pub batch_commit_size : ℕ
  pub commit_interval_sec : ℕ
  pub pending_commits : ℕ
  pub last_commit_time : ℕ
  pub commits : ℕ

pub record Processor (S : Type 0) : Type 0 where
  pub deduplicator : Deduplicator S
  pub gps_handler : GpsHandler
  pub sink : Sink
  pub offsets : Offsets
  pub messages_consumed : ℕ
  pub messages_published : ℕ
  pub last_window_flush : ℕ
  pub window_duration : ℕ

-- The channel of a handler that passes on.
abbrev pub channel_for : Topic → Bool → Channel
channel_for trips b = trip_updates
channel_for surge_updates b = surge_channel
channel_for rider_profiles b = rider_updates
channel_for ratings false = rider_updates
channel_for _ b = driver_updates

abbrev pub pass_on : Topic → Body → List (Channel × Published)
pass_on topic (event b n) = (channel_for topic b, passed n) ∷ []
pass_on topic _ = []

abbrev pub ping_in : Body → Option GpsPing
ping_in (ping e) = some e
ping_in _ = none

-- `_commit_offsets`.
unfoldable pub commit_offsets : ℕ → Offsets → Offsets
commit_offsets now o =
    if ltb 0 o.pending_commits
    then record o { commits = o.commits + 1; pending_commits = 0; last_commit_time = now }
    else o

-- What `_process_message` does after a publication.
unfoldable pub count_published : ℕ → ℕ → Offsets → Offsets
unfolding commit_offsets
count_published now published o =
    if not o.enable_auto_commit && ltb 0 published
    then (let more = record o { pending_commits = o.pending_commits + 1 } in
        if leb more.batch_commit_size more.pending_commits then commit_offsets now more else more)
    else o

unfoldable pub maybe_commit_offsets : ℕ → Offsets → Offsets
maybe_commit_offsets now o =
    if o.enable_auto_commit
    then o
    else if leb o.commit_interval_sec (now - o.last_commit_time)
    then record o { commits = o.commits + 1; pending_commits = 0; last_commit_time = now }
    else o

module _ (r : Redis) (delivers : ℕ → Bool) (enabled : Topic → Bool) where
  -- The attempts at one event, of which `left` are left.
  unfoldable pub attempt_publish : ℕ → Channel × Published → Sink → Bool × Sink
  attempt_publish zero e s = (false, s)
  attempt_publish (suc left) e s =
      let after = record s { attempts = s.attempts + 1 } in
      let again = attempt_publish left e after in
      if delivers s.attempts
      then (true, record after { sent = s.sent ++ e ∷ [] })
      else if left == 0
      then (false, record after { publish_errors = s.publish_errors + 1 })
      else again

  unfoldable pub publish : Channel × Published → Sink → Bool × Sink
  unfolding attempt_publish
  publish e s = attempt_publish s.max_retries e s

  unfoldable pub publish_batch : List (Channel × Published) → Sink → ℕ × Sink
  unfolding publish
  publish_batch [] s = (0, s)
  publish_batch (e ∷ es) s =
      let (ok, s') = publish e s in
      let (n, s'') = publish_batch es s' in ((if ok then 1 else 0) + n, s'')

  -- The results of a handler.
  unfoldable pub publish_results :
      ℕ → List (Channel × Published) → Processor r.Store → Processor r.Store
  unfolding publish_batch count_published
  publish_results now results p =
      let (n, s) = publish_batch results p.sink in
      record p {
        sink = s;
        messages_published = p.messages_published + n;
        offsets = count_published now n p.offsets;
      }

  unfoldable pub consume : ℕ → Topic → Body → Processor r.Store → Processor r.Store
  unfolding handle publish_results
  consume now gps_pings body p = record p { gps_handler = handle (ping_in body) p.gps_handler }
  consume now topic body p = publish_results now (pass_on topic body) p

  unfoldable pub unless_duplicate :
      ℕ → Message → Processor r.Store → Bool × Deduplicator r.Store → Processor r.Store
  unfolding consume
  unless_duplicate now m p (true, d) = record p { deduplicator = d }
  unless_duplicate now m p (false, d) =
      consume now m.topic m.body
        (record p { deduplicator = d; messages_consumed = p.messages_consumed + 1 })

  -- A message is marked as seen before it is handled.
  unfoldable pub process_message : ℕ → Message → Processor r.Store → Processor r.Store
  unfolding is_duplicate unless_duplicate
  process_message now m p =
      if enabled m.topic
      then unless_duplicate now m p (is_duplicate r now m.event_id p.deduplicator)
      else p

  -- Messages one after the other, each with its time.
  unfoldable pub process_all : List (ℕ × Message) → Processor r.Store → Processor r.Store
  unfolding process_message
  process_all [] p = p
  process_all ((now, m) ∷ ms) p = process_all ms (process_message now m p)

  -- `_maybe_flush_windows`: only the handler of the pings has a window.
  unfoldable pub maybe_flush_windows : ℕ → Processor r.Store → Processor r.Store
  unfolding flush publish_batch
  maybe_flush_windows now p =
      let (pings, h) = flush p.gps_handler in
      let (n, s) = publish_batch (map (λ x. (x.0, gps x.1)) pings) p.sink in
      if leb p.window_duration (now - p.last_window_flush)
      then (if enabled gps_pings
          then record p {
            gps_handler = h;
            sink = s;
            messages_published = p.messages_published + n;
            last_window_flush = now;
          }
          else record p { last_window_flush = now })
      else p

  unfoldable pub serve : ℕ → Processor r.Store → Processor r.Store
  unfolding maybe_flush_windows maybe_commit_offsets
  serve now p =
      let flushed = maybe_flush_windows now p in
      record flushed { offsets = maybe_commit_offsets now flushed.offsets }

  -- A turn of the loop of `start`: what was polled, if anything, then the window and the commits.
  unfoldable pub turn : ℕ → Option Message → Processor r.Store → Processor r.Store
  unfolding process_message serve
  turn now none p = serve now p
  turn now (some m) p = serve now (process_message now m p)

  unfoldable pub turns : List (ℕ × Option Message) → Processor r.Store → Processor r.Store
  unfolding turn
  turns [] p = p
  turns ((now, polled) ∷ ts) p = turns ts (turn now polled p)
