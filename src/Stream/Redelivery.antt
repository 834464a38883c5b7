-- ===== src/Stream/Redelivery.antt =====
-- `_process_message` of services/stream-processor/src/processor.py: a redelivered message, and how many
-- publications wait for a commit.
use rideshare_simulation_pla.Prelude.{
  ℕ, ◌+◌, ◌<◌, ◌≡◌, refl, Bool, true, false, some, List, [], ◌∷◌, arith, inl, inr, Bool-cases,
}
use rideshare_simulation_pla.Stream.{Redis, IsRedis, Deduplicator, is_duplicate}
use rideshare_simulation_pla.Stream.Once.{Lives, passes-Lives, keeps-Lives}
use rideshare_simulation_pla.Stream.Processor.{
  Topic, gps_pings, Body, Message, Processor, process_message, process_all, unless_duplicate,
  consume, publish_results,
}

-- What a message does beside the deduplicator.
pub record Untouched {S : Type 0} (p p' : Processor S) : Type 0 where
  pub gps_handler : p'.gps_handler ≡ p.gps_handler
  pub sink : p'.sink ≡ p.sink
  pub offsets : p'.offsets ≡ p.offsets
  pub consumed : p'.messages_consumed ≡ p.messages_consumed
  pub published : p'.messages_published ≡ p.messages_published

module _ (r : Redis) (law : IsRedis r) (delivers : ℕ → Bool) (enabled : Topic → Bool) where
  consume-deduplicator :
      (now : ℕ) (topic : Topic) (body : Body) (p : Processor r.Store)
      → (consume r delivers enabled now topic body p).deduplicator ≡ p.deduplicator
  unfolding consume publish_results
  consume-deduplicator now topic body p =
      elim topic as (λ x. (consume r delivers enabled now x body p).deduplicator ≡ p.deduplicator) [
        | gps_pings ↦ refl
        | _ ↦ refl
      ]

  unless-deduplicator :
      (now : ℕ) (m : Message) (p : Processor r.Store) (x : Bool × Deduplicator r.Store)
      → (unless_duplicate r delivers enabled now m p x).deduplicator ≡ x.1
  unfolding unless_duplicate
  unless-deduplicator now m p (true, d) = refl
  unless-deduplicator now m p (false, d) = consume-deduplicator now m.topic m.body _

  process-Lives :
      (now k until : ℕ) (m : Message) (p : Processor r.Store)
      → Lives r law k until p.deduplicator
      → Lives r law k until (process_message r delivers enabled now m p).deduplicator
  unfolding process_message
  process-Lives now k until m p h = elim (Bool-cases (enabled m.topic)) [
    | inl e ↦
        rw
          (
            e,
            process_message,
            unless-deduplicator now m p (is_duplicate r now m.event_id p.deduplicator),
          )
          (keeps-Lives r law now m.event_id k until p.deduplicator h)
    | inr e ↦ rw (e, process_message) h
  ]

  process_all-Lives :
      (k until : ℕ) (ms : List (ℕ × Message)) (p : Processor r.Store)
      → Lives r law k until p.deduplicator
      → Lives r law k until (process_all r delivers enabled ms p).deduplicator
  unfolding process_all
  process_all-Lives k until [] p h = h
  process_all-Lives k until ((now, m) ∷ ms) p h =
      process_all-Lives k until ms _ (process-Lives now k until m p h)

  unless-Untouched :
      (now : ℕ) (m : Message) (p : Processor r.Store) (x : Bool × Deduplicator r.Store)
      → x.0 ≡ true
      → Untouched p (unless_duplicate r delivers enabled now m p x)
  unfolding unless_duplicate
  unless-Untouched now m p (true, d) h = record {
    gps_handler = refl;
    sink = refl;
    offsets = refl;
    consumed = refl;
    published = refl;
  }
  unless-Untouched now m p (false, d) h = absurd (ground (arith, h))

  living :
      (now k : ℕ) (d : Deduplicator r.Store)
      → r.exists_at now k d.redis ≡ true
      → (is_duplicate r now (some k) d).0 ≡ true
  unfolding is_duplicate
  living now k d h = ground (arith, law.was_set now d.ttl_seconds k d.redis)

  duplicate-Untouched :
      (now k : ℕ) (m : Message) (p : Processor r.Store)
      → m.event_id ≡ some k
      → r.exists_at now k p.deduplicator.redis ≡ true
      → Untouched p (process_message r delivers enabled now m p)
  unfolding process_message
  duplicate-Untouched now k m p i h = elim (Bool-cases (enabled m.topic)) [
    | inl e ↦
        rw (e, process_message)
          (unless-Untouched now m p (is_duplicate r now m.event_id p.deduplicator)
            (rw i (living now k p.deduplicator h)))
    | inr e ↦
        rw (e, process_message)
          (record {
            gps_handler = refl;
            sink = refl;
            offsets = refl;
            consumed = refl;
            published = refl;
          })
  ]

  -- A message that passes for the first time is not handled again while its key lives: whatever other
  -- messages come in between, a redelivery before the time to live is over leaves the window of the
  -- pings, what is sent, and the offsets as they are. This holds also if the first publication failed.
  pub redelivery_lem :
      (k before after : ℕ) (m : Message) (ms : List (ℕ × Message)) (p : Processor r.Store)
      → m.event_id ≡ some k
      → enabled m.topic ≡ true
      → (is_duplicate r before (some k) p.deduplicator).0 ≡ false
      → after < before + p.deduplicator.ttl_seconds
      → Untouched
          (process_all r delivers enabled ms (process_message r delivers enabled before m p))
          (process_message r delivers enabled after m
            (process_all r delivers enabled ms (process_message r delivers enabled before m p)))
  unfolding process_message
  redelivery_lem k before after m ms p i e n l =
      let q = process_message r delivers enabled before m p in
      duplicate-Untouched after k m (process_all r delivers enabled ms q) i (
        process_all-Lives k (before + p.deduplicator.ttl_seconds) ms q
          (rw
            (
              e,
              process_message,
              unless-deduplicator before m p (is_duplicate r before m.event_id p.deduplicator),
              i,
            )
            (passes-Lives r law before k p.deduplicator n))
          after l)
