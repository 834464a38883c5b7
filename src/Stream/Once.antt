-- ===== src/Stream/Once.antt =====
-- services/stream-processor/src/deduplication.py: an event passes once while its key lives.
use rideshare_simulation_pla.Prelude.{ℕ, ◌+◌, ◌<◌, ◌≡◌, true, false, Option, none, some, arith}
use rideshare_simulation_pla.Stream.{Redis, IsRedis, Deduplicator, is_duplicate}

module _ (r : Redis) (law : IsRedis r) where
  -- The key is there up to a time.
  abbrev pub Lives : ℕ → ℕ → Deduplicator r.Store → Type 0
  Lives k until d = (t : ℕ) → t < until → r.exists_at t k d.redis ≡ true

  pub passes-Lives :
      (now k : ℕ) (d : Deduplicator r.Store)
      → (is_duplicate r now (some k) d).0 ≡ false
      → Lives k (now + d.ttl_seconds) (is_duplicate r now (some k) d).1
  unfolding is_duplicate
  passes-Lives now k d h t l =
      ground (
        arith,
        law.was_set now d.ttl_seconds k d.redis,
        law.expires now d.ttl_seconds k t k d.redis,
      )

  pub keeps-Lives :
      (now : ℕ) (id : Option ℕ) (k until : ℕ) (d : Deduplicator r.Store)
      → Lives k until d
      → Lives k until (is_duplicate r now id d).1
  unfolding is_duplicate
  keeps-Lives now none k until d h = h
  keeps-Lives now (some j) k until d h = λ t l. ground (
    arith,
    law.was_set now d.ttl_seconds j d.redis,
    law.expires now d.ttl_seconds j t k d.redis,
    h t l,
    h now,
  )
