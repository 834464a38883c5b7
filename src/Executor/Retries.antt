-- ===== src/Executor/Retries.antt =====
-- `_get_route_with_retry` of services/simulation/src/trips/trip_executor.py against a description of its
-- attempts: which answer counts, and after how many pauses.
use rideshare_simulation_pla.Prelude.{
  ℕ, zero, suc, ◌+◌, ◌≤◌, ◌≡◌, refl, Bool, true, false, ◌||◌, arith, ◌==◌,
}
use rideshare_simulation_pla.Trip.{Location}
use rideshare_simulation_pla.Server.{Server, Outcome, done, raised, no_route, route_unavailable}
use rideshare_simulation_pla.Server.Search.{Route}
use rideshare_simulation_pla.Executor.{
  Surroundings, Reply, routed, permanent, transient, request_route, get_route_with_retry, delay_of,
}

-- What an answer means, if no attempt follows.
abbrev pub verdict : Reply → Server → Outcome Route
verdict (routed r) w = done r w
verdict permanent w = raised no_route w
verdict transient w = raised route_unavailable w

-- An answer after which nothing is asked again.
abbrev pub is_settled : Reply → Bool
is_settled transient = false
is_settled _ = true

module _ (s : Surroundings) (from to : Location) where
  open s use {get_route_sync, timeout}

  -- The state after `k` pauses, the first of which follows the given attempt.
  unfoldable pub paused : ℕ → ℕ → Server → Server
  paused attempt zero w = w
  paused attempt (suc k) w = paused (attempt + 1) k (timeout (delay_of s attempt) w)

  -- The answer after `k` pauses.
  unfoldable pub answer : ℕ → ℕ → Server → Reply
  answer attempt zero w = get_route_sync attempt w from to
  answer attempt (suc k) w = answer (attempt + 1) k (timeout (delay_of s attempt) w)

  -- The first `k` answers are transient failures.
  abbrev pub Fails : ℕ → ℕ → Server → Type 0
  Fails attempt zero w = Unit
  Fails attempt (suc k) w =
      (get_route_sync attempt w from to ≡ transient)
      × Fails (attempt + 1) k (timeout (delay_of s attempt) w)

  now :
      (left attempt : ℕ) (w : Server)
      → (is_settled (get_route_sync attempt w from to) || (0 == left)) ≡ true
      → request_route s (suc left) attempt from to w ≡ verdict (get_route_sync attempt w from to) w
  unfolding request_route
  now left attempt w h = go (get_route_sync attempt w from to) refl left h
    where
      go :
          (reply : Reply)
          → get_route_sync attempt w from to ≡ reply
          → (m : ℕ) → (is_settled reply || (0 == m)) ≡ true
          → request_route s (suc m) attempt from to w ≡ verdict (get_route_sync attempt w from to) w
      go (routed r) e m h = rw (e, request_route) refl
      go permanent e m h = rw (e, request_route) refl
      go transient e zero h = rw (e, request_route) refl
      go transient e (suc m) h = absurd (ground arith)

  request_route_lem :
      (k left attempt : ℕ) (w : Server)
      → k ≤ left
      → Fails attempt k w
      → (is_settled (answer attempt k w) || (k == left)) ≡ true
      → request_route s (suc left) attempt from to w
        ≡ verdict (answer attempt k w) (paused attempt k w)
  unfolding request_route answer paused
  request_route_lem zero left attempt w h f e = now left attempt w e
  request_route_lem (suc k) zero attempt w h f e = absurd (omega arith)
  request_route_lem (suc k) (suc left) attempt w h (f, fs) e =
      rw (f, request_route)
        (request_route_lem k left (attempt + 1) (timeout (delay_of s attempt) w) (omega arith) fs
          (ground arith))

  -- The attempts at a route: if the first `k` answers are transient failures, `k` at most the number of
  -- retries, and the next answer is a route or a permanent failure, or is the last that the retries
  -- allow, then the call ends with what this answer means, after exactly `k` pauses.
  pub get_route_with_retry_lem :
      (k : ℕ) (w : Server)
      → k ≤ s.settings.osrm_max_retries
      → Fails 0 k w
      → (is_settled (answer 0 k w) || (k == s.settings.osrm_max_retries)) ≡ true
      → get_route_with_retry s from to w ≡ verdict (answer 0 k w) (paused 0 k w)
  unfolding get_route_with_retry
  get_route_with_retry_lem k w h f e = request_route_lem k s.settings.osrm_max_retries 0 w h f e
