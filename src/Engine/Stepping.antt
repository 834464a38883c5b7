-- ===== src/Engine/Stepping.antt =====
-- `step` of services/simulation/src/engine/__init__.py and the clock of `TimeManager`. `run_until` is SimPy's
-- `env.run(until=...)`; the pauses that keep the speed are left out, since they change no state.
use rideshare_simulation_pla.Prelude.{
  ℕ, zero, suc, ◌+◌, ◌*◌, ◌/◌, ◌%◌, ◌≤◌, ◌<◌, ◌≡◌, refl, ap, ◌∙◌, ◌++◌, ltb→lt, List, [], ◌∷◌, inl,
  inr, false, min, ltb, ◌==◌, arith, if◌then◌else◌, Bool-cases,
}
use rideshare_simulation_pla.Server.{Server, QueuedTimeout}
use rideshare_simulation_pla.Server.Frame.{start_trip_execution_internal-Kept}
use rideshare_simulation_pla.Server.Responses.{
  start_pending_trip_executions, start_timeouts, start_executions, start_trip_execution_internal,
  schedule_pending_retries,
}
use rideshare_simulation_pla.Server.Timeouts.{start_offer_timeout}
use rideshare_simulation_pla.Engine.{Engine, start_pending_agents}

-- `TimeManager`, with the clock in whole seconds.
unfoldable pub current_day : ℕ → ℕ
current_day now = now / 86400

unfoldable pub time_of_day : ℕ → ℕ
time_of_day now = now % 86400

-- The hours, minutes and seconds of `format_duration`.
unfoldable pub format_duration : ℕ → ℕ × ℕ × ℕ
format_duration seconds = (seconds / 3600, seconds % 3600 / 60, seconds % 60)

module _ (run_until : ℕ → Server → Server) where
  -- The turbo loop: a chunk is run, then the queues are served.
  unfoldable pub run_chunks : ℕ → ℕ → ℕ → Server → Server
  unfolding start_pending_trip_executions
  run_chunks zero interval target w = w
  run_chunks (suc fuel) interval target w =
      let rest =
        run_chunks fuel interval target
          (start_pending_trip_executions (run_until (min (w.now + interval) target) w)) in
      if ltb w.now target then rest else w

  -- The paced loop: the queues are served, then one second is run.
  unfoldable pub run_seconds : ℕ → ℕ → Server → Server
  unfolding start_pending_trip_executions
  run_seconds zero target w = w
  run_seconds (suc fuel) target w =
      let rest =
        run_seconds fuel target
          (run_until (min (w.now + 1) target) (start_pending_trip_executions w)) in
      if ltb w.now target then rest else w

  -- Each round runs at least one second, if the retry interval is not 0.
  unfoldable pub step : ℕ → Engine → Engine
  unfolding start_pending_agents run_chunks run_seconds
  step seconds e =
      let started = start_pending_agents e in
      let served = start_pending_trip_executions started.server in
      let target = served.now + seconds in
      if (e.speed_multiplier.num == 100 * e.speed_multiplier.den)
      then record started {
        server = run_chunks seconds served.config.retry_interval_seconds target served;
      }
      else record started { server = run_seconds seconds target served }

-- The clock and the settings stay.
record Clocked (w w' : Server) : Type 0 where
  now : w'.now ≡ w.now
  config : w'.config ≡ w.config

Clocked-trans : {u v w : Server} → Clocked u v → Clocked v w → Clocked u w
Clocked-trans p q = record { now = q.now ∙ p.now; config = q.config ∙ p.config }

start_timeouts-Clocked : (qs : List QueuedTimeout) (w : Server) → Clocked w (start_timeouts qs w)
unfolding start_timeouts
start_timeouts-Clocked [] w = record { now = refl; config = refl }
start_timeouts-Clocked (q ∷ qs) w = Clocked-trans (one q w) (start_timeouts-Clocked qs _)
  where
    one :
        (q : QueuedTimeout) (w : Server)
        → Clocked w (
            if w.config.has_kafka
            then record w {
              timeouts =
                  start_offer_timeout w.now q.trip_id q.driver_id q.offer_sequence w.timeouts;
            }
            else w)
    one q w = ground arith

start_executions-Clocked : (qs : List (ℕ × ℕ)) (w : Server) → Clocked w (start_executions qs w)
unfolding start_executions
start_executions-Clocked [] w = record { now = refl; config = refl }
start_executions-Clocked ((d, t) ∷ qs) w =
    let k = start_trip_execution_internal-Kept d t w in
    Clocked-trans (record { now = k.now; config = k.config })
      (start_executions-Clocked qs (start_trip_execution_internal d t w))

schedule_pending_retries-Clocked : (w : Server) → Clocked w (schedule_pending_retries w)
unfolding schedule_pending_retries
schedule_pending_retries-Clocked w = ground arith

start_pending-Clocked : (w : Server) → Clocked w (start_pending_trip_executions w)
unfolding start_pending_trip_executions
start_pending-Clocked w =
    let queued = start_timeouts-Clocked w.offer_timeouts (record w {
      responses = w.responses ++ w.deferred_offers;
      deferred_offers = [];
      offer_timeouts = [];
      pending_trip_executions = [];
    }) in
    let started = start_executions-Clocked w.pending_trip_executions _ in
    Clocked-trans (Clocked-trans (record { now = queued.now; config = queued.config }) started)
      (schedule_pending_retries-Clocked _)

le_of_not_ltb : (a b : ℕ) → ltb a b ≡ false → b ≤ a
le_of_not_ltb a b h = ground arith

module _ (run_until : ℕ → Server → Server)
    (clock : (n : ℕ) (w : Server) → (run_until n w).now ≡ n) where
  run_seconds-now :
      (fuel target : ℕ) (w : Server)
      → w.now ≤ target
      → target ≤ w.now + fuel
      → (run_seconds run_until fuel target w).now ≡ target
  unfolding run_seconds
  run_seconds-now zero target w h k = omega arith
  run_seconds-now (suc fuel) target w h k =
      let served = start_pending_trip_executions w in
      let ran = run_until (min (w.now + 1) target) served in
      elim (Bool-cases (ltb w.now target)) [
        | inl l ↦
            rw (l, run_seconds)
              (run_seconds-now fuel target ran
                (omega (arith, clock (min (w.now + 1) target) served))
                (omega (arith, clock (min (w.now + 1) target) served)))
        | inr l ↦ rw (l, run_seconds) (omega (arith, le_of_not_ltb w.now target l))
      ]

  run_chunks-now :
      (fuel interval target : ℕ) (w : Server)
      → 0 < interval
      → w.now ≤ target
      → target ≤ w.now + fuel
      → (run_chunks run_until fuel interval target w).now ≡ target
  unfolding run_chunks
  run_chunks-now zero interval target w i h k = omega arith
  run_chunks-now (suc fuel) interval target w i h k =
      let ran = run_until (min (w.now + interval) target) w in
      let served = start_pending_trip_executions ran in
      let now = (start_pending-Clocked ran).now ∙ clock (min (w.now + interval) target) w in
      elim (Bool-cases (ltb w.now target)) [
        | inl l ↦
            rw (l, run_chunks)
              (run_chunks-now fuel interval target served i (omega (arith, now))
                (omega (arith, now, ltb→lt w.now target l)))
        | inr l ↦ rw (l, run_chunks) (omega (arith, le_of_not_ltb w.now target l))
      ]

  -- A step takes the seconds that it is asked for, in turbo mode and otherwise: where SimPy runs up to the
  -- time that it is given, and the interval of the retries is not 0, the rounds of the loops are enough
  -- to reach the target, and they end just there.
  pub step-now :
      (seconds : ℕ) (e : Engine)
      → 0 < e.server.config.retry_interval_seconds
      → (step run_until seconds e).server.now ≡ e.server.now + seconds
  unfolding step start_pending_agents
  step-now seconds e i =
      let served = start_pending_trip_executions e.server in
      let c = start_pending-Clocked e.server in
      elim (Bool-cases (e.speed_multiplier.num == 100 * e.speed_multiplier.den)) [
        | inl turbo ↦
            rw (turbo, step)
              (run_chunks-now seconds served.config.retry_interval_seconds (served.now + seconds)
                  served (rw c.config i) (omega arith) (omega arith)
                ∙ ap (λ n. n + seconds) c.now)
        | inr paced ↦
            rw (paced, step)
              (run_seconds-now seconds (served.now + seconds) served (omega arith) (omega arith)
                ∙ ap (λ n. n + seconds) c.now)
      ]
