-- ===== src/Engine/Starting.antt =====
-- How many processes every agent of services/simulation/src/engine/__init__.py has.
use rideshare_simulation_pla.Prelude.{ℕ, ◌+◌, ◌≡◌, ◌∙◌, false, [], ◌∷◌, ok, arith, if◌then◌else◌}
use rideshare_simulation_pla.Prelude.IdSet.{member, member-add}
use rideshare_simulation_pla.Engine.{
  Engine, driver_agent, rider_agent, running, register_driver, register_rider,
  start_agent_processes, start_pending_agents, start_periodic_processes, start, stop, pause, resume,
  emit_control_event, ControlType, SimulationState, Trigger, transition_state, started,
  user_request,
}
use rideshare_simulation_pla.Engine.Counting.{
  times, times-append, IsDistinct, add-IsDistinct, occurrences, driver_processes, rider_processes,
}
use rideshare_simulation_pla.Engine.Draining.{transition_to_paused}
use rideshare_simulation_pla.Server.{Server}

-- The registries hold nobody twice, and every registered agent has been started or is pending, once.
pub record IsStartedOnce (e : Engine) : Type 0 where
  pub drivers : IsDistinct e.active_drivers
  pub riders : IsDistinct e.active_riders
  pub driver_once :
      (d : ℕ)
      → times (driver_agent d) e.pending_agents + times (driver_agent d) e.agent_processes
        ≡ (if member d e.active_drivers then 1 else 0)
  pub rider_once :
      (r : ℕ)
      → times (rider_agent r) e.pending_agents + times (rider_agent r) e.agent_processes
        ≡ (if member r e.active_riders then 1 else 0)

-- The agents of an engine, which the events and the states leave as they are.
record Same (e e' : Engine) : Type 0 where
  drivers : e'.active_drivers ≡ e.active_drivers
  riders : e'.active_riders ≡ e.active_riders
  pending : e'.pending_agents ≡ e.pending_agents
  processes : e'.agent_processes ≡ e.agent_processes

emit_control_event-Same :
    (c : ControlType) (s : SimulationState) (t : Trigger) (e : Engine)
    → Same e (emit_control_event c s t e)
unfolding emit_control_event
emit_control_event-Same c s t e = ground arith

IsStartedOnce-Same : {e e' : Engine} → Same e e' → IsStartedOnce e → IsStartedOnce e'
IsStartedOnce-Same s h = record {
  drivers = rw s.drivers h.drivers;
  riders = rw s.riders h.riders;
  driver_once = λ d. rw (s.pending, s.processes, s.drivers) (h.driver_once d);
  rider_once = λ r. rw (s.pending, s.processes, s.riders) (h.rider_once r);
}

-- A life of the engine, in which nobody is registered twice, the processes are launched once, the simulation
-- is stopped, drained and paused, and the other processes change the matching server.
pub data Lived : Engine → Type 0 where
  fresh :
      {e : Engine}
      → e.active_drivers ≡ []
      → e.active_riders ≡ []
      → e.pending_agents ≡ []
      → e.agent_processes ≡ []
      → Lived e
  registers_driver :
      (d : ℕ) {e : Engine}
      → member d e.active_drivers ≡ false
      → Lived e
      → Lived (register_driver d e)
  registers_rider :
      (r : ℕ) {e : Engine} → member r e.active_riders ≡ false → Lived e → Lived (register_rider r e)
  starts_pending : {e : Engine} → Lived e → Lived (start_pending_agents e)
  launches : {e : Engine} → e.agent_processes ≡ [] → Lived e → Lived (start e)
  stops : {e e' : Engine} → stop e ≡ ok e' → Lived e → Lived e'
  pauses : {e e' : Engine} → pause e ≡ ok e' → Lived e → Lived e'
  settles : (trigger : Trigger) {e : Engine} → Lived e → Lived (transition_to_paused trigger e)
  goes_on : (w : Server) {e : Engine} → Lived e → Lived (record e { server = w })

register_driver-IsStartedOnce :
    (d : ℕ) (e : Engine)
    → member d e.active_drivers ≡ false
    → IsStartedOnce e
    → IsStartedOnce (register_driver d e)
unfolding register_driver times
register_driver-IsStartedOnce d e new h = record {
  drivers = add-IsDistinct d e.active_drivers h.drivers;
  riders = h.riders;
  driver_once = λ k. ground (
    arith,
    times-append (driver_agent k) e.pending_agents (driver_agent d ∷ []),
    h.driver_once k,
    member-add k d e.active_drivers,
    new,
  );
  rider_once = λ k.
      ground (
        arith,
        times-append (rider_agent k) e.pending_agents (driver_agent d ∷ []),
        h.rider_once k,
      );
}

register_rider-IsStartedOnce :
    (r : ℕ) (e : Engine)
    → member r e.active_riders ≡ false
    → IsStartedOnce e
    → IsStartedOnce (register_rider r e)
unfolding register_rider times
register_rider-IsStartedOnce r e new h = record {
  drivers = h.drivers;
  riders = add-IsDistinct r e.active_riders h.riders;
  driver_once = λ k.
      ground (
        arith,
        times-append (driver_agent k) e.pending_agents (rider_agent r ∷ []),
        h.driver_once k,
      );
  rider_once = λ k. ground (
    arith,
    times-append (rider_agent k) e.pending_agents (rider_agent r ∷ []),
    h.rider_once k,
    member-add k r e.active_riders,
    new,
  );
}

start_pending_agents-IsStartedOnce :
    (e : Engine) → IsStartedOnce e → IsStartedOnce (start_pending_agents e)
unfolding start_pending_agents times
start_pending_agents-IsStartedOnce e h = record {
  drivers = h.drivers;
  riders = h.riders;
  driver_once = λ k.
      omega
        (arith, times-append (driver_agent k) e.agent_processes e.pending_agents, h.driver_once k);
  rider_once = λ k.
      omega
        (arith, times-append (rider_agent k) e.agent_processes e.pending_agents, h.rider_once k);
}

launched :
    (e : Engine)
    → e.agent_processes ≡ []
    → IsStartedOnce e
    → IsStartedOnce (start_agent_processes e)
unfolding start_agent_processes times
launched e none_yet h = record {
  drivers = h.drivers;
  riders = h.riders;
  driver_once = λ k. ground (arith, none_yet, driver_processes e k h.drivers);
  rider_once = λ k. ground (arith, none_yet, rider_processes e k h.riders);
}

start-IsStartedOnce :
    (e : Engine) → e.agent_processes ≡ [] → IsStartedOnce e → IsStartedOnce (start e)
unfolding start start_periodic_processes
start-IsStartedOnce e none_yet h =
    let moved = record e { state = running } in
    let s = emit_control_event-Same started e.state user_request moved in
    IsStartedOnce-Same refl_same (
      launched (emit_control_event started e.state user_request moved) (s.processes ∙ none_yet)
        (IsStartedOnce-Same s (IsStartedOnce-Same {e = e} {e' = moved} (ground arith) h)))
  where
    refl_same :
        Same
          (start_agent_processes
            (emit_control_event started e.state user_request (record e { state = running })))
          (start e)
    refl_same = ground arith

transition_to_paused-Same :
    (trigger : Trigger) (e : Engine) → Same e (transition_to_paused trigger e)
unfolding transition_to_paused emit_control_event
transition_to_paused-Same trigger e = ground arith

stop-Same : (e e' : Engine) → stop e ≡ ok e' → Same e e'
unfolding stop transition_state emit_control_event
stop-Same e e' h = ground arith

pause-Same : (e e' : Engine) → pause e ≡ ok e' → Same e e'
unfolding pause emit_control_event
pause-Same e e' h = ground arith

resume-Same : (e e' : Engine) → resume e ≡ ok e' → Same (start_agent_processes e) e'
unfolding resume emit_control_event start_agent_processes start_periodic_processes
resume-Same e e' h = ground arith

-- After any life of the engine in which nobody is registered twice and the processes are launched once,
-- every registered agent has one process or is pending, never both, and nobody else has either.
pub Lived-IsStartedOnce : {e : Engine} → Lived e → IsStartedOnce e
unfolding occurrences times member
Lived-IsStartedOnce (fresh {e} ds rs ps qs) = record {
  drivers = λ k. ground (arith, ds);
  riders = λ k. ground (arith, rs);
  driver_once = λ k. ground (arith, ds, ps, qs);
  rider_once = λ k. ground (arith, rs, ps, qs);
}
Lived-IsStartedOnce (registers_driver d {e} new l) =
    register_driver-IsStartedOnce d e new (Lived-IsStartedOnce l)
Lived-IsStartedOnce (registers_rider r {e} new l) =
    register_rider-IsStartedOnce r e new (Lived-IsStartedOnce l)
Lived-IsStartedOnce (starts_pending {e} l) =
    start_pending_agents-IsStartedOnce e (Lived-IsStartedOnce l)
Lived-IsStartedOnce (launches {e} h l) = start-IsStartedOnce e h (Lived-IsStartedOnce l)
Lived-IsStartedOnce (stops {e} {e'} h l) =
    IsStartedOnce-Same (stop-Same e e' h) (Lived-IsStartedOnce l)
Lived-IsStartedOnce (pauses {e} {e'} h l) =
    IsStartedOnce-Same (pause-Same e e' h) (Lived-IsStartedOnce l)
Lived-IsStartedOnce (settles trigger {e} l) =
    IsStartedOnce-Same (transition_to_paused-Same trigger e) (Lived-IsStartedOnce l)
Lived-IsStartedOnce (goes_on w {e} l) =
    IsStartedOnce-Same {e = e} {e' = record e { server = w }} (ground arith) (Lived-IsStartedOnce l)

-- `resume` starts a process for every registered agent, whether it has one or not: after such a life,
-- with nobody pending, every registered agent has two processes once the simulation is resumed.
pub resume-times :
    (e e' : Engine) (d r : ℕ)
    → Lived e
    → e.pending_agents ≡ []
    → resume e ≡ ok e'
    → (times (driver_agent d) e'.agent_processes ≡ (if member d e.active_drivers then 2 else 0))
      × (times (rider_agent r) e'.agent_processes ≡ (if member r e.active_riders then 2 else 0))
unfolding times
resume-times e e' d r l p h =
    let once = Lived-IsStartedOnce l in
    let same = resume-Same e e' h in
    (
      ground (arith, p, same.processes, driver_processes e d once.drivers, once.driver_once d),
      ground (arith, p, same.processes, rider_processes e r once.riders, once.rider_once r),
    )
