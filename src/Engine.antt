-- ===== src/Engine.antt =====
-- services/simulation/src/engine/__init__.py: the lifecycle of the simulation and the registration of agents.
-- The processes of the SimPy environment are lists and counts of what was started. Checkpoints, the
-- database, the session's identifier, and the counts that a control event carries are left out.
pub mod Lifecycle
pub mod Counting
pub mod Starting
pub mod Draining
pub mod Drained
pub mod Stepping
pub mod Spawning
pub mod Coordinator
use Prim.Native.String.{String}
use rideshare_simulation_pla.Prelude.{
  ℕ, ◌+◌, Bool, true, false, ◌||◌, List, [], ◌∷◌, ◌++◌, map, Result, ok, err, ◌==◌, if◌then◌else◌,
}
use rideshare_simulation_pla.Prelude.IdSet.{IdSet, add}
use rideshare_simulation_pla.Prelude.Ratio.{Ratio, ltb_ratio, whole}
use rideshare_simulation_pla.Server.{Server}
use rideshare_simulation_pla.Server.Endings

pub data SimulationState : Type 0 where
  stopped running draining paused : SimulationState

-- `VALID_STATE_TRANSITIONS`.
unfoldable pub valid_state_transitions : SimulationState → List SimulationState
valid_state_transitions stopped = running ∷ []
valid_state_transitions running = draining ∷ stopped ∷ []
valid_state_transitions draining = paused ∷ []
valid_state_transitions paused = running ∷ []

abbrev pub position : SimulationState → ℕ
position stopped = 0
position running = 1
position draining = 2
position paused = 3

abbrev pub is_listed : SimulationState → List SimulationState → Bool
is_listed s [] = false
is_listed s (u ∷ us) = (position u == position s) || is_listed s us

pub data Trigger : Type 0 where
  user_request quiescence_achieved drain_timeout : Trigger

-- `"simulation." + state`, and the four events that are named otherwise.
pub data ControlType : Type 0 where
  entered : SimulationState → ControlType
  started resumed was_reset speed_changed : ControlType

pub record ControlEvent : Type 0 where
  pub event_type : ControlType
  pub previous_state : SimulationState
  pub new_state : SimulationState
  pub trigger : Trigger

pub data Agent : Type 0 where
  driver_agent rider_agent : ℕ → Agent

-- The four queues of `AgentFactory`.
pub record SpawnQueues : Type 0 where
  pub driver_immediate_requests : List ℕ
  pub driver_scheduled_requests : List ℕ
  pub rider_immediate_requests : List ℕ
  pub rider_scheduled_requests : List ℕ

-- What a forced cancellation reports of a trip, to the database and to the topic `trips`.
pub record CancelReport : Type 0 where
  pub trip_id : ℕ
  pub cancellation_stage : String

pub record Engine : Type 0 where
  pub state : SimulationState
  pub server : Server
  pub active_drivers : IdSet
  pub active_riders : IdSet
  pub pending_agents : List Agent
  pub agent_processes : List Agent
  pub periodic_processes : ℕ
  pub drain_processes : ℕ
  pub active_driver_counter : ℕ
  pub active_rider_counter : ℕ
  pub speed_multiplier : Ratio
  pub checkpoint_enabled : Bool
  pub spawn_queues : SpawnQueues
  pub control_events : List ControlEvent
  pub cancel_reports : List CancelReport

-- The `ValueError`s: of a transition, and of a speed.
pub data EngineError : Type 0 where
  invalid_transition : SimulationState → SimulationState → EngineError
  too_slow too_fast : EngineError

-- `_emit_control_event`: nothing without a producer.
unfoldable pub emit_control_event : ControlType → SimulationState → Trigger → Engine → Engine
emit_control_event event old trigger e =
    if e.server.config.has_kafka
    then record e {
      control_events =
          e.control_events
          ++ record {
            event_type = event;
            previous_state = old;
            new_state = e.state;
            trigger = trigger;
          }
            ∷ [];
    }
    else e

unfoldable pub transition_state : SimulationState → Trigger → Engine → Result EngineError Engine
unfolding valid_state_transitions emit_control_event
transition_state new trigger e =
    if is_listed new (valid_state_transitions e.state)
    then ok (emit_control_event (entered new) e.state trigger (record e { state = new }))
    else err (invalid_transition e.state new)

unfoldable pub register_driver : ℕ → Engine → Engine
register_driver d e = record e {
  active_drivers = add d e.active_drivers;
  active_driver_counter = e.active_driver_counter + 1;
  pending_agents = e.pending_agents ++ driver_agent d ∷ [];
}

unfoldable pub register_rider : ℕ → Engine → Engine
register_rider r e = record e {
  active_riders = add r e.active_riders;
  active_rider_counter = e.active_rider_counter + 1;
  pending_agents = e.pending_agents ++ rider_agent r ∷ [];
}

-- Every registered agent gets a process, and none is pending any more.
unfoldable pub start_agent_processes : Engine → Engine
start_agent_processes e = record e {
  agent_processes =
      e.agent_processes ++ (map driver_agent e.active_drivers ++ map rider_agent e.active_riders);
  pending_agents = [];
}

-- Every pending agent gets a process.
unfoldable pub start_pending_agents : Engine → Engine
start_pending_agents e = record e {
  agent_processes = e.agent_processes ++ e.pending_agents;
  pending_agents = [];
}

-- The surge updates, the four spawners, and the checkpoints if they are enabled.
unfoldable pub start_periodic_processes : Engine → Engine
start_periodic_processes e = record e {
  periodic_processes = e.periodic_processes + (if e.checkpoint_enabled then 6 else 5);
}

unfoldable pub start : Engine → Engine
unfolding emit_control_event start_agent_processes start_periodic_processes
start e = start_periodic_processes (
    start_agent_processes
      (emit_control_event started e.state user_request (record e { state = running })))

unfoldable pub stop : Engine → Result EngineError Engine
unfolding transition_state
stop = transition_state stopped user_request

unfoldable pub pause : Engine → Result EngineError Engine
unfolding valid_state_transitions emit_control_event
pause e =
    if is_listed draining (valid_state_transitions e.state)
    then (let told =
          emit_control_event (entered draining) e.state user_request
            (record e { state = draining }) in
        ok (record told { drain_processes = e.drain_processes + 1 }))
    else err (invalid_transition e.state draining)

unfoldable pub resume : Engine → Result EngineError Engine
unfolding valid_state_transitions emit_control_event start_agent_processes start_periodic_processes
resume e =
    if is_listed running (valid_state_transitions e.state)
    then ok (
        start_periodic_processes (
          start_agent_processes
            (emit_control_event resumed e.state user_request (record e { state = running }))))
    else err (invalid_transition e.state running)

unfoldable pub set_speed : Ratio → Engine → Result EngineError Engine
unfolding emit_control_event
set_speed multiplier e =
    if ltb_ratio multiplier (record { num = 1; den = 2 })
    then err too_slow
    else if ltb_ratio (whole 128) multiplier
    then err too_fast
    else ok (
        emit_control_event speed_changed e.state user_request
          (record e { speed_multiplier = multiplier }))

abbrev pub no_queues : SpawnQueues
no_queues = record {
  driver_immediate_requests = [];
  driver_scheduled_requests = [];
  rider_immediate_requests = [];
  rider_scheduled_requests = [];
}

-- A new environment: its clock is at 0, and no process of the old one runs on. The source's manager
-- of offer timeouts keeps the old environment, which is left out.
abbrev new_environment : Server → Server
new_environment w = record w {
  now = 0;
  responses = [];
  executions = [];
  timeouts = record (w.timeouts) { running = [] };
}

unfoldable pub reset : Engine → Engine
unfolding emit_control_event Endings.clear
reset e = emit_control_event was_reset e.state user_request (record e {
  state = stopped;
  server = new_environment (Endings.clear e.server);
  active_drivers = [];
  active_riders = [];
  pending_agents = [];
  agent_processes = [];
  periodic_processes = 0;
  drain_processes = 0;
  active_driver_counter = 0;
  active_rider_counter = 0;
  spawn_queues = no_queues;
})
