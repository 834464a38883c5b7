-- ===== src/Scenarios/Engines.antt =====
-- The theorems on the engine and its coordinator at concrete states.
use rideshare_simulation_pla.Prelude.{
  ℕ, ◌+◌, ◌≡◌, refl, arith, true, false, none, some, [], ◌∷◌, ok, if◌then◌else◌, Option, Result,
}
use rideshare_simulation_pla.Prelude.IdSet.{member, add}
use rideshare_simulation_pla.Prelude.Ratio.{whole}
use rideshare_simulation_pla.Trip.{requested, cancelled}
use rideshare_simulation_pla.Server.{Server}
use rideshare_simulation_pla.Engine.{
  Engine, SimulationState, running, paused, draining, stopped, user_request, no_queues, SpawnQueues,
  driver_agent, rider_agent, register_driver, register_rider, start, pause, resume, reset,
  transition_state, stop, resumed, quiescence_achieved, start_agent_processes,
  start_periodic_processes, emit_control_event, valid_state_transitions,
}
use rideshare_simulation_pla.Engine.Lifecycle.{Moves, calls_lem}
use rideshare_simulation_pla.Engine.Counting.{times}
use rideshare_simulation_pla.Engine.Starting.{
  IsStartedOnce, Lived, fresh, registers_driver, registers_rider, launches, settles,
  Lived-IsStartedOnce, resume-times,
}
use rideshare_simulation_pla.Engine.Draining.{
  force_cancel_trips, run_drain_process, transition_to_paused, drained,
}
use rideshare_simulation_pla.Engine.Drained.{
  PausedBy, force_cancel_trips_lem, run_drain_process-PausedBy,
}
use rideshare_simulation_pla.Engine.Stepping.{step, step-now}
use rideshare_simulation_pla.Engine.Coordinator
use rideshare_simulation_pla.Engine.Coordinator.{
  Coordinator, CommandType, set_speed, submit, process_pending_commands, fresh as command, respond,
  collect, direct, process_pending_commands_lem,
}
use rideshare_simulation_pla.Scenarios.Data.{a_server, two_drivers-IsAccurate}

abbrev queued_three : SpawnQueues
queued_three = record (no_queues) { driver_immediate_requests = 3 ∷ [] }

-- Nobody is registered, and trip 2 is active.
abbrev an_engine : SimulationState → Engine
an_engine s = record {
  state = s;
  server = a_server requested (2 ∷ []) [];
  active_drivers = [];
  active_riders = [];
  pending_agents = [];
  agent_processes = [];
  periodic_processes = 0;
  drain_processes = 0;
  active_driver_counter = 0;
  active_rider_counter = 0;
  speed_multiplier = whole 1;
  checkpoint_enabled = true;
  spawn_queues = queued_three;
  control_events = [];
  cancel_reports = [];
}

calls_lem_example :
    Moves draining paused (transition_state paused user_request (an_engine draining))
    × Moves draining stopped (stop (an_engine draining))
    × Moves draining draining (pause (an_engine draining))
    × Moves draining running (resume (an_engine draining))
    × ((start (an_engine draining)).state ≡ running)
    × ((reset (an_engine draining)).state ≡ stopped)
    × ((transition_to_paused user_request (an_engine draining)).state ≡ paused)
calls_lem_example = calls_lem paused user_request (an_engine draining)

force_cancel_trips_lem_example :
    ((t : ℕ)
      → ((force_cancel_trips (2 ∷ []) (an_engine draining)).server.trip t).state
        ≡ (if member t (2 ∷ []) then cancelled else ((an_engine draining).server.trip t).state))
    × ((force_cancel_trips (2 ∷ []) (an_engine draining)).server.driver
        ≡ (an_engine draining).server.driver)
    × ((force_cancel_trips (2 ∷ []) (an_engine draining)).server.active_trips ≡ 2 ∷ [])
    × ((force_cancel_trips (2 ∷ []) (an_engine draining)).cancel_reports
        ≡ record { trip_id = 2; cancellation_stage = "cancelled" } ∷ [])
force_cancel_trips_lem_example = force_cancel_trips_lem (2 ∷ []) (an_engine draining)

-- The other processes only let the time pass.
abbrev waits : Engine → Engine
waits e = record e { server = record (e.server) { now = e.server.now + 5 } }

run_drain_process-PausedBy_example :
    (e' : Engine) × (run_drain_process waits (an_engine draining) ≡ drained e') × PausedBy 7300 e'
run_drain_process-PausedBy_example =
    run_drain_process-PausedBy waits (an_engine draining) (λ x. refl) (λ x h. h)
      two_drivers-IsAccurate

abbrev runs : ℕ → Server → Server
runs until w = record w { now = until }

step-now_example : (step runs 7 (an_engine running)).server.now ≡ 107
step-now_example = step-now runs (λ n w. refl) 7 (an_engine running) (omega arith)

-- Driver 5 and rider 50 are registered, and the simulation is started.
abbrev launched : Engine
launched = start (register_rider 50 (register_driver 5 (an_engine stopped)))

launched-Lived : Lived launched
unfolding register_driver register_rider member
launched-Lived = launches {e = register_rider 50 (register_driver 5 (an_engine stopped))} refl (
    registers_rider 50 {e = register_driver 5 (an_engine stopped)} refl
      (registers_driver 5 {e = an_engine stopped} refl (fresh refl refl refl refl)))

Lived-IsStartedOnce_example : IsStartedOnce launched
Lived-IsStartedOnce_example = Lived-IsStartedOnce launched-Lived

-- Both have their process; the simulation is paused then, and resumed.
abbrev paused_engine : Engine
paused_engine = transition_to_paused quiescence_achieved launched

paused_engine-Lived : Lived paused_engine
paused_engine-Lived = settles quiescence_achieved {e = launched} launched-Lived

abbrev resumed_engine : Engine
resumed_engine = start_periodic_processes (
    start_agent_processes
      (emit_control_event resumed paused user_request (record paused_engine { state = running })))

resume-times_example :
    (times (driver_agent 5) resumed_engine.agent_processes ≡ 2)
    × (times (rider_agent 50) resumed_engine.agent_processes ≡ 2)
unfolding resume transition_to_paused emit_control_event register_driver register_rider start
    start_agent_processes start_periodic_processes valid_state_transitions times member add
resume-times_example = resume-times paused_engine resumed_engine 5 50 paused_engine-Lived refl refl

-- The state is the speed: `set_speed` gives the speed that was set before.
abbrev handlers : CommandType → Option (ℕ → ℕ → Result ℕ ℕ × ℕ)
handlers set_speed = some (λ payload speed. (ok speed, payload))
handlers _ = none

abbrev coordinator : Coordinator
coordinator = record {
  queue = command Coordinator.pause 0 ∷ [];
  answered = [];
  is_shutdown = false;
}

process_pending_commands_lem_example :
    (c' : Coordinator) × (submit set_speed 8 coordinator ≡ ok c')
    × (let answer = respond handlers (command set_speed 8) 1 in
        (process_pending_commands handlers c' 1 ≡ (
          2,
          record coordinator {
            queue = [];
            answered = (respond handlers (command Coordinator.pause 0) 1).0 ∷ answer.0 ∷ [];
          },
          answer.1,
        ))
        × ((collect answer.0, answer.1) ≡ direct handlers set_speed 8 1))
unfolding respond
process_pending_commands_lem_example =
    process_pending_commands_lem handlers set_speed 8 coordinator 1 refl
