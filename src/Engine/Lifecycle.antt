-- ===== src/Engine/Lifecycle.antt =====
-- The lifecycle of services/simulation/src/engine/__init__.py against the diagram of its phases.
use rideshare_simulation_pla.Prelude.{
  ◌≡◌, refl, inl, inr, true, Result, ok, err, arith, Bool-cases, if◌then◌else◌,
}
use rideshare_simulation_pla.Engine.{
  SimulationState, stopped, running, draining, paused, valid_state_transitions, is_listed, Trigger,
  Engine, EngineError, invalid_transition, emit_control_event, transition_state, stop, pause,
  resume, start, reset, ControlType, start_agent_processes, start_periodic_processes,
}
use rideshare_simulation_pla.Engine.Draining.{transition_to_paused}

-- `STOPPED → RUNNING → DRAINING → PAUSED → RUNNING`, and a running simulation can be stopped.
infix 40 ◌⇒◌
pub data ◌⇒◌ : SimulationState → SimulationState → Type 0 where
  launch : stopped ⇒ running
  halt : running ⇒ stopped
  drain : running ⇒ draining
  settle : draining ⇒ paused
  go_on : paused ⇒ running

ruleset phases = (launch, halt, drain, settle, go_on)

listed→phase : (s u : SimulationState) → is_listed u (valid_state_transitions s) ≡ true → s ⇒ u
unfolding valid_state_transitions
listed→phase s u h = grind (arith, phases)

phase→listed : {s u : SimulationState} → s ⇒ u → is_listed u (valid_state_transitions s) ≡ true
unfolding valid_state_transitions
phase→listed launch = refl
phase→listed halt = refl
phase→listed drain = refl
phase→listed settle = refl
phase→listed go_on = refl

-- A change of state goes along an edge and leaves the new state, or there is no edge and the exception names
-- the two states.
abbrev pub Moves : SimulationState → SimulationState → Result EngineError Engine → Type 0
Moves old new (ok e) = (old ⇒ new) × (e.state ≡ new)
Moves old new (err x) = (old ⇒ new → ⊥) × (x ≡ invalid_transition old new)

emit_control_event-state :
    (c : ControlType) (s : SimulationState) (t : Trigger) (e : Engine)
    → (emit_control_event c s t e).state ≡ e.state
unfolding emit_control_event
emit_control_event-state c s t e = ground arith

guarded :
    (old new : SimulationState) (e : Engine)
    → e.state ≡ new
    → Moves old new (
        if is_listed new (valid_state_transitions old)
        then ok e
        else err (invalid_transition old new))
guarded old new e h = elim (Bool-cases (is_listed new (valid_state_transitions old))) [
  | inl l ↦ rw l (listed→phase old new l, h)
  | inr l ↦ rw l (λ p. ground (arith, phase→listed p), refl)
]

-- `transition_state` to any state, `stop`, `pause` and `resume` succeed exactly along the edges of the
-- diagram of the phases, and leave the simulation in the new state, stopped, draining and running; where
-- there is no edge they raise an exception that names the two states. `start`, `reset` and the end of a
-- drain do not ask for an edge: from any state they leave the simulation running, stopped and paused.
pub calls_lem :
    (new : SimulationState) (trigger : Trigger) (e : Engine)
    → Moves e.state new (transition_state new trigger e)
      × Moves e.state stopped (stop e)
      × Moves e.state draining (pause e)
      × Moves e.state running (resume e)
      × ((start e).state ≡ running)
      × ((reset e).state ≡ stopped)
      × ((transition_to_paused trigger e).state ≡ paused)
unfolding transition_state stop pause resume start reset transition_to_paused start_agent_processes
    start_periodic_processes
calls_lem new trigger e = (
  guarded e.state new _ (emit_control_event-state _ _ _ _),
  guarded e.state stopped _ (emit_control_event-state _ _ _ _),
  guarded e.state draining _ (emit_control_event-state _ _ _ _),
  guarded e.state running _ (emit_control_event-state _ _ _ _),
  emit_control_event-state _ _ _ _,
  emit_control_event-state _ _ _ _,
  emit_control_event-state _ _ _ _,
)
