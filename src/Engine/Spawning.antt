-- ===== src/Engine/Spawning.antt =====
-- The spawn queues of services/simulation/src/engine/agent_factory.py, and the spawners of
-- services/simulation/src/engine/__init__.py that poll them. A request is the number of agents still to spawn.
use rideshare_simulation_pla.Prelude.{
  ◌≡◌, refl, arith, min, ℕ, zero, suc, ◌+◌, ◌-◌, Bool, true, false, List, [], ◌∷◌, ◌++◌, Result, ok,
  err, length, ltb, ◌==◌, if◌then◌else◌,
}
use rideshare_simulation_pla.Engine.{
  Engine, SpawnQueues, running, position, register_driver, start_pending_agents, no_queues,
}

-- The `ValueError` of a capacity check.
pub data CapacityError : Type 0 where
  exceeded : ℕ → ℕ → CapacityError

abbrev pub max_agents : ℕ
max_agents = 100000

unfoldable pub check_driver_capacity : ℕ → Engine → Result CapacityError (Unit {0})
check_driver_capacity count e =
    if ltb max_agents (length e.active_drivers + count)
    then err (exceeded (length e.active_drivers) count)
    else ok tt

unfoldable pub check_rider_capacity : ℕ → Engine → Result CapacityError (Unit {0})
check_rider_capacity count e =
    if ltb max_agents (length e.active_riders + count)
    then err (exceeded (length e.active_riders) count)
    else ok tt

abbrev pub drivers_queued : Bool → ℕ → SpawnQueues → SpawnQueues
drivers_queued true count q = record q {
  driver_immediate_requests = q.driver_immediate_requests ++ count ∷ [];
}
drivers_queued false count q = record q {
  driver_scheduled_requests = q.driver_scheduled_requests ++ count ∷ [];
}

abbrev pub riders_queued : Bool → ℕ → SpawnQueues → SpawnQueues
riders_queued true count q = record q {
  rider_immediate_requests = q.rider_immediate_requests ++ count ∷ [];
}
riders_queued false count q = record q {
  rider_scheduled_requests = q.rider_scheduled_requests ++ count ∷ [];
}

unfoldable pub queue_drivers : ℕ → Bool → Engine → Result CapacityError Engine
unfolding check_driver_capacity
queue_drivers count immediate e = elim (check_driver_capacity count e) [
  | err x ↦ err x
  | ok _ ↦ ok (record e { spawn_queues = drivers_queued immediate count e.spawn_queues })
]

unfoldable pub queue_riders : ℕ → Bool → Engine → Result CapacityError Engine
unfolding check_rider_capacity
queue_riders count immediate e = elim (check_rider_capacity count e) [
  | err x ↦ err x
  | ok _ ↦ ok (record e { spawn_queues = riders_queued immediate count e.spawn_queues })
]

-- The loop of every `dequeue_...`: whether an agent was taken, and the queue that is left.
unfoldable pub dequeue : List ℕ → Bool × List ℕ
dequeue [] = (false, [])
dequeue (zero ∷ q) = dequeue q
dequeue (suc n ∷ q) = (true, n ∷ q)

abbrev pub total : List ℕ → ℕ
total [] = 0
total (n ∷ q) = n + total q

-- One turn of a spawner: only a running simulation takes from the queue.
unfoldable pub spawn_driver_immediate : ℕ → Engine → Engine
unfolding dequeue register_driver start_pending_agents
spawn_driver_immediate d e =
    if position e.state == position running
    then (let (taken, left) = dequeue e.spawn_queues.driver_immediate_requests in
        let e' = record e {
          spawn_queues = record (e.spawn_queues) { driver_immediate_requests = left };
        } in
        if taken then start_pending_agents (register_driver d e') else e')
    else e

-- `get_spawn_queue_status`: the drivers and the riders that are queued.
unfoldable pub get_spawn_queue_status : SpawnQueues → ℕ × ℕ
get_spawn_queue_status q = (
  total q.driver_immediate_requests + total q.driver_scheduled_requests,
  total q.rider_immediate_requests + total q.rider_scheduled_requests,
)

unfoldable pub clear_spawn_queues : Engine → Engine
clear_spawn_queues e = record e { spawn_queues = no_queues }

-- The queue of requests is a counter: an agent is taken exactly while some are queued, and one less is
-- queued then.
pub dequeue_lem :
    (q : List ℕ)
    → ((dequeue q).0 ≡ ltb 0 (total q))
      × (total q ≡ (if (dequeue q).0 then 1 else 0) + total (dequeue q).1)
unfolding dequeue
dequeue_lem [] = (refl, refl)
dequeue_lem (zero ∷ q) = ground (arith, dequeue_lem q)
dequeue_lem (suc n ∷ q) = (ground arith, omega arith)

-- Turns of the spawner of immediate drivers, one for each new identifier.
unfoldable pub turns : List ℕ → Engine → Engine
unfolding spawn_driver_immediate
turns [] e = e
turns (d ∷ ds) e = turns ds (spawn_driver_immediate d e)

spawn_once :
    (d : ℕ) (e : Engine)
    → e.state ≡ running
    → ((spawn_driver_immediate d e).state ≡ running)
      × ((spawn_driver_immediate d e).active_driver_counter
          ≡ e.active_driver_counter + min 1 (total e.spawn_queues.driver_immediate_requests))
      × (total (spawn_driver_immediate d e).spawn_queues.driver_immediate_requests
          ≡ total e.spawn_queues.driver_immediate_requests - 1)
unfolding spawn_driver_immediate register_driver start_pending_agents
spawn_once d e r = ground (arith, dequeue_lem e.spawn_queues.driver_immediate_requests)

-- In a running simulation, `n` turns of the spawner register as many drivers as are queued, but at most
-- `n`, and as many fewer are queued afterwards.
turns_lem :
    (ds : List ℕ) (e : Engine)
    → e.state ≡ running
    → ((turns ds e).active_driver_counter
        ≡ e.active_driver_counter
          + min (length ds) (total e.spawn_queues.driver_immediate_requests))
      × (total (turns ds e).spawn_queues.driver_immediate_requests
          ≡ total e.spawn_queues.driver_immediate_requests - length ds)
unfolding turns
turns_lem [] e r = (omega arith, omega arith)
turns_lem (d ∷ ds) e r =
    let (state, counted, left) = spawn_once d e r in
    let (counted', left') = turns_lem ds (spawn_driver_immediate d e) state in
    (omega (arith, counted, left, counted'), omega (arith, left, left'))
