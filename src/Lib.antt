-- ===== src/Lib.antt =====
-- The core of the rideshare simulation (services/simulation/src): matching, trips, the engine; and the stream
-- processor that brings its events to the screens (services/stream-processor/src).
--
-- A rider's request becomes a trip. The matching server looks for drivers near the pickup in a spatial
-- index, ranks them, and asks one at a time; a driver that is asked is reserved. An answer is decided at
-- once and applied later by a SimPy process, unless a timeout comes first; a refusal or a timeout asks
-- the next driver, and when nobody is left the trip waits for a retry. Puppet drivers are answered for by
-- the API. An executor, a SimPy process, takes an assigned trip to its pickup and to its destination, with the
-- cancellations on the way, the payment and the ratings. The engine moves the clock, starts the processes of
-- the agents that spawners register, and is paused in two phases; commands of the API's thread reach it
-- through a queue. A trip ends in a bounded history with running statistics. Surge prices are computed from
-- the pending requests and the registry's counters.
--
-- Parts and files, each with the source it models:
--   Prelude                  numbers, lists, dictionaries, sets, exact fractions, results
--   Trip                     services/simulation/src/trip.py: TripState, VALID_TRANSITIONS, Trip
--     Graph                  its graph
--   Registry                 services/simulation/src/matching/driver_registry.py
--     Counting, Zones, Accuracy, Statuses, Histories   the counters against the records
--   Index                    services/simulation/src/matching/driver_geospatial_index.py
--     Cells, Reached, Ascending, Nearest               the cells, and the search in rings
--   Fleet                    services/simulation/src/matching/agent_registry_manager.py
--     Agreement, Histories   index and registry together
--   Agents                   services/simulation/src/agents/driver_agent.py and rider_agent.py
--     Statistics             services/simulation/src/agents/statistics.py
--   Server                   services/simulation/src/matching/matching_server.py: the state
--     Timeouts               services/simulation/src/matching/offer_timeout.py
--     Decision, Offers, Responses, Endings, Search, Puppets            its operations
--     Frame, Timers, Asking, Cycle, CycleEnds, Rounds, Answers, Ended, Refusals,
--     Responding, Stale, Retries, Closing, Averages, Searching, Ranking, Scores, Requests, Driving,
--     PuppetAnswers: what they do
--   Duty                     services/simulation/src/agents/driver_agent.py: online, offline, the drive home
--     Shifts, Homecoming     who can be found; the end of a drive home during a trip
--   Executor                 services/simulation/src/trips/trip_executor.py: what it is given, route requests
--     Drives, Phases         `_simulate_drive`, and the phases of `execute`
--     Ratings                services/simulation/src/agents/rating_logic.py
--     Steady, Steps, Travels, Legs, Arrivals, Journeys                 what a trip goes through
--     Retries                which answer to a route request counts
--   Engine                   services/simulation/src/engine/__init__.py: state, lifecycle, registration
--     Lifecycle, Counting, Starting                    the phases; how many processes an agent has
--     Draining, Drained      the drain process of a pause
--     Stepping               `step` and the clock
--     Spawning               services/simulation/src/engine/agent_factory.py: the spawn queues
--     Coordinator            services/simulation/src/engine/thread_coordinator.py
--   Surge                    services/simulation/src/matching/surge_pricing.py
--     Pricing                the multiplier and a round over the zones
--   Stream                   services/stream-processor/src/deduplication.py and handlers/gps_handler.py
--     Processor              services/stream-processor/src/processor.py, sinks/redis_sink.py, other handlers
--     Once, Redelivery       an event is handled once; Window: what a flush hands on
--   Scenarios                the theorems at concrete states
--
-- Correspondence. A component's state is a record with the fields of the Python object; an operation keeps
-- the name of its method and maps a state to a state. A method of the server that may raise is a step
-- into Outcome: `done` with a result, or `raised`, each with the state at that point, so that
-- what was changed before an exception stays changed, but for a `KeyError` within the registry's counters,
-- which drops what its own call had changed in index and registry. Trips and drivers are shared objects: they stand in
-- a store by identifier, and every queue holds identifiers. A Python dictionary is an association list
-- in order of insertion, a set a list of which only membership is read.
--
-- Values. Identifiers are opaque numbers, which stand for strings that are not empty. Coordinates are
-- pairs that are handed on. Fares, times and distances are natural numbers in a fixed unit; rates,
-- ratings, scores and multipliers are exact fractions that are not negative, so rounding is left out.
-- `random` is a stream that is read in turn.
--
-- An executor is a step too: where it is suspended, a parameter stands for all that the other processes do
-- meanwhile, and a theorem says what it asks of them. The same holds of the drain process.
--
-- Parameters: the H3 cells, their disks and the haversine distance (Grid); the routes of OSRM and the
-- lookup of a zone (Outside); the suspension, the draws and the route service of an executor (Surroundings);
-- SimPy's `run`, and the handlers of commands, which change a state of their own; Redis, and which
-- attempts at a publication succeed; which optional collaborators are there, and the settings (Config).
--
-- Fuel. The ring search has one more round than the last ring number, which is enough since the ring grows
-- in each; the offer cycle has one more round than candidates, since each round takes one off.
-- The drain process has a round for every 5 of its 7200 seconds and one more; a step of the engine has a
-- round for every second. A drive has its intervals, and a route request its attempts.
--
-- Not modelled: persistence and checkpoints, logging, GPS and status messages, the serialisation of events and
-- their causation identifiers; interleavings at the awaits of a coroutine, which here runs through; the run
-- loops of the agents; the movement on a drive home and within a puppet's drive; the measurement of the
-- speed; after a reset, that the manager of offer timeouts still starts its processes in the old
-- environment; the API and the other services around the simulation.
pub mod Agents
pub mod Duty
pub mod Engine
pub mod Executor
pub mod Fleet
pub mod Index
pub mod Prelude
pub mod Registry
pub mod Scenarios
pub mod Server
pub mod Stream
pub mod Surge
pub mod Trip
