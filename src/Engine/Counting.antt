-- ===== src/Engine/Counting.antt =====
-- How often an agent stands in a list, and what `_start_agent_processes` of
-- services/simulation/src/engine/__init__.py adds.
use rideshare_simulation_pla.Prelude.{
  ℕ, ◌+◌, ◌≡◌, refl, Bool, false, List, [], ◌∷◌, ◌++◌, map, arith, ◌==◌, if◌then◌else◌,
}
use rideshare_simulation_pla.Prelude.IdSet.{IdSet, member, add}
use rideshare_simulation_pla.Engine.{
  Engine, Agent, driver_agent, rider_agent, start_agent_processes,
}

abbrev pub same_agent : Agent → Agent → Bool
same_agent (driver_agent d) (driver_agent e) = d == e
same_agent (rider_agent r) (rider_agent s) = r == s
same_agent _ _ = false

-- How often an agent stands in a list.
unfoldable pub times : Agent → List Agent → ℕ
times a [] = 0
times a (b ∷ bs) = (if same_agent b a then 1 else 0) + times a bs

pub times-append : (a : Agent) (bs cs : List Agent) → times a (bs ++ cs) ≡ times a bs + times a cs
unfolding times
times-append a [] cs = omega arith
times-append a (b ∷ bs) cs = omega (arith, times-append a bs cs)

unfoldable pub occurrences : ℕ → IdSet → ℕ
occurrences k [] = 0
occurrences k (j ∷ s) = (if j == k then 1 else 0) + occurrences k s

-- No identifier stands twice.
abbrev pub IsDistinct : IdSet → Type 0
IsDistinct s = (k : ℕ) → occurrences k s ≡ (if member k s then 1 else 0)

pub add-IsDistinct : (k : ℕ) (s : IdSet) → IsDistinct s → IsDistinct (add k s)
unfolding add occurrences member
add-IsDistinct k s h j = ground (arith, h j, h k)

times-drivers : (d : ℕ) (s : IdSet) → times (driver_agent d) (map driver_agent s) ≡ occurrences d s
unfolding times occurrences
times-drivers d [] = refl
times-drivers d (k ∷ s) = omega (arith, times-drivers d s)

times-riders : (r : ℕ) (s : IdSet) → times (rider_agent r) (map rider_agent s) ≡ occurrences r s
unfolding times occurrences
times-riders r [] = refl
times-riders r (k ∷ s) = omega (arith, times-riders r s)

no_rider : (r : ℕ) (s : IdSet) → times (rider_agent r) (map driver_agent s) ≡ 0
unfolding times
no_rider r [] = refl
no_rider r (k ∷ s) = omega (arith, no_rider r s)

no_driver : (d : ℕ) (s : IdSet) → times (driver_agent d) (map rider_agent s) ≡ 0
unfolding times
no_driver d [] = refl
no_driver d (k ∷ s) = omega (arith, no_driver d s)

every_driver :
    (e : Engine) (d : ℕ)
    → IsDistinct e.active_drivers
    → times (driver_agent d) (map driver_agent e.active_drivers ++ map rider_agent e.active_riders)
      ≡ (if member d e.active_drivers then 1 else 0)
every_driver e d p = omega (
  arith,
  times-append (driver_agent d) (map driver_agent e.active_drivers)
      (map rider_agent e.active_riders),
  times-drivers d e.active_drivers,
  no_driver d e.active_riders,
  p d,
)

every_rider :
    (e : Engine) (r : ℕ)
    → IsDistinct e.active_riders
    → times (rider_agent r) (map driver_agent e.active_drivers ++ map rider_agent e.active_riders)
      ≡ (if member r e.active_riders then 1 else 0)
every_rider e r q = omega (
  arith,
  times-append (rider_agent r) (map driver_agent e.active_drivers)
      (map rider_agent e.active_riders),
  times-riders r e.active_riders,
  no_rider r e.active_drivers,
  q r,
)

-- The processes after a start of every agent: one more for each that is registered.
pub driver_processes :
    (e : Engine) (d : ℕ)
    → IsDistinct e.active_drivers
    → times (driver_agent d) (start_agent_processes e).agent_processes
      ≡ times (driver_agent d) e.agent_processes + (if member d e.active_drivers then 1 else 0)
unfolding start_agent_processes
driver_processes e d p = omega (
  arith,
  times-append (driver_agent d) e.agent_processes
      (map driver_agent e.active_drivers ++ map rider_agent e.active_riders),
  every_driver e d p,
)

pub rider_processes :
    (e : Engine) (r : ℕ)
    → IsDistinct e.active_riders
    → times (rider_agent r) (start_agent_processes e).agent_processes
      ≡ times (rider_agent r) e.agent_processes + (if member r e.active_riders then 1 else 0)
unfolding start_agent_processes
rider_processes e r q = omega (
  arith,
  times-append (rider_agent r) e.agent_processes
      (map driver_agent e.active_drivers ++ map rider_agent e.active_riders),
  every_rider e r q,
)
