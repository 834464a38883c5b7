-- ===== src/Scenarios.antt =====
-- Concrete states of the program at which the theorems are applied.
pub mod Data
mod Trips
mod Views
mod Matching
mod Answers
mod Execution
mod Engines
mod Streams
mod Duties
