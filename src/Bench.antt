-- ===== src/Bench.antt =====
-- docs/validation/benchmark.py: the measured load, the samples and their report.
pub mod Percentile
pub mod Summary
pub mod Load
pub mod Station
pub mod Invoke
pub mod Observe
pub mod Group
pub mod Configuration
pub mod Measured
pub mod Clean
pub mod Success
pub mod Classified
pub mod Outcome
pub mod Warming
pub mod Failure
pub mod Record
pub mod Run
pub mod Start
mod Tests
mod Minute
mod Trials
