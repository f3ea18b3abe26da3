-- ===== src/Jobs.antt =====
-- agent/core/job_runner.py: `Record` has its dataclasses, `Breaker` the circuit breaker, `Backoff`
-- the delays and `Runner` the class JobRunner.
pub mod Record
pub mod Breaker
pub mod Backoff
pub mod Runner
