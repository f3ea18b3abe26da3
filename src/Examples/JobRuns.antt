-- ===== src/Examples/JobRuns.antt =====
-- agent/core/job_runner.py: a job that always fails, beside one that is cancelled.
use agent_life_space.Prelude.{
  ℕ, true, false, ◌≡◌, refl, none, some, List, [], ◌∷◌, arith, ltb, ltb→lt, lookup, ◌==◌,
}
use agent_life_space.Jobs.Record.{normal, running, JobConfig, JobRecord}
use agent_life_space.Jobs.Breaker.{
  Breaker, check_circuit_breaker, record_failures, record_failures-trips,
}
use agent_life_space.Jobs.Runner.{timed_out, attempting, Checks, Runner, started, new}
use agent_life_space.Jobs.Runner.Invariant.{IsValid}
use agent_life_space.Jobs.Runner.Traces.{
  Event, register_event, schedule_event, resume_event, cancel_event, happen_all, happen_all-IsValid,
}
use agent_life_space.Jobs.Runner.Exhaustion.{
  IsAt, IsBuried, Moment, step, step_all, step_all-IsBuried,
}

abbrev config : JobConfig ℕ
config = record {
  timeout_seconds = 60;
  max_retries = 2;
  retry_base_delay = 100;
  retry_max_delay = 6000;
  heartbeat_interval = 1000;
  priority = normal;
  require_json_result = true;
}

-- A value is a number, and no number is a dict.
abbrev numbers : Checks ℕ
numbers = record {
  is_dict = λ v. false;
  dumps_error = λ v. none;
  type_error = λ v. "TypeError: Job must return dict, got int";
}

abbrev events : List (Event ℕ ℕ)
events =
    register_event "sync"
    ∷ schedule_event "j1" "2026-03-01" 0 "sync" config
    ∷ schedule_event "j2" "2026-03-01" 0 "sync" config
    ∷ resume_event timed_out 1 "2026-03-01" "j1"
    ∷ cancel_event "2026-03-01" "j2"
    ∷ resume_event timed_out 2 "2026-03-01" "j1"
    ∷ []

abbrev idle : Runner ℕ ℕ
idle = started 4 5 60000 1000 500

happen_all-IsValid_example : IsValid (happen_all numbers events idle)
unfolding new
happen_all-IsValid_example =
    happen_all-IsValid numbers 4 5 60000 1000 500 idle events (omega arith) (omega arith)
      (tt, (tt, (tt, (refl, (tt, (refl, tt)))))) refl

abbrev job : JobRecord ℕ ℕ
job = record {
  id = "j1";
  name = "sync";
  status = running;
  config = config;
  created_at = "2026-03-01";
  started_at = some "2026-03-01";
  completed_at = none;
  result = none;
  error = none;
  retry_count = 0;
  last_heartbeat = 0;
  execution_time_ms = 0;
}

abbrev busy : Runner ℕ ℕ
busy = record idle { active_jobs = ("j1", job) ∷ []; tasks = ("j1", attempting 0 0) ∷ [] }

busy-IsAt : IsAt numbers 0 "j1" config 0 busy
unfolding lookup ◌==◌
busy-IsAt = record {
  start = 0;
  job = job;
  in_attempt = refl;
  active = refl;
  configured = refl;
  counted = refl;
  some_dead = omega arith;
}

abbrev at : ℕ → Moment ℕ
at now = record { outcome = timed_out; now = now; iso = "2026-03-01" }

step_all-IsBuried_example :
    IsBuried numbers "j1" config 3
      (step_all numbers "j1" ((at 2, at 3) ∷ (at 4, at 5) ∷ []) (step numbers "j1" (at 1) busy))
step_all-IsBuried_example =
    step_all-IsBuried numbers (at 1) ((at 2, at 3) ∷ (at 4, at 5) ∷ []) 0 "j1" config 0 busy refl
      (refl, (refl, tt)) refl busy-IsAt

abbrev one_failure : Breaker
one_failure = record { threshold = 2; window = 60; failures = 5 ∷ []; is_open = false }

record_failures-trips_example :
    let tripped = record_failures (10 ∷ 20 ∷ []) one_failure in
    ((check_circuit_breaker 60 tripped).0 ≡ true)
    × ((check_circuit_breaker 60 tripped).1.is_open ≡ true)
    × (check_circuit_breaker 80 tripped
        ≡ (false, record one_failure { failures = []; is_open = false }))
record_failures-trips_example =
    record_failures-trips (10 ∷ 20 ∷ []) 60 80 one_failure (omega arith) (omega arith)
      (omega arith, (omega arith, tt)) (omega arith, (omega arith, (omega arith, tt)))

ltb_irreflexive : (a : ℕ) → ltb a a ≡ false
ltb_irreflexive a = ground (arith, ltb→lt a a)
