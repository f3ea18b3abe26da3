-- ===== src/Jobs/Runner/Attempts.antt =====
-- agent/core/job_runner.py: `_execute` and `_run_with_retries`, from one await to the next.
use agent_life_space.Prelude.{
  ℕ, suc, ◌+◌, ◌-◌, String, Option, none, some, [], ◌∷◌, lookup, insert, erase, Dict, ltb,
  if◌then◌else◌,
}
use agent_life_space.Prelude.Text.{concat, show_nat}
use agent_life_space.Jobs.Record.{completed, JobConfig, JobRecord}
use agent_life_space.Jobs.Breaker.{record_failure}
use agent_life_space.Jobs.Runner.State.{
  Stage, waiting, attempting, sleeping, Outcome, returned, timed_out, raised, escaped, Checks,
  Runner, has_place, begin_attempt, store_bounded, finish_completed, finish_dead,
}

-- The exception that the validation of a value raises, if any, with its text.
abbrev pub dumps_text : {V : Type 0} → Checks V → V → Option String
dumps_text checks v = if checks.is_dict v then checks.dumps_error v else some (checks.type_error v)

module _ {F V : Type 0} where
  -- What follows an attempt that failed: the sleep before the next one, or the dead letters.
  unfoldable pub after_failure : ℕ → String → String → JobRecord F V → Runner F V → Runner F V
  unfolding finish_dead
  after_failure n iso id r s =
      if ltb n r.config.max_retries
      then record s {
        active_jobs = insert id r s.active_jobs;
        tasks = insert id (sleeping n) s.tasks;
        stats = record s.stats { total_retries = s.stats.total_retries + 1 };
      }
      else finish_dead iso id r s

  -- `except TimeoutError` and `except Exception`.
  abbrev on_timeout : ℕ → ℕ → JobRecord F V → JobRecord F V
  on_timeout n now r = record r {
    error = some (
        concat (
          "Timeout after "
          ∷ show_nat r.config.timeout_seconds
          ∷ "s (attempt "
          ∷ show_nat (n + 1)
          ∷ "/"
          ∷ show_nat (1 + r.config.max_retries)
          ∷ ")"
          ∷ []));
  }

  unfoldable pub timed_out_attempt :
      ℕ → ℕ → String → String → JobRecord F V → Runner F V → Runner F V
  unfolding after_failure
  timed_out_attempt n now iso id r s = after_failure n iso id (on_timeout n now r) (record s {
    stats = record s.stats { total_timeouts = s.stats.total_timeouts + 1 };
    breaker = record_failure now s.breaker;
  })

  unfoldable pub failed_attempt :
      ℕ → ℕ → String → String → String → JobRecord F V → Runner F V → Runner F V
  unfolding after_failure
  failed_attempt n now iso text id r s =
      after_failure n iso id (record r { error = some text })
        (record s {
          stats = record s.stats { total_failed = s.stats.total_failed + 1 };
          breaker = record_failure now s.breaker;
        })

  -- An attempt whose result could not be stored is a failed one, of a job that is not active any
  -- more: its coroutine is not followed beyond the sleep.
  unfoldable pub lost_attempt : ℕ → ℕ → String → String → JobRecord F V → Runner F V → Runner F V
  unfolding finish_dead
  lost_attempt n now iso id r s =
      let noted = record s {
        active_jobs = erase id s.active_jobs;
        tasks = erase id s.tasks;
        stats = record s.stats { total_failed = s.stats.total_failed + 1 };
        breaker = record_failure now s.breaker;
      } in
      if ltb n r.config.max_retries
      then record noted {
        tasks = insert id (sleeping n) noted.tasks;
        stats = record noted.stats { total_retries = noted.stats.total_retries + 1 };
      }
      else finish_dead iso id (record r { error = some "StopIteration: " }) noted

  unfoldable pub succeeded_stored :
      Option (Dict (JobRecord F V))
      → ℕ
      → ℕ
      → String
      → String
      → JobRecord F V
      → Runner F V
      → Runner F V
  unfolding finish_completed lost_attempt
  succeeded_stored none n now iso id r s = lost_attempt n now iso id r s
  succeeded_stored (some d) n now iso id r s =
      let done = finish_completed id r s in
      record done { stats = record s.stats { total_completed = s.stats.total_completed + 1 } }

  -- The success of an attempt that began at `start`.
  unfoldable pub succeeded_attempt :
      ℕ → ℕ → ℕ → String → V → String → JobRecord F V → Runner F V → Runner F V
  unfolding succeeded_stored store_bounded
  succeeded_attempt n start now iso v id r s =
      let r' = record r {
        status = completed;
        result = some v;
        completed_at = some iso;
        execution_time_ms = now - start;
      } in
      succeeded_stored (store_bounded s.max_completed id r' s.completed_jobs) n now iso id r' s

  -- A value is validated where the configuration asks for it.
  abbrev pub refusal : Checks V → JobConfig F → V → Option String
  refusal checks config v = if config.require_json_result then dumps_text checks v else none

  unfoldable pub settle :
      Checks V → Outcome V → ℕ → ℕ → ℕ → String → String → JobRecord F V → Runner F V → Runner F V
  unfolding timed_out_attempt failed_attempt succeeded_attempt
  settle checks escaped n start now iso id r s = record s { tasks = erase id s.tasks }
  settle checks timed_out n start now iso id r s = timed_out_attempt n now iso id r s
  settle checks (raised text) n start now iso id r s = failed_attempt n now iso text id r s
  settle checks (returned v) n start now iso id r s = elim (refusal checks r.config v) [
    | none ↦ succeeded_attempt n start now iso v id r s
    | some text ↦ failed_attempt n now iso text id r s
  ]

  -- The coroutine of the id goes from its await to the next one. Nothing happens where it cannot:
  -- a coroutine that waits for the semaphore needs a free place.
  unfoldable pub advance :
      Checks V
      → Outcome V
      → ℕ
      → String
      → String
      → Option Stage
      → Option (JobRecord F V)
      → Runner F V
      → Runner F V
  unfolding begin_attempt settle has_place
  advance checks o now iso id none r s = s
  advance checks o now iso id (some p) none s = s
  advance checks o now iso id (some waiting) (some r) s =
      if has_place s then begin_attempt 0 id now iso r s else s
  advance checks o now iso id (some (attempting n start)) (some r) s =
      settle checks o n start now iso id r s
  advance checks o now iso id (some (sleeping n)) (some r) s = begin_attempt (suc n) id now iso r s

  unfoldable pub resume : Checks V → Outcome V → ℕ → String → String → Runner F V → Runner F V
  unfolding advance
  resume checks o now iso id s =
      advance checks o now iso id (lookup id s.tasks) (lookup id s.active_jobs) s
