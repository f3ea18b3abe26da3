-- ===== src/Jobs/Runner.antt =====
-- agent/core/job_runner.py: the class JobRunner. A scheduled coroutine stands at one of its awaits:
-- the semaphore, the job function, or the sleep before a retry. `tasks` holds that place under the
-- job's id, and a step takes one coroutine from its await to the next, so that any sequence of steps
-- is an interleaving. What a job function does is an argument of its step. The record of a job is
-- one object, which stands in one of the three dictionaries.
mod State
mod Attempts
pub mod Counts
pub mod Invariant
mod Steps
pub mod Traces
pub mod Exhaustion
use agent_life_space.Prelude.{
  ℕ, suc, ◌+◌, ◌-◌, ◌*◌, ◌^◌, String, Bool, true, false, Option, none, some, List, [], ◌∷◌, ◌++◌,
  Dict, lookup, insert, erase, keys, values, length, take, drop, filter, elem, not, ltb, leb, ◌==◌,
  ◌&&◌, if◌then◌else◌,
}
use Prim.Native.String.{compare}
use text.Mathlib.Text.{is_lt}
use agent_life_space.Prelude.Result.{Result, ok, err}
use agent_life_space.Prelude.Text.{concat, show_nat}
use agent_life_space.Prelude.Sorting.{sort_desc}
use agent_life_space.Jobs.Record.{
  scheduled, running, completed, cancelled, dead_lettered, JobConfig, JobRecord,
}
use agent_life_space.Jobs.Breaker.{Breaker, check_circuit_breaker, record_failure}
unfoldable pub use State.*
unfoldable pub use Attempts.*

module _ {F V : Type 0} where
  -- `cancel`: the coroutine ends at its await, and its place is free at once.
  -- No answer is the StopIteration of `_store_completed`.
  unfoldable pub cancel : String → String → Runner F V → Option Bool × Runner F V
  unfolding finish_completed
  cancel iso id s = elim (lookup id s.active_jobs) [
    | none ↦ (some false, s)
    | some r ↦
        let r' = record r { status = cancelled; completed_at = some iso } in
        (
          elim (store_bounded s.max_completed id r' s.completed_jobs) [
            | none ↦ none
            | some d ↦ some true
          ],
          finish_completed id r' s,
        )
  ]

  -- `get_job_status`
  unfoldable pub get_job_status : String → Runner F V → Option (JobRecord F V)
  get_job_status id s = elim (lookup id s.active_jobs) [
    | some r ↦ some r
    | none ↦ elim (lookup id s.completed_jobs) [ some r ↦ some r | none ↦ lookup id s.dead_letters ]
  ]

  -- `get_recent_jobs`, the newest first by the texts of `created_at`.
  unfoldable pub get_recent_jobs : ℕ → Runner F V → List (JobRecord F V)
  get_recent_jobs limit s = take limit (
      sort_desc (λ (r t : JobRecord F V). is_lt (compare r.created_at t.created_at))
        (values s.active_jobs ++ values s.completed_jobs ++ values s.dead_letters))
