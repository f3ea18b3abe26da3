-- ===== src/Jobs/Runner/State.antt =====
-- agent/core/job_runner.py: the state of JobRunner, its constructor, `schedule`, and how a record
-- leaves the active ones.
use agent_life_space.Prelude.{
  ℕ, ◌+◌, String, Bool, true, false, Option, none, some, List, [], ◌∷◌, ◌++◌, Dict, insert, erase,
  values, length, filter, elem, not, ltb, leb, if◌then◌else◌,
}
use agent_life_space.Prelude.Result.{Result, ok, err}
use agent_life_space.Jobs.Record.{scheduled, running, dead_lettered, JobConfig, JobRecord}
use agent_life_space.Jobs.Breaker.{Breaker, check_circuit_breaker}

-- Where a coroutine waits. An attempt keeps its number and its `start_time`.
pub data Stage : Type 0 where
  waiting : Stage
  attempting : ℕ → ℕ → Stage
  sleeping : ℕ → Stage

abbrev pub is_running : Stage → Bool
is_running waiting = false
is_running (attempting n start) = true
is_running (sleeping n) = true

-- What `wait_for` of the job function comes to: a value, a timeout, another exception, with its text
-- `f"{type(e).__name__}: {e!s}"`, or what `except Exception` lets through, such as CancelledError.
pub data Outcome (V : Type 0) : Type 0 where
  returned : V → Outcome V
  timed_out : Outcome V
  raised : String → Outcome V
  escaped : Outcome V

-- What the runner asks of a value: `isinstance(v, dict)`, and the text of the exception of
-- `orjson.dumps(v)`, if it raises, and of the TypeError.
pub record Checks (V : Type 0) : Type 0 where
  pub is_dict : V → Bool
  pub dumps_error : V → Option String
  pub type_error : V → String

pub record Stats : Type 0 where
  pub total_scheduled : ℕ
  pub total_completed : ℕ
  pub total_failed : ℕ
  pub total_timeouts : ℕ
  pub total_retries : ℕ
  pub total_dead_lettered : ℕ

-- `functions` are the names of the registered job types.
pub record Runner (F V : Type 0) : Type 0 where
  pub max_concurrent : ℕ
  pub active_jobs : Dict (JobRecord F V)
  pub tasks : Dict Stage
  pub completed_jobs : Dict (JobRecord F V)
  pub dead_letters : Dict (JobRecord F V)
  pub max_completed : ℕ
  pub max_dead : ℕ
  pub functions : List String
  pub breaker : Breaker
  pub stats : Stats

-- The exceptions of the constructor and of `schedule`, without their texts.
pub data Error : Type 0 where
  bad_max_concurrent : ℕ → Error
  unknown_job_type breaker_open : String → Error

abbrev pub no_stats : Stats
no_stats = record {
  total_scheduled = 0;
  total_completed = 0;
  total_failed = 0;
  total_timeouts = 0;
  total_retries = 0;
  total_dead_lettered = 0;
}

module _ {F V : Type 0} where
  abbrev pub started : ℕ → ℕ → ℕ → ℕ → ℕ → Runner F V
  started max_concurrent threshold window max_completed max_dead = record {
    max_concurrent = max_concurrent;
    active_jobs = [];
    tasks = [];
    completed_jobs = [];
    dead_letters = [];
    max_completed = max_completed;
    max_dead = max_dead;
    functions = [];
    breaker = record { threshold = threshold; window = window; failures = []; is_open = false };
    stats = no_stats;
  }

  -- `__init__`
  unfoldable pub new : ℕ → ℕ → ℕ → ℕ → ℕ → Result Error (Runner F V)
  new max_concurrent threshold window max_completed max_dead =
      if ltb max_concurrent 1
      then err (bad_max_concurrent max_concurrent)
      else ok (started max_concurrent threshold window max_completed max_dead)

  unfoldable pub register_job_type : String → Runner F V → Runner F V
  register_job_type name s = record s {
    functions = if elem name s.functions then s.functions else s.functions ++ name ∷ [];
  }

  -- `schedule`, with the id and the instant of the new record.
  unfoldable pub schedule :
      String → String → ℕ → String → JobConfig F → Runner F V → Result Error String × Runner F V
  schedule id iso now name config s =
      if not (elem name s.functions)
      then (err (unknown_job_type name), s)
      else (let (rejects, breaker) = check_circuit_breaker now s.breaker in
          if rejects
          then (err (breaker_open name), record s { breaker = breaker })
          else (let r : JobRecord F V = record {
            id = id;
            name = name;
            status = scheduled;
            config = config;
            created_at = iso;
            started_at = none;
            completed_at = none;
            result = none;
            error = none;
            retry_count = 0;
            last_heartbeat = 0;
            execution_time_ms = 0;
          } in
              (
                ok id,
                record s {
                  breaker = breaker;
                  active_jobs = insert id r s.active_jobs;
                  tasks = insert id waiting s.tasks;
                  stats = record s.stats { total_scheduled = s.stats.total_scheduled + 1 };
                },
              )))

  -- `self._semaphore` has a free place.
  unfoldable pub has_place : Runner F V → Bool
  has_place s = ltb (length (filter is_running (values s.tasks))) s.max_concurrent

  -- The head of the loop over the attempts, up to the call of the job function.
  unfoldable pub begin_attempt : ℕ → String → ℕ → String → JobRecord F V → Runner F V → Runner F V
  begin_attempt n id now iso r s = record s {
    active_jobs =
        insert id
          (record r {
            status = running;
            started_at = some iso;
            last_heartbeat = now;
            retry_count = n;
          })
          s.active_jobs;
    tasks = insert id (attempting n now) s.tasks;
  }

  -- The dictionary without its oldest record; `next` of an empty one raises.
  abbrev pub evicted : Dict (JobRecord F V) → Option (Dict (JobRecord F V))
  evicted [] = none
  evicted (x ∷ d) = some d

  abbrev pub with_record :
      String → JobRecord F V → Option (Dict (JobRecord F V)) → Option (Dict (JobRecord F V))
  with_record id r none = none
  with_record id r (some d) = some (insert id r d)

  -- `_store_completed` and `_store_dead_letter`: the oldest record goes where the bound is reached.
  -- `none` is StopIteration, at the bound 0.
  unfoldable pub store_bounded :
      ℕ → String → JobRecord F V → Dict (JobRecord F V) → Option (Dict (JobRecord F V))
  store_bounded limit id r d = with_record id r (if leb limit (length d) then evicted d else some d)

  -- What is left of a dictionary, and what is counted, where storing may have raised.
  abbrev pub or_kept : Dict (JobRecord F V) → Option (Dict (JobRecord F V)) → Dict (JobRecord F V)
  or_kept d none = d
  or_kept d (some d') = d'

  abbrev pub one_stored : Option (Dict (JobRecord F V)) → ℕ
  one_stored none = 0
  one_stored (some d) = 1

  -- The record leaves the active ones for the completed ones, or gets lost, and its coroutine ends.
  unfoldable pub finish_completed : String → JobRecord F V → Runner F V → Runner F V
  unfolding store_bounded
  finish_completed id r s = record s {
    active_jobs = erase id s.active_jobs;
    tasks = erase id s.tasks;
    completed_jobs = or_kept s.completed_jobs (store_bounded s.max_completed id r s.completed_jobs);
  }

  -- The part of `_run_with_retries` behind the loop.
  unfoldable pub finish_dead : String → String → JobRecord F V → Runner F V → Runner F V
  unfolding store_bounded
  finish_dead iso id r s =
      let dead = record r { status = dead_lettered; completed_at = some iso } in
      let stored = store_bounded s.max_dead id dead s.dead_letters in
      record s {
        active_jobs = erase id s.active_jobs;
        tasks = erase id s.tasks;
        dead_letters = or_kept s.dead_letters stored;
        stats = record s.stats {
          total_dead_lettered = s.stats.total_dead_lettered + one_stored stored;
        };
      }
