-- ===== src/Jobs/Record.antt =====
-- agent/core/job_runner.py: JobStatus, JobPriority, JobConfig and JobRecord. Instants of
-- `time.monotonic()` are whole milliseconds. `F` is the type of floats and `V` that of the values
-- that a job may return. A negative `max_retries` is left out.
use agent_life_space.Prelude.{ℕ, String, Bool, true, Option, none, some}
use agent_life_space.Prelude.Float.{Float}
use agent_life_space.Json.{Json, Fields, end, field, str, int, null, opt_str}

pub data JobStatus : Type 0 where
  scheduled running completed failed timeout cancelled dead_lettered : JobStatus

pub data JobPriority : Type 0 where
  critical high normal low : JobPriority

pub record JobConfig (F : Type 0) : Type 0 where
  pub timeout_seconds : ℕ
  pub max_retries : ℕ
  pub retry_base_delay : F
  pub retry_max_delay : F
  pub heartbeat_interval : F
  pub priority : JobPriority
  pub require_json_result : Bool

-- `JobConfig()`
unfoldable pub default_config : (ops : Float) → JobConfig ops.Num
default_config ops = record {
  timeout_seconds = 60;
  max_retries = 3;
  retry_base_delay = ops.decimal 10 1;
  retry_max_delay = ops.decimal 600 1;
  heartbeat_interval = ops.decimal 100 1;
  priority = normal;
  require_json_result = true;
}

pub record JobRecord (F V : Type 0) : Type 0 where
  pub id : String
  pub name : String
  pub status : JobStatus
  pub config : JobConfig F
  pub created_at : String
  pub started_at : Option String
  pub completed_at : Option String
  pub result : Option V
  pub error : Option String
  pub retry_count : ℕ
  pub last_heartbeat : ℕ
  pub execution_time_ms : ℕ

unfoldable pub status_value : JobStatus → String
status_value scheduled = "scheduled"
status_value running = "running"
status_value completed = "completed"
status_value failed = "failed"
status_value timeout = "timeout"
status_value cancelled = "cancelled"
status_value dead_lettered = "dead_lettered"

-- `priority.name.lower()`
unfoldable pub priority_name : JobPriority → String
priority_name critical = "critical"
priority_name high = "high"
priority_name normal = "normal"
priority_name low = "low"

module _ {F V : Type 0} (value : V → Json F) where
  abbrev opt_value : Option V → Json F
  opt_value none = null
  opt_value (some v) = value v

  -- `value` is the JSON value that a result stands for.
  unfoldable pub to_dict : JobRecord F V → Fields F
  unfolding status_value priority_name
  to_dict r = field "id" (str r.id) (
      field "name" (str r.name) (
        field "status" (str (status_value r.status)) (
          field "created_at" (str r.created_at) (
            field "started_at" (opt_str r.started_at) (
              field "completed_at" (opt_str r.completed_at) (
                field "retry_count" (int r.retry_count) (
                  field "execution_time_ms" (int r.execution_time_ms) (
                    field "error" (opt_str r.error) (
                      field "result" (opt_value r.result) (
                        field "priority" (str (priority_name r.config.priority)) (
                          field "timeout_seconds" (int r.config.timeout_seconds)
                            (field "max_retries" (int r.config.max_retries) end))))))))))))
