-- ===== src/Routing/Message.antt =====
-- agent/core/messages.py: the enums, and the class Message with its expiry and its answers. The
-- monotonic clock is in whole seconds, and `ttl_seconds`, `retry_count` and `max_retries` are natural
-- numbers; that a value is in its range is what pydantic checks where a message is made.
use agent_life_space.Prelude.{ℕ, ◌-◌, String, Bool, Option, some, ltb}
use agent_life_space.Json.{Fields, end, field, str}

pub data ModuleId : Type 0 where
  brain memory tasks work projects social finance logs watchdog llm_router job_runner system :
      ModuleId

unfoldable pub module_value : ModuleId → String
module_value brain = "brain"
module_value memory = "memory"
module_value tasks = "tasks"
module_value work = "work"
module_value projects = "projects"
module_value social = "social"
module_value finance = "finance"
module_value logs = "logs"
module_value watchdog = "watchdog"
module_value llm_router = "llm_router"
module_value job_runner = "job_runner"
module_value system = "system"

pub data MessageType : Type 0 where
  request response error ack task_create task_update : MessageType
  task_complete task_fail memory_store memory_query memory_result llm_request : MessageType
  llm_response llm_error job_schedule job_start job_heartbeat job_complete : MessageType
  job_fail job_timeout decision_request decision_result health_check health_report : MessageType
  process_kill process_restart finance_proposal finance_approval finance_rejection shutdown :
      MessageType
  startup log : MessageType

unfoldable pub type_value : MessageType → String
type_value request = "request"
type_value response = "response"
type_value error = "error"
type_value ack = "ack"
type_value task_create = "task.create"
type_value task_update = "task.update"
type_value task_complete = "task.complete"
type_value task_fail = "task.fail"
type_value memory_store = "memory.store"
type_value memory_query = "memory.query"
type_value memory_result = "memory.result"
type_value llm_request = "llm.request"
type_value llm_response = "llm.response"
type_value llm_error = "llm.error"
type_value job_schedule = "job.schedule"
type_value job_start = "job.start"
type_value job_heartbeat = "job.heartbeat"
type_value job_complete = "job.complete"
type_value job_fail = "job.fail"
type_value job_timeout = "job.timeout"
type_value decision_request = "decision.request"
type_value decision_result = "decision.result"
type_value health_check = "health.check"
type_value health_report = "health.report"
type_value process_kill = "process.kill"
type_value process_restart = "process.restart"
type_value finance_proposal = "finance.proposal"
type_value finance_approval = "finance.approval"
type_value finance_rejection = "finance.rejection"
type_value shutdown = "system.shutdown"
type_value startup = "system.startup"
type_value log = "system.log"

pub data Priority : Type 0 where
  critical high normal low idle : Priority

unfoldable pub priority_value : Priority → ℕ
priority_value critical = 0
priority_value high = 1
priority_value normal = 2
priority_value low = 3
priority_value idle = 4

pub data MessageStatus : Type 0 where
  pending processing delivered failed timeout : MessageStatus

pub record Message (F : Type 0) : Type 0 where
  pub id : String
  pub correlation_id : Option String
  pub source : ModuleId
  pub target : ModuleId
  pub msg_type : MessageType
  pub priority : Priority
  pub timestamp : String
  pub payload : Fields F
  pub status : MessageStatus
  pub ttl_seconds : ℕ
  pub retry_count : ℕ
  pub max_retries : ℕ
  pub created_at_mono : ℕ

module _ {F : Type 0} where
  unfoldable pub is_expired : ℕ → Message F → Bool
  is_expired now m = ltb m.ttl_seconds (now - m.created_at_mono)

  -- A new message to the sender of `m`, with the defaults of the class.
  unfoldable pub answer_to :
      Message F → String → String → ℕ → MessageType → Priority → Fields F → Message F
  answer_to m id now mono msg_type priority payload = record {
    id = id;
    correlation_id = some m.id;
    source = m.target;
    target = m.source;
    msg_type = msg_type;
    priority = priority;
    timestamp = now;
    payload = payload;
    status = pending;
    ttl_seconds = 300;
    retry_count = 0;
    max_retries = 3;
    created_at_mono = mono;
  }

  unfoldable pub create_response :
      Message F → String → String → ℕ → Fields F → MessageType → Message F
  unfolding answer_to
  create_response m id now mono payload msg_type =
      answer_to m id now mono msg_type m.priority payload

  unfoldable pub create_error : Message F → String → String → ℕ → String → String → Message F
  unfolding answer_to type_value
  create_error m id now mono error_code error_message = answer_to m id now mono error high (
      field "error_code" (str error_code) (
        field "error_message" (str error_message)
          (field "original_type" (str (type_value m.msg_type)) end)))
