-- ===== src/Tasks/Task.antt =====
-- agent/tasks/manager.py: TaskStatus, TaskType and Task. `F` is the type of Python's floats.
pub mod Codec
use agent_life_space.Prelude.{ℕ, String, Bool, true, false, Option, List}
use agent_life_space.Json.{Fields}

pub data TaskStatus : Type 0 where
  created queued scheduled running completed failed cancelled blocked : TaskStatus

pub data TaskType : Type 0 where
  one_time recurring cron : TaskType

pub record Task (F : Type 0) : Type 0 where
  pub id : String
  pub name : String
  pub description : String
  pub status : TaskStatus
  pub task_type : TaskType
  pub priority : F
  pub importance : F
  pub urgency : F
  pub effort : F
  pub tags : List String
  pub dependencies : List String
  pub created_at : String
  pub scheduled_at : Option String
  pub started_at : Option String
  pub completed_at : Option String
  pub deadline : Option String
  pub result : Option (Fields F)
  pub error : Option String
  pub requires_llm : Bool
  pub requires_approval : Bool
  pub metadata : Fields F
  pub cron_expression : Option String
  pub recurrence_count : ℕ

unfoldable pub is_queued : TaskStatus → Bool
is_queued queued = true
is_queued _ = false

unfoldable pub is_completed : TaskStatus → Bool
is_completed completed = true
is_completed _ = false

unfoldable pub is_blocked : TaskStatus → Bool
is_blocked blocked = true
is_blocked _ = false
