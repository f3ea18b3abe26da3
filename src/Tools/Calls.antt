-- ===== src/Tools/Calls.antt =====
-- agent/core/tool_executor.py: the state of the class ToolExecutor, and the arguments and the answers
-- of `execute`.
use agent_life_space.Prelude.{ℕ, String, Bool, true, false, Option, none, some, List, [], ◌∷◌}
use agent_life_space.Json.{Fields}
use agent_life_space.Approval.Queue.{Queue}
use agent_life_space.Tools.Policy.{
  ToolExecutionContext, ToolPolicyDecision, DenialCode, approval_required, PolicyAuditLog,
  code_value,
}
use agent_life_space.Tools.Operator.{Controls, is_disabled, get_disabled_reason}
use agent_life_space.Tools.Actions.{ActionEnvelope, ActionLog}
use agent_life_space.Tools.Status.{AgentStatusModel}

-- The keys of `self._handlers`, and `sorted` of them.
abbrev pub handler_names : List String
handler_names =
    "store_memory" ∷ "query_memory" ∷ "create_task" ∷ "list_tasks" ∷ "run_code" ∷ "run_tests"
    ∷ "web_fetch" ∷ "check_health" ∷ "get_status" ∷ "search_knowledge" ∷ []

abbrev pub sorted_names : List String
sorted_names =
    "check_health" ∷ "create_task" ∷ "get_status" ∷ "list_tasks" ∷ "query_memory" ∷ "run_code"
    ∷ "run_tests" ∷ "search_knowledge" ∷ "store_memory" ∷ "web_fetch" ∷ []

-- `str(list(self._handlers.keys()))`
abbrev pub shown_names : String
shown_names =
    "['store_memory', 'query_memory', 'create_task', 'list_tasks', 'run_code', 'run_tests', 'web_fetch', 'check_health', 'get_status', 'search_knowledge']"

-- The executor, with what it changes of the agent: its approval queue and its status.
pub record Executor (F : Type 0) : Type 0 where
  pub policy : PolicyAuditLog
  pub operator : Option Controls
  pub action_log : ActionLog F
  pub approvals : Option (Queue F)
  pub status : Option AgentStatusModel
  pub call_count : ℕ
  pub error_count : ℕ
  pub blocked_count : ℕ

-- The answer of `get_stats`.
pub record ExecutorStats : Type 0 where
  pub total_calls : ℕ
  pub errors : ℕ
  pub blocked_calls : ℕ
  pub available_tools : ℕ

-- What a handler comes to: a dict, another value with its text, or an exception with its text.
pub data Outcome (F : Type 0) : Type 0 where
  answered : Fields F → Outcome F
  other_value : String → Outcome F
  raised : String → Outcome F

-- What `execute` returns: a dict, or the other value as it is.
pub data Answer (F : Type 0) : Type 0 where
  dict : Fields F → Answer F
  value : String → Answer F

-- Where `begin` stops: `execute` has returned, or its handler runs.
pub data Progress (F : Type 0) : Type 0 where
  returned : Answer F → Progress F
  started : ActionEnvelope F → ToolPolicyDecision → Progress F

-- The arguments of `execute`, with the ids that the call draws and its first clock reading.
pub record ToolCall (F : Type 0) : Type 0 where
  pub tool_name : String
  pub tool_input : Fields F
  pub context : Option ToolExecutionContext
  pub action_id : String
  pub request_id : String
  pub now : ℕ

abbrev pub is_operator_disabled : String → Option Controls → Bool
is_operator_disabled name none = false
is_operator_disabled name (some c) = is_disabled name c

abbrev pub operator_reason : String → Option Controls → String
operator_reason name none = ""
operator_reason name (some c) = get_disabled_reason name c

abbrev pub is_approval_denial : Option DenialCode → Bool
is_approval_denial (some approval_required) = true
is_approval_denial _ = false

abbrev pub code_or_blocked : Option DenialCode → String
code_or_blocked none = "tool_policy_blocked"
code_or_blocked (some c) = code_value c
