-- ===== src/Tools/Executor.antt =====
-- agent/core/tool_executor.py: the pipeline `execute` of the class ToolExecutor. The handlers of the
-- tools are coroutines of the agent, so `execute` is in two parts: `begin` runs to the call of the
-- handler, and `finish` goes on from the handler's outcome, an argument; other calls of the executor
-- and of the operator run between the two. A context is given as ToolExecutionContext, not as a
-- dict. Clock readings and new ids are arguments, with one reading for each part, in whole seconds.
pub mod Safety
pub mod Sessions
pub mod Lockdown
use agent_life_space.Prelude.{
  ℕ, zero, suc, ◌+◌, ◌-◌, ◌*◌, String, Bool, true, false, Option, none, some, List, [], ◌∷◌, elem,
  not, if◌then◌else◌,
}
use agent_life_space.Prelude.Text.{concat}
use agent_life_space.Json.{Fields, end, field, str, bool, obj, arr, strings, get_field, set_field}
use agent_life_space.Control.Denials.{ExecutionDenial, message, to_dict}
use agent_life_space.Approval.Request.{tool}
use agent_life_space.Approval.Queue.{Queue, propose}
use agent_life_space.Tools.Capabilities.{risk_value, effect_value}
use agent_life_space.Tools.Policy.{
  ToolExecutionContext, ToolPolicyDecision, DenialCode, approval_required, PolicyAuditLog,
  code_value, or_default, evaluate,
}
use agent_life_space.Tools.Operator.{Controls, is_disabled, get_disabled_reason}
use agent_life_space.Tools.Actions.{
  ActionEnvelope, ActionLog, requested, policy_checked, executing, completed, blocked, failed,
  record_action,
}
use agent_life_space.Tools.Status.{AgentStatusModel, waiting_approval, transition}
use agent_life_space.Tools.Status
use agent_life_space.Tools.Calls.{
  handler_names, Executor, ExecutorStats, Outcome, answered, other_value, raised, Answer, dict,
  value, Progress, returned, started, ToolCall, is_operator_disabled,
}
use agent_life_space.Tools.Refusals.{
  denial, request, checked, operator_block, policy_block, handler_missing,
}

module _ {F : Type 0} where
  -- The part of `execute` behind the decision of the policy.
  unfoldable pub after_policy :
      ToolCall F → ToolPolicyDecision → Executor F → Executor F × Progress F
  unfolding policy_block handler_missing checked request elem
  after_policy c d x =
      let a = checked c.now d (request c) in
      if not d.allowed
      then policy_block c a d x
      else if not (elem c.tool_name handler_names)
      then handler_missing c a x
      else (
        record x { call_count = x.call_count + 1 },
        started (record a { phase = executing; executed_at = c.now }) d,
      )

  unfoldable pub begin : ToolCall F → Executor F → Executor F × Progress F
  unfolding operator_block after_policy evaluate is_disabled
  begin c x =
      if is_operator_disabled c.tool_name x.operator
      then operator_block c x
      else (let (log, d) = evaluate c.tool_name c.context c.now x.policy in
          after_policy c d (record x { policy = log }))

  -- `d.setdefault(key, value)`
  unfoldable pub set_default : String → String → Fields F → Fields F
  unfolding get_field set_field
  set_default k v d = elim (get_field k d) [ none ↦ set_field k (str v) d | some w ↦ d ]

  unfoldable pub finish :
      ActionEnvelope F → ToolPolicyDecision → Outcome F → ℕ → Executor F → Executor F × Answer F
  unfolding record_action set_default denial message to_dict concat risk_value
  finish a d (answered r) now x =
      let r' =
        set_default "audit_label" d.audit_label
          (set_default "risk_level" (risk_value d.risk_level) r) in
      let done = record a {
        phase = completed;
        result = r';
        completed_at = now;
        duration_ms = (now - a.executed_at) * 1000;
      } in
      (record x { action_log = record_action done x.action_log }, dict r')
  finish a d (other_value v) now x =
      let done = record a {
        phase = completed;
        result = field "value" (str v) end;
        completed_at = now;
        duration_ms = (now - a.executed_at) * 1000;
      } in
      (record x { action_log = record_action done x.action_log }, value v)
  finish a d (raised e) now x =
      let m : ExecutionDenial F =
        denial "tool_execution_failed" "Tool execution failed"
          (concat ("Tool '" ∷ a.tool_name ∷ "' failed: " ∷ e ∷ [])) a.tool_name
          "Inspect the tool input or runtime state and retry when the handler is healthy." end in
      let done = record a {
        phase = failed;
        error = message m;
        completed_at = now;
        duration_ms = (now - a.executed_at) * 1000;
      } in
      (
        record x { error_count = x.error_count + 1; action_log = record_action done x.action_log },
        dict (field "error" (str (message m)) (field "denial" (obj (to_dict m)) end)),
      )

  unfoldable pub get_stats : Executor F → ExecutorStats
  get_stats x = record {
    total_calls = x.call_count;
    errors = x.error_count;
    blocked_calls = x.blocked_count;
    available_tools = 10;
  }
