-- ===== src/Tools/Refusals.antt =====
-- agent/core/tool_executor.py: the branches of `execute` that refuse a call. Clock readings and new
-- ids are arguments, in whole seconds.
use agent_life_space.Prelude.{ℕ, ◌+◌, String, true, Option, none, some, [], ◌∷◌, if◌then◌else◌}
use agent_life_space.Prelude.Text.{concat, prefix}
use agent_life_space.Json.{Fields, end, field, str, bool, obj, arr, strings, set_field}
use agent_life_space.Control.Denials.{ExecutionDenial, message, to_dict}
use agent_life_space.Approval.Request.{tool}
use agent_life_space.Approval.Queue.{Queue, propose}
use agent_life_space.Tools.Capabilities.{risk_value, effect_value}
use agent_life_space.Tools.Policy.{ToolPolicyDecision, code_value, or_default}
use agent_life_space.Tools.Actions.{
  ActionEnvelope, requested, policy_checked, blocked, failed, record_action,
}
use agent_life_space.Tools.Status.{AgentStatusModel, waiting_approval, transition}
use agent_life_space.Tools.Status
use agent_life_space.Tools.Calls.{
  sorted_names, shown_names, Executor, Progress, ToolCall, operator_reason, is_approval_denial,
  code_or_blocked, dict, returned,
}

module _ {F : Type 0} where
  -- `make_denial` where no policy and no environment profile are named.
  unfoldable pub denial : String → String → String → String → String → Fields F → ExecutionDenial F
  denial code summary detail scope suggested_action metadata = record {
    code = code;
    summary = summary;
    detail = detail;
    scope = scope;
    policy_id = "";
    environment_profile_id = "";
    suggested_action = suggested_action;
    metadata = metadata;
  }

  -- Step 1, REQUEST.
  unfoldable pub request : ToolCall F → ActionEnvelope F
  unfolding or_default
  request c = record {
    id = c.action_id;
    tool_name = c.tool_name;
    tool_input = c.tool_input;
    is_owner = (or_default c.context).is_owner;
    safe_mode = (or_default c.context).safe_mode;
    channel_type = (or_default c.context).channel_type;
    request_source = "llm";
    phase = requested;
    requested_at = c.now;
    policy_allowed = none;
    policy_reason = "";
    policy_risk_level = "";
    policy_side_effect = "";
    policy_audit_label = "";
    policy_decided_at = 0;
    result = end;
    error = "";
    executed_at = 0;
    completed_at = 0;
    duration_ms = 0;
  }

  -- Step 2, POLICY: what the action keeps of the decision.
  unfoldable pub checked : ℕ → ToolPolicyDecision → ActionEnvelope F → ActionEnvelope F
  unfolding risk_value effect_value
  checked now d a = record a {
    phase = policy_checked;
    policy_allowed = some d.allowed;
    policy_reason = d.reason;
    policy_risk_level = risk_value d.risk_level;
    policy_side_effect = effect_value d.side_effect;
    policy_audit_label = d.audit_label;
    policy_decided_at = now;
  }

  unfoldable pub operator_block : ToolCall F → Executor F → Executor F × Progress F
  unfolding denial message to_dict record_action request
  operator_block c x =
      let d : ExecutionDenial F =
        denial "tool_operator_disabled" "Tool execution blocked by operator"
          (operator_reason c.tool_name x.operator) c.tool_name
          "Re-enable the tool through operator controls before retrying." end in
      let a = record (request c) { phase = blocked; error = message d; completed_at = c.now } in
      (
        record x { blocked_count = x.blocked_count + 1; action_log = record_action a x.action_log },
        returned (
            dict (
              field "error" (str (message d)) (
                field "blocked" (bool true)
                  (field "operator_disabled" (bool true) (field "denial" (obj (to_dict d)) end))))),
      )

  -- The dict of a refusal by the policy.
  unfoldable pub refused_answer : String → ToolPolicyDecision → Fields F
  unfolding denial to_dict risk_value effect_value code_value
  refused_answer name d = field "error" (str d.reason) (
      field "blocked" (bool true) (
        field "risk_level" (str (risk_value d.risk_level)) (
          field "side_effect" (str (effect_value d.side_effect)) (
            field "audit_label" (str d.audit_label) (
              field "denial"
                (obj (
                  to_dict (
                    denial (code_or_blocked d.denial_code) "Tool execution denied by policy"
                      d.reason name
                      "Use an allowed tool context or request approval where required."
                      (field "audit_label" (str d.audit_label) (
                        field "risk_level" (str (risk_value d.risk_level))
                          (field "side_effect" (str (effect_value d.side_effect)) end))))))
                end)))))

  -- The request for an approval that a refusal files, with the answer that names it.
  unfoldable pub ask_approval :
      ToolCall F
      → ActionEnvelope F
      → ToolPolicyDecision
      → Option (Queue F)
      → Fields F
      → Option (Queue F) × Fields F
  unfolding propose risk_value set_field concat
  ask_approval c a d none answer = (none, answer)
  ask_approval c a d (some q) answer =
      let (q', r) =
        propose c.request_id c.now
          (record {
            category = tool;
            description = concat ("Tool '" ∷ c.tool_name ∷ "' requires approval" ∷ []);
            risk_level = risk_value d.risk_level;
            reason = d.reason;
            proposed_by = "agent";
            context = field "tool_name" (str c.tool_name) (
                field "tool_input" (obj c.tool_input)
                  (field "audit_label" (str d.audit_label) (field "action_id" (str a.id) end)));
            ttl_seconds = 3600;
            required_approvals = 1;
          })
          q in
      (
        some q',
        set_field "approval_status" (str "pending")
            (set_field "approval_request_id" (str r.id) answer),
      )

  unfoldable pub status_after_refusal :
      ToolCall F → ToolPolicyDecision → Option AgentStatusModel → Option AgentStatusModel
  unfolding transition prefix concat
  status_after_refusal c d none = none
  status_after_refusal c d (some s) = some (
      if is_approval_denial d.denial_code
      then transition waiting_approval (concat ("tool '" ∷ c.tool_name ∷ "' needs approval" ∷ []))
          c.now s
      else transition Status.blocked
          (concat ("tool '" ∷ c.tool_name ∷ "' denied: " ∷ prefix 80 d.reason ∷ [])) c.now s)

  unfoldable pub policy_block :
      ToolCall F → ActionEnvelope F → ToolPolicyDecision → Executor F → Executor F × Progress F
  unfolding record_action refused_answer ask_approval status_after_refusal
  policy_block c a d x =
      let done = record a { phase = blocked; completed_at = c.now } in
      let plain : Option (Queue F) × Fields F = (x.approvals, refused_answer c.tool_name d) in
      let (approvals, answer) =
        (if is_approval_denial d.denial_code
          then ask_approval c a d x.approvals (refused_answer c.tool_name d)
          else plain) in
      (
        record x {
          blocked_count = x.blocked_count + 1;
          action_log = record_action done x.action_log;
          approvals = approvals;
          status = status_after_refusal c d x.status;
        },
        returned (dict answer),
      )

  unfoldable pub handler_missing :
      ToolCall F → ActionEnvelope F → Executor F → Executor F × Progress F
  unfolding denial message to_dict record_action concat strings
  handler_missing c a x =
      let d : ExecutionDenial F =
        denial "tool_handler_missing" "Tool execution failed"
          (concat ("Unknown tool handler: " ∷ c.tool_name ∷ [])) c.tool_name
          "Use a registered tool name or add the missing handler implementation."
          (field "available_tools" (arr (strings sorted_names)) end) in
      let done = record a { phase = failed; error = message d; completed_at = c.now } in
      (
        record x { error_count = x.error_count + 1; action_log = record_action done x.action_log },
        returned (
            dict (
              field "error"
                (str (concat ("Unknown tool: " ∷ c.tool_name ∷ ". Available: " ∷ shown_names ∷ [])))
                (field "denial" (obj (to_dict d)) end))),
      )
