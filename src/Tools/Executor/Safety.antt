-- ===== src/Tools/Executor/Safety.antt =====
-- agent/core/tool_executor.py: which tools run, whatever calls of the executor and of the operator
-- run in between.
use agent_life_space.Prelude.{
  ℕ, Bool, true, false, List, [], ◌∷◌, All, All-push_bounded, ◌≡◌, refl, sym, ◌∙◌, if_cases, lookup,
  elem, not, ◌||◌,
}
use agent_life_space.Tools.Capabilities.{tool_capabilities}
use agent_life_space.Tools.Policy.{ToolExecutionContext, ToolPolicyDecision, or_default, evaluate}
use agent_life_space.Tools.Policy.Authorization.{may_use, decide-may_use}
use agent_life_space.Tools.Actions.{
  ActionEnvelope, ActionLog, ActionPhase, requested, policy_checked, blocked, record_action,
}
use agent_life_space.Tools.Calls.{
  Executor, Outcome, answered, other_value, raised, Progress, returned, started, ToolCall,
  handler_names, is_operator_disabled,
}
use agent_life_space.Tools.Refusals.{
  request, checked, operator_block, policy_block, handler_missing,
}
use agent_life_space.Tools.Executor.{after_policy, begin, finish}

-- The handler of the action was called, or is missing behind the policy.
abbrev pub ran : ActionPhase → Bool
ran requested = false
ran policy_checked = false
ran blocked = false
ran _ = true

pub not-false : (b : Bool) → not b ≡ false → b ≡ true
not-false true h = refl
not-false false h = cc

module _ {F : Type 0} where
  abbrev pub context_of : ActionEnvelope F → ToolExecutionContext
  context_of a = record {
    is_owner = a.is_owner;
    safe_mode = a.safe_mode;
    channel_type = a.channel_type;
  }

  -- The tool is known, and the context of the action may use it.
  abbrev pub MayUse : ActionEnvelope F → Type 0
  MayUse a = may_use (context_of a) (lookup a.tool_name tool_capabilities) ≡ true

  -- An action that went past the policy names a known tool that its context may use.
  abbrev pub is_authorized : ActionEnvelope F → Bool
  is_authorized a =
      not (ran a.phase) || may_use (context_of a) (lookup a.tool_name tool_capabilities)

  abbrev pub IsAuthorized : ActionEnvelope F → Type 0
  IsAuthorized a = is_authorized a ≡ true

  -- What runs while `begin` has stopped there.
  abbrev pub running_of : Progress F → List (ActionEnvelope F × ToolPolicyDecision)
  running_of (returned r) = []
  running_of (started a d) = (a, d) ∷ []

  record_action-IsAuthorized :
      (a : ActionEnvelope F) (log : ActionLog F)
      → IsAuthorized a
      → All IsAuthorized log.entries
      → All IsAuthorized (record_action a log).entries
  unfolding record_action
  record_action-IsAuthorized a log h all =
      All-push_bounded IsAuthorized log.max_entries a log.entries all h

  -- What holds after a part of `execute`: of the log, and of the action that is started.
  abbrev pub KeepsAuthorized : Executor F × Progress F → Type 0
  KeepsAuthorized r =
      All IsAuthorized r.0.action_log.entries × All (λ e. MayUse e.0) (running_of r.1)

  module _ (c : ToolCall F) (x : Executor F) (h : All IsAuthorized x.action_log.entries) where
    operator_block-KeepsAuthorized : KeepsAuthorized (operator_block c x)
    unfolding operator_block
    operator_block-KeepsAuthorized = (record_action-IsAuthorized _ x.action_log refl h, tt)

    policy_block-KeepsAuthorized :
        (a : ActionEnvelope F) (d : ToolPolicyDecision) → KeepsAuthorized (policy_block c a d x)
    unfolding policy_block
    policy_block-KeepsAuthorized a d = (record_action-IsAuthorized _ x.action_log refl h, tt)

    handler_missing-KeepsAuthorized :
        (a : ActionEnvelope F) → MayUse a → KeepsAuthorized (handler_missing c a x)
    unfolding handler_missing
    handler_missing-KeepsAuthorized a m = (record_action-IsAuthorized _ x.action_log m h, tt)

    after_policy-KeepsAuthorized :
        (d : ToolPolicyDecision)
        → d.allowed ≡ may_use (or_default c.context) (lookup c.tool_name tool_capabilities)
        → KeepsAuthorized (after_policy c d x)
    unfolding after_policy
    after_policy-KeepsAuthorized d e =
        if_cases KeepsAuthorized (not d.allowed) _ _
          (λ denied. policy_block-KeepsAuthorized (checked c.now d (request c)) d)
          (λ allowed.
            let fine : may_use (or_default c.context) (lookup c.tool_name tool_capabilities)
                ≡ true =
              sym e ∙ not-false d.allowed allowed in
            if_cases KeepsAuthorized (not (elem c.tool_name handler_names)) _ _
              (λ missing.
                handler_missing-KeepsAuthorized (checked c.now d (request c))
                  (unfold checked in unfold request in fine))
              (λ found. (h, (unfold checked in unfold request in fine, tt))))

  pub begin-KeepsAuthorized :
      (c : ToolCall F) (x : Executor F)
      → All IsAuthorized x.action_log.entries
      → KeepsAuthorized (begin c x)
  unfolding begin evaluate
  begin-KeepsAuthorized c x h =
      if_cases KeepsAuthorized (is_operator_disabled c.tool_name x.operator) _ _
        (λ off. operator_block-KeepsAuthorized c x h)
        (λ on.
          after_policy-KeepsAuthorized c
            (record x { policy = (evaluate c.tool_name c.context c.now x.policy).0 }) h
            (evaluate c.tool_name c.context c.now x.policy).1
            (decide-may_use c.tool_name (or_default c.context) c.now))

  pub finish-IsAuthorized :
      (a : ActionEnvelope F) (d : ToolPolicyDecision) (o : Outcome F) (now : ℕ) (x : Executor F)
      → MayUse a
      → All IsAuthorized x.action_log.entries
      → All IsAuthorized (finish a d o now x).0.action_log.entries
  unfolding finish
  finish-IsAuthorized a d (answered r) now x m h = record_action-IsAuthorized _ x.action_log m h
  finish-IsAuthorized a d (other_value v) now x m h = record_action-IsAuthorized _ x.action_log m h
  finish-IsAuthorized a d (raised e) now x m h = record_action-IsAuthorized _ x.action_log m h
