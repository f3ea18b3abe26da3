-- ===== src/Tools/Executor/Lockdown.antt =====
-- agent/core/tool_executor.py and agent/core/operator.py: the executor under a lockdown.
use agent_life_space.Prelude.{
  ℕ, ◌+◌, String, Bool, true, false, some, ◌≡◌, refl, elem, ◌||◌, ◌&&◌, not, inl, inr, Bool-cases,
  if_cases, ◌∙◌,
}
use agent_life_space.Tools.Capabilities.{tool_capabilities, is_external}
use agent_life_space.Tools.Policy.{ToolExecutionContext, ToolPolicyDecision, or_default, evaluate}
use agent_life_space.Tools.Policy.Authorization.{is_trusted, decide-IsTrusted}
use agent_life_space.Tools.Operator.{Controls, lockdown}
use agent_life_space.Tools.Operator.Lockdown.{outside_names, is_disabled-lockdown}
use agent_life_space.Tools.Calls.{
  Executor, Progress, returned, started, ToolCall, is_operator_disabled, handler_names,
}
use agent_life_space.Tools.Refusals.{operator_block, policy_block, handler_missing}
use agent_life_space.Tools.Executor.Safety.{not-false}
use agent_life_space.Tools.Executor.{begin, after_policy}

module _ {F : Type 0} where
  abbrev pub is_started : Progress F → Bool
  is_started (returned r) = false
  is_started (started a d) = true

  -- If a handler starts, the operator did not disable the tool, and a tool that reaches outside
  -- has a trusted context.
  abbrev pub starts_trusted : ToolExecutionContext → Bool → Progress F → Bool
  starts_trusted ctx off (returned r) = true
  starts_trusted ctx off (started a d) =
      not off && (not (is_external d.side_effect) || is_trusted ctx)

  after_policy-starts_trusted :
      (c : ToolCall F) (d : ToolPolicyDecision) (x : Executor F)
      → (is_external d.side_effect ≡ true
          → d.allowed ≡ true
          → is_trusted (or_default c.context) ≡ true)
      → starts_trusted (or_default c.context) false (after_policy c d x).1 ≡ true
  unfolding after_policy policy_block handler_missing
  after_policy-starts_trusted c d x t =
      if_cases {A = Executor F × Progress F}
        (λ r. starts_trusted (or_default c.context) false r.1 ≡ true) (not d.allowed) _ _
        (λ denied. refl)
        (λ allowed.
          if_cases {A = Executor F × Progress F}
            (λ r. starts_trusted (or_default c.context) false r.1 ≡ true)
            (not (elem c.tool_name handler_names)) _ _ (λ missing. refl)
            (λ found. elim (Bool-cases (is_external d.side_effect)) [
              | inl y ↦ rw y (t y (not-false d.allowed allowed))
              | inr n ↦ rw n refl
            ]))

  -- The handler of a tool whose side effect is external or destructive starts only for the owner,
  -- outside safe mode and off the restricted channels; and no handler starts of a tool that the
  -- operator has disabled.
  pub begin-starts_trusted :
      (c : ToolCall F) (x : Executor F)
      → starts_trusted
          (or_default c.context)
          (is_operator_disabled c.tool_name x.operator)
          (begin c x).1
        ≡ true
  unfolding begin evaluate operator_block
  begin-starts_trusted c x = elim (Bool-cases (is_operator_disabled c.tool_name x.operator)) [
    | inl off ↦ rw off refl
    | inr on ↦ rw on (
        after_policy-starts_trusted c (evaluate c.tool_name c.context c.now x.policy).1
          (record x { policy = (evaluate c.tool_name c.context c.now x.policy).0 })
          (decide-IsTrusted c.tool_name (or_default c.context) c.now))
  ]

  -- Under the controls after a lockdown, a call of a tool whose side effect is external or
  -- destructive returns at once, whoever calls: no handler starts, the call is counted as blocked,
  -- and the policy is not asked.
  pub begin-lockdown :
      (c : ToolCall F) (reason by : String) (now : ℕ) (controls : Controls) (x : Executor F)
      → x.operator ≡ some (lockdown reason by now controls)
      → elem c.tool_name (outside_names tool_capabilities) ≡ true
      → (is_started (begin c x).1 ≡ false)
        × ((begin c x).0.blocked_count ≡ x.blocked_count + 1)
        × ((begin c x).0.call_count ≡ x.call_count)
        × ((begin c x).0.policy ≡ x.policy)
  unfolding begin operator_block
  begin-lockdown c reason by now controls x e h =
      let off : is_operator_disabled c.tool_name x.operator ≡ true =
        rw e ((is_disabled-lockdown reason by now "" "" 0 c.tool_name controls).0 ∙ rw h refl) in
      rw off (refl, refl, refl, refl)
