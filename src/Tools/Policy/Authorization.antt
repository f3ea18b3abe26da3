-- ===== src/Tools/Policy/Authorization.antt =====
-- agent/core/tool_policy.py: who may use which tool.
use agent_life_space.Prelude.{
  ℕ, String, Bool, true, false, Option, none, some, ◌≡◌, ◌≢◌, refl, inl, inr, Option-cases, lookup,
  not, ◌&&◌, ◌||◌, arith,
}
use agent_life_space.Tools.Capabilities.{
  ToolCapability, is_external, is_guarded, tool_capabilities, lookup-tool_capabilities,
}
use agent_life_space.Tools.Policy.{
  ToolExecutionContext, is_restricted, decide, approval_required, refusal,
}

-- The rule that the branches of `evaluate` amount to.
abbrev pub may_use : ToolExecutionContext → Option ToolCapability → Bool
may_use ctx none = false
may_use ctx (some cap) =
    not ((is_restricted ctx || ctx.safe_mode) && cap.safe_mode_blocked)
    && (ctx.is_owner || not cap.owner_only)

-- The context of a stranger, of safe mode or of a restricted channel.
abbrev pub is_trusted : ToolExecutionContext → Bool
is_trusted ctx = ctx.is_owner && not ctx.safe_mode && not (is_restricted ctx)

module _ (name : String) (ctx : ToolExecutionContext) (now : ℕ) where
  decide-guarded :
      (cap : ToolCapability)
      → is_guarded cap ≡ true
      → (decide name ctx now (some cap)).allowed ≡ may_use ctx (some cap)
  unfolding decide refusal
  decide-guarded cap g = ground arith

  pub decide-may_use :
      (decide name ctx now (lookup name tool_capabilities)).allowed
      ≡ may_use ctx (lookup name tool_capabilities)
  decide-may_use = elim (Option-cases (lookup name tool_capabilities)) [
    | inl e ↦ rw e (unfold decide in refl)
    | inr (cap, e) ↦ rw e (decide-guarded cap (lookup-tool_capabilities name cap e))
  ]

  decide_trusted :
      (cap : ToolCapability)
      → is_guarded cap ≡ true
      → is_external (decide name ctx now (some cap)).side_effect ≡ true
      → (decide name ctx now (some cap)).allowed ≡ true
      → is_trusted ctx ≡ true
  unfolding decide refusal
  decide_trusted cap g x a = ground arith

  pub decide-IsTrusted :
      is_external (decide name ctx now (lookup name tool_capabilities)).side_effect ≡ true
      → (decide name ctx now (lookup name tool_capabilities)).allowed ≡ true
      → is_trusted ctx ≡ true
  decide-IsTrusted = elim (Option-cases (lookup name tool_capabilities)) [
    | inl e ↦ rw e (λ x a. unfold decide in cc)
    | inr (cap, e) ↦ rw e (decide_trusted cap (lookup-tool_capabilities name cap e))
  ]

  decide_guarded_code :
      (cap : ToolCapability)
      → is_guarded cap ≡ true
      → (decide name ctx now (some cap)).denial_code ≢ some approval_required
  unfolding decide refusal
  decide_guarded_code cap g = ground arith

  -- No tool of the table asks for an approval.
  pub decide-code :
      (decide name ctx now (lookup name tool_capabilities)).denial_code ≢ some approval_required
  decide-code = elim (Option-cases (lookup name tool_capabilities)) [
    | inl e ↦ rw e (unfold decide in λ x. cc)
    | inr (cap, e) ↦ rw e (decide_guarded_code cap (lookup-tool_capabilities name cap e))
  ]
