-- ===== src/Tools/Policy/Simulation.antt =====
-- agent/core/tool_policy.py: `simulate` foretells `evaluate`.
use agent_life_space.Prelude.{ℕ, String, Option, none, some, ◌≡◌, refl, lookup, arith, ◌==◌}
use agent_life_space.Json.{Fields, get_field, str, bool, opt_str}
use agent_life_space.Tools.Capabilities.{
  ToolCapability, risk_value, effect_value, tool_capabilities,
}
use agent_life_space.Tools.Policy.{
  ToolExecutionContext, ToolPolicyDecision, PolicyAuditLog, or_default, opt_code, decide, refusal,
  evaluate, simulate, simulate_found, verdict, code_value,
}

abbrev pub Agrees : (F : Type 0) → Fields F → ToolPolicyDecision → Type 0
Agrees F d r =
    (get_field "would_allow" d ≡ some (bool r.allowed))
    × (get_field "risk_level" d ≡ some (str (risk_value r.risk_level)))
    × (get_field "side_effect" d ≡ some (str (effect_value r.side_effect)))
    × (get_field "denial_code" d ≡ some (opt_str (opt_code r.denial_code)))

module _ (F : Type 0) (name : String) (ctx : ToolExecutionContext) (now : ℕ) where
  verdict_decide :
      (cap : ToolCapability)
      → ((verdict ctx cap).0 ≡ (decide name ctx now (some cap)).allowed)
        × ((verdict ctx cap).1 ≡ opt_code (decide name ctx now (some cap)).denial_code)
        × ((decide name ctx now (some cap)).risk_level ≡ cap.risk_level)
        × ((decide name ctx now (some cap)).side_effect ≡ cap.side_effect)
  unfolding verdict decide opt_code code_value refusal
  verdict_decide cap = (ground arith, ground arith, ground arith, ground arith)

  simulate_found_lem :
      (o : Option ToolCapability) → Agrees F (simulate_found name ctx o) (decide name ctx now o)
  unfolding simulate_found get_field ◌==◌
  simulate_found_lem none = unfold decide in unfold opt_code in (refl, refl, refl, refl)
  simulate_found_lem (some cap) =
      let v = verdict_decide cap in (rw v.0 refl, rw v.2 refl, rw v.3 refl, rw v.1 refl)

-- `simulate` gives the answer, the risk, the side effect and the denial code that `evaluate` gives
-- for the same tool and context at any time and with any audit log.
pub simulate-evaluate :
    (F : Type 0) (name : String) (context : Option ToolExecutionContext) (now : ℕ)
    (log : PolicyAuditLog)
    → Agrees F (simulate name context) (evaluate name context now log).1
unfolding simulate evaluate
simulate-evaluate F name context now log =
    simulate_found_lem F name (or_default context) now (lookup name tool_capabilities)
