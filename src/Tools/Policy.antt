-- ===== src/Tools/Policy.antt =====
-- agent/core/tool_policy.py: the classes PolicyAuditLog and ToolPolicy. `time.time()` is an
-- argument. Log lines are left out.
pub mod Authorization
pub mod Simulation
use agent_life_space.Prelude.{
  ℕ, String, Bool, true, false, Option, none, some, List, [], ◌∷◌, Dict, lookup, elem, length,
  filter, newest, map, values, keys, not, push_bounded, ◌&&◌, if◌then◌else◌,
}
use agent_life_space.Prelude.Text.{concat}
use agent_life_space.Json.{Fields, end, field, str, bool, opt_str}
use agent_life_space.Tools.Capabilities.{
  ToolRiskLevel, high, SideEffectClass, external, ToolCapability, risk_value, effect_value,
  approval_value, is_always, tool_capabilities,
}

pub record ToolExecutionContext : Type 0 where
  pub is_owner : Bool
  pub safe_mode : Bool
  pub channel_type : String

-- `context or ToolExecutionContext()`
unfoldable pub or_default : Option ToolExecutionContext → ToolExecutionContext
or_default none = record { is_owner = true; safe_mode = false; channel_type = "internal" }
or_default (some ctx) = ctx

pub data DenialCode : Type 0 where
  blocked_in_safe_mode owner_only unknown_tool approval_required restricted_channel : DenialCode

unfoldable pub code_value : DenialCode → String
code_value blocked_in_safe_mode = "safe_mode"
code_value owner_only = "owner_only"
code_value unknown_tool = "unknown_tool"
code_value approval_required = "approval_required"
code_value restricted_channel = "restricted_channel"

-- decision.denial_code.value if decision.denial_code else None
unfoldable pub opt_code : Option DenialCode → Option String
unfolding code_value
opt_code none = none
opt_code (some c) = some (code_value c)

pub record ToolPolicyDecision : Type 0 where
  pub allowed : Bool
  pub risk_level : ToolRiskLevel
  pub side_effect : SideEffectClass
  pub audit_label : String
  pub reason : String
  pub denial_code : Option DenialCode
  pub timestamp : ℕ

-- The dict that `PolicyAuditLog.record` builds.
pub record AuditEntry : Type 0 where
  pub tool : String
  pub allowed : Bool
  pub risk_level : String
  pub side_effect : String
  pub audit_label : String
  pub reason : String
  pub denial_code : Option String
  pub is_owner : Bool
  pub safe_mode : Bool
  pub channel : String
  pub timestamp : ℕ

pub record PolicyAuditLog : Type 0 where
  pub max_entries : ℕ
  pub entries : List AuditEntry

unfoldable pub new : PolicyAuditLog
new = record { max_entries = 1000; entries = [] }

unfoldable pub entry_of : ToolPolicyDecision → String → ToolExecutionContext → AuditEntry
unfolding opt_code risk_value effect_value
entry_of d name ctx = record {
  tool = name;
  allowed = d.allowed;
  risk_level = risk_value d.risk_level;
  side_effect = effect_value d.side_effect;
  audit_label = d.audit_label;
  reason = d.reason;
  denial_code = opt_code d.denial_code;
  is_owner = ctx.is_owner;
  safe_mode = ctx.safe_mode;
  channel = ctx.channel_type;
  timestamp = d.timestamp;
}

-- `PolicyAuditLog.record`
unfoldable pub record_decision :
    ToolPolicyDecision → String → ToolExecutionContext → PolicyAuditLog → PolicyAuditLog
unfolding entry_of push_bounded
record_decision d name ctx log = record log {
  entries = push_bounded log.max_entries (entry_of d name ctx) log.entries;
}

unfoldable pub get_recent : ℕ → PolicyAuditLog → List AuditEntry
unfolding newest
get_recent limit log = newest limit log.entries

unfoldable pub get_blocked : ℕ → PolicyAuditLog → List AuditEntry
unfolding newest
get_blocked limit log = newest limit (filter (λ e. not e.allowed) log.entries)

unfoldable pub total_decisions : PolicyAuditLog → ℕ
total_decisions log = length log.entries

unfoldable pub total_blocked : PolicyAuditLog → ℕ
total_blocked log = length (filter (λ e. not e.allowed) log.entries)

abbrev restricted_channels : List String
restricted_channels = "agent_api" ∷ "webhook" ∷ "public" ∷ []

-- ctx.channel_type in restricted_channels
unfoldable pub is_restricted : ToolExecutionContext → Bool
unfolding elem
is_restricted ctx = elem ctx.channel_type restricted_channels

-- The decision of a branch that refuses a known tool.
unfoldable pub refusal : ToolCapability → List String → DenialCode → ℕ → ToolPolicyDecision
unfolding concat
refusal cap reason code now = record {
  allowed = false;
  risk_level = cap.risk_level;
  side_effect = cap.side_effect;
  audit_label = cap.audit_label;
  reason = concat reason;
  denial_code = some code;
  timestamp = now;
}

-- The branches of `evaluate`, in its order.
unfoldable pub decide :
    String → ToolExecutionContext → ℕ → Option ToolCapability → ToolPolicyDecision
unfolding concat refusal is_restricted
decide name ctx now none = record {
  allowed = false;
  risk_level = high;
  side_effect = external;
  audit_label = concat ("unknown:" ∷ name ∷ []);
  reason =
      concat ("Unknown tool '" ∷ name ∷ "' — not in capability manifest. Denied by default." ∷ []);
  denial_code = some unknown_tool;
  timestamp = now;
}
decide name ctx now (some cap) =
    if is_restricted ctx && cap.safe_mode_blocked
    then refusal cap
        ("Tool '" ∷ name ∷ "' blocked on restricted channel '" ∷ ctx.channel_type
          ∷ "'. Use private channel for this operation." ∷ [])
        restricted_channel now
    else if ctx.safe_mode && cap.safe_mode_blocked
    then refusal cap
        ("Tool '" ∷ name ∷ "' is blocked in safe mode. Requires owner-approved private context."
          ∷ [])
        blocked_in_safe_mode now
    else if not ctx.is_owner && cap.owner_only
    then refusal cap
        ("Tool '" ∷ name
          ∷ "' is owner-only because it can trigger external actions or code execution." ∷ [])
        owner_only now
    else if is_always cap.approval
    then refusal cap ("Tool '" ∷ name ∷ "' requires explicit approval before execution." ∷ [])
        approval_required now
    else record {
      allowed = true;
      risk_level = cap.risk_level;
      side_effect = cap.side_effect;
      audit_label = cap.audit_label;
      reason = "";
      denial_code = none;
      timestamp = now;
    }

unfoldable pub evaluate :
    String → Option ToolExecutionContext → ℕ → PolicyAuditLog → PolicyAuditLog × ToolPolicyDecision
unfolding or_default decide record_decision
evaluate name context now log =
    let ctx = or_default context in
    let d = decide name ctx now (lookup name tool_capabilities) in
    (record_decision d name ctx log, d)

-- What `simulate` says of a known tool: `would_allow`, `denial_code` and `denial_reason`.
unfoldable pub verdict : ToolExecutionContext → ToolCapability → Bool × Option String × String
unfolding concat code_value is_restricted
verdict ctx cap =
    if is_restricted ctx && cap.safe_mode_blocked
    then (
      false,
      some (code_value restricted_channel),
      concat ("Blocked on restricted channel '" ∷ ctx.channel_type ∷ "'" ∷ []),
    )
    else if ctx.safe_mode && cap.safe_mode_blocked
    then (false, some (code_value blocked_in_safe_mode), "Blocked in safe mode")
    else if not ctx.is_owner && cap.owner_only
    then (false, some (code_value owner_only), "Owner-only tool")
    else if is_always cap.approval
    then (false, some (code_value approval_required), "Requires explicit approval")
    else (true, none, "")

module _ {F : Type 0} where
  unfoldable pub simulate_found : String → ToolExecutionContext → Option ToolCapability → Fields F
  unfolding verdict risk_value effect_value approval_value opt_str
  simulate_found name ctx none = field "tool" (str name) (
      field "would_allow" (bool false) (
        field "risk_level" (str "high") (
          field "side_effect" (str "external") (
            field "denial_code" (str "unknown_tool")
              (field "note" (str "Tool not in manifest — denied by default") end)))))
  simulate_found name ctx (some cap) =
      let v = verdict ctx cap in
      field "tool" (str name) (
        field "would_allow" (bool v.0) (
          field "risk_level" (str (risk_value cap.risk_level)) (
            field "side_effect" (str (effect_value cap.side_effect)) (
              field "owner_only" (bool cap.owner_only) (
                field "safe_mode_blocked" (bool cap.safe_mode_blocked) (
                  field "approval" (str (approval_value cap.approval))
                    (field "denial_code" (opt_str v.1) (field "denial_reason" (str v.2) end))))))))

  unfoldable pub simulate : String → Option ToolExecutionContext → Fields F
  unfolding simulate_found or_default
  simulate name context = simulate_found name (or_default context) (lookup name tool_capabilities)

  unfoldable pub simulate_all : Option ToolExecutionContext → List (Fields F)
  unfolding simulate
  simulate_all context = map (λ name. simulate name context) (keys tool_capabilities)

  unfoldable pub manifest_entry : ToolCapability → Fields F
  unfolding risk_value effect_value approval_value
  manifest_entry cap = field "name" (str cap.name) (
      field "risk_level" (str (risk_value cap.risk_level)) (
        field "side_effect" (str (effect_value cap.side_effect)) (
          field "owner_only" (bool cap.owner_only) (
            field "safe_mode_blocked" (bool cap.safe_mode_blocked) (
              field "approval" (str (approval_value cap.approval))
                (field "audit_label" (str cap.audit_label) end))))))

  unfoldable pub get_manifest : List (Fields F)
  unfolding manifest_entry
  get_manifest = map manifest_entry (values tool_capabilities)
