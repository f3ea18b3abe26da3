-- ===== src/Tools/Capabilities.antt =====
-- agent/core/tool_policy.py: the classes of tools and the table TOOL_CAPABILITIES.
use agent_life_space.Prelude.{
  String, Bool, true, false, some, [], ◌∷◌, ◌≡◌, refl, Dict, lookup, AllIn, AllIn-lookup, not, ◌||◌,
  ◌&&◌,
}

pub data ToolRiskLevel : Type 0 where
  low medium high : ToolRiskLevel

pub data SideEffectClass : Type 0 where
  no_effect internal external destructive : SideEffectClass

pub data ApprovalRequirement : Type 0 where
  never in_safe_mode always : ApprovalRequirement

unfoldable pub risk_value : ToolRiskLevel → String
risk_value low = "low"
risk_value medium = "medium"
risk_value high = "high"

unfoldable pub effect_value : SideEffectClass → String
effect_value no_effect = "none"
effect_value internal = "internal"
effect_value external = "external"
effect_value destructive = "destructive"

unfoldable pub approval_value : ApprovalRequirement → String
approval_value never = "never"
approval_value in_safe_mode = "safe_mode"
approval_value always = "always"

-- cap.approval == ApprovalRequirement.ALWAYS
abbrev pub is_always : ApprovalRequirement → Bool
is_always always = true
is_always _ = false

-- cap.side_effect in (SideEffectClass.EXTERNAL, SideEffectClass.DESTRUCTIVE)
abbrev pub is_external : SideEffectClass → Bool
is_external external = true
is_external destructive = true
is_external _ = false

pub record ToolCapability : Type 0 where
  pub name : String
  pub risk_level : ToolRiskLevel
  pub side_effect : SideEffectClass
  pub owner_only : Bool
  pub safe_mode_blocked : Bool
  pub approval : ApprovalRequirement
  pub audit_label : String

-- TOOL_CAPABILITIES
unfoldable pub tool_capabilities : Dict ToolCapability
tool_capabilities =
    (
      "store_memory",
      record {
        name = "store_memory";
        risk_level = low;
        side_effect = internal;
        owner_only = false;
        safe_mode_blocked = false;
        approval = never;
        audit_label = "memory:write";
      },
    )
    ∷ (
      "query_memory",
      record {
        name = "query_memory";
        risk_level = low;
        side_effect = no_effect;
        owner_only = false;
        safe_mode_blocked = false;
        approval = never;
        audit_label = "memory:read";
      },
    )
    ∷ (
      "list_tasks",
      record {
        name = "list_tasks";
        risk_level = low;
        side_effect = no_effect;
        owner_only = false;
        safe_mode_blocked = false;
        approval = never;
        audit_label = "tasks:read";
      },
    )
    ∷ (
      "check_health",
      record {
        name = "check_health";
        risk_level = low;
        side_effect = no_effect;
        owner_only = false;
        safe_mode_blocked = false;
        approval = never;
        audit_label = "system:health";
      },
    )
    ∷ (
      "get_status",
      record {
        name = "get_status";
        risk_level = low;
        side_effect = no_effect;
        owner_only = false;
        safe_mode_blocked = false;
        approval = never;
        audit_label = "system:status";
      },
    )
    ∷ (
      "search_knowledge",
      record {
        name = "search_knowledge";
        risk_level = low;
        side_effect = no_effect;
        owner_only = false;
        safe_mode_blocked = false;
        approval = never;
        audit_label = "knowledge:read";
      },
    )
    ∷ (
      "create_task",
      record {
        name = "create_task";
        risk_level = medium;
        side_effect = internal;
        owner_only = true;
        safe_mode_blocked = true;
        approval = in_safe_mode;
        audit_label = "tasks:create";
      },
    )
    ∷ (
      "web_fetch",
      record {
        name = "web_fetch";
        risk_level = medium;
        side_effect = external;
        owner_only = true;
        safe_mode_blocked = true;
        approval = in_safe_mode;
        audit_label = "network:fetch";
      },
    )
    ∷ (
      "run_code",
      record {
        name = "run_code";
        risk_level = high;
        side_effect = external;
        owner_only = true;
        safe_mode_blocked = true;
        approval = in_safe_mode;
        audit_label = "sandbox:execute";
      },
    )
    ∷ (
      "run_tests",
      record {
        name = "run_tests";
        risk_level = high;
        side_effect = external;
        owner_only = true;
        safe_mode_blocked = true;
        approval = in_safe_mode;
        audit_label = "sandbox:test";
      },
    )
    ∷ []

-- A tool that reaches outside is kept from strangers, from safe mode and from restricted channels,
-- and no tool asks for an approval.
abbrev pub is_guarded : ToolCapability → Bool
is_guarded c =
    (not (is_external c.side_effect) || (c.owner_only && c.safe_mode_blocked))
    && not (is_always c.approval)

tool_capabilities-IsGuarded : AllIn (λ k c. is_guarded c ≡ true) tool_capabilities
unfolding tool_capabilities
tool_capabilities-IsGuarded =
    (refl, (refl, (refl, (refl, (refl, (refl, (refl, (refl, (refl, (refl, tt))))))))))

pub lookup-tool_capabilities :
    (k : String) (c : ToolCapability) → lookup k tool_capabilities ≡ some c → is_guarded c ≡ true
lookup-tool_capabilities k c e =
    AllIn-lookup (λ j c'. is_guarded c' ≡ true) k c tool_capabilities tool_capabilities-IsGuarded e
