-- ===== src/Tools/Operator.antt =====
-- agent/core/operator.py: the class OperatorControls. `time.time()` is an argument; the loops of
-- `lockdown` and `unlock` take one reading for all their calls. Log lines are left out.
pub mod Lockdown
use agent_life_space.Prelude.{
  ℕ, String, Bool, true, false, Option, none, some, List, [], ◌∷◌, Dict, lookup, insert, erase,
  keys, length, filter, newest, not, push_bounded, if◌then◌else◌, leb,
}
use agent_life_space.Tools.Capabilities.{ToolCapability, is_external, tool_capabilities}

pub record CapabilityOverride : Type 0 where
  pub tool_name : String
  pub enabled : Bool
  pub reason : String
  pub set_by : String
  pub set_at : ℕ

-- The dict that `_record` builds.
pub record Toggle : Type 0 where
  pub action : String
  pub tool : String
  pub reason : String
  pub by : String
  pub timestamp : ℕ

pub record Controls : Type 0 where
  pub overrides : Dict CapabilityOverride
  pub history : List Toggle
  pub max_history : ℕ

unfoldable pub new : Controls
new = record { overrides = []; history = []; max_history = 200 }

unfoldable pub record_toggle : String → String → String → String → ℕ → Controls → Controls
unfolding push_bounded
record_toggle action tool reason by now c =
    let t : Toggle = record {
      action = action;
      tool = tool;
      reason = reason;
      by = by;
      timestamp = now;
    } in
    record c { history = push_bounded c.max_history t c.history }

unfoldable pub disable : String → String → String → ℕ → Controls → Controls
unfolding record_toggle
disable tool reason by now c =
    let o : CapabilityOverride = record {
      tool_name = tool;
      enabled = false;
      reason = reason;
      set_by = by;
      set_at = now;
    } in
    record_toggle "disabled" tool reason by now (record c { overrides = insert tool o c.overrides })

-- `del` of a key behind the test that it is there is `erase`.
unfoldable pub enable : String → String → String → ℕ → Controls → Controls
unfolding record_toggle
enable tool reason by now c =
    record_toggle "enabled" tool reason by now (record c { overrides = erase tool c.overrides })

abbrev is_off : Option CapabilityOverride → Bool
is_off none = false
is_off (some o) = not o.enabled

unfoldable pub is_disabled : String → Controls → Bool
is_disabled tool c = is_off (lookup tool c.overrides)

abbrev off_reason : Option CapabilityOverride → String
off_reason none = ""
off_reason (some o) = if not o.enabled then o.reason else ""

unfoldable pub get_disabled_reason : String → Controls → String
get_disabled_reason tool c = off_reason (lookup tool c.overrides)

-- The loop of `lockdown` over the items of the table.
unfoldable pub lock_tools : String → String → ℕ → Dict ToolCapability → Controls → Controls
unfolding disable
lock_tools reason by now [] c = c
lock_tools reason by now ((name, cap) ∷ rest) c =
    lock_tools reason by now rest
      (if is_external cap.side_effect then disable name reason by now c else c)

unfoldable pub lockdown : String → String → ℕ → Controls → Controls
unfolding lock_tools
lockdown reason by now c = lock_tools reason by now tool_capabilities c

-- The loop of `unlock` over the keys that were there at its start.
unfoldable pub enable_each : String → String → ℕ → List String → Controls → Controls
unfolding enable
enable_each reason by now [] c = c
enable_each reason by now (tool ∷ rest) c =
    enable_each reason by now rest (enable tool reason by now c)

unfoldable pub unlock : String → String → ℕ → Controls → Controls
unfolding enable_each
unlock reason by now c = enable_each reason by now (keys c.overrides) c

-- The answer of `get_status`.
pub record ControlStatus : Type 0 where
  pub disabled_tools : Dict CapabilityOverride
  pub total_disabled : ℕ
  pub in_lockdown : Bool

unfoldable pub get_status : Controls → ControlStatus
get_status c =
    let disabled = filter (λ e. not e.1.enabled) c.overrides in
    record {
      disabled_tools = disabled;
      total_disabled = length disabled;
      in_lockdown = leb 3 (length disabled);
    }

unfoldable pub get_history : ℕ → Controls → List Toggle
unfolding newest
get_history limit c = newest limit c.history
