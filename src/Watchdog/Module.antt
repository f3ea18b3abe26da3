-- ===== src/Watchdog/Module.antt =====
-- agent/core/watchdog.py: ModuleState, ModuleInfo, and the tests on one module.
use agent_life_space.Prelude.{ℕ, ◌+◌, ◌*◌, String, Bool, true, false, ltb, ◌&&◌, not, if◌then◌else◌}

pub data ModuleState : Type 0 where
  healthy degraded unhealthy unresponsive unknown : ModuleState

unfoldable pub state_value : ModuleState → String
state_value healthy = "healthy"
state_value degraded = "degraded"
state_value unhealthy = "unhealthy"
state_value unresponsive = "unresponsive"
state_value unknown = "unknown"

-- The states that a heartbeat lifts at once, and those that an alert of the snapshot names.
unfoldable pub is_weak : ModuleState → Bool
is_weak degraded = true
is_weak unhealthy = true
is_weak _ = false

unfoldable pub is_failing : ModuleState → Bool
is_failing unhealthy = true
is_failing unresponsive = true
is_failing _ = false

abbrev pub is_healthy : ModuleState → Bool
is_healthy healthy = true
is_healthy _ = false

abbrev pub is_unresponsive : ModuleState → Bool
is_unresponsive unresponsive = true
is_unresponsive _ = false

-- `has_callback` says that there is a `restart_callback`.
pub record ModuleInfo : Type 0 where
  pub name : String
  pub last_heartbeat : ℕ
  pub state : ModuleState
  pub heartbeat_timeout : ℕ
  pub missed_heartbeats : ℕ
  pub has_callback : Bool
  pub restart_count : ℕ
  pub max_restarts : ℕ
  pub last_restart_time : ℕ
  pub restart_cooldown : ℕ

-- The body of `check_module_health`.
unfoldable pub checked : ℕ → ModuleInfo → ModuleInfo
checked now m = record m {
  state =
      if ltb now (m.last_heartbeat + m.heartbeat_timeout)
      then healthy
      else if ltb now (m.last_heartbeat + m.heartbeat_timeout * 2)
      then degraded
      else if ltb now (m.last_heartbeat + m.heartbeat_timeout * 3)
      then unhealthy
      else unresponsive;
}

-- The conditions on which `_check_and_restart` calls the callback of a module.
unfoldable pub due : ℕ → ModuleInfo → Bool
unfolding checked
due now m =
    is_unresponsive (checked now m).state
    && m.has_callback
    && ltb m.restart_count m.max_restarts
    && not (ltb now (m.last_restart_time + m.restart_cooldown))
