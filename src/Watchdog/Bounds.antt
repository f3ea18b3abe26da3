-- ===== src/Watchdog/Bounds.antt =====
-- agent/core/watchdog.py: what any sequence of calls keeps within bounds.
use agent_life_space.Prelude.{ℕ, ◌≤◌, String, Bool, Option, List, [], ◌∷◌, length, AllIn}
use agent_life_space.Prelude.Float.{Float}
use agent_life_space.Watchdog.{Watchdog, register_module, heartbeat, check_and_restart}
use agent_life_space.Watchdog.Snapshot.{Sensors, snapshot_health, get_module_states}
use agent_life_space.Watchdog.Alerts.{IsBounded}

module _ {F : Type 0} where
  -- No module was restarted more often than it may be, and both lists keep their bounds.
  pub record IsWithinBounds (w : Watchdog F) : Type 0 where
    pub modules_bounded : AllIn IsBounded w.modules
    pub some_alerts : 1 ≤ w.max_alerts
    pub alerts_bounded : length w.alerts ≤ w.max_alerts
    pub history_bounded : length w.health_history ≤ 100

-- One call. The readings of states change the watchdog as `check_all` does.
pub data Call (F : Type 0) : Type 0 where
  register_call : ℕ → String → ℕ → Bool → ℕ → ℕ → Call F
  heartbeat_call : ℕ → String → Call F
  restart_call : ℕ → String → (String → Option String) → Call F
  snapshot_call : ℕ → String → Sensors F → Call F
  states_call : ℕ → Call F

module _ (ops : Float) (show1 : ops.Num → String) where
  open ops use {Num}

  unfoldable pub perform : Call Num → Watchdog Num → Watchdog Num
  perform (register_call now name timeout has_callback max_restarts cooldown) w =
      register_module now name timeout has_callback max_restarts cooldown w
  perform (heartbeat_call now name) w = heartbeat now name w
  perform (restart_call now iso outcomes) w = check_and_restart now iso outcomes w
  perform (snapshot_call now iso read) w = (snapshot_health ops show1 now iso read w).1
  perform (states_call now) w = (get_module_states now w).1

  unfoldable pub perform_all : List (Call Num) → Watchdog Num → Watchdog Num
  perform_all [] w = w
  perform_all (c ∷ cs) w = perform_all cs (perform c w)
