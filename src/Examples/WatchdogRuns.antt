-- ===== src/Examples/WatchdogRuns.antt =====
-- agent/core/watchdog.py: a module that went silent, and whose restart raises.
use agent_life_space.Prelude.{
  ℕ, String, true, ◌≡◌, refl, Option, some, List, [], ◌∷◌, arith, lookup, ◌==◌,
}
use agent_life_space.Watchdog.Module.{healthy, unresponsive, ModuleInfo, due, checked}
use agent_life_space.Watchdog.{Watchdog, new, check_and_restart}
use agent_life_space.Watchdog.Restarts.{lookup-check_and_restart, check_and_restart-due}
use agent_life_space.Watchdog.Bounds.{Call, register_call, heartbeat_call, restart_call}

abbrev raising : String → Option String
raising name = some "boom"

abbrev calls : List (Call ℕ)
calls =
    register_call 0 "memory" 30 true 5 60
    ∷ heartbeat_call 10 "memory"
    ∷ restart_call 200 "2026-03-01" raising
    ∷ []

abbrev silent : ModuleInfo
silent = record {
  name = "memory";
  last_heartbeat = 10;
  state = healthy;
  heartbeat_timeout = 30;
  missed_heartbeats = 0;
  has_callback = true;
  restart_count = 0;
  max_restarts = 5;
  last_restart_time = 0;
  restart_cooldown = 60;
}

abbrev watched : Watchdog ℕ
watched = record (new 9000 8500 200) { modules = ("memory", silent) ∷ [] }

lookup-check_and_restart_example :
    lookup "memory" (check_and_restart 200 "2026-03-01" raising watched).modules
    ≡ some (record silent { state = unresponsive; missed_heartbeats = 1 })
unfolding lookup checked ◌==◌
lookup-check_and_restart_example =
    lookup-check_and_restart 200 "2026-03-01" raising "memory" watched

check_and_restart-due_example :
    (m' : ModuleInfo) × (lookup "memory"
        (check_and_restart 200 "2026-03-01" raising watched).modules
      ≡ some m')
    × (m'.restart_count ≡ 0)
    × (due 205 m' ≡ true)
unfolding lookup due checked ◌==◌
check_and_restart-due_example =
    check_and_restart-due 200 205 "2026-03-01" "boom" "memory" raising watched silent refl refl refl
      (omega arith)
