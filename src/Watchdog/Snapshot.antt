-- ===== src/Watchdog/Snapshot.antt =====
-- agent/core/watchdog.py: `snapshot_health` and what is read of the watchdog.
use agent_life_space.Prelude.{
  ℕ, String, Option, none, some, List, [], ◌∷◌, ◌++◌, Dict, push_bounded, if◌then◌else◌,
}
use agent_life_space.Prelude.Text.{concat}
use agent_life_space.Prelude.Float.{Float}
use agent_life_space.Watchdog.Module.{ModuleInfo, state_value, is_failing, checked}
use agent_life_space.Watchdog.{SystemHealth, Watchdog}

-- What `psutil` reads; the megabytes are rounded, and the disk is 0 where its reading raises.
pub record Sensors (F : Type 0) : Type 0 where
  pub cpu : F
  pub memory : F
  pub used_mb : F
  pub available_mb : F
  pub disk : F

-- `check_module_health` of every module, in place.
unfoldable pub check_all : ℕ → Dict ModuleInfo → Dict ModuleInfo
unfolding checked
check_all now [] = []
check_all now ((name, m) ∷ ms) = (name, checked now m) ∷ check_all now ms

unfoldable pub states_of : Dict ModuleInfo → Dict String
unfolding state_value
states_of [] = []
states_of ((name, m) ∷ ms) = (name, state_value m.state) ∷ states_of ms

-- The alerts of the snapshot about modules.
unfoldable pub module_alerts : Dict ModuleInfo → List String
unfolding state_value is_failing
module_alerts [] = []
module_alerts ((name, m) ∷ ms) =
    let rest = module_alerts ms in
    if is_failing m.state
    then concat ("Module '" ∷ name ∷ "' is " ∷ state_value m.state ∷ []) ∷ rest
    else rest

abbrev last : {A : Type 0} → List A → Option A
last [] = none
last (x ∷ []) = some x
last (x ∷ y ∷ xs) = last (y ∷ xs)

module _ (ops : Float) (show1 : ops.Num → String) where
  open ops use {Num, lt, show}

  -- `show1 x` is `f"{x:.1f}"`.
  abbrev threshold_alert : String → Num → Num → List String
  threshold_alert label x top =
      if lt top x
      then concat (label ∷ " at " ∷ show1 x ∷ "% (threshold: " ∷ show top ∷ "%)" ∷ []) ∷ []
      else []

  unfoldable pub snapshot_health :
      ℕ → String → Sensors Num → Watchdog Num → SystemHealth Num × Watchdog Num
  unfolding check_all states_of module_alerts push_bounded
  snapshot_health now iso read w =
      let modules = check_all now w.modules in
      let health : SystemHealth Num = record {
        timestamp = iso;
        cpu_percent = read.cpu;
        memory_percent = read.memory;
        memory_used_mb = read.used_mb;
        memory_available_mb = read.available_mb;
        disk_percent = read.disk;
        modules = states_of modules;
        alerts =
            threshold_alert "CPU" read.cpu w.cpu_threshold
            ++ threshold_alert "Memory" read.memory w.memory_threshold
            ++ module_alerts modules;
      } in
      (
        health,
        record w { modules = modules; health_history = push_bounded 100 health w.health_history },
      )

module _ {F : Type 0} where
  unfoldable pub get_last_health : Watchdog F → Option (SystemHealth F)
  get_last_health w = last w.health_history

  unfoldable pub get_module_states : ℕ → Watchdog F → Dict String × Watchdog F
  unfolding check_all states_of
  get_module_states now w =
      let modules = check_all now w.modules in (states_of modules, record w { modules = modules })
