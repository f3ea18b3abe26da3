-- ===== src/Watchdog.antt =====
-- agent/core/watchdog.py: the class Watchdog. Instants of `time.monotonic()` are whole milliseconds,
-- and the clock never goes back, so that a test of `now - t` is written without a subtraction. A
-- method reads the clock once. What a restart callback does, and what the sensors of the machine
-- read, are arguments. The bound of the alerts is positive: with 0, `next` of an empty iterator
-- would raise.
pub mod Module
pub mod Restarts
pub mod Snapshot
mod Alerts
pub mod Bounds
use agent_life_space.Prelude.{
  ℕ, suc, ◌+◌, String, Bool, true, false, Option, none, some, List, [], ◌∷◌, ◌++◌, map, Dict,
  lookup, insert, values, length, drop, filter, push_bounded, ltb, leb, ◌==◌, ◌&&◌, if◌then◌else◌,
}
use agent_life_space.Prelude.Text.{concat, show_nat}
use agent_life_space.Prelude.Float.{Float}
use agent_life_space.Watchdog.Module.{
  ModuleState, healthy, unresponsive, unknown, ModuleInfo, state_value, is_weak, is_healthy,
  is_unresponsive, is_failing, checked, due,
}

pub data AlertType : Type 0 where
  restart_failed max_restarts_exceeded : AlertType

unfoldable pub same_type : AlertType → AlertType → Bool
same_type restart_failed restart_failed = true
same_type max_restarts_exceeded max_restarts_exceeded = true
same_type _ _ = false

pub record Alert : Type 0 where
  pub alert_type : AlertType
  pub of_module : String
  pub message : String
  pub timestamp : String
  pub count : ℕ

pub record SystemHealth (F : Type 0) : Type 0 where
  pub timestamp : String
  pub cpu_percent : F
  pub memory_percent : F
  pub memory_used_mb : F
  pub memory_available_mb : F
  pub disk_percent : F
  pub modules : Dict String
  pub alerts : List String

-- The alerts in the order in which their keys were entered; a key is the type with the module.
pub record Watchdog (F : Type 0) : Type 0 where
  pub modules : Dict ModuleInfo
  pub cpu_threshold : F
  pub memory_threshold : F
  pub health_history : List (SystemHealth F)
  pub alerts : List Alert
  pub max_alerts : ℕ

-- `_add_alert`
unfoldable pub has_key : AlertType → String → Alert → Bool
unfolding same_type
has_key t name a = same_type a.alert_type t && a.of_module == name

-- The alert of the key counts once more, where there is one.
unfoldable pub bump_alert : String → AlertType → String → List Alert → Option (List Alert)
unfolding has_key
bump_alert iso t name [] = none
bump_alert iso t name (a ∷ al) =
    let rest = bump_alert iso t name al in
    if has_key t name a
    then some (record a { count = a.count + 1; timestamp = iso } ∷ al)
    else elim rest [ none ↦ none | some al' ↦ some (a ∷ al') ]

unfoldable pub add_alert : ℕ → String → AlertType → String → String → List Alert → List Alert
unfolding bump_alert
add_alert max_alerts iso t name message al = elim (bump_alert iso t name al) [
  | some al' ↦ al'
  | none ↦
      (if leb max_alerts (length al) then drop 1 al else al)
      ++ record { alert_type = t; of_module = name; message = message; timestamp = iso; count = 1 }
        ∷ []
]

-- What the callback of a module comes to: nothing, or the text of an exception.
abbrev pub restarted : ℕ → ModuleInfo → ModuleInfo
restarted now m = record m {
  restart_count = m.restart_count + 1;
  last_heartbeat = now;
  last_restart_time = now;
  missed_heartbeats = 0;
  state = healthy;
}

-- The body of the loop of `_check_and_restart` for an unresponsive module, whose missed heartbeat is
-- counted. `outcome` is what its callback would do now.
unfoldable pub try_restart :
    ℕ → ℕ → String → Option String → String → ModuleInfo → List Alert → ModuleInfo × List Alert
unfolding add_alert due
try_restart max_alerts now iso outcome name m al =
    if m.has_callback && ltb m.restart_count m.max_restarts
    then (if ltb now (m.last_restart_time + m.restart_cooldown) then (m, al) else elim outcome [
      | none ↦ (restarted now m, al)
      | some text ↦ (m, add_alert max_alerts iso restart_failed name text al)
    ])
    else if leb m.max_restarts m.restart_count
    then (
      m,
      add_alert max_alerts iso max_restarts_exceeded name
          (concat ("Module '" ∷ name ∷ "' exceeded " ∷ show_nat m.max_restarts ∷ " restarts" ∷ []))
          al,
    )
    else (m, al)

unfoldable pub visit :
    ℕ → ℕ → String → Option String → String → ModuleInfo → List Alert → ModuleInfo × List Alert
unfolding try_restart checked
visit max_alerts now iso outcome name m al =
    let m' = checked now m in
    if is_unresponsive m'.state
    then try_restart max_alerts now iso outcome name
        (record m' { missed_heartbeats = m'.missed_heartbeats + 1 }) al
    else (m', al)

-- The loop over the modules, which are updated in place.
unfoldable pub visit_all :
    ℕ
    → ℕ
    → String
    → (String → Option String)
    → Dict ModuleInfo
    → List Alert
    → Dict ModuleInfo × List Alert
unfolding visit
visit_all max_alerts now iso outcomes [] al = ([], al)
visit_all max_alerts now iso outcomes ((name, m) ∷ ms) al =
    let (m', al') = visit max_alerts now iso (outcomes name) name m al in
    let (ms', al'') = visit_all max_alerts now iso outcomes ms al' in ((name, m') ∷ ms', al'')

module _ {F : Type 0} where
  -- `__init__`
  unfoldable pub new : F → F → ℕ → Watchdog F
  new cpu memory max_alerts = record {
    modules = [];
    cpu_threshold = cpu;
    memory_threshold = memory;
    health_history = [];
    alerts = [];
    max_alerts = max_alerts;
  }

  unfoldable pub register_module : ℕ → String → ℕ → Bool → ℕ → ℕ → Watchdog F → Watchdog F
  register_module now name timeout has_callback max_restarts cooldown w = record w {
    modules =
        insert name
          (record {
            name = name;
            last_heartbeat = now;
            state = healthy;
            heartbeat_timeout = timeout;
            missed_heartbeats = 0;
            has_callback = has_callback;
            restart_count = 0;
            max_restarts = max_restarts;
            last_restart_time = 0;
            restart_cooldown = cooldown;
          })
          w.modules;
  }

  unfoldable pub heartbeat : ℕ → String → Watchdog F → Watchdog F
  unfolding is_weak
  heartbeat now name w = elim (lookup name w.modules) [
    | none ↦ w
    | some m ↦ record w {
      modules =
          insert name
            (record m {
              last_heartbeat = now;
              missed_heartbeats = 0;
              state = if is_weak m.state then healthy else m.state;
            })
            w.modules;
    }
  ]

  unfoldable pub check_module_health : ℕ → String → Watchdog F → ModuleState × Watchdog F
  unfolding checked
  check_module_health now name w = elim (lookup name w.modules) [
    | none ↦ (unknown, w)
    | some m ↦ ((checked now m).state, record w { modules = insert name (checked now m) w.modules })
  ]

  -- `_check_and_restart`
  unfoldable pub check_and_restart : ℕ → String → (String → Option String) → Watchdog F → Watchdog F
  unfolding visit_all
  check_and_restart now iso outcomes w =
      let (ms, al) = visit_all w.max_alerts now iso outcomes w.modules w.alerts in
      record w { modules = ms; alerts = al }
