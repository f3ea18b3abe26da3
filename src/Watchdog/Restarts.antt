-- ===== src/Watchdog/Restarts.antt =====
-- agent/core/watchdog.py: when `_check_and_restart` calls the callback of a module.
use agent_life_space.Prelude.{
  ℕ, ◌+◌, ◌≤◌, ◌<◌, String, true, ◌≡◌, refl, Option, none, some, List, [], ◌∷◌, arith, Dict, lookup,
  ◌==◌, if◌then◌else◌, lookup-insert_self, Bool-cases, ap, eq_of_==, inl, inr,
}
use agent_life_space.Watchdog.Module.{healthy, ModuleInfo, checked, due, is_unresponsive}
use agent_life_space.Watchdog.{
  Alert, Watchdog, restarted, try_restart, visit, visit_all, check_and_restart, heartbeat,
  check_module_health,
}

-- What the check makes of a module: restarted where a restart is due and succeeds, else with its new
-- state, and one more missed heartbeat where it is unresponsive.
abbrev pub missed : ModuleInfo → ModuleInfo
missed m =
    if is_unresponsive m.state then record m { missed_heartbeats = m.missed_heartbeats + 1 } else m

abbrev pub after_check : ℕ → Option String → ModuleInfo → ModuleInfo
after_check now none m = if due now m then restarted now (checked now m) else missed (checked now m)
after_check now (some text) m = missed (checked now m)

abbrev pub after_check_found : ℕ → Option String → Option ModuleInfo → Option ModuleInfo
after_check_found now outcome none = none
after_check_found now outcome (some m) = some (after_check now outcome m)

pub visit_module :
    (max_alerts now : ℕ) (iso : String) (outcome : Option String) (name : String) (m : ModuleInfo)
    (al : List Alert)
    → (visit max_alerts now iso outcome name m al).0 ≡ after_check now outcome m
unfolding visit try_restart due
visit_module max_alerts now iso none name m al = ground arith
visit_module max_alerts now iso (some text) name m al = ground arith

lookup-visit_all :
    (max_alerts now : ℕ) (iso : String) (outcomes : String → Option String) (k : String)
    (ms : Dict ModuleInfo) (al : List Alert)
    → lookup k (visit_all max_alerts now iso outcomes ms al).0
      ≡ after_check_found now (outcomes k) (lookup k ms)
unfolding visit_all lookup
lookup-visit_all max_alerts now iso outcomes k [] al = refl
lookup-visit_all max_alerts now iso outcomes k ((name, m) ∷ ms) al =
    let (m', al') = visit max_alerts now iso (outcomes name) name m al in
    elim (Bool-cases (name == k)) [
      | inl same ↦
          rw (same, visit_module max_alerts now iso (outcomes name) name m al)
            (ap (λ o. some (after_check now o m)) (ap outcomes (eq_of_== name k same)))
      | inr other ↦ rw other (lookup-visit_all max_alerts now iso outcomes k ms al')
    ]

still_due :
    (now later : ℕ) (m : ModuleInfo)
    → due now m ≡ true
    → now ≤ later
    → due later (missed (checked now m)) ≡ true
unfolding due checked
still_due now later m d h = ground arith

same_count : (now : ℕ) (m : ModuleInfo) → (missed (checked now m)).restart_count ≡ m.restart_count
unfolding checked
same_count now m = ground arith

module _ {F : Type 0} where
  -- The check restarts exactly the modules that are due and whose callback succeeds: those that are
  -- unresponsive, have a callback and a restart left, and are past their cooldown. Any other module
  -- gets its new state only, and one more missed heartbeat where it is unresponsive.
  pub lookup-check_and_restart :
      (now : ℕ) (iso : String) (outcomes : String → Option String) (k : String) (w : Watchdog F)
      → lookup k (check_and_restart now iso outcomes w).modules
        ≡ after_check_found now (outcomes k) (lookup k w.modules)
  unfolding check_and_restart
  lookup-check_and_restart now iso outcomes k w =
      lookup-visit_all w.max_alerts now iso outcomes k w.modules w.alerts

  -- A restart that is due and fails is not counted and starts no cooldown: as the check leaves it,
  -- the module is due for a restart at that instant and at every later one.
  pub check_and_restart-due :
      (now later : ℕ) (iso text k : String) (outcomes : String → Option String) (w : Watchdog F)
      (m : ModuleInfo)
      → lookup k w.modules ≡ some m
      → due now m ≡ true
      → outcomes k ≡ some text
      → now ≤ later
      → (m' : ModuleInfo) × (lookup k (check_and_restart now iso outcomes w).modules ≡ some m')
        × (m'.restart_count ≡ m.restart_count)
        × (due later m' ≡ true)
  check_and_restart-due now later iso text k outcomes w m here d raises h = (
    missed (checked now m),
    rw (lookup-check_and_restart now iso outcomes k w, here, raises),
    same_count now m,
    still_due now later m d h,
  )

  -- A module is healthy at any check within its timeout after a heartbeat, whatever state it was in.
  pub check_module_health-heartbeat :
      (now later : ℕ) (name : String) (w : Watchdog F) (m : ModuleInfo)
      → lookup name w.modules ≡ some m
      → later < now + m.heartbeat_timeout
      → (check_module_health later name (heartbeat now name w)).0 ≡ healthy
  unfolding heartbeat check_module_health checked
  check_module_health-heartbeat now later name w m here soon =
      rw (here, heartbeat)
        (rw (lookup-insert_self name _ w.modules, check_module_health) (ground arith))
