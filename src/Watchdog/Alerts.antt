-- ===== src/Watchdog/Alerts.antt =====
-- agent/core/watchdog.py: the bounds of one module's restarts and of the alerts.
use agent_life_space.Prelude.{
  ℕ, ◌+◌, ◌≤◌, String, ◌≡◌, Option, none, some, List, [], ◌∷◌, ◌++◌, arith, length, drop, ltb, leb,
  length-append, length-drop_one, if◌then◌else◌, ◌&&◌, Bool-cases, Option-cases, inl, inr,
}
use agent_life_space.Watchdog.Restarts.{after_check}
use agent_life_space.Watchdog.Module.{ModuleInfo, due, checked, is_unresponsive}
use agent_life_space.Watchdog.{
  AlertType, restart_failed, max_restarts_exceeded, Alert, has_key, bump_alert, add_alert,
  restarted, try_restart, visit,
}

abbrev pub IsBounded : String → ModuleInfo → Type 0
IsBounded name m = m.restart_count ≤ m.max_restarts

length-bump_alert :
    (iso : String) (t : AlertType) (name : String) (al al' : List Alert)
    → bump_alert iso t name al ≡ some al'
    → length al' ≡ length al
unfolding bump_alert
length-bump_alert iso t name [] al' e = absurd (cc)
length-bump_alert iso t name (a ∷ al) al' e = elim (Bool-cases (has_key t name a)) [
  | inl hit ↦ ground arith
  | inr miss ↦ elim (Option-cases (bump_alert iso t name al)) [
    | inl gone ↦ absurd (ground arith)
    | inr (rest, f) ↦ ground (arith, length-bump_alert iso t name al rest f)
  ]
]

-- The oldest alert goes where the bound is reached.
length-evict :
    (max_alerts : ℕ) (a : Alert) (al : List Alert)
    → 1 ≤ max_alerts
    → length al ≤ max_alerts
    → length ((if leb max_alerts (length al) then drop 1 al else al) ++ a ∷ []) ≤ max_alerts
length-evict max_alerts a al some_ h = elim (Bool-cases (leb max_alerts (length al))) [
  | inl full ↦ rw full (omega (arith, length-append (drop 1 al) (a ∷ []), length-drop_one al))
  | inr free ↦ rw free (ground (arith, length-append al (a ∷ [])))
]

length-add_alert :
    (max_alerts : ℕ) (iso : String) (t : AlertType) (name message : String) (al : List Alert)
    → 1 ≤ max_alerts
    → length al ≤ max_alerts
    → length (add_alert max_alerts iso t name message al) ≤ max_alerts
unfolding add_alert
length-add_alert max_alerts iso t name message al some_ h =
    elim (Option-cases (bump_alert iso t name al)) [
      | inr (al', e) ↦ rw (e, add_alert) (omega (arith, length-bump_alert iso t name al al' e))
      | inl new_key ↦ rw (new_key, add_alert) (length-evict max_alerts _ al some_ h)
    ]

pub after_check-IsBounded :
    (now : ℕ) (outcome : Option String) (name : String) (m : ModuleInfo)
    → IsBounded name m
    → IsBounded name (after_check now outcome m)
unfolding due checked
after_check-IsBounded now none name m b = ground arith
after_check-IsBounded now (some text) name m b = ground arith

length-called :
    (max_alerts now : ℕ) (iso : String) (outcome : Option String) (name : String) (m : ModuleInfo)
    (al : List Alert)
    → 1 ≤ max_alerts
    → length al ≤ max_alerts
    → let called : ModuleInfo × List Alert = elim outcome [
      | none ↦ (restarted now m, al)
      | some text ↦ (m, add_alert max_alerts iso restart_failed name text al)
    ] in
      length called.1 ≤ max_alerts
length-called max_alerts now iso none name m al some_ h = h
length-called max_alerts now iso (some text) name m al some_ h =
    length-add_alert max_alerts iso restart_failed name text al some_ h

length-try_restart :
    (max_alerts now : ℕ) (iso : String) (outcome : Option String) (name : String) (m : ModuleInfo)
    (al : List Alert)
    → 1 ≤ max_alerts
    → length al ≤ max_alerts
    → length (try_restart max_alerts now iso outcome name m al).1 ≤ max_alerts
unfolding try_restart
length-try_restart max_alerts now iso outcome name m al some_ h =
    elim (Bool-cases (m.has_callback && ltb m.restart_count m.max_restarts)) [
      | inl left ↦ rw left (elim (Bool-cases (ltb now (m.last_restart_time + m.restart_cooldown))) [
        | inl cools ↦ rw cools h
        | inr ready ↦ rw ready (length-called max_alerts now iso outcome name m al some_ h)
      ])
      | inr none_left ↦ rw none_left (elim (Bool-cases (leb m.max_restarts m.restart_count)) [
        | inl spent ↦
            rw spent (length-add_alert max_alerts iso max_restarts_exceeded name _ al some_ h)
        | inr other ↦ rw other h
      ])
    ]

pub length-visit :
    (max_alerts now : ℕ) (iso : String) (outcome : Option String) (name : String) (m : ModuleInfo)
    (al : List Alert)
    → 1 ≤ max_alerts
    → length al ≤ max_alerts
    → length (visit max_alerts now iso outcome name m al).1 ≤ max_alerts
unfolding visit
length-visit max_alerts now iso outcome name m al some_ h =
    elim (Bool-cases (is_unresponsive (checked now m).state)) [
      | inl dead ↦ rw dead (
          length-try_restart max_alerts now iso outcome name
            (record (checked now m) { missed_heartbeats = (checked now m).missed_heartbeats + 1 })
            al some_ h)
      | inr alive ↦ rw alive h
    ]
