-- ===== src/Workspaces/Cleanup.antt =====
-- agent/work/workspace.py: `cleanup` and `cleanup_expired` of the class WorkspaceManager.
use agent_life_space.Prelude.{
  ℕ, ◌+◌, String, Bool, true, false, Option, none, some, List, [], ◌∷◌, lookup, keys, ◌==◌, ◌&&◌,
  if◌then◌else◌, not,
}
use agent_life_space.Prelude.Text.{starts_with}
use agent_life_space.Workspaces.Record.{cleaned, Workspace, is_over}
use agent_life_space.Workspaces.Manager.{Manager, store}

-- The disk as `cleanup` meets it: which paths exist, and for which `shutil.rmtree` raises.
pub record Disk : Type 0 where
  pub exists : String → Bool
  pub rmtree_raises : String → Bool

abbrev pub as_cleaned : Workspace → Workspace
as_cleaned w = record w { status = cleaned }

unfoldable pub cleanup_found :
    (String → String) → Disk → String → String → Option Workspace → Manager → Manager × Bool
unfolding store starts_with
cleanup_found sha disk id now none m = (m, false)
cleanup_found sha disk id now (some w) m =
    if not (is_over w.status)
    then (m, false)
    else if disk.exists w.path && starts_with w.path m.root && disk.rmtree_raises w.path
    then (m, false)
    else (store sha id "cleaned" now (as_cleaned w) m, true)

unfoldable pub cleanup : (String → String) → Disk → String → String → Manager → Manager × Bool
unfolding cleanup_found
cleanup sha disk id now m = cleanup_found sha disk id now (lookup id m.workspaces) m

-- `if not ws.completed_at` and the age of the workspace: `overdue t` answers whether the time since
-- `t` is more than the manager's `ttl_hours`, `none` where `t` is no date.
abbrev pub is_expired : (String → Option Bool) → Option String → Bool
is_expired overdue none = false
is_expired overdue (some t) =
    if t == "" then false else elim (overdue t) [ none ↦ false | some late ↦ late ]

abbrev as_number : Bool → ℕ
as_number b = if b then 1 else 0

unfoldable pub visit :
    (String → String)
    → Disk
    → (String → Option Bool)
    → String
    → String
    → Option Workspace
    → Manager
    → Manager × Bool
unfolding cleanup
visit sha disk overdue now id none m = (m, false)
visit sha disk overdue now id (some w) m =
    if is_over w.status && is_expired overdue w.completed_at
    then cleanup sha disk id now m
    else (m, false)

-- The loop of `cleanup_expired` over the workspaces that were there at its start; each is one
-- object, so the loop reads its status of the moment.
unfoldable pub cleanup_each :
    (String → String) → Disk → (String → Option Bool) → String → List String → Manager → Manager × ℕ
unfolding visit
cleanup_each sha disk overdue now [] m = (m, 0)
cleanup_each sha disk overdue now (id ∷ ids) m =
    let (m', done) = visit sha disk overdue now id (lookup id m.workspaces) m in
    let (m'', n) = cleanup_each sha disk overdue now ids m' in (m'', as_number done + n)

unfoldable pub cleanup_expired :
    (String → String) → Disk → (String → Option Bool) → String → Manager → Manager × ℕ
unfolding cleanup_each
cleanup_expired sha disk overdue now m = cleanup_each sha disk overdue now (keys m.workspaces) m
