-- ===== src/Workspaces/Queries.antt =====
-- agent/work/workspace.py: the queries of the class WorkspaceManager.
use agent_life_space.Prelude.{
  ℕ, String, Option, none, some, List, [], ◌∷◌, Dict, values, count_from, length, filter, map, ◌==◌,
  if◌then◌else◌,
}
use agent_life_space.Workspaces.Record.{WorkspaceStatus, Workspace, status_value, is_active}
use agent_life_space.Workspaces.Tables.{AuditRow, rows_for}
use agent_life_space.Workspaces.Manager.{Manager}

-- One entry of `get_audit_trail`.
pub record TrailEntry : Type 0 where
  pub event_type : String
  pub detail : String
  pub timestamp : String
  pub hash : String

abbrev trail_entry : AuditRow → TrailEntry
trail_entry r = record {
  event_type = r.event_type;
  detail = r.detail;
  timestamp = r.timestamp;
  hash = r.entry_hash;
}

unfoldable pub get_audit_trail : String → Manager → List TrailEntry
unfolding rows_for
get_audit_trail id m = elim m.db [ none ↦ [] | some t ↦ map trail_entry (rows_for id t.audit) ]

-- `list_workspaces`; an empty project id is no filter.
abbrev with_status : Option WorkspaceStatus → List Workspace → List Workspace
with_status none ws = ws
with_status (some s) ws = filter (λ w. status_value w.status == status_value s) ws

unfoldable pub list_workspaces : Option WorkspaceStatus → String → Manager → List Workspace
unfolding status_value
list_workspaces status project_id m =
    let ws = with_status status (values m.workspaces) in
    if project_id == "" then ws else filter (λ w. w.project_id == project_id) ws

abbrev head : List Workspace → Option Workspace
head [] = none
head (w ∷ ws) = some w

unfoldable pub get_active : Manager → Option Workspace
get_active m = head (filter (λ w. is_active w.status) (values m.workspaces))

-- The answer of `get_stats`.
pub record WorkspaceStats : Type 0 where
  pub total : ℕ
  pub by_status : Dict ℕ
  pub active_name : Option String
  pub root : String

abbrev name_of : Option Workspace → Option String
name_of none = none
name_of (some w) = some w.name

unfoldable pub get_stats : Manager → WorkspaceStats
unfolding get_active count_from status_value
get_stats m = record {
  total = length m.workspaces;
  by_status = count_from (λ w. status_value w.status) (values m.workspaces) [];
  active_name = name_of (get_active m);
  root = m.root;
}
