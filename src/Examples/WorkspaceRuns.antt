-- ===== src/Examples/WorkspaceRuns.antt =====
-- agent/work/workspace.py: two workspaces, with a limit of one active.
use agent_life_space.Prelude.{
  ◌+◌, ◌≤◌, ◌<◌, String, none, some, List, [], ◌∷◌, ◌≡◌, ◌⊎◌, refl, lookup, elem, ◌==◌,
  if◌then◌else◌,
}
use agent_life_space.Prelude.Result.{ok, err}
use agent_life_space.Workspaces.Record.{Workspace, created}
use agent_life_space.Workspaces.Tables.{Tables, rows_for}
use agent_life_space.Workspaces.Manager.{
  Manager, NewWorkspace, new, initialize, get, create, activate, active_count, created_workspace,
  limit_message,
}
use agent_life_space.Workspaces.Runs.{
  Op, create_op, activate_op, complete_op, command_op, perform_all,
}
use agent_life_space.Workspaces.Chain.{AllChained, perform_all-AllChained}
use agent_life_space.Workspaces.Recovery.{started, recover-perform_all}
use agent_life_space.Workspaces.Limits.{create-outcome, activate-active_count}

-- A digest of texts, for the runs.
abbrev digest : String → String
digest s = s

abbrev report : NewWorkspace
report = record { name = "report"; owner_id = "ann"; project_id = "p1"; task_id = "t1" }

abbrev two : List Op
two =
    create_op "w1" "10:00" report
    ∷ activate_op "w1" "10:01"
    ∷ command_op "w1" "10:02" "make"
    ∷ create_op "w2" "10:03" report
    ∷ complete_op "w1" "10:04" "done"
    ∷ []

recover-perform_all_example :
    let m = perform_all digest two (started "/ws" 1 24) in
    (t : Tables) × (m' : Manager) × (m.db ≡ some t)
    × (initialize t (new "/ws" 1 24) ≡ ok m')
    × ((id : String) → get id m' ≡ get id m)
unfolding elem ◌==◌
recover-perform_all_example = recover-perform_all digest "/ws" 1 24 two (refl, (refl, tt))

perform_all-AllChained_example : AllChained digest (perform_all digest two (started "/ws" 1 24)).db
unfolding rows_for
perform_all-AllChained_example = perform_all-AllChained digest two (started "/ws" 1 24) (λ k. tt)

create-outcome_example :
    let m = started "/ws" 1 24 in
    let r = create digest "w1" "10:00" report m in
    let w = created_workspace "/ws" "w1" "10:00" report in
    ((1 ≤ active_count []) × (r ≡ (m, err (limit_message (active_count []) 1))))
    ⊎ ((active_count [] < 1)
        × (r.1 ≡ ok w)
        × ((k : String) → lookup k r.0.workspaces ≡ (if "w1" == k then some w else lookup k []))
        × (active_count r.0.workspaces ≡ active_count []))
unfolding lookup
create-outcome_example = create-outcome digest "w1" "10:00" report (started "/ws" 1 24) refl

abbrev waiting : Workspace
waiting = record {
  id = "w1";
  name = "report";
  owner_id = "ann";
  project_id = "p1";
  task_id = "t1";
  status = created;
  path = "/ws/w1";
  created_at = "10:00";
  started_at = none;
  completed_at = none;
  commands_run = [];
  files_created = [];
  output = "";
  error = "";
}

-- A manager whose limit is zero.
abbrev full : Manager
full = record {
  root = "/ws";
  workspaces = ("w1", waiting) ∷ [];
  db = none;
  max_active = 0;
  ttl_hours = 24;
}

activate-active_count_example :
    active_count (activate digest "w1" "10:01" full).0.workspaces ≡ active_count full.workspaces + 1
unfolding lookup ◌==◌
activate-active_count_example = activate-active_count digest "w1" "10:01" waiting full refl refl
