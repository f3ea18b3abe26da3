-- ===== src/Workspaces/Manager.antt =====
-- agent/work/workspace.py: the class WorkspaceManager. New ids and the texts of
-- `datetime.now(UTC).isoformat()` are arguments; a method reads the clock once. Making a directory
-- is taken to succeed. Log lines are left out.
use agent_life_space.Prelude.{
  ℕ, String, Option, none, some, [], ◌∷◌, ◌++◌, Dict, lookup, insert, values, length, filter, leb,
  if◌then◌else◌,
}
use agent_life_space.Prelude.Text.{concat, prefix, show_nat}
use agent_life_space.Prelude.Result.{Result, ok, err, ◌>>=◌}
use agent_life_space.Json.{Decoded}
use agent_life_space.Workspaces.Record.{created, active, completed, failed, Workspace, is_active}
use agent_life_space.Workspaces.Tables.{Tables, replace_row, add_audit, load_from_db}

pub record Manager : Type 0 where
  pub root : String
  pub workspaces : Dict Workspace
  pub db : Option Tables
  pub max_active : ℕ
  pub ttl_hours : ℕ

-- `__init__` behind its defaults.
unfoldable pub new : String → ℕ → ℕ → Manager
new root max_active ttl_hours = record {
  root = root;
  workspaces = [];
  db = none;
  max_active = max_active;
  ttl_hours = ttl_hours;
}

-- `initialize` on the tables that are in the file.
unfoldable pub initialize : Tables → Manager → Decoded Manager
unfolding load_from_db
initialize t m = load_from_db t >>= λ d. ok (record m { workspaces = d; db = some t })

unfoldable pub close : Manager → Manager
close m = record m { db = none }

-- A statement on the tables; there is none where the database is closed.
abbrev pub on_tables : (Tables → Tables) → Option Tables → Option Tables
on_tables f none = none
on_tables f (some t) = some (f t)

-- `_persist`
unfoldable pub persist : Workspace → Manager → Manager
unfolding replace_row
persist w m = record m { db = on_tables (replace_row w) m.db }

-- `_audit`
unfoldable pub audit : (String → String) → String → String → String → String → Manager → Manager
unfolding add_audit
audit sha id event_type detail now m = record m {
  db = on_tables (add_audit sha id event_type detail now) m.db;
}

unfoldable pub active_count : Dict Workspace → ℕ
active_count d = length (filter (λ w. is_active w.status) (values d))

-- The arguments of `create`.
pub record NewWorkspace : Type 0 where
  pub name : String
  pub owner_id : String
  pub project_id : String
  pub task_id : String

unfoldable pub created_workspace : String → String → String → NewWorkspace → Workspace
unfolding concat
created_workspace root id now n = record {
  id = id;
  name = n.name;
  owner_id = n.owner_id;
  project_id = n.project_id;
  task_id = n.task_id;
  status = created;
  path = concat (root ∷ "/" ∷ id ∷ []);
  created_at = now;
  started_at = none;
  completed_at = none;
  commands_run = [];
  files_created = [];
  output = "";
  error = "";
}

-- The message of the RuntimeError.
unfoldable pub limit_message : ℕ → ℕ → String
unfolding concat show_nat
limit_message n limit = concat (
    "Cannot create workspace: "
    ∷ show_nat n
    ∷ " active workspaces (max "
    ∷ show_nat limit
    ∷ "). Complete or fail existing ones first."
    ∷ [])

-- A workspace that is entered or changed, with its row and an event of its lifecycle.
unfoldable pub store : (String → String) → String → String → String → Workspace → Manager → Manager
unfolding persist audit
store sha id detail now w m =
    audit sha id "lifecycle" detail now
      (persist w (record m { workspaces = insert id w m.workspaces }))

unfoldable pub create :
    (String → String) → String → String → NewWorkspace → Manager → Manager × Result String Workspace
unfolding store created_workspace active_count limit_message
create sha id now n m =
    let w = created_workspace m.root id now n in
    if leb m.max_active (active_count m.workspaces)
    then (m, err (limit_message (active_count m.workspaces) m.max_active))
    else (store sha id "created" now w m, ok w)

unfoldable pub get : String → Manager → Option Workspace
get id m = lookup id m.workspaces

module _ (sha : String → String) (id now : String) where
  -- A lifecycle method on the workspace that it found. The dictionary holds the changed object.
  unfoldable pub change :
      (Workspace → Workspace) → String → Option Workspace → Manager → Manager × Option Workspace
  unfolding store
  change f detail none m = (m, none)
  change f detail (some w) m = (store sha id detail now (f w) m, some (f w))

  -- `record_command` and `record_file`: the object in the dictionary grows, and an event is
  -- written, but no row.
  unfoldable pub note :
      (Workspace → Workspace) → String → String → Option Workspace → Manager → Manager
  unfolding audit insert
  note f event_type detail none m = m
  note f event_type detail (some w) m =
      audit sha id event_type detail now (record m { workspaces = insert id (f w) m.workspaces })

abbrev pub activated : String → Workspace → Workspace
activated now w = record w { status = active; started_at = some now }

abbrev pub as_completed : String → String → Workspace → Workspace
as_completed now output w = record w {
  status = completed;
  completed_at = some now;
  output = output;
}

abbrev pub as_failed : String → String → Workspace → Workspace
as_failed now error w = record w { status = failed; completed_at = some now; error = error }

abbrev pub with_command : String → Workspace → Workspace
with_command command w = record w { commands_run = w.commands_run ++ command ∷ [] }

abbrev pub with_file : String → Workspace → Workspace
with_file filepath w = record w { files_created = w.files_created ++ filepath ∷ [] }

module _ (sha : String → String) (id now : String) where
  unfoldable pub activate : Manager → Manager × Option Workspace
  unfolding change
  activate m = change sha id now (activated now) "activated" (lookup id m.workspaces) m

  unfoldable pub complete : String → Manager → Manager × Option Workspace
  unfolding change
  complete output m =
      change sha id now (as_completed now output) "completed" (lookup id m.workspaces) m

  unfoldable pub fail : String → Manager → Manager × Option Workspace
  unfolding change prefix concat
  fail error m =
      change sha id now (as_failed now error) (concat ("failed: " ∷ prefix 200 error ∷ []))
        (lookup id m.workspaces) m

  unfoldable pub record_command : String → Manager → Manager
  unfolding note
  record_command command m =
      note sha id now (with_command command) "command" command (lookup id m.workspaces) m

  unfoldable pub record_file : String → Manager → Manager
  unfolding note
  record_file filepath m =
      note sha id now (with_file filepath) "file" filepath (lookup id m.workspaces) m
