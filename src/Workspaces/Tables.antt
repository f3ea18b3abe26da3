-- ===== src/Workspaces/Tables.antt =====
-- agent/work/workspace.py: the tables `workspaces` and `workspace_audit`. A statement is taken not
-- to fail, and the columns of text hold no NULL, since the class writes none there. `sha` is the
-- first sixteen digits of `hashlib.sha256(payload.encode()).hexdigest()`.
use agent_life_space.Prelude.{String, Option, List, [], ◌∷◌, ◌++◌, Dict, insert, map, filter, ◌==◌}
use agent_life_space.Prelude.Rows.{replace}
use agent_life_space.Prelude.Text.{concat}
use agent_life_space.Prelude.Result.{ok, ◌>>=◌}
use agent_life_space.Json.{Decoded}
use agent_life_space.Workspaces.Record.{Workspace, status_value, status_of}

-- A row of `workspaces`, without its key.
pub record WorkspaceRow : Type 0 where
  pub name : String
  pub owner_id : String
  pub project_id : String
  pub task_id : String
  pub status : String
  pub path : String
  pub created_at : String
  pub started_at : Option String
  pub completed_at : Option String
  pub output : String
  pub error : String

-- A row of `workspace_audit`; the rows stand in the order of their numbers.
pub record AuditRow : Type 0 where
  pub workspace_id : String
  pub event_type : String
  pub detail : String
  pub timestamp : String
  pub entry_hash : String

pub record Tables : Type 0 where
  pub workspaces : Dict WorkspaceRow
  pub audit : List AuditRow

unfoldable pub row_of : Workspace → WorkspaceRow
unfolding status_value
row_of w = record {
  name = w.name;
  owner_id = w.owner_id;
  project_id = w.project_id;
  task_id = w.task_id;
  status = status_value w.status;
  path = w.path;
  created_at = w.created_at;
  started_at = w.started_at;
  completed_at = w.completed_at;
  output = w.output;
  error = w.error;
}

-- INSERT OR REPLACE: a row of an old key is deleted, and the new one stands last.
unfoldable pub replace_row : Workspace → Tables → Tables
unfolding row_of replace
replace_row w t = record t { workspaces = replace w.id (row_of w) t.workspaces }

-- WHERE workspace_id = ? ORDER BY id
unfoldable pub rows_for : String → List AuditRow → List AuditRow
rows_for id rows = filter (λ r. r.workspace_id == id) rows

-- The last of the hashes, from the hash before them.
unfoldable pub last_hash : String → List AuditRow → String
last_hash previous [] = previous
last_hash previous (r ∷ rows) = last_hash r.entry_hash rows

-- `_get_last_audit_hash`
unfoldable pub get_last_audit_hash : String → Tables → String
unfolding last_hash rows_for
get_last_audit_hash id t = last_hash "genesis" (rows_for id t.audit)

unfoldable pub payload : String → String → String → String → String → String
unfolding concat
payload id event_type detail timestamp previous =
    concat (id ∷ ":" ∷ event_type ∷ ":" ∷ detail ∷ ":" ∷ timestamp ∷ ":" ∷ previous ∷ [])

-- `_audit`
unfoldable pub add_audit : (String → String) → String → String → String → String → Tables → Tables
unfolding payload get_last_audit_hash
add_audit sha id event_type detail now t = record t {
  audit =
      t.audit
      ++ record {
        workspace_id = id;
        event_type = event_type;
        detail = detail;
        timestamp = now;
        entry_hash = sha (payload id event_type detail now (get_last_audit_hash id t));
      }
        ∷ [];
}

-- The details of the events of one type.
unfoldable pub details : String → List AuditRow → List String
details kind rows = map (λ r. r.detail) (filter (λ r. r.event_type == kind) rows)

unfoldable pub restore : List AuditRow → String → WorkspaceRow → Decoded Workspace
unfolding status_of details rows_for
restore audit id r = do
  status ← status_of r.status
  ok (record {
    id = id;
    name = r.name;
    owner_id = r.owner_id;
    project_id = r.project_id;
    task_id = r.task_id;
    status = status;
    path = r.path;
    created_at = r.created_at;
    started_at = r.started_at;
    completed_at = r.completed_at;
    commands_run = details "command" (rows_for id audit);
    files_created = details "file" (rows_for id audit);
    output = r.output;
    error = r.error;
  })

-- The loop of `_load_from_db`.
unfoldable pub load_rows :
    List AuditRow → Dict WorkspaceRow → Dict Workspace → Decoded (Dict Workspace)
unfolding restore insert
load_rows audit [] d = ok d
load_rows audit ((id, r) ∷ rows) d =
    restore audit id r >>= λ w. load_rows audit rows (insert id w d)

unfoldable pub load_from_db : Tables → Decoded (Dict Workspace)
unfolding load_rows
load_from_db t = load_rows t.audit t.workspaces []
