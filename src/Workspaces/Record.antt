-- ===== src/Workspaces/Record.antt =====
-- agent/work/workspace.py: WorkspaceStatus and Workspace, with `to_dict` and `from_dict`. `F` is
-- the type of floats.
use agent_life_space.Prelude.{
  String, Bool, true, false, ◌≡◌, refl, Option, none, List, [], ◌==◌, if◌then◌else◌,
}
use agent_life_space.Prelude.Result.{ok, err, ◌>>=◌}
use agent_life_space.Json.{
  Fields, end, field, str, arr, value_error, Decoded, strings, opt_str, read_str, read_opt_str,
  read_strings, get_default,
}

pub data WorkspaceStatus : Type 0 where
  created active completed failed cleaned : WorkspaceStatus

unfoldable pub status_value : WorkspaceStatus → String
status_value created = "created"
status_value active = "active"
status_value completed = "completed"
status_value failed = "failed"
status_value cleaned = "cleaned"

unfoldable pub status_of : String → Decoded WorkspaceStatus
unfolding ◌==◌
status_of s =
    if s == "created"
    then ok created
    else if s == "active"
    then ok active
    else if s == "completed"
    then ok completed
    else if s == "failed"
    then ok failed
    else if s == "cleaned"
    then ok cleaned
    else err (value_error s)

pub status_of-status_value : (s : WorkspaceStatus) → status_of (status_value s) ≡ ok s
unfolding status_of status_value
status_of-status_value created = refl
status_of-status_value active = refl
status_of-status_value completed = refl
status_of-status_value failed = refl
status_of-status_value cleaned = refl

-- w.status == WorkspaceStatus.ACTIVE
abbrev pub is_active : WorkspaceStatus → Bool
is_active active = true
is_active _ = false

-- ws.status in (WorkspaceStatus.COMPLETED, WorkspaceStatus.FAILED)
abbrev pub is_over : WorkspaceStatus → Bool
is_over completed = true
is_over failed = true
is_over _ = false

pub record Workspace : Type 0 where
  pub id : String
  pub name : String
  pub owner_id : String
  pub project_id : String
  pub task_id : String
  pub status : WorkspaceStatus
  pub path : String
  pub created_at : String
  pub started_at : Option String
  pub completed_at : Option String
  pub commands_run : List String
  pub files_created : List String
  pub output : String
  pub error : String

module _ {F : Type 0} where
  unfoldable pub to_dict : Workspace → Fields F
  unfolding status_value opt_str strings
  to_dict w = field "id" (str w.id) (
      field "name" (str w.name) (
        field "owner_id" (str w.owner_id) (
          field "project_id" (str w.project_id) (
            field "task_id" (str w.task_id) (
              field "status" (str (status_value w.status)) (
                field "path" (str w.path) (
                  field "created_at" (str w.created_at) (
                    field "started_at" (opt_str w.started_at) (
                      field "completed_at" (opt_str w.completed_at) (
                        field "commands_run" (arr (strings w.commands_run)) (
                          field "files_created" (arr (strings w.files_created)) (
                            field "output" (str w.output)
                              (field "error" (str w.error) end)))))))))))))

  unfoldable pub from_dict : Fields F → Decoded Workspace
  unfolding status_of get_default read_str read_opt_str read_strings
  from_dict d = do
    id ← get_default read_str "id" "" d
    name ← get_default read_str "name" "" d
    owner_id ← get_default read_str "owner_id" "" d
    project_id ← get_default read_str "project_id" "" d
    task_id ← get_default read_str "task_id" "" d
    status_text ← get_default read_str "status" "created" d
    status ← status_of status_text
    path ← get_default read_str "path" "" d
    created_at ← get_default read_str "created_at" "" d
    started_at ← get_default read_opt_str "started_at" none d
    completed_at ← get_default read_opt_str "completed_at" none d
    commands_run ← get_default read_strings "commands_run" [] d
    files_created ← get_default read_strings "files_created" [] d
    output ← get_default read_str "output" "" d
    error ← get_default read_str "error" "" d
    ok (record {
      id = id;
      name = name;
      owner_id = owner_id;
      project_id = project_id;
      task_id = task_id;
      status = status;
      path = path;
      created_at = created_at;
      started_at = started_at;
      completed_at = completed_at;
      commands_run = commands_run;
      files_created = files_created;
      output = output;
      error = error;
    })
