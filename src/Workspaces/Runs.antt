-- ===== src/Workspaces/Runs.antt =====
-- agent/work/workspace.py: sequences of calls of the methods that change a WorkspaceManager.
use agent_life_space.Prelude.{String, Bool, Option, List, [], ◌∷◌}
use agent_life_space.Workspaces.Manager.{
  Manager, NewWorkspace, create, activate, complete, fail, record_command, record_file,
}
use agent_life_space.Workspaces.Cleanup.{Disk, cleanup, cleanup_expired}

-- The arguments of a call: its new id or the id that it is about, and its clock reading.
pub data Op : Type 0 where
  create_op : String → String → NewWorkspace → Op
  activate_op : String → String → Op
  complete_op : String → String → String → Op
  fail_op : String → String → String → Op
  command_op : String → String → String → Op
  file_op : String → String → String → Op
  cleanup_op : String → String → Disk → Op
  expire_op : String → Disk → (String → Option Bool) → Op

module _ (sha : String → String) where
  unfoldable pub perform : Op → Manager → Manager
  unfolding create activate complete fail record_command record_file cleanup cleanup_expired
  perform (create_op id now n) m = (create sha id now n m).0
  perform (activate_op id now) m = (activate sha id now m).0
  perform (complete_op id now output) m = (complete sha id now output m).0
  perform (fail_op id now error) m = (fail sha id now error m).0
  perform (command_op id now command) m = record_command sha id now command m
  perform (file_op id now filepath) m = record_file sha id now filepath m
  perform (cleanup_op id now disk) m = (cleanup sha disk id now m).0
  perform (expire_op now disk overdue) m = (cleanup_expired sha disk overdue now m).0

  unfoldable pub perform_all : List Op → Manager → Manager
  unfolding perform
  perform_all [] m = m
  perform_all (o ∷ os) m = perform_all os (perform o m)

-- The ids that the calls of `create` draw.
abbrev pub with_new_id : Op → List String → List String
with_new_id (create_op id now n) ids = id ∷ ids
with_new_id _ ids = ids

abbrev pub new_ids : List Op → List String
new_ids [] = []
new_ids (o ∷ os) = with_new_id o (new_ids os)
