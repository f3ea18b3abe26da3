-- ===== src/Workspaces/Induction.antt =====
-- agent/work/workspace.py: what the methods of a WorkspaceManager have in common. Each but `create`
-- stores changed workspaces that it found, or notes an event of one.
use agent_life_space.Prelude.{
  String, Bool, Option, none, some, List, [], ◌∷◌, ◌++◌, ◌≡◌, refl, lookup, insert, keys, ◌==◌,
  if◌then◌else◌, if_cases, leb, not, ◌&&◌,
}
use agent_life_space.Prelude.Result.{Result}
use agent_life_space.Prelude.Text.{starts_with}
use agent_life_space.Workspaces.Record.{Workspace, is_over}
use agent_life_space.Workspaces.Manager.{
  Manager, NewWorkspace, audit, store, change, note, create, activate, complete, fail,
  record_command, record_file, activated, as_completed, as_failed, active_count, created_workspace,
}
use agent_life_space.Workspaces.Cleanup.{
  Disk, as_cleaned, cleanup_found, cleanup, visit, cleanup_each, cleanup_expired, is_expired,
}
use agent_life_space.Workspaces.Runs.{
  Op, create_op, activate_op, complete_op, fail_op, command_op, file_op, cleanup_op, expire_op,
  perform,
}

-- What an event adds to a workspace.
abbrev pub noted : String → String → Workspace → Workspace
noted kind detail w = record w {
  commands_run = if kind == "command" then w.commands_run ++ detail ∷ [] else w.commands_run;
  files_created = if kind == "file" then w.files_created ++ detail ∷ [] else w.files_created;
}

-- A change of other fields than the id and those that the trail holds.
abbrev pub KeepsTrail : (Workspace → Workspace) → Type 0
KeepsTrail f =
    (w : Workspace)
    → ((f w).id ≡ w.id)
      × ((f w).commands_run ≡ w.commands_run)
      × ((f w).files_created ≡ w.files_created)

-- What every call but `create` keeps.
pub record IsKept (sha : String → String) (P : Manager → Type 0) : Type 0 where
  pub by_change :
      (id detail now : String) (f : Workspace → Workspace) (w : Workspace) (m : Manager)
      → KeepsTrail f
      → lookup id m.workspaces ≡ some w
      → P m
      → P (store sha id detail now (f w) m)
  pub by_note :
      (id kind detail now : String) (w : Workspace) (m : Manager)
      → lookup id m.workspaces ≡ some w
      → P m
      → P (
          audit sha id kind detail now
            (record m { workspaces = insert id (noted kind detail w) m.workspaces }))

module _ (sha : String → String) (P : Manager → Type 0) where
  -- A call keeps `P` if it is no `create`, or if storing the created workspace keeps it.
  abbrev pub CreateKeeps : Op → Manager → Type 0
  CreateKeeps (create_op id now n) m =
      P (store sha id "created" now (created_workspace m.root id now n) m)
  CreateKeeps _ m = Unit

module _ (sha : String → String) (P : Manager → Type 0) (k : IsKept sha P) where
  change_kept :
      (id now : String) (f : Workspace → Workspace) (detail : String) (o : Option Workspace)
      (m : Manager)
      → KeepsTrail f
      → lookup id m.workspaces ≡ o
      → P m
      → P (change sha id now f detail o m).0
  unfolding change
  change_kept id now f detail none m t e h = h
  change_kept id now f detail (some w) m t e h = k.by_change id detail now f w m t e h

  note_kept :
      (id now : String) (f : Workspace → Workspace) (kind detail : String) (o : Option Workspace)
      (m : Manager)
      → ((w : Workspace) → noted kind detail w ≡ f w)
      → lookup id m.workspaces ≡ o
      → P m
      → P (note sha id now f kind detail o m)
  unfolding note
  note_kept id now f kind detail none m n e h = h
  note_kept id now f kind detail (some w) m n e h =
      rw (← n w) (k.by_note id kind detail now w m e h)

  cleanup_found_kept :
      (disk : Disk) (id now : String) (o : Option Workspace) (m : Manager)
      → lookup id m.workspaces ≡ o
      → P m
      → P (cleanup_found sha disk id now o m).0
  unfolding cleanup_found
  cleanup_found_kept disk id now none m e h = h
  cleanup_found_kept disk id now (some w) m e h =
      if_cases {A = Manager × Bool} (λ r. P r.0) (not (is_over w.status)) _ _ (λ x. h)
        (λ x.
          if_cases {A = Manager × Bool} (λ r. P r.0)
            (disk.exists w.path && starts_with w.path m.root && disk.rmtree_raises w.path) _ _
            (λ y. h)
            (λ y. k.by_change id "cleaned" now as_cleaned w m (λ v. (refl, refl, refl)) e h))

  visit_kept :
      (disk : Disk) (overdue : String → Option Bool) (now id : String) (o : Option Workspace)
      (m : Manager)
      → P m
      → P (visit sha disk overdue now id o m).0
  unfolding visit cleanup
  visit_kept disk overdue now id none m h = h
  visit_kept disk overdue now id (some w) m h =
      if_cases {A = Manager × Bool} (λ r. P r.0)
        (is_over w.status && is_expired overdue w.completed_at) _ _
        (λ e. cleanup_found_kept disk id now (lookup id m.workspaces) m refl h) (λ e. h)

  cleanup_each_kept :
      (disk : Disk) (overdue : String → Option Bool) (now : String) (ids : List String)
      (m : Manager)
      → P m
      → P (cleanup_each sha disk overdue now ids m).0
  unfolding cleanup_each
  cleanup_each_kept disk overdue now [] m h = h
  cleanup_each_kept disk overdue now (id ∷ ids) m h =
      cleanup_each_kept disk overdue now ids
        (visit sha disk overdue now id (lookup id m.workspaces) m).0
        (visit_kept disk overdue now id (lookup id m.workspaces) m h)

  -- `create` behind its test.
  pub create_kept :
      (id now : String) (n : NewWorkspace) (m : Manager)
      → P m
      → P (store sha id "created" now (created_workspace m.root id now n) m)
      → P (create sha id now n m).0
  unfolding create
  create_kept id now n m h s =
      if_cases {A = Manager × Result String Workspace} (λ r. P r.0)
        (leb m.max_active (active_count m.workspaces)) _ _ (λ e. h) (λ e. s)

  pub perform_kept : (o : Op) (m : Manager) → CreateKeeps sha P o m → P m → P (perform sha o m)
  unfolding perform activate complete fail record_command record_file cleanup cleanup_expired ◌==◌
  perform_kept (create_op id now n) m s h = create_kept id now n m h s
  perform_kept (activate_op id now) m s h =
      change_kept id now (activated now) _ (lookup id m.workspaces) m (λ w. (refl, refl, refl)) refl
        h
  perform_kept (complete_op id now output) m s h =
      change_kept id now (as_completed now output) _ (lookup id m.workspaces) m
        (λ w. (refl, refl, refl)) refl h
  perform_kept (fail_op id now error) m s h =
      change_kept id now (as_failed now error) _ (lookup id m.workspaces) m
        (λ w. (refl, refl, refl)) refl h
  perform_kept (command_op id now c) m s h =
      note_kept id now _ "command" c (lookup id m.workspaces) m (λ w. refl) refl h
  perform_kept (file_op id now c) m s h =
      note_kept id now _ "file" c (lookup id m.workspaces) m (λ w. refl) refl h
  perform_kept (cleanup_op id now disk) m s h =
      cleanup_found_kept disk id now (lookup id m.workspaces) m refl h
  perform_kept (expire_op now disk overdue) m s h =
      cleanup_each_kept disk overdue now (keys m.workspaces) m h
