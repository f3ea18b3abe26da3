-- ===== src/Projects/Table.antt =====
-- agent/projects/manager.py: the rows are always projects.
use agent_life_space.Prelude.{
  String, ◌≡◌, refl, Option, none, some, List, [], ◌∷◌, ◌++◌, Dict, lookup, elem, All, Distinct,
  Distinct-snoc, AllIn, AllIn-insert, AllIn-lookup, Bool-cases, Option-cases, inl, inr,
}
use agent_life_space.Prelude.Result.{ok}
use agent_life_space.Json.{Fields}
use agent_life_space.Projects.Record.{Project, to_dict, Project-from_dict-to_dict}
use agent_life_space.Projects.{
  NewProject, Defaults, get, create, update, change_found, add_found, add_task, start, complete,
  pause, abandon,
}

-- One call of a method that changes the table.
pub data Op (F : Type 0) : Type 0 where
  create_op : String → String → NewProject F → Op F
  add_task_op : String → String → Op F
  start_op : String → String → Op F
  complete_op : String → String → String → Op F
  pause_op : String → Op F
  abandon_op : String → String → Op F
  update_op : Project F → Op F

module _ {F : Type 0} where
  -- What is given to `update` has no task twice.
  abbrev pub GivesOnce : Op F → Type 0
  GivesOnce (update_op p) = Distinct p.task_ids
  GivesOnce _ = Unit

  -- The row of an id is the dump of a project with this id and without a task twice.
  pub record IsRow (k : String) (d : Fields F) : Type 0 where
    pub project : Project F
    pub at_its_id : project.id ≡ k
    pub dumped : d ≡ to_dict project
    pub each_once : Distinct project.task_ids

  module _ (defaults : Defaults F) where
    abbrev created_rows : Option (Project F × Dict (Fields F)) → Dict (Fields F) → Dict (Fields F)
    created_rows none rows = rows
    created_rows (some (p, rows')) rows = rows'

    unfoldable pub perform : Op F → Dict (Fields F) → Dict (Fields F)
    perform (create_op id now n) rows = created_rows (create defaults id now n rows) rows
    perform (add_task_op id task) rows = (add_task defaults id task rows).1
    perform (start_op now id) rows = (start defaults now id rows).1
    perform (complete_op now id result) rows = (complete defaults now id result rows).1
    perform (pause_op id) rows = (pause defaults id rows).1
    perform (abandon_op id reason) rows = (abandon defaults id reason rows).1
    perform (update_op p) rows = update defaults p rows

    unfoldable pub perform_all : List (Op F) → Dict (Fields F) → Dict (Fields F)
    perform_all [] rows = rows
    perform_all (op ∷ ops) rows = perform_all ops (perform op rows)

    update-IsRow :
        (p : Project F) (rows : Dict (Fields F))
        → Distinct p.task_ids
        → AllIn IsRow rows
        → AllIn IsRow (update defaults p rows)
    unfolding update
    update-IsRow p rows once h = elim (Option-cases (lookup p.id rows)) [
      | inl gone ↦ rw (gone, update) h
      | inr (d, here) ↦
          rw (here, update)
            (AllIn-insert IsRow p.id (to_dict p) rows
              (record { project = p; at_its_id = refl; dumped = refl; each_once = once }) h)
    ]

    get_missing :
        (id : String) (rows : Dict (Fields F))
        → lookup id rows ≡ none
        → get defaults id rows ≡ ok none
    unfolding get
    get_missing id rows gone = rw gone

    get_row :
        (id : String) (rows : Dict (Fields F)) (d : Fields F) (row : IsRow id d)
        → lookup id rows ≡ some d
        → get defaults id rows ≡ ok (some row.project)
    unfolding get
    get_row id rows d row here =
        rw (here, row.dumped)
          (rw (Project-from_dict-to_dict F defaults.fresh defaults.half defaults.nil row.project))

    change-IsRow :
        (change : Project F → Project F) (id : String) (rows : Dict (Fields F))
        → ((p : Project F) → (change p).task_ids ≡ p.task_ids)
        → AllIn IsRow rows
        → AllIn IsRow (change_found defaults change (get defaults id rows) rows).1
    unfolding change_found
    change-IsRow change id rows keeps h = elim (Option-cases (lookup id rows)) [
      | inl gone ↦ rw (get_missing id rows gone) h
      | inr (d, here) ↦
          let row = AllIn-lookup IsRow id d rows h here in
          rw (get_row id rows d row here)
            (update-IsRow (change row.project) rows (rw (keeps row.project) row.each_once) h)
    ]

    add_task-IsRow :
        (id task : String) (rows : Dict (Fields F))
        → AllIn IsRow rows
        → AllIn IsRow (add_task defaults id task rows).1
    unfolding add_task add_found
    add_task-IsRow id task rows h = elim (Option-cases (lookup id rows)) [
      | inl gone ↦ rw (get_missing id rows gone, add_task) h
      | inr (d, here) ↦
          let row = AllIn-lookup IsRow id d rows h here in
          let p = row.project in
          rw (get_row id rows d row here, add_task)
            (elim (Bool-cases (elem task p.task_ids)) [
              | inl old ↦ rw old h
              | inr fresh ↦ rw fresh (
                  update-IsRow (record p { task_ids = p.task_ids ++ task ∷ [] }) rows
                    (Distinct-snoc task p.task_ids fresh row.each_once) h)
            ])
    ]

    create-IsRow :
        (id now : String) (n : NewProject F) (rows : Dict (Fields F))
        → AllIn IsRow rows
        → AllIn IsRow (created_rows (create defaults id now n rows) rows)
    unfolding create
    create-IsRow id now n rows h = elim (Option-cases (lookup id rows)) [
      | inr (d, taken) ↦ rw (taken, create) h
      | inl free ↦
          rw (free, create)
            (AllIn-insert IsRow id _ rows
              (record { project = _; at_its_id = refl; dumped = refl; each_once = tt }) h)
    ]

    perform-IsRow :
        (op : Op F) (rows : Dict (Fields F))
        → GivesOnce op
        → AllIn IsRow rows
        → AllIn IsRow (perform op rows)
    unfolding perform start complete pause abandon
    perform-IsRow (create_op id now n) rows g h = create-IsRow id now n rows h
    perform-IsRow (add_task_op id task) rows g h = add_task-IsRow id task rows h
    perform-IsRow (start_op now id) rows g h = change-IsRow _ id rows (λ p. refl) h
    perform-IsRow (complete_op now id result) rows g h = change-IsRow _ id rows (λ p. refl) h
    perform-IsRow (pause_op id) rows g h = change-IsRow _ id rows (λ p. refl) h
    perform-IsRow (abandon_op id reason) rows g h = change-IsRow _ id rows (λ p. refl) h
    perform-IsRow (update_op p) rows g h = update-IsRow p rows g h

    run-IsRow :
        (ops : List (Op F)) (rows : Dict (Fields F))
        → All GivesOnce ops
        → AllIn IsRow rows
        → AllIn IsRow (perform_all ops rows)
    unfolding perform_all
    run-IsRow [] rows g h = h
    run-IsRow (op ∷ ops) rows g h =
        run-IsRow ops (perform op rows) g.1 (perform-IsRow op rows g.0 h)

    -- After any calls on a table that started empty, where no project that is given to `update` has a
    -- task twice: `get` of an id that has a row succeeds, with a project of that id that has no task
    -- twice.
    pub get-perform_all :
        (ops : List (Op F)) (id : String) (d : Fields F)
        → All GivesOnce ops
        → lookup id (perform_all ops []) ≡ some d
        → (p : Project F) × (get defaults id (perform_all ops []) ≡ ok (some p))
          × (p.id ≡ id)
          × Distinct p.task_ids
    get-perform_all ops id d once here =
        let rows = perform_all ops [] in
        let row = AllIn-lookup IsRow id d rows (run-IsRow ops [] once tt) here in
        (row.project, get_row id rows d row here, row.at_its_id, row.each_once)
