-- ===== src/Tasks/Manager/Mirror.antt =====
-- agent/tasks/manager.py: the table keeps what the manager holds.
use agent_life_space.Prelude.{
  String, ◌≡◌, refl, ap, ◌∙◌, sym, subst, Option, some, List, [], ◌∷◌, arith, Dict, lookup, insert,
  keys, Distinct, Distinct-insert, AllIn, AllIn-insert, AllIn-lookup, lookup-insert, Bool-cases,
  Option-cases, inl, inr,
}
use agent_life_space.Prelude.Float.{Float}
use agent_life_space.Prelude.Text.{is_blank}
use agent_life_space.Json.{Fields}
use agent_life_space.Tasks.Task.{Task, is_blocked}
use agent_life_space.Tasks.Task.Codec.{to_dict}
use agent_life_space.Tasks.Manager.{
  Manager, NewTask, persist, store, update, get_task, can_unblock, unblock_found, unblock_keys,
  check_unblock, missing_dep, created_task, create_task, completing, start_task, complete_task,
  fail_task, cancel_task,
}
use agent_life_space.Tasks.Manager.Unblock.{update_missing, update_found, tasks-store}
use agent_life_space.Tasks.Manager.Ops.{
  Op, create_op, start_op, complete_op, fail_op, cancel_op, perform, perform_all,
}

module _ {F : Type 0} where
  -- The table with the dumps of tasks.
  unfoldable pub dump : Dict (Task F) → Dict (Fields F)
  dump [] = []
  dump ((k, t) ∷ d) = (k, to_dict t) ∷ dump d

  abbrev pub IsAtId : String → Task F → Type 0
  IsAtId k t = t.id ≡ k

  pub dump-insert :
      (t : Task F) (d : Dict (Task F)) → dump (insert t.id t d) ≡ insert t.id (to_dict t) (dump d)
  unfolding dump insert
  dump-insert t [] = refl
  dump-insert t ((j, u) ∷ d) = ground (arith, dump-insert t d)

  insert-dump :
      (id : String) (t : Task F) (d : Dict (Task F))
      → t.id ≡ id
      → insert t.id (to_dict t) (dump d) ≡ dump (insert id t d)
  insert-dump id t d own =
      subst (λ i. insert t.id (to_dict t) (dump d) ≡ dump (insert i t d)) own
        (sym (dump-insert t d))

  -- `held` is what the table holds, in its own order.
  pub record IsMirrored (s : Manager F) : Type 0 where
    pub held : Dict (Task F)
    pub written : s.db ≡ some (dump held)
    pub same : (k : String) → lookup k held ≡ lookup k s.tasks
    pub each_once : Distinct (keys held)
    pub at_its_id : AllIn IsAtId held

  db-store :
      (id : String) (t : Task F) (s : Manager F) (rows : Dict (Fields F))
      → s.db ≡ some rows
      → (store id t s).db ≡ some (insert t.id (to_dict t) rows)
  unfolding store persist
  db-store id t s rows e = rw (e, persist)

  store-IsMirrored :
      (id : String) (t : Task F) (s : Manager F)
      → t.id ≡ id
      → IsMirrored s
      → IsMirrored (store id t s)
  store-IsMirrored id t s own m = record {
    held = insert id t m.held;
    written = db-store id t s (dump m.held) m.written ∙ ap some (insert-dump id t m.held own);
    same = λ k. rw (tasks-store, lookup-insert, lookup-insert, m.same);
    each_once = Distinct-insert id t m.held m.each_once;
    at_its_id = AllIn-insert IsAtId id t m.held own m.at_its_id;
  }

  id_of-lookup :
      (id : String) (t : Task F) (s : Manager F)
      → IsMirrored s
      → lookup id s.tasks ≡ some t
      → t.id ≡ id
  id_of-lookup id t s m there = AllIn-lookup IsAtId id t m.held m.at_its_id (m.same id ∙ there)

  update-IsMirrored :
      (change : Task F → Task F) (id : String) (s : Manager F)
      → ((t : Task F) → (change t).id ≡ t.id)
      → IsMirrored s
      → IsMirrored (update change id s).1
  update-IsMirrored change id s keeps m = elim (Option-cases (lookup id s.tasks)) [
    | inl missing ↦ rw (update_missing change id s missing) m
    | inr (t, there) ↦
        rw (update_found change id s t there)
          (store-IsMirrored id (change t) s (keeps t ∙ id_of-lookup id t s m there) m)
  ]

  start_task-IsMirrored :
      (now id : String) (s : Manager F) → IsMirrored s → IsMirrored (start_task now id s).1
  unfolding start_task get_task is_blocked
  start_task-IsMirrored now id s m = elim (Option-cases (lookup id s.tasks)) [
    | inl missing ↦ rw (missing, start_task, get_task) m
    | inr (t, there) ↦ elim (Bool-cases (is_blocked t.status)) [
      | inl waits ↦ rw (there, waits, start_task) m
      | inr free ↦ rw (there, free, start_task) (update-IsMirrored _ id s (λ u. refl) m)
    ]
  ]

  unblock_found-IsMirrored :
      (done id : String) (s : Manager F)
      → IsMirrored s
      → IsMirrored (unblock_found done id (lookup id s.tasks) s)
  unfolding unblock_found
  unblock_found-IsMirrored done id s m = elim (Option-cases (lookup id s.tasks)) [
    | inl missing ↦ rw (missing, unblock_found) m
    | inr (t, there) ↦ elim (Bool-cases (can_unblock s.tasks done t)) [
      | inl free ↦
          rw (there, unblock_found, free) (store-IsMirrored id _ s (id_of-lookup id t s m there) m)
      | inr held ↦ rw (there, unblock_found, held) m
    ]
  ]

  unblock_keys-IsMirrored :
      (done : String) (ids : List String) (s : Manager F)
      → IsMirrored s
      → IsMirrored (unblock_keys done ids s)
  unfolding unblock_keys
  unblock_keys-IsMirrored done [] s m = m
  unblock_keys-IsMirrored done (id ∷ ids) s m =
      unblock_keys-IsMirrored done ids _ (unblock_found-IsMirrored done id s m)

  complete_task-IsMirrored :
      (now id : String) (result : Option (Fields F)) (s : Manager F)
      → IsMirrored s
      → IsMirrored (complete_task now id result s).1
  unfolding complete_task check_unblock
  complete_task-IsMirrored now id result s m = elim (Option-cases (lookup id s.tasks)) [
    | inl missing ↦
        let e = update_missing (completing now result) id s missing in rw (e, complete_task, e) m
    | inr (t, there) ↦
        let e = update_found (completing now result) id s t there in
        let s' = store id (completing now result t) s in
        rw (e, complete_task, e)
          (unblock_keys-IsMirrored id (keys s'.tasks) s'
            (store-IsMirrored id (completing now result t) s (id_of-lookup id t s m there) m))
  ]

module _ (ops : Float) where
  open ops use {Num}

  create_task-IsMirrored :
      (id now : String) (n : NewTask Num) (s : Manager Num)
      → IsMirrored s
      → IsMirrored (create_task ops id now n s).1
  unfolding create_task created_task
  create_task-IsMirrored id now n s m = elim (Bool-cases (is_blank n.name)) [
    | inl blank ↦ rw blank m
    | inr named ↦ elim (Option-cases (missing_dep s.tasks n.dependencies)) [
      | inr (d, gone) ↦ rw (named, gone) m
      | inl found ↦ rw (named, found) (store-IsMirrored id _ s refl m)
    ]
  ]

  perform-IsMirrored :
      (op : Op Num) (s : Manager Num) → IsMirrored s → IsMirrored (perform ops op s)
  unfolding perform fail_task cancel_task
  perform-IsMirrored (create_op id now n) s m = create_task-IsMirrored id now n s m
  perform-IsMirrored (start_op now id) s m = start_task-IsMirrored now id s m
  perform-IsMirrored (complete_op now id result) s m = complete_task-IsMirrored now id result s m
  perform-IsMirrored (fail_op now id error) s m = update-IsMirrored _ id s (λ t. refl) m
  perform-IsMirrored (cancel_op now id) s m = update-IsMirrored _ id s (λ t. refl) m

  pub run-IsMirrored :
      (os : List (Op Num)) (s : Manager Num) → IsMirrored s → IsMirrored (perform_all ops os s)
  unfolding perform_all
  run-IsMirrored [] s m = m
  run-IsMirrored (op ∷ rest) s m =
      run-IsMirrored rest (perform ops op s) (perform-IsMirrored op s m)
