-- ===== src/Tasks/Manager/Blocked.antt =====
-- agent/tasks/manager.py: no task waits for dependencies that are all completed.
use agent_life_space.Prelude.{
  String, Bool, true, false, ◌≡◌, refl, Option, none, some, List, [], ◌∷◌, arith, Dict, lookup,
  insert, elem, all, lookup-insert, ◌==◌, ◌&&◌, if◌then◌else◌, Bool-cases, Option-cases, inl, inr,
}
use agent_life_space.Prelude.Float.{Float}
use agent_life_space.Prelude.Text.{is_blank}
use agent_life_space.Json.{Fields}
use agent_life_space.Tasks.Task.{Task, is_blocked, is_completed}
use agent_life_space.Tasks.Manager.{
  Manager, NewTask, store, get_task, update, dep_completed, all_deps_completed, can_unblock,
  check_unblock, missing_dep, created_task, create_task, completing, start_task, complete_task,
  fail_task, cancel_task,
}
use agent_life_space.Tasks.Manager.Unblock.{
  update_missing, update_found, tasks-store, unblocked, lookup-check_unblock, done-unblocked,
  all_same,
}
use agent_life_space.Tasks.Manager.Ops.{
  Op, create_op, start_op, complete_op, fail_op, cancel_op, perform, perform_all,
}

all_shrink :
    (p q : String → Bool) (ds : List String)
    → ((d : String) → p d ≡ false → q d ≡ false)
    → all p ds ≡ false
    → all q ds ≡ false
all_shrink p q [] less h = h
all_shrink p q (d ∷ ds) less h = ground (arith, less d, all_shrink p q ds less)

module _ {F : Type 0} where
  -- A task that waits although everything it waits for is completed.
  unfoldable pub stuck : Dict (Task F) → Option (Task F) → Bool
  unfolding is_blocked all_deps_completed
  stuck tasks none = false
  stuck tasks (some t) = is_blocked t.status && all_deps_completed tasks t.dependencies

  abbrev pub IsUnstuck : Manager F → Type 0
  IsUnstuck s = (k : String) → stuck s.tasks (lookup k s.tasks) ≡ false

  dep-insert :
      (id d : String) (t : Task F) (tasks : Dict (Task F))
      → dep_completed (insert id t tasks) d
        ≡ (if id == d then is_completed t.status else dep_completed tasks d)
  unfolding dep_completed
  dep-insert id d t tasks = rw lookup-insert (ground arith)

  -- Nothing gets free to run by a task that is not completed.
  all_deps-insert :
      (id : String) (t : Task F) (tasks : Dict (Task F)) (ds : List String)
      → is_completed t.status ≡ false
      → all_deps_completed tasks ds ≡ false
      → all_deps_completed (insert id t tasks) ds ≡ false
  unfolding all_deps_completed
  all_deps-insert id t tasks ds open_ h =
      all_shrink (dep_completed tasks) (dep_completed (insert id t tasks)) ds
        (λ d g. ground (arith, dep-insert id d t tasks)) h

  -- A task that does not depend on `id` does not see it change.
  all_deps-frame :
      (id : String) (t : Task F) (tasks : Dict (Task F)) (ds : List String)
      → elem id ds ≡ false
      → all_deps_completed (insert id t tasks) ds ≡ all_deps_completed tasks ds
  unfolding all_deps_completed elem
  all_deps-frame id t tasks [] h = refl
  all_deps-frame id t tasks (d ∷ ds) h =
      ground (arith, dep-insert id d t tasks, all_deps-frame id t tasks ds)

  still_unstuck :
      (id : String) (t : Task F) (tasks : Dict (Task F)) (o : Option (Task F))
      → is_completed t.status ≡ false
      → stuck tasks o ≡ false
      → stuck (insert id t tasks) o ≡ false
  unfolding stuck
  still_unstuck id t tasks none open_ h = refl
  still_unstuck id t tasks (some u) open_ h =
      ground (arith, all_deps-insert id t tasks u.dependencies)

  store-IsUnstuck :
      (id : String) (t : Task F) (s : Manager F)
      → is_completed t.status ≡ false
      → stuck (insert id t s.tasks) (some t) ≡ false
      → IsUnstuck s
      → IsUnstuck (store id t s)
  store-IsUnstuck id t s open_ fine h k =
      rw (tasks-store, lookup-insert)
        (elim (Bool-cases (id == k)) [
          | inl same ↦ rw same fine
          | inr other ↦ rw other (still_unstuck id t s.tasks (lookup k s.tasks) open_ (h k))
        ])

  -- An assignment after which the task is neither blocked nor completed.
  update-IsUnstuck :
      (change : Task F → Task F) (id : String) (s : Manager F)
      → ((t : Task F)
          → (is_completed (change t).status ≡ false) × (is_blocked (change t).status ≡ false))
      → IsUnstuck s
      → IsUnstuck (update change id s).1
  unfolding stuck
  update-IsUnstuck change id s runs h = elim (Option-cases (lookup id s.tasks)) [
    | inl missing ↦ rw (update_missing change id s missing) h
    | inr (t, there) ↦
        rw (update_found change id s t there)
          (store-IsUnstuck id (change t) s (runs t).0 (ground (arith, runs t)) h)
  ]

  fail_task-IsUnstuck :
      (now id error : String) (s : Manager F) → IsUnstuck s → IsUnstuck (fail_task now id error s).1
  unfolding fail_task is_completed is_blocked
  fail_task-IsUnstuck now id error s h = update-IsUnstuck _ id s (λ t. (refl, refl)) h

  cancel_task-IsUnstuck :
      (now id : String) (s : Manager F) → IsUnstuck s → IsUnstuck (cancel_task now id s).1
  unfolding cancel_task is_completed is_blocked
  cancel_task-IsUnstuck now id s h = update-IsUnstuck _ id s (λ t. (refl, refl)) h

  start_task-IsUnstuck :
      (now id : String) (s : Manager F) → IsUnstuck s → IsUnstuck (start_task now id s).1
  unfolding start_task get_task is_completed is_blocked
  start_task-IsUnstuck now id s h = elim (Option-cases (lookup id s.tasks)) [
    | inl missing ↦ rw (missing, start_task) h
    | inr (t, there) ↦ elim (Bool-cases (is_blocked t.status)) [
      | inl waits ↦ rw (there, waits, start_task) h
      | inr free ↦ rw (there, free, start_task) (update-IsUnstuck _ id s (λ t. (refl, refl)) h)
    ]
  ]

  -- A completed task lets go of those that waited for it last.
  freed_unstuck :
      (id : String) (t : Task F) (tasks : Dict (Task F)) (o : Option (Task F))
      → stuck tasks o ≡ false
      → stuck (insert id t tasks) (unblocked (insert id t tasks) id o) ≡ false
  unfolding stuck can_unblock
  freed_unstuck id t tasks none h = refl
  freed_unstuck id t tasks (some u) h = ground (arith, all_deps-frame id t tasks u.dependencies)

  stuck_same :
      (a b : Dict (Task F)) (o : Option (Task F))
      → ((d : String) → dep_completed a d ≡ dep_completed b d)
      → stuck a o ≡ stuck b o
  unfolding stuck all_deps_completed
  stuck_same a b none e = refl
  stuck_same a b (some t) e = rw (all_same _ _ t.dependencies e)

  dep-check_unblock :
      (done d : String) (s : Manager F)
      → dep_completed (check_unblock done s).tasks d ≡ dep_completed s.tasks d
  unfolding dep_completed
  dep-check_unblock done d s =
      rw lookup-check_unblock (done-unblocked s.tasks done (lookup d s.tasks))

  completed_self :
      (id : String) (t : Task F) (tasks : Dict (Task F))
      → is_completed t.status ≡ true
      → stuck tasks (unblocked tasks id (some t)) ≡ false
  unfolding stuck can_unblock is_completed
  completed_self id t tasks done = ground arith

  completed-IsUnstuck :
      (id : String) (t : Task F) (s : Manager F)
      → is_completed t.status ≡ true
      → IsUnstuck s
      → IsUnstuck (check_unblock id (store id t s))
  completed-IsUnstuck id t s done h k =
      let s' = store id t s in
      rw
        (stuck_same (check_unblock id s').tasks s'.tasks (lookup k (check_unblock id s').tasks)
          (λ d. dep-check_unblock id d s'))
        (rw (lookup-check_unblock, tasks-store, lookup-insert)
          (elim (Bool-cases (id == k)) [
            | inl same ↦ rw same (completed_self id t (insert id t s.tasks) done)
            | inr other ↦ rw other (freed_unstuck id t s.tasks (lookup k s.tasks) (h k))
          ]))

  complete_task-IsUnstuck :
      (now id : String) (result : Option (Fields F)) (s : Manager F)
      → IsUnstuck s
      → IsUnstuck (complete_task now id result s).1
  unfolding complete_task is_completed
  complete_task-IsUnstuck now id result s h = elim (Option-cases (lookup id s.tasks)) [
    | inl missing ↦
        let e = update_missing (completing now result) id s missing in rw (e, complete_task, e) h
    | inr (t, there) ↦
        let e = update_found (completing now result) id s t there in
        rw (e, complete_task, e) (completed-IsUnstuck id _ s refl h)
  ]

module _ (ops : Float) where
  open ops use {Num}

  created_unstuck :
      (id now : String) (n : NewTask Num) (tasks : Dict (Task Num))
      → (is_completed (created_task ops id now n tasks).status ≡ false)
        × (stuck tasks (some (created_task ops id now n tasks)) ≡ false)
  unfolding created_task stuck is_completed is_blocked
  created_unstuck id now n tasks = ground arith

  create_task-IsUnstuck :
      (id now : String) (n : NewTask Num) (s : Manager Num)
      → IsUnstuck s
      → IsUnstuck (create_task ops id now n s).1
  unfolding create_task
  create_task-IsUnstuck id now n s h =
      let (open_, fine) = created_unstuck id now n s.tasks in
      elim (Bool-cases (is_blank n.name)) [
        | inl blank ↦ rw blank h
        | inr named ↦ elim (Option-cases (missing_dep s.tasks n.dependencies)) [
          | inr (d, gone) ↦ rw (named, gone) h
          | inl found ↦
              rw (named, found)
                (store-IsUnstuck id _ s open_ (still_unstuck id _ s.tasks (some _) open_ fine) h)
        ]
      ]

  perform-IsUnstuck : (op : Op Num) (s : Manager Num) → IsUnstuck s → IsUnstuck (perform ops op s)
  unfolding perform
  perform-IsUnstuck (create_op id now n) s h = create_task-IsUnstuck id now n s h
  perform-IsUnstuck (start_op now id) s h = start_task-IsUnstuck now id s h
  perform-IsUnstuck (complete_op now id result) s h = complete_task-IsUnstuck now id result s h
  perform-IsUnstuck (fail_op now id error) s h = fail_task-IsUnstuck now id error s h
  perform-IsUnstuck (cancel_op now id) s h = cancel_task-IsUnstuck now id s h

  run-IsUnstuck :
      (os : List (Op Num)) (s : Manager Num) → IsUnstuck s → IsUnstuck (perform_all ops os s)
  unfolding perform_all
  run-IsUnstuck [] s h = h
  run-IsUnstuck (op ∷ rest) s h = run-IsUnstuck rest (perform ops op s) (perform-IsUnstuck op s h)

  -- From a manager without tasks, no sequence of calls leaves a blocked task whose dependencies
  -- are all completed.
  pub perform_all-IsUnstuck :
      (os : List (Op Num)) (s : Manager Num) → s.tasks ≡ [] → IsUnstuck (perform_all ops os s)
  unfolding lookup stuck
  perform_all-IsUnstuck os s empty = run-IsUnstuck os s (λ k. rw empty refl)
