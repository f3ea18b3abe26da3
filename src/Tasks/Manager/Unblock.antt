-- ===== src/Tasks/Manager/Unblock.antt =====
-- agent/tasks/manager.py: `_check_unblock` as a function of each task alone.
use agent_life_space.Prelude.{
  String, Bool, true, false, ◌≡◌, refl, Option, none, some, List, [], ◌∷◌, arith, Dict, lookup,
  insert, keys, elem, all, lookup-insert, ◌==◌, ◌&&◌, if◌then◌else◌, Bool-cases, Option-cases, inl,
  inr, eq_of_==, ==_refl,
}
use agent_life_space.Tasks.Task.{queued, completed, Task, is_blocked, is_completed}
use agent_life_space.Prelude.Result.{ok, err}
use agent_life_space.Json.{Fields}
use agent_life_space.Tasks.Manager.{
  not_found, get_task, update, complete_task, completing, Manager, persist, store, is_done,
  dep_completed, all_deps_completed, can_unblock, unblock_found, unblock_keys, check_unblock,
}

pub all_same :
    (p q : String → Bool) (ds : List String) → ((d : String) → p d ≡ q d) → all p ds ≡ all q ds
all_same p q [] e = refl
all_same p q (d ∷ ds) e = rw (e d, all_same p q ds e)

module _ {F : Type 0} where
  pub tasks-store :
      (id : String) (t : Task F) (s : Manager F) → (store id t s).tasks ≡ insert id t s.tasks
  unfolding store persist
  tasks-store id t s = ground arith

  pub update_missing :
      (change : Task F → Task F) (id : String) (s : Manager F)
      → lookup id s.tasks ≡ none
      → update change id s ≡ (err (not_found id), s)
  unfolding update get_task
  update_missing change id s missing = rw (missing, update)

  pub update_found :
      (change : Task F → Task F) (id : String) (s : Manager F) (t : Task F)
      → lookup id s.tasks ≡ some t
      → update change id s ≡ (ok (change t), store id (change t) s)
  unfolding update get_task
  update_found change id s t there = rw (there, update)

  -- What the test of the loop makes of a task, against the tasks as they were before the loop.
  abbrev pub unblocked : Dict (Task F) → String → Option (Task F) → Option (Task F)
  unblocked tasks done none = none
  unblocked tasks done (some t) =
      some (if can_unblock tasks done t then record t { status = queued } else t)

  found_step :
      (done id k : String) (t : Task F) (s : Manager F)
      → lookup k (unblock_found done id (some t) s).tasks ≡ (
          if (id == k) && can_unblock s.tasks done t
          then some (record t { status = queued })
          else lookup k s.tasks)
  unfolding unblock_found
  found_step done id k t s = elim (Bool-cases (can_unblock s.tasks done t)) [
    | inl free ↦
        rw (free, tasks-store)
          (ground (arith, lookup-insert id k (record t { status = queued }) s.tasks))
    | inr held ↦ rw held (ground arith)
  ]

  found_none : (done id : String) (s : Manager F) → unblock_found done id none s ≡ s
  unfolding unblock_found
  found_none done id s = refl

  lookup-unblock_found :
      (done id k : String) (s : Manager F)
      → lookup k (unblock_found done id (lookup id s.tasks) s).tasks
        ≡ (if id == k then unblocked s.tasks done (lookup k s.tasks) else lookup k s.tasks)
  lookup-unblock_found done id k s = elim (Option-cases (lookup id s.tasks)) [
    | inl missing ↦ rw (missing, found_none) (ground (arith, eq_of_== id k))
    | inr (t, there) ↦ rw (there, found_step) (ground (arith, eq_of_== id k))
  ]

  pub done-unblocked :
      (tasks : Dict (Task F)) (done : String) (o : Option (Task F))
      → is_done (unblocked tasks done o) ≡ is_done o
  unfolding can_unblock is_blocked is_completed
  done-unblocked tasks done none = refl
  done-unblocked tasks done (some t) = ground arith

  twice-unblocked :
      (tasks : Dict (Task F)) (done : String) (o : Option (Task F))
      → unblocked tasks done (unblocked tasks done o) ≡ unblocked tasks done o
  unfolding can_unblock is_blocked
  twice-unblocked tasks done none = refl
  twice-unblocked tasks done (some t) = ground arith

  dep-unblock_found :
      (done id d : String) (s : Manager F)
      → dep_completed (unblock_found done id (lookup id s.tasks) s).tasks d
        ≡ dep_completed s.tasks d
  unfolding dep_completed
  dep-unblock_found done id d s =
      rw lookup-unblock_found (ground (arith, done-unblocked s.tasks done (lookup d s.tasks)))

  unblocked-unblock_found :
      (done id : String) (o : Option (Task F)) (s : Manager F)
      → unblocked (unblock_found done id (lookup id s.tasks) s).tasks done o
        ≡ unblocked s.tasks done o
  unfolding can_unblock all_deps_completed
  unblocked-unblock_found done id none s = refl
  unblocked-unblock_found done id (some t) s =
      rw (all_same _ _ t.dependencies (λ d. dep-unblock_found done id d s))

  lookup-unblock_keys :
      (done k : String) (ids : List String) (s : Manager F)
      → lookup k (unblock_keys done ids s).tasks
        ≡ (if elem k ids then unblocked s.tasks done (lookup k s.tasks) else lookup k s.tasks)
  unfolding unblock_keys elem
  lookup-unblock_keys done k [] s = refl
  lookup-unblock_keys done k (id ∷ ids) s =
      rw (lookup-unblock_keys done k ids, lookup-unblock_found, unblocked-unblock_found)
        (ground (
          arith,
          twice-unblocked s.tasks done (lookup k s.tasks),
          eq_of_== id k,
          eq_of_== k id,
          ==_refl k,
        ))

  elem-keys :
      (k : String) (d : Dict (Task F)) (t : Task F) → lookup k d ≡ some t → elem k (keys d) ≡ true
  unfolding lookup elem
  elem-keys k [] t e = absurd (cc)
  elem-keys k ((j, u) ∷ d) t e = ground (arith, elem-keys k d t, eq_of_== j k, ==_refl k)

  pub lookup-check_unblock :
      (done k : String) (s : Manager F)
      → lookup k (check_unblock done s).tasks ≡ unblocked s.tasks done (lookup k s.tasks)
  unfolding check_unblock
  lookup-check_unblock done k s = rw lookup-unblock_keys (elim (Option-cases (lookup k s.tasks)) [
    | inl missing ↦ rw missing (ground arith)
    | inr (t, there) ↦ rw (elem-keys k s.tasks t there)
  ])

  -- The task is blocked, names `done` among its dependencies, and each of these is a task that has
  -- the status completed.
  abbrev is_free : Dict (Task F) → String → Task F → Bool
  is_free tasks done t =
      is_blocked t.status
      && elem done t.dependencies
      && all (λ d. elim (lookup d tasks) [ none ↦ false | some u ↦ is_completed u.status ])
          t.dependencies

  abbrev pub freed : Dict (Task F) → String → Option (Task F) → Option (Task F)
  freed tasks done none = none
  freed tasks done (some t) =
      some (if is_free tasks done t then record t { status = queued } else t)

  dep_completed_lem :
      (o : Option (Task F)) → is_done o ≡ elim o [ none ↦ false | some u ↦ is_completed u.status ]
  dep_completed_lem none = refl
  dep_completed_lem (some t) = refl

  unblocked-freed :
      (tasks : Dict (Task F)) (done : String) (o : Option (Task F))
      → unblocked tasks done o ≡ freed tasks done o
  unfolding can_unblock all_deps_completed dep_completed
  unblocked-freed tasks done none = refl
  unblocked-freed tasks done (some t) =
      rw (all_same _ _ t.dependencies (λ d. dep_completed_lem (lookup d tasks))) refl

  -- Completing a task that exists succeeds. Afterwards the task is completed at the given instant
  -- with the given result; each task that was blocked, names it among its dependencies, and has only
  -- dependencies that are tasks with the status completed by now, is queued; every other one is as it
  -- was.
  pub lookup-complete_task :
      (now id k : String) (result : Option (Fields F)) (s : Manager F) (t : Task F)
      → lookup id s.tasks ≡ some t
      → let t' = record t { status = completed; completed_at = some now; result = result } in
        ((complete_task now id result s).0 ≡ ok t')
        × (lookup k (complete_task now id result s).1.tasks
            ≡ freed (insert id t' s.tasks) id (if id == k then some t' else lookup k s.tasks))
  unfolding complete_task
  lookup-complete_task now id k result s t there =
      let e = update_found (completing now result) id s t there in
      rw (e, complete_task, e)
        (refl, rw (lookup-check_unblock, tasks-store, lookup-insert) (unblocked-freed _ _ _))
