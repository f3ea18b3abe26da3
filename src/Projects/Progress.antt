-- ===== src/Projects/Progress.antt =====
-- agent/projects/manager.py: `list_projects`, `get_progress` and `get_stats`. The task manager that
-- the progress asks is agent/tasks/manager.py.
use agent_life_space.Prelude.{
  ℕ, ◌+◌, ◌-◌, ◌≤◌, String, Bool, true, false, ◌≡◌, refl, Option, none, some, List, [], ◌∷◌, arith,
  Dict, lookup, values, map, length, filter, count_from, ◌==◌, if◌then◌else◌, Bool-cases, inl, inr,
  eq_of_==,
}
use agent_life_space.Prelude.Result.{ok, ◌>>=◌}
use agent_life_space.Prelude.Float.{Float}
use agent_life_space.Prelude.Sorting.{sort_desc}
use agent_life_space.Json.{Fields, Decoded}
use agent_life_space.Tasks.Task.{Task}
use agent_life_space.Tasks.Task.Codec
use agent_life_space.Tasks.Manager.{Manager}
use agent_life_space.Projects.Record.{ProjectStatus, Project, status_value}
use agent_life_space.Projects.{Defaults, Stats, decode}

-- What `get_progress` returns of the counts; `progress` is computed from them.
pub record Progress : Type 0 where
  pub total : ℕ
  pub completed : ℕ
  pub failed : ℕ
  pub remaining : ℕ

module _ {F : Type 0} where
  abbrev has_status : String → Option (Task F) → Bool
  has_status s none = false
  has_status s (some t) = Codec.status_value t.status == s

  -- The loop over the task ids, with `completed` and `failed`.
  unfoldable pub count_tasks : Dict (Task F) → List String → ℕ × ℕ → ℕ × ℕ
  count_tasks tasks [] acc = acc
  count_tasks tasks (id ∷ ids) (done, lost) =
      if has_status "completed" (lookup id tasks)
      then count_tasks tasks ids (done + 1, lost)
      else if has_status "failed" (lookup id tasks)
      then count_tasks tasks ids (done, lost + 1)
      else count_tasks tasks ids (done, lost)

  -- The answer of `get_progress` for a project that was found and has tasks.
  unfoldable pub get_progress : Manager F → Project F → Progress
  unfolding count_tasks
  get_progress s p =
      let (done, lost) = count_tasks s.tasks p.task_ids (0, 0) in
      let total = length p.task_ids in
      record { total = total; completed = done; failed = lost; remaining = total - done - lost }

  abbrev pub with_status : String → Dict (Task F) → List String → ℕ
  with_status s tasks ids = length (filter (λ id. has_status s (lookup id tasks)) ids)

  exclusive :
      (o : Option (Task F)) → has_status "completed" o ≡ true → has_status "failed" o ≡ false
  unfolding ◌==◌
  exclusive none h = refl
  exclusive (some t) h = rw (eq_of_== (Codec.status_value t.status) "completed" h) refl

  count_tasks-with_status :
      (tasks : Dict (Task F)) (ids : List String) (done lost : ℕ)
      → let (d, l) = count_tasks tasks ids (done, lost) in
        (d ≡ done + with_status "completed" tasks ids)
        × (l ≡ lost + with_status "failed" tasks ids)
        × (d + l ≤ done + lost + length ids)
  unfolding count_tasks
  count_tasks-with_status tasks [] done lost = (omega arith, omega arith, omega arith)
  count_tasks-with_status tasks (id ∷ ids) done lost =
      elim (Bool-cases (has_status "completed" (lookup id tasks))) [
        | inl hit ↦
            rw (hit, exclusive (lookup id tasks) hit)
              (let (d, l, sum) = count_tasks-with_status tasks ids (done + 1) lost in
                (omega (arith, d), l, omega (arith, sum)))
        | inr miss ↦ elim (Bool-cases (has_status "failed" (lookup id tasks))) [
          | inl bad ↦
              rw (miss, bad)
                (let (d, l, sum) = count_tasks-with_status tasks ids done (lost + 1) in
                  (d, omega (arith, l), omega (arith, sum)))
          | inr other ↦
              rw (miss, other)
                (let (d, l, sum) = count_tasks-with_status tasks ids done lost in
                  (d, l, omega (arith, sum)))
        ]
      ]

  -- The progress counts the completed and the failed tasks among those of the project, and with the
  -- remaining ones they add up to all of them.
  pub get_progress-with_status :
      (s : Manager F) (p : Project F)
      → let r = get_progress s p in
        (r.completed ≡ with_status "completed" s.tasks p.task_ids)
        × (r.failed ≡ with_status "failed" s.tasks p.task_ids)
        × (r.completed + r.failed + r.remaining ≡ r.total)
  unfolding get_progress
  get_progress-with_status s p =
      let (d, l, sum) = count_tasks-with_status s.tasks p.task_ids 0 0 in
      (omega (arith, d), omega (arith, l), omega (arith, sum))

module _ (ops : Float) (defaults : Defaults ops.Num) where
  open ops use {Num, lt}

  decode_all : List (Fields Num) → Decoded (List (Project Num))
  decode_all [] = ok []
  decode_all (d ∷ ds) = do p ← decode defaults d; ps ← decode_all ds; ok (p ∷ ps)

  abbrev of_status : Option ProjectStatus → Project Num → Bool
  of_status none p = true
  of_status (some s) p = status_value p.status == status_value s

  -- The projects of the status, the highest priority first.
  unfoldable pub list_projects :
      Option ProjectStatus → Dict (Fields Num) → Decoded (List (Project Num))
  unfolding decode_all
  list_projects status rows = do
    ps ← decode_all (values rows)
    ok (sort_desc (λ (p q : Project Num). lt p.priority q.priority) (filter (of_status status) ps))

  unfoldable pub get_stats : Dict (Fields Num) → Decoded Stats
  unfolding list_projects count_from
  get_stats rows = do
    ps ← list_projects none rows
    ok (record {
      total_projects = length ps;
      by_status = count_from (λ (p : Project Num). status_value p.status) ps [];
      active_names =
          map (λ (p : Project Num). p.name)
            (filter (λ (p : Project Num). status_value p.status == "active") ps);
    })
