-- ===== src/Tasks/Manager/Queries.antt =====
-- agent/tasks/manager.py: the queries of TaskManager.
use agent_life_space.Prelude.{
  ℕ, String, Bool, true, Option, none, some, List, [], Dict, values, length, take, filter, elem,
  count_from, ◌==◌,
}
use Prim.Native.String.{compare}
use text.Mathlib.Text.{is_lt}
use agent_life_space.Prelude.Float.{Float}
use agent_life_space.Prelude.Sorting.{sort_desc, first}
use agent_life_space.Tasks.Task.{TaskStatus, Task, is_queued}
use agent_life_space.Tasks.Task.Codec.{status_value}
use agent_life_space.Tasks.Manager.{Manager}

pub record Stats : Type 0 where
  pub total_tasks : ℕ
  pub by_status : Dict ℕ

module _ {F : Type 0} where
  unfoldable pub get_tasks_by_status : TaskStatus → Manager F → List (Task F)
  get_tasks_by_status status s =
      filter (λ (t : Task F). status_value t.status == status_value status) (values s.tasks)

  unfoldable pub get_tasks_by_tag : String → Manager F → List (Task F)
  get_tasks_by_tag tag s = filter (λ (t : Task F). elem tag t.tags) (values s.tasks)

  abbrev of_status : Option TaskStatus → Task F → Bool
  of_status none t = true
  of_status (some status) t = status_value t.status == status_value status

  -- The newest first, by the texts of `created_at`.
  unfoldable pub list_tasks : Option TaskStatus → ℕ → Manager F → List (Task F)
  list_tasks status limit s = take limit (
      sort_desc (λ (t u : Task F). is_lt (compare t.created_at u.created_at))
        (filter (of_status status) (values s.tasks)))

  unfoldable pub get_stats : Manager F → Stats
  unfolding count_from
  get_stats s = record {
    total_tasks = length (values s.tasks);
    by_status = count_from (λ (t : Task F). status_value t.status) (values s.tasks) [];
  }

module _ (ops : Float) where
  open ops use {Num, decimal, add, sub, mul, lt}

  -- `t.importance * 0.4 + t.urgency * 0.3 + (1 - t.effort) * 0.2 + t.priority * 0.1`
  unfoldable pub score : Task Num → Num
  score t =
      add
        (add (add (mul t.importance (decimal 4 1)) (mul t.urgency (decimal 3 1)))
          (mul (sub (decimal 1 0) t.effort) (decimal 2 1)))
        (mul t.priority (decimal 1 1))

  unfoldable pub get_next_task : Manager Num → Option (Task Num)
  unfolding score is_queued
  get_next_task s = first (
      sort_desc (λ (t u : Task Num). lt (score t) (score u))
        (filter (λ (t : Task Num). is_queued t.status) (values s.tasks)))
