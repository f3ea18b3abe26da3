-- ===== src/Examples/TaskRuns.antt =====
-- agent/tasks/manager.py: a task and one that depends on it.
use agent_life_space.Prelude.{
  ℕ, String, true, false, ◌≡◌, refl, none, some, List, [], ◌∷◌, arith, Dict, lookup, insert, elem,
  values, ltb, ltb→lt, ◌==◌,
}
use agent_life_space.Prelude.Result.{ok}
use agent_life_space.Prelude.Sorting.{IsPreorder, Member}
use agent_life_space.Json.{Fields, end}
use agent_life_space.Tasks.Task.{
  Task, queued, completed, blocked, one_time, is_completed, is_blocked,
}
use agent_life_space.Tasks.Manager.{
  Manager, NewTask, complete_task, initialize, can_unblock, all_deps_completed,
}
use agent_life_space.Tasks.Manager.Queries.{score, get_next_task}
use agent_life_space.Tasks.Manager.Ops.{Op, create_op, complete_op, perform_all}
use agent_life_space.Tasks.Manager.Unblock.{lookup-complete_task}
use agent_life_space.Tasks.Manager.Blocked.{IsUnstuck, perform_all-IsUnstuck}
use agent_life_space.Tasks.Manager.Reports.{IsNext, get_next_task-IsNext}
use agent_life_space.Tasks.Manager.Restart.{fresh, initialize-perform_all}
use agent_life_space.Examples.Data.{cents}

abbrev named : String → List String → NewTask ℕ
named name deps = record {
  name = name;
  description = "";
  priority = 50;
  importance = 50;
  urgency = 50;
  effort = 50;
  tags = [];
  dependencies = deps;
  deadline = none;
  requires_llm = false;
  requires_approval = false;
  task_type = one_time;
  cron_expression = none;
  metadata = end;
}

abbrev calls : List (Op ℕ)
calls =
    create_op "t1" "2026-03-01" (named "build" [])
    ∷ create_op "t2" "2026-03-01" (named "deploy" ("t1" ∷ []))
    ∷ complete_op "2026-03-02" "t1" none
    ∷ []

perform_all-IsUnstuck_example : IsUnstuck (perform_all cents calls (fresh (some [])))
perform_all-IsUnstuck_example = perform_all-IsUnstuck cents calls (fresh (some [])) refl

initialize-perform_all_example :
    let s = perform_all cents calls (fresh (some [])) in
    (rows : Dict (Fields ℕ)) × (s' : Manager ℕ) × (s.db ≡ some rows)
    × (initialize 50 rows (fresh none) ≡ ok s')
    × ((k : String) → lookup k s'.tasks ≡ lookup k s.tasks)
initialize-perform_all_example = initialize-perform_all cents 50 calls

abbrev build : Task ℕ
build = record {
  id = "t1";
  name = "build";
  description = "";
  status = queued;
  task_type = one_time;
  priority = 50;
  importance = 50;
  urgency = 50;
  effort = 50;
  tags = [];
  dependencies = [];
  created_at = "2026-03-01";
  scheduled_at = none;
  started_at = none;
  completed_at = none;
  deadline = none;
  result = none;
  error = none;
  requires_llm = false;
  requires_approval = false;
  metadata = end;
  cron_expression = none;
  recurrence_count = 0;
}

abbrev deploy : Task ℕ
deploy = record build { id = "t2"; name = "deploy"; status = blocked; dependencies = "t1" ∷ [] }

abbrev two : Manager ℕ
two = record { tasks = ("t1", build) ∷ ("t2", deploy) ∷ []; db = none }

lookup-complete_task_example :
    ((complete_task "2026-03-02" "t1" none two).0
      ≡ ok (record build { status = completed; completed_at = some "2026-03-02"; result = none }))
    × (lookup "t2" (complete_task "2026-03-02" "t1" none two).1.tasks
        ≡ some (record deploy { status = queued }))
unfolding lookup insert elem can_unblock all_deps_completed is_blocked is_completed ◌==◌
lookup-complete_task_example = lookup-complete_task "2026-03-02" "t1" "t2" none two build refl

cents-IsPreorder :
    IsPreorder
      (λ (t u : Task ℕ). ltb (score cents t) (score cents u))
      (λ t. Member t (values two.tasks))
cents-IsPreorder = record {
  asym = λ t u p q. ltb_asym (score cents t) (score cents u);
  trans = λ t u v p q r. ltb_trans (score cents t) (score cents u) (score cents v);
}
  where
    ltb_asym : (a b : ℕ) → ltb a b ≡ true → ltb b a ≡ false
    ltb_asym a b h = ground (arith, ltb→lt a b, ltb→lt b a)

    ltb_trans : (a b c : ℕ) → ltb a b ≡ false → ltb b c ≡ false → ltb a c ≡ false
    ltb_trans a b c h k = ground (arith, ltb→lt a c)

get_next_task-IsNext_example : IsNext cents (get_next_task cents two) (values two.tasks)
get_next_task-IsNext_example = get_next_task-IsNext cents two cents-IsPreorder

abbrev pub done_manager : Manager ℕ
done_manager = record { tasks = ("t1", record build { status = completed }) ∷ []; db = none }
