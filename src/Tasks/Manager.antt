-- ===== src/Tasks/Manager.antt =====
-- agent/tasks/manager.py: the class TaskManager. A method returns the new manager, and its result
-- or the exception that it raises. `uuid.uuid4().hex[:12]` and `datetime.now` are arguments. The
-- coroutines are taken one after the other: a method runs to its end before the next starts. The
-- queries and the proofs stand in the children.
pub mod Queries
pub mod Ops
pub mod Unblock
pub mod Blocked
pub mod Reports
mod Mirror
pub mod Restart
use agent_life_space.Prelude.{
  ℕ, String, Bool, true, false, Option, none, some, List, [], ◌∷◌, Dict, lookup, insert, keys,
  values, length, take, filter, all, elem, count_from, not, ◌==◌, ◌&&◌, ◌||◌, if◌then◌else◌,
}
use Prim.Native.String.{compare}
use text.Mathlib.Text.{is_lt}
use agent_life_space.Prelude.Result.{Result, ok, err, ◌>>=◌}
use agent_life_space.Prelude.Text.{is_blank}
use agent_life_space.Prelude.Float.{Float, min_float, max_float}
use agent_life_space.Prelude.Sorting.{sort_desc, first}
use agent_life_space.Json.{Fields, Decoded}
use agent_life_space.Tasks.Task.{
  TaskStatus, queued, running, completed, failed, cancelled, blocked, TaskType, Task, is_queued,
  is_completed, is_blocked,
}
use agent_life_space.Tasks.Task.Codec.{status_value, to_dict, from_dict}

-- The ValueErrors and the KeyError of `_get_task`, without their texts.
pub data Error : Type 0 where
  empty_path blank_name : Error
  missing_dependency task_blocked not_found : String → Error

-- `db` is `None` before `initialize` and after `close`; a row is the dict that was dumped.
pub record Manager (F : Type 0) : Type 0 where
  pub tasks : Dict (Task F)
  pub db : Option (Dict (Fields F))

-- The arguments of `create_task`.
pub record NewTask (F : Type 0) : Type 0 where
  pub name : String
  pub description : String
  pub priority : F
  pub importance : F
  pub urgency : F
  pub effort : F
  pub tags : List String
  pub dependencies : List String
  pub deadline : Option String
  pub requires_llm : Bool
  pub requires_approval : Bool
  pub task_type : TaskType
  pub cron_expression : Option String
  pub metadata : Fields F

abbrev pub Answer : Type 0 → Type 0 → Type 0
Answer F A = Result Error A × Manager F

-- `not deps`
abbrev is_empty : List String → Bool
is_empty [] = true
is_empty (d ∷ deps) = false

-- `__init__`
unfoldable pub new : {F : Type 0} → String → Result Error (Manager F)
new db_path = if db_path == "" then err empty_path else ok (record { tasks = []; db = none })

module _ {F : Type 0} where
  unfoldable pub persist : Task F → Manager F → Manager F
  persist t s = elim s.db [
    | none ↦ s
    | some rows ↦ record s { db = some (insert t.id (to_dict t) rows) }
  ]

  -- The task of an id is replaced, or added, and persisted.
  unfoldable pub store : String → Task F → Manager F → Manager F
  unfolding persist
  store id t s = persist t (record s { tasks = insert id t s.tasks })

  abbrev pub is_done : Option (Task F) → Bool
  is_done none = false
  is_done (some t) = is_completed t.status

  -- `self._tasks.get(d, Task()).status == COMPLETED`: the default task is only created.
  unfoldable pub dep_completed : Dict (Task F) → String → Bool
  unfolding is_completed
  dep_completed tasks d = is_done (lookup d tasks)

  unfoldable pub all_deps_completed : Dict (Task F) → List String → Bool
  unfolding dep_completed
  all_deps_completed tasks deps = all (dep_completed tasks) deps

  -- The first dependency that does not exist.
  unfoldable pub missing_dep : Dict (Task F) → List String → Option String
  missing_dep tasks [] = none
  missing_dep tasks (d ∷ deps) = elim (lookup d tasks) [
    | none ↦ some d
    | some t ↦ missing_dep tasks deps
  ]

  abbrev found_or : String → Option (Task F) → Result Error (Task F)
  found_or id none = err (not_found id)
  found_or id (some t) = ok t

  -- `_get_task`
  unfoldable pub get_task : String → Manager F → Result Error (Task F)
  get_task id s = found_or id (lookup id s.tasks)

  -- A method body that assigns to the task that `_get_task` finds, and persists it.
  unfoldable pub update : (Task F → Task F) → String → Manager F → Answer F (Task F)
  unfolding get_task store
  update change id s = elim (get_task id s) [
    | err e ↦ (err e, s)
    | ok t ↦ (ok (change t), store id (change t) s)
  ]

  unfoldable pub start_task : String → String → Manager F → Answer F (Task F)
  unfolding update is_blocked
  start_task now id s = elim (get_task id s) [
    | err e ↦ (err e, s)
    | ok t ↦
        if is_blocked t.status
        then (err (task_blocked id), s)
        else update (λ t. record t { status = running; started_at = some now }) id s
  ]

  unfoldable pub fail_task : String → String → String → Manager F → Answer F (Task F)
  unfolding update
  fail_task now id error =
      update (λ t. record t { status = failed; completed_at = some now; error = some error }) id

  unfoldable pub cancel_task : String → String → Manager F → Answer F (Task F)
  unfolding update
  cancel_task now id = update (λ t. record t { status = cancelled; completed_at = some now }) id

  -- The test of the loop of `_check_unblock`, against the tasks as they are at that moment.
  unfoldable pub can_unblock : Dict (Task F) → String → Task F → Bool
  unfolding all_deps_completed is_blocked
  can_unblock tasks done t =
      is_blocked t.status && elem done t.dependencies && all_deps_completed tasks t.dependencies

  unfoldable pub unblock_found : String → String → Option (Task F) → Manager F → Manager F
  unfolding can_unblock store
  unblock_found done id none s = s
  unblock_found done id (some t) s =
      if can_unblock s.tasks done t then store id (record t { status = queued }) s else s

  unfoldable pub unblock_keys : String → List String → Manager F → Manager F
  unfolding unblock_found
  unblock_keys done [] s = s
  unblock_keys done (id ∷ ids) s =
      unblock_keys done ids (unblock_found done id (lookup id s.tasks) s)

  -- `_check_unblock`
  unfoldable pub check_unblock : String → Manager F → Manager F
  unfolding unblock_keys
  check_unblock done s = unblock_keys done (keys s.tasks) s

  abbrev pub completing : String → Option (Fields F) → Task F → Task F
  completing now result t = record t {
    status = completed;
    completed_at = some now;
    result = result;
  }

  unfoldable pub complete_task : String → String → Option (Fields F) → Manager F → Answer F (Task F)
  unfolding update check_unblock
  complete_task now id result s =
      let (answer, s') = update (completing now result) id s in
      elim answer [ err e ↦ (err e, s') | ok t ↦ (ok t, check_unblock id s') ]

  -- The rows that `initialize` reads. `half` is the literal 0.5.
  unfoldable pub load_rows : F → List (Fields F) → Dict (Task F) → Decoded (Dict (Task F))
  load_rows half [] tasks = ok tasks
  load_rows half (d ∷ rows) tasks = do
    t ← from_dict half d
    load_rows half rows (insert t.id t tasks)

  -- `initialize` of a manager that is not yet, with the table that the file holds.
  unfoldable pub initialize : F → Dict (Fields F) → Manager F → Decoded (Manager F)
  unfolding load_rows
  initialize half rows s = do
    tasks ← load_rows half (values rows) s.tasks
    ok (record { tasks = tasks; db = some rows })

  unfoldable pub close : Manager F → Manager F
  close s = record s { db = none }

module _ (ops : Float) where
  open ops use {Num, decimal, add, sub, mul, lt}

  -- `max(0.0, min(1.0, x))`
  abbrev pub clamp : Num → Num
  clamp x = max_float ops (decimal 0 1) (min_float ops (decimal 10 1) x)

  -- The task as `create_task` stores it.
  unfoldable pub created_task : String → String → NewTask Num → Dict (Task Num) → Task Num
  unfolding all_deps_completed
  created_task id now n tasks = record {
    id = id;
    name = n.name;
    description = n.description;
    status =
        if not (is_empty n.dependencies) && not (all_deps_completed tasks n.dependencies)
        then blocked
        else queued;
    task_type = n.task_type;
    priority = clamp n.priority;
    importance = clamp n.importance;
    urgency = clamp n.urgency;
    effort = clamp n.effort;
    tags = n.tags;
    dependencies = n.dependencies;
    created_at = now;
    scheduled_at = none;
    started_at = none;
    completed_at = none;
    deadline = n.deadline;
    result = none;
    error = none;
    requires_llm = n.requires_llm;
    requires_approval = n.requires_approval;
    metadata = n.metadata;
    cron_expression = n.cron_expression;
    recurrence_count = 0;
  }

  unfoldable pub create_task : String → String → NewTask Num → Manager Num → Answer Num (Task Num)
  unfolding created_task missing_dep store
  create_task id now n s =
      if is_blank n.name then (err blank_name, s) else elim (missing_dep s.tasks n.dependencies) [
        | some d ↦ (err (missing_dependency d), s)
        | none ↦ let t = created_task id now n s.tasks in (ok t, store id t s)
      ]
