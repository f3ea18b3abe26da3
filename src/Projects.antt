-- ===== src/Projects.antt =====
-- agent/projects/manager.py: the class ProjectManager. Its state is the table, since the projects
-- are read from it by each method; it is there from `initialize` on. The ids, the instants and the
-- literals 0.5 and 0.0 are arguments. The coroutines are taken one after the other. The proofs stand
-- in the child modules.
pub mod Record
pub mod Progress
pub mod Table
use agent_life_space.Prelude.{
  ℕ, suc, ◌+◌, ◌-◌, String, Bool, true, false, Option, none, some, List, [], ◌∷◌, ◌++◌, Dict,
  lookup, insert, values, map, length, filter, elem, count_from, ◌==◌, if◌then◌else◌,
}
use agent_life_space.Prelude.Result.{Result, ok, err, ◌>>=◌}
use agent_life_space.Prelude.Float.{Float}
use agent_life_space.Prelude.Sorting.{sort_desc}
use agent_life_space.Json.{Fields, DecodeError, Decoded}
use agent_life_space.Projects.Record.{
  ProjectStatus, idea, active, paused, completed, abandoned, Project, status_value, to_dict,
  from_dict,
}

-- The arguments of `create`.
pub record NewProject (F : Type 0) : Type 0 where
  pub name : String
  pub description : String
  pub tags : List String
  pub priority : F
  pub required_skills : List String
  pub deadline : Option String

-- The literals that `from_dict` falls back to, and the id that it would draw.
pub record Defaults (F : Type 0) : Type 0 where
  pub fresh : String
  pub half : F
  pub nil : F

pub record Stats : Type 0 where
  pub total_projects : ℕ
  pub by_status : Dict ℕ
  pub active_names : List String

module _ {F : Type 0} (defaults : Defaults F) where
  open defaults use {fresh, half, nil}

  abbrev pub decode : Fields F → Decoded (Project F)
  decode d = from_dict fresh half nil d

  abbrev decode_found : Option (Fields F) → Decoded (Option (Project F))
  decode_found none = ok none
  decode_found (some d) = do p ← decode d; ok (some p)

  unfoldable pub get : String → Dict (Fields F) → Decoded (Option (Project F))
  get id rows = decode_found (lookup id rows)

  -- The new project; nothing where the id is taken, since the INSERT raises then.
  unfoldable pub create :
      String → String → NewProject F → Dict (Fields F) → Option (Project F × Dict (Fields F))
  create id now n rows =
      let p : Project F = record {
        id = id;
        name = n.name;
        description = n.description;
        status = idea;
        task_ids = [];
        tags = n.tags;
        priority = n.priority;
        created_at = now;
        started_at = none;
        completed_at = none;
        deadline = n.deadline;
        required_skills = n.required_skills;
        estimated_hours = nil;
        estimated_cost_usd = nil;
        actual_cost_usd = nil;
        result = "";
        notes = "";
      } in
      elim (lookup id rows) [ some d ↦ none | none ↦ some (p, insert id (to_dict p) rows) ]

  -- An UPDATE changes no row where there is none of the id.
  unfoldable pub update : Project F → Dict (Fields F) → Dict (Fields F)
  update p rows = elim (lookup p.id rows) [ none ↦ rows | some d ↦ insert p.id (to_dict p) rows ]

  abbrev pub Answer : Type 0
  Answer = Decoded (Option (Project F)) × Dict (Fields F)

  -- A method body that changes what `get` finds.
  unfoldable pub change_found :
      (Project F → Project F) → Decoded (Option (Project F)) → Dict (Fields F) → Answer
  unfolding update
  change_found change (err e) rows = (err e, rows)
  change_found change (ok none) rows = (ok none, rows)
  change_found change (ok (some p)) rows = (ok (some (change p)), update (change p) rows)

  -- `if task_id not in project.task_ids`; the row of a project that has it already stays as it is.
  abbrev pub with_task : String → Project F → Project F
  with_task task p =
      if elem task p.task_ids then p else record p { task_ids = p.task_ids ++ task ∷ [] }

  unfoldable pub add_found : String → Decoded (Option (Project F)) → Dict (Fields F) → Answer
  unfolding update
  add_found task (err e) rows = (err e, rows)
  add_found task (ok none) rows = (ok none, rows)
  add_found task (ok (some p)) rows = (
    ok (some (with_task task p)),
    if elem task p.task_ids then rows else update (with_task task p) rows,
  )

  unfoldable pub add_task : String → String → Dict (Fields F) → Answer
  unfolding get add_found
  add_task id task rows = add_found task (get id rows) rows

  unfoldable pub start : String → String → Dict (Fields F) → Answer
  unfolding get change_found
  start now id rows =
      change_found (λ p. record p { status = active; started_at = some now }) (get id rows) rows

  unfoldable pub complete : String → String → String → Dict (Fields F) → Answer
  unfolding get change_found
  complete now id result rows =
      change_found (λ p. record p { status = completed; completed_at = some now; result = result })
        (get id rows) rows

  unfoldable pub pause : String → Dict (Fields F) → Answer
  unfolding get change_found
  pause id rows = change_found (λ p. record p { status = paused }) (get id rows) rows

  unfoldable pub abandon : String → String → Dict (Fields F) → Answer
  unfolding get change_found
  abandon id reason rows =
      change_found (λ p. record p { status = abandoned; notes = reason }) (get id rows) rows
