-- ===== src/Examples/ProjectRuns.antt =====
-- agent/projects/manager.py: a project with one task that is done and one that is not known.
use agent_life_space.Prelude.{ℕ, ◌≡◌, refl, none, some, [], ◌∷◌, Distinct, lookup, insert, ◌==◌}
use agent_life_space.Prelude.Result.{ok}
use agent_life_space.Json.{Fields}
use agent_life_space.Projects.Record.{Project, idea, active, to_dict}
use agent_life_space.Projects.{NewProject, Defaults, get, create}
use agent_life_space.Projects.Table.{create_op, perform, perform_all, get-perform_all}

abbrev literals : Defaults ℕ
literals = record { fresh = "p0"; half = 50; nil = 0 }

abbrev site : Project ℕ
site = record {
  id = "p1";
  name = "site";
  description = "";
  status = active;
  task_ids = "t1" ∷ "t9" ∷ [];
  tags = [];
  priority = 50;
  created_at = "2026-03-01";
  started_at = some "2026-03-01";
  completed_at = none;
  deadline = none;
  required_skills = [];
  estimated_hours = 0;
  estimated_cost_usd = 0;
  actual_cost_usd = 0;
  result = "";
  notes = "";
}

abbrev new_site : NewProject ℕ
new_site = record {
  name = "site";
  description = "";
  tags = [];
  priority = 50;
  required_skills = [];
  deadline = none;
}

abbrev first_rows : Fields ℕ
first_rows = to_dict (record site { status = idea; started_at = none; task_ids = [] })

get-perform_all_example :
    (p : Project ℕ) × (get literals "p1"
        (perform_all literals (create_op "p1" "2026-03-01" new_site ∷ []) [])
      ≡ ok (some p))
    × (p.id ≡ "p1")
    × Distinct p.task_ids
unfolding perform perform_all create lookup insert ◌==◌
get-perform_all_example =
    get-perform_all literals (create_op "p1" "2026-03-01" new_site ∷ []) "p1" first_rows (tt, tt)
      refl
