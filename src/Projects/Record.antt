-- ===== src/Projects/Record.antt =====
-- agent/projects/manager.py: ProjectStatus and Project, with `to_dict` and `from_dict`. `F` is the
-- type of floats.
use agent_life_space.Prelude.{String, ◌≡◌, refl, Option, none, List, [], ◌==◌, if◌then◌else◌}
use agent_life_space.Prelude.Result.{ok, err, ◌>>=◌}
use agent_life_space.Json.{
  Fields, end, field, float, str, arr, value_error, Decoded, strings, opt_str, read_str, read_float,
  read_opt_str, read_strings, get_default, read_strings-strings, read_opt_str-opt_str,
}

pub data ProjectStatus : Type 0 where
  idea planning active paused completed abandoned : ProjectStatus

pub record Project (F : Type 0) : Type 0 where
  pub id : String
  pub name : String
  pub description : String
  pub status : ProjectStatus
  pub task_ids : List String
  pub tags : List String
  pub priority : F
  pub created_at : String
  pub started_at : Option String
  pub completed_at : Option String
  pub deadline : Option String
  pub required_skills : List String
  pub estimated_hours : F
  pub estimated_cost_usd : F
  pub actual_cost_usd : F
  pub result : String
  pub notes : String

unfoldable pub status_value : ProjectStatus → String
status_value idea = "idea"
status_value planning = "planning"
status_value active = "active"
status_value paused = "paused"
status_value completed = "completed"
status_value abandoned = "abandoned"

unfoldable pub status_of : String → Decoded ProjectStatus
unfolding ◌==◌
status_of s =
    if s == "idea"
    then ok idea
    else if s == "planning"
    then ok planning
    else if s == "active"
    then ok active
    else if s == "paused"
    then ok paused
    else if s == "completed"
    then ok completed
    else if s == "abandoned"
    then ok abandoned
    else err (value_error s)

module _ {F : Type 0} where
  unfoldable pub to_dict : Project F → Fields F
  to_dict p = field "id" (str p.id) (
      field "name" (str p.name) (
        field "description" (str p.description) (
          field "status" (str (status_value p.status)) (
            field "task_ids" (arr (strings p.task_ids)) (
              field "tags" (arr (strings p.tags)) (
                field "priority" (float p.priority) (
                  field "created_at" (str p.created_at) (
                    field "started_at" (opt_str p.started_at) (
                      field "completed_at" (opt_str p.completed_at) (
                        field "deadline" (opt_str p.deadline) (
                          field "required_skills" (arr (strings p.required_skills)) (
                            field "estimated_hours" (float p.estimated_hours) (
                              field "estimated_cost_usd" (float p.estimated_cost_usd) (
                                field "actual_cost_usd" (float p.actual_cost_usd) (
                                  field "result" (str p.result)
                                    (field "notes" (str p.notes) end))))))))))))))))

  -- `fresh` is the id that would be drawn, `half` the literal 0.5 and `nil` the literal 0.0.
  unfoldable pub from_dict : String → F → F → Fields F → Decoded (Project F)
  unfolding get_default read_str read_float
  from_dict fresh half nil d = do
    id ← get_default read_str "id" fresh d
    name ← get_default read_str "name" "" d
    description ← get_default read_str "description" "" d
    status_text ← get_default read_str "status" "idea" d
    status ← status_of status_text
    task_ids ← get_default read_strings "task_ids" [] d
    tags ← get_default read_strings "tags" [] d
    priority ← get_default read_float "priority" half d
    created_at ← get_default read_str "created_at" "" d
    started_at ← get_default read_opt_str "started_at" none d
    completed_at ← get_default read_opt_str "completed_at" none d
    deadline ← get_default read_opt_str "deadline" none d
    required_skills ← get_default read_strings "required_skills" [] d
    estimated_hours ← get_default read_float "estimated_hours" nil d
    estimated_cost_usd ← get_default read_float "estimated_cost_usd" nil d
    actual_cost_usd ← get_default read_float "actual_cost_usd" nil d
    result ← get_default read_str "result" "" d
    notes ← get_default read_str "notes" "" d
    ok (record {
      id = id;
      name = name;
      description = description;
      status = status;
      task_ids = task_ids;
      tags = tags;
      priority = priority;
      created_at = created_at;
      started_at = started_at;
      completed_at = completed_at;
      deadline = deadline;
      required_skills = required_skills;
      estimated_hours = estimated_hours;
      estimated_cost_usd = estimated_cost_usd;
      actual_cost_usd = actual_cost_usd;
      result = result;
      notes = notes;
    })

pub status_of-status_value : (s : ProjectStatus) → status_of (status_value s) ≡ ok s
unfolding status_of status_value
status_of-status_value idea = refl
status_of-status_value _ = refl

-- Reading back what `to_dict` wrote gives the project.
pub Project-from_dict-to_dict :
    (F : Type 0) (fresh : String) (half nil : F) (p : Project F)
    → from_dict fresh half nil (to_dict p) ≡ ok p
unfolding from_dict to_dict
Project-from_dict-to_dict F fresh half nil p = rw (status_of-status_value p.status) (
    rw (read_strings-strings F "task_ids") (
      rw (read_strings-strings F "tags") (
        rw (read_opt_str-opt_str F "started_at") (
          rw (read_opt_str-opt_str F "completed_at") (
            rw (read_opt_str-opt_str F "deadline")
              (rw (read_strings-strings F "required_skills")))))))
