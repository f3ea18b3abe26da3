-- ===== src/Tasks/Task/Codec.antt =====
-- agent/tasks/manager.py: `Task.to_dict` and `from_dict`, and the values of the enums.
use agent_life_space.Prelude.{String, ◌≡◌, refl, false, none, [], ◌==◌, if◌then◌else◌}
use agent_life_space.Prelude.Result.{ok, err, ◌>>=◌}
use agent_life_space.Json.{
  Fields, end, field, bool, int, float, str, arr, obj, value_error, Decoded, strings, opt_str,
  opt_obj, read_str, read_int, read_float, read_bool, read_obj, read_opt_str, read_opt_obj,
  read_strings, get_default, get_required, read_strings-strings, read_opt_str-opt_str,
  read_opt_obj-opt_obj,
}
use agent_life_space.Tasks.Task.{
  TaskStatus, created, queued, scheduled, running, completed, failed, cancelled, blocked, TaskType,
  one_time, recurring, cron, Task,
}

unfoldable pub status_value : TaskStatus → String
status_value created = "created"
status_value queued = "queued"
status_value scheduled = "scheduled"
status_value running = "running"
status_value completed = "completed"
status_value failed = "failed"
status_value cancelled = "cancelled"
status_value blocked = "blocked"

unfoldable pub type_value : TaskType → String
type_value one_time = "one_time"
type_value recurring = "recurring"
type_value cron = "cron"

unfoldable pub status_of : String → Decoded TaskStatus
unfolding ◌==◌
status_of s =
    if s == "created"
    then ok created
    else if s == "queued"
    then ok queued
    else if s == "scheduled"
    then ok scheduled
    else if s == "running"
    then ok running
    else if s == "completed"
    then ok completed
    else if s == "failed"
    then ok failed
    else if s == "cancelled"
    then ok cancelled
    else if s == "blocked"
    then ok blocked
    else err (value_error s)

unfoldable pub type_of : String → Decoded TaskType
unfolding ◌==◌
type_of s =
    if s == "one_time"
    then ok one_time
    else if s == "recurring"
    then ok recurring
    else if s == "cron"
    then ok cron
    else err (value_error s)

module _ {F : Type 0} where
  unfoldable pub to_dict : Task F → Fields F
  to_dict t = field "id" (str t.id) (
      field "name" (str t.name) (
        field "description" (str t.description) (
          field "status" (str (status_value t.status)) (
            field "task_type" (str (type_value t.task_type)) (
              field "priority" (float t.priority) (
                field "importance" (float t.importance) (
                  field "urgency" (float t.urgency) (
                    field "effort" (float t.effort) (
                      field "tags" (arr (strings t.tags)) (
                        field "dependencies" (arr (strings t.dependencies)) (
                          field "created_at" (str t.created_at) (
                            field "scheduled_at" (opt_str t.scheduled_at) (
                              field "started_at" (opt_str t.started_at) (
                                field "completed_at" (opt_str t.completed_at) (
                                  field "deadline" (opt_str t.deadline) (
                                    field "result" (opt_obj t.result) (
                                      field "error" (opt_str t.error) (
                                        field "requires_llm" (bool t.requires_llm) (
                                          field "requires_approval" (bool t.requires_approval) (
                                            field "metadata" (obj t.metadata) (
                                              field "cron_expression" (opt_str t.cron_expression) (
                                                field "recurrence_count" (int t.recurrence_count)
                                                  end))))))))))))))))))))))

  -- `half` is the literal 0.5.
  unfoldable pub from_dict : F → Fields F → Decoded (Task F)
  unfolding get_default get_required read_str read_int read_float read_bool read_obj
  from_dict half d = do
    id ← get_required read_str "id" d
    name ← get_default read_str "name" "" d
    description ← get_default read_str "description" "" d
    status_text ← get_required read_str "status" d
    status ← status_of status_text
    task_type_text ← get_default read_str "task_type" "one_time" d
    task_type ← type_of task_type_text
    priority ← get_default read_float "priority" half d
    importance ← get_default read_float "importance" half d
    urgency ← get_default read_float "urgency" half d
    effort ← get_default read_float "effort" half d
    tags ← get_default read_strings "tags" [] d
    dependencies ← get_default read_strings "dependencies" [] d
    created_at ← get_default read_str "created_at" "" d
    scheduled_at ← get_default read_opt_str "scheduled_at" none d
    started_at ← get_default read_opt_str "started_at" none d
    completed_at ← get_default read_opt_str "completed_at" none d
    deadline ← get_default read_opt_str "deadline" none d
    result ← get_default read_opt_obj "result" none d
    error ← get_default read_opt_str "error" none d
    requires_llm ← get_default read_bool "requires_llm" false d
    requires_approval ← get_default read_bool "requires_approval" false d
    metadata ← get_default read_obj "metadata" end d
    cron_expression ← get_default read_opt_str "cron_expression" none d
    recurrence_count ← get_default read_int "recurrence_count" 0 d
    ok (record {
      id = id;
      name = name;
      description = description;
      status = status;
      task_type = task_type;
      priority = priority;
      importance = importance;
      urgency = urgency;
      effort = effort;
      tags = tags;
      dependencies = dependencies;
      created_at = created_at;
      scheduled_at = scheduled_at;
      started_at = started_at;
      completed_at = completed_at;
      deadline = deadline;
      result = result;
      error = error;
      requires_llm = requires_llm;
      requires_approval = requires_approval;
      metadata = metadata;
      cron_expression = cron_expression;
      recurrence_count = recurrence_count;
    })

pub status_of-status_value : (s : TaskStatus) → status_of (status_value s) ≡ ok s
unfolding status_of status_value
status_of-status_value created = refl
status_of-status_value _ = refl

pub type_of-type_value : (t : TaskType) → type_of (type_value t) ≡ ok t
unfolding type_of type_value
type_of-type_value one_time = refl
type_of-type_value _ = refl

-- Reading back what `to_dict` wrote gives the task.
pub Task-from_dict-to_dict :
    (F : Type 0) (half : F) (t : Task F) → from_dict half (to_dict t) ≡ ok t
unfolding from_dict to_dict
Task-from_dict-to_dict F half t = rw (status_of-status_value t.status) (
    rw (type_of-type_value t.task_type) (
      rw (read_strings-strings F "tags") (
        rw (read_strings-strings F "dependencies") (
          rw (read_opt_str-opt_str F "scheduled_at") (
            rw (read_opt_str-opt_str F "started_at") (
              rw (read_opt_str-opt_str F "completed_at") (
                rw (read_opt_str-opt_str F "deadline") (
                  rw (read_opt_obj-opt_obj F "result") (
                    rw (read_opt_str-opt_str F "error")
                      (rw (read_opt_str-opt_str F "cron_expression")))))))))))
