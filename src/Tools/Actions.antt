-- ===== src/Tools/Actions.antt =====
-- agent/core/action.py: the record of one action and the log of actions. `time.time()` is an
-- argument in whole seconds, and the audit record is the model's dict of JSON values.
use agent_life_space.Prelude.{
  ℕ, String, Bool, true, false, Option, none, some, List, [], Dict, length, filter, newest, map,
  push_bounded, count_from,
}
use agent_life_space.Json.{Json, Fields, end, field, str, bool, int, null}

pub data ActionPhase : Type 0 where
  requested policy_checked executing completed blocked failed : ActionPhase

unfoldable pub phase_value : ActionPhase → String
phase_value requested = "requested"
phase_value policy_checked = "policy_checked"
phase_value executing = "executing"
phase_value completed = "completed"
phase_value blocked = "blocked"
phase_value failed = "failed"

-- a.phase == phase
unfoldable pub same_phase : ActionPhase → ActionPhase → Bool
same_phase requested requested = true
same_phase policy_checked policy_checked = true
same_phase executing executing = true
same_phase completed completed = true
same_phase blocked blocked = true
same_phase failed failed = true
same_phase _ _ = false

pub record ActionEnvelope (F : Type 0) : Type 0 where
  pub id : String
  pub tool_name : String
  pub tool_input : Fields F
  pub is_owner : Bool
  pub safe_mode : Bool
  pub channel_type : String
  pub request_source : String
  pub phase : ActionPhase
  pub requested_at : ℕ
  pub policy_allowed : Option Bool
  pub policy_reason : String
  pub policy_risk_level : String
  pub policy_side_effect : String
  pub policy_audit_label : String
  pub policy_decided_at : ℕ
  pub result : Fields F
  pub error : String
  pub executed_at : ℕ
  pub completed_at : ℕ
  pub duration_ms : ℕ

pub record ActionLog (F : Type 0) : Type 0 where
  pub entries : List (ActionEnvelope F)
  pub max_entries : ℕ

-- The answer of `ActionLog.get_stats`.
pub record ActionStats : Type 0 where
  pub total : ℕ
  pub by_phase : Dict ℕ
  pub by_tool : Dict ℕ
  pub blocked_count : ℕ
  pub failed_count : ℕ

module _ {F : Type 0} where
  abbrev opt_bool : Option Bool → Json F
  opt_bool none = null
  opt_bool (some b) = bool b

  unfoldable pub to_audit_record : ActionEnvelope F → Fields F
  unfolding phase_value
  to_audit_record a = field "id" (str a.id) (
      field "tool" (str a.tool_name) (
        field "phase" (str (phase_value a.phase)) (
          field "is_owner" (bool a.is_owner) (
            field "safe_mode" (bool a.safe_mode) (
              field "channel" (str a.channel_type) (
                field "source" (str a.request_source) (
                  field "policy_allowed" (opt_bool a.policy_allowed) (
                    field "policy_reason" (str a.policy_reason) (
                      field "policy_risk" (str a.policy_risk_level) (
                        field "policy_side_effect" (str a.policy_side_effect) (
                          field "policy_label" (str a.policy_audit_label) (
                            field "error" (str a.error) (
                              field "duration_ms" (int a.duration_ms) (
                                field "requested_at" (int a.requested_at)
                                  (field "completed_at" (int a.completed_at) end)))))))))))))))

  -- `ActionLog.record`
  unfoldable pub record_action : ActionEnvelope F → ActionLog F → ActionLog F
  unfolding push_bounded
  record_action a log = record log { entries = push_bounded log.max_entries a log.entries }

  unfoldable pub get_recent : ℕ → ActionLog F → List (Fields F)
  unfolding newest to_audit_record
  get_recent limit log = map to_audit_record (newest limit log.entries)

  unfoldable pub get_by_phase : ActionPhase → ℕ → ActionLog F → List (Fields F)
  unfolding newest to_audit_record same_phase
  get_by_phase p limit log =
      newest limit (map to_audit_record (filter (λ a. same_phase a.phase p) log.entries))

  unfoldable pub get_blocked : ℕ → ActionLog F → List (Fields F)
  unfolding get_by_phase
  get_blocked limit log = get_by_phase blocked limit log

  unfoldable pub get_failed : ℕ → ActionLog F → List (Fields F)
  unfolding get_by_phase
  get_failed limit log = get_by_phase failed limit log

  -- `total_blocked` and `total_failed`
  unfoldable pub total_in : ActionPhase → ActionLog F → ℕ
  unfolding same_phase
  total_in p log = length (filter (λ a. same_phase a.phase p) log.entries)

  unfoldable pub get_stats : ActionLog F → ActionStats
  unfolding count_from total_in phase_value
  get_stats log = record {
    total = length log.entries;
    by_phase = count_from (λ a. phase_value a.phase) log.entries [];
    by_tool = count_from (λ a. a.tool_name) log.entries [];
    blocked_count = total_in blocked log;
    failed_count = total_in failed log;
  }
