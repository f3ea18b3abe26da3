-- ===== src/Control/Denials.antt =====
-- agent/control/denials.py: the structured denial payload.
use agent_life_space.Prelude.{String, ◌==◌, [], ◌∷◌, if◌then◌else◌}
use agent_life_space.Prelude.Text.{concat}
use agent_life_space.Json.{Fields, end, field, str, obj}

pub record ExecutionDenial (F : Type 0) : Type 0 where
  pub code : String
  pub summary : String
  pub detail : String
  pub scope : String
  pub policy_id : String
  pub environment_profile_id : String
  pub suggested_action : String
  pub metadata : Fields F

module _ {F : Type 0} where
  unfoldable pub message : ExecutionDenial F → String
  message d = if d.detail == "" then d.summary else concat (d.summary ∷ ": " ∷ d.detail ∷ [])

  unfoldable pub to_dict : ExecutionDenial F → Fields F
  to_dict d = field "code" (str d.code) (
      field "summary" (str d.summary) (
        field "detail" (str d.detail) (
          field "scope" (str d.scope) (
            field "policy_id" (str d.policy_id) (
              field "environment_profile_id" (str d.environment_profile_id) (
                field "suggested_action" (str d.suggested_action)
                  (field "metadata" (obj d.metadata) end)))))))
