-- ===== src/Finance/Check/Dicts.antt =====
-- agent/finance: the dicts that the tracker stores in the metadata of a transaction.
use agent_life_space.Prelude.{true, false, [], Option, none, some}
use agent_life_space.Json.{Json, Fields, end, field, null, float, str, bool, arr, obj, strings}
use agent_life_space.Control.Denials.{ExecutionDenial, to_dict}
use agent_life_space.Finance.Budget.{Details, CheckResult, Period, Forecast}
use agent_life_space.Finance.Templates.{TemplateCheck, not_found, found}
use agent_life_space.Finance.Check.{BudgetCheck}

module _ {F : Type 0} where
  details_dict : Details F → Fields F
  details_dict d = field "amount" (float d.amount) (
      field "daily_spent" (float d.daily_spent) (
        field "monthly_spent" (float d.monthly_spent) (
          field "new_daily_total" (float d.new_daily_total) (
            field "new_monthly_total" (float d.new_monthly_total) (
              field "daily_stop_loss_threshold" (float d.daily_stop_loss_threshold)
                (field "monthly_stop_loss_threshold" (float d.monthly_stop_loss_threshold) end))))))

  -- `BudgetCheckResult.to_dict`
  pub result_dict : CheckResult F → Fields F
  result_dict r = field "allowed" (bool r.allowed) (
      field "warnings" (arr (strings r.warnings)) (
        field "hard_cap_hit" (bool r.hard_cap_hit) (
          field "soft_cap_hit" (bool r.soft_cap_hit) (
            field "stop_loss_hit" (bool r.stop_loss_hit) (
              field "requires_approval" (bool r.requires_approval)
                (field "details" (obj (details_dict r.details)) end))))))

  period_dict : Period F → Fields F
  period_dict p = field "spent" (float p.spent) (
      field "soft_remaining" (float p.soft_remaining) (
        field "hard_remaining" (float p.hard_remaining) (
          field "stop_loss_remaining" (float p.stop_loss_remaining) (
            field "soft_cap" (float p.soft_cap) (
              field "hard_cap" (float p.hard_cap)
                (field "stop_loss_threshold" (float p.stop_loss_threshold) end))))))

  forecast_dict : Forecast F → Fields F
  forecast_dict f = field "daily" (obj (period_dict f.daily)) (
      field "monthly" (obj (period_dict f.monthly))
        (field "single_tx_approval_cap" (float f.single_tx_approval_cap) end))

  denial_value : Option (ExecutionDenial F) → Json F
  denial_value none = null
  denial_value (some d) = obj (to_dict d)

  -- The dict that `check_budget` returns.
  pub budget_dict : BudgetCheck F → Fields F
  budget_dict c = field "daily_spent" (float c.daily_spent) (
      field "daily_remaining" (float c.daily_remaining) (
        field "daily_budget" (float c.daily_budget) (
          field "monthly_spent" (float c.monthly_spent) (
            field "monthly_remaining" (float c.monthly_remaining) (
              field "monthly_budget" (float c.monthly_budget) (
                field "within_budget" (bool c.within_budget) (
                  field "warnings" (arr (strings c.warnings)) (
                    field "hard_cap_hit" (bool c.hard_cap_hit) (
                      field "soft_cap_hit" (bool c.soft_cap_hit) (
                        field "stop_loss_hit" (bool c.stop_loss_hit) (
                          field "requires_approval" (bool c.requires_approval) (
                            field "forecast" (obj (forecast_dict c.forecast))
                              (field "denial" (denial_value c.denial) end)))))))))))))

  -- The dict of `validate_against_template` where a template was found.
  pub template_dict : TemplateCheck → Fields F
  template_dict not_found =
      field "valid" (bool true)
        (field "template_found" (bool false) (field "warnings" (arr (strings [])) end))
  template_dict (found category risk_level requires_approval within warnings) =
      field "valid" (bool true) (
        field "template_found" (bool true) (
          field "category" (str category) (
            field "risk_level" (str risk_level) (
              field "requires_approval" (bool requires_approval) (
                field "within_typical_range" (bool within)
                  (field "warnings" (arr (strings warnings)) end))))))
