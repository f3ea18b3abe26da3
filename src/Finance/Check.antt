-- ===== src/Finance/Check.antt =====
-- agent/finance/tracker.py: `check_budget` and the sums that it is made of, over the transactions.
pub mod Dicts
use text.Mathlib.Text.{starts_with}
use agent_life_space.Prelude.{
  String, Bool, true, false, Option, none, some, List, [], ◌∷◌, map, Dict, values, filter, not,
  ◌&&◌, ◌||◌, if◌then◌else◌,
}
use agent_life_space.Prelude.Text.{concat, join}
use agent_life_space.Prelude.Float.{Float}
use agent_life_space.Json.{end, field, float}
use agent_life_space.Control.Denials.{ExecutionDenial}
use agent_life_space.Finance.Clock.{Clock}
use agent_life_space.Finance.Budget.{Limits, CheckResult, Forecast, check, get_forecast}
use agent_life_space.Finance.Transaction.{
  Transaction, is_expense, is_income, is_approved, is_completed,
}

-- The dict that `check_budget` returns.
pub record BudgetCheck (F : Type 0) : Type 0 where
  pub daily_spent : F
  pub daily_remaining : F
  pub daily_budget : F
  pub monthly_spent : F
  pub monthly_remaining : F
  pub monthly_budget : F
  pub within_budget : Bool
  pub warnings : List String
  pub hard_cap_hit : Bool
  pub soft_cap_hit : Bool
  pub stop_loss_hit : Bool
  pub requires_approval : Bool
  pub forecast : Forecast F
  pub denial : Option (ExecutionDenial F)

-- The part of a tracker that `check_budget` reads besides the transactions.
pub record Budgets (F : Type 0) : Type 0 where
  pub daily_budget : F
  pub monthly_budget : F
  pub limits : Limits F

-- An expense that counts as spent, and an income or expense that is done.
unfoldable pub is_spent : {F : Type 0} → Transaction F → Bool
is_spent t = is_expense t.type && (is_approved t.status || is_completed t.status)

module _ (ops : Float) where
  open ops use {Num, decimal, sub, lt, le, sum, round2, show2}

  abbrev amounts : (Transaction Num → Bool) → Dict (Transaction Num) → List Num
  amounts test txs = map (λ (t : Transaction Num). t.amount_usd) (filter test (values txs))

  -- The sum over the transactions whose `created_at` starts with the day, or with the month.
  unfoldable pub spent_in : String → Dict (Transaction Num) → Num
  unfolding is_spent
  spent_in prefix txs = sum (amounts (λ t. is_spent t && starts_with t.created_at prefix) txs)

  unfoldable pub total_income : Dict (Transaction Num) → Num
  total_income txs = sum (amounts (λ t. is_income t.type && is_completed t.status) txs)

  unfoldable pub total_expenses : Dict (Transaction Num) → Num
  total_expenses txs = sum (amounts (λ t. is_expense t.type && is_completed t.status) txs)

  -- The detail of a denial.
  abbrev detail_text : Num → List String → String
  detail_text amount [] =
      concat (
        "Proposed amount $" ∷ show2 amount ∷ " exceeds the remaining daily or monthly budget." ∷ [])
  detail_text amount (w ∷ ws) = join "; " (w ∷ ws)

  budget_denial : Num → Num → Num → List String → ExecutionDenial Num
  budget_denial amount daily_remaining monthly_remaining warnings = record {
    code = "finance_budget_blocked";
    summary = "Finance request blocked by budget policy";
    detail = detail_text amount warnings;
    scope = "finance";
    policy_id = "budget_limits_v1";
    environment_profile_id = "";
    suggested_action =
        "Lower the proposed amount or request explicit human approval before retrying.";
    metadata = field "amount_usd" (float amount) (
        field "daily_remaining" (float (round2 daily_remaining))
          (field "monthly_remaining" (float (round2 monthly_remaining)) end));
  }

  unfoldable pub check_budget : Clock → Budgets Num → Num → Dict (Transaction Num) → BudgetCheck Num
  unfolding spent_in budget_denial
  check_budget clock b amount txs =
      let daily_spent = spent_in clock.today txs in
      let monthly_spent = spent_in clock.month txs in
      let daily_remaining = sub b.daily_budget daily_spent in
      let monthly_remaining = sub b.monthly_budget monthly_spent in
      let policy = check ops b.limits amount daily_spent monthly_spent in
      let within = le amount daily_remaining && le amount monthly_remaining && policy.allowed in
      record {
        daily_spent = round2 daily_spent;
        daily_remaining = round2 daily_remaining;
        daily_budget = b.daily_budget;
        monthly_spent = round2 monthly_spent;
        monthly_remaining = round2 monthly_remaining;
        monthly_budget = b.monthly_budget;
        within_budget = within;
        warnings = policy.warnings;
        hard_cap_hit = policy.hard_cap_hit;
        soft_cap_hit = policy.soft_cap_hit;
        stop_loss_hit = policy.stop_loss_hit;
        requires_approval = policy.requires_approval;
        forecast = get_forecast ops b.limits daily_spent monthly_spent;
        denial =
            if lt (decimal 0 0) amount && not within
            then some (budget_denial amount daily_remaining monthly_remaining policy.warnings)
            else none;
      }
