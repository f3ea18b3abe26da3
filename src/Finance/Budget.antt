-- ===== src/Finance/Budget.antt =====
-- agent/finance/budget_policy.py: the limits and the class BudgetPolicy, over any floats.
pub mod Caps
use agent_life_space.Prelude.{
  String, Bool, true, false, ◌≡◌, List, [], ◌∷◌, ◌++◌, not, ◌&&◌, ◌||◌, if◌then◌else◌,
}
use agent_life_space.Prelude.Float.{Float}
use agent_life_space.Prelude.Text.{concat}

pub record Limits (F : Type 0) : Type 0 where
  pub daily_hard_cap : F
  pub daily_soft_cap : F
  pub daily_stop_loss_buffer : F
  pub monthly_hard_cap : F
  pub monthly_soft_cap : F
  pub monthly_stop_loss_buffer : F
  pub single_tx_approval_cap : F

pub record Details (F : Type 0) : Type 0 where
  pub amount : F
  pub daily_spent : F
  pub monthly_spent : F
  pub new_daily_total : F
  pub new_monthly_total : F
  pub daily_stop_loss_threshold : F
  pub monthly_stop_loss_threshold : F

pub record CheckResult (F : Type 0) : Type 0 where
  pub allowed : Bool
  pub warnings : List String
  pub hard_cap_hit : Bool
  pub soft_cap_hit : Bool
  pub stop_loss_hit : Bool
  pub requires_approval : Bool
  pub details : Details F

-- One period of `get_forecast`.
pub record Period (F : Type 0) : Type 0 where
  pub spent : F
  pub soft_remaining : F
  pub hard_remaining : F
  pub stop_loss_remaining : F
  pub soft_cap : F
  pub hard_cap : F
  pub stop_loss_threshold : F

pub record Forecast (F : Type 0) : Type 0 where
  pub daily : Period F
  pub monthly : Period F
  pub single_tx_approval_cap : F

-- A warning is appended where the test is true.
abbrev warn : Bool → String → List String
warn true text = text ∷ []
warn false text = []

module _ (ops : Float) where
  open ops use {Num, decimal, add, sub, lt, round2, show2}

  -- `BudgetLimits()`
  pub default_limits : Limits Num
  default_limits = record {
    daily_hard_cap = decimal 50 0;
    daily_soft_cap = decimal 30 0;
    daily_stop_loss_buffer = decimal 5 0;
    monthly_hard_cap = decimal 500 0;
    monthly_soft_cap = decimal 300 0;
    monthly_stop_loss_buffer = decimal 50 0;
    single_tx_approval_cap = decimal 20 0;
  }

  abbrev over : String → Num → Num → String
  over label a b = concat (label ∷ show2 a ∷ " > $" ∷ show2 b ∷ [])

  -- The test of a stop-loss: it is off where its buffer is not positive.
  abbrev pub beyond_stop : Num → Num → Num → Bool
  beyond_stop buffer cap total = lt (decimal 0 0) buffer && lt (sub cap buffer) total

  unfoldable pub check : Limits Num → Num → Num → Num → CheckResult Num
  check l amount daily_spent monthly_spent =
      let new_daily = add daily_spent amount in
      let new_monthly = add monthly_spent amount in
      let daily_hard = lt l.daily_hard_cap new_daily in
      let monthly_hard = lt l.monthly_hard_cap new_monthly in
      let hard = daily_hard || monthly_hard in
      let daily_stop =
        not hard && beyond_stop l.daily_stop_loss_buffer l.daily_hard_cap new_daily in
      let monthly_stop =
        not hard && beyond_stop l.monthly_stop_loss_buffer l.monthly_hard_cap new_monthly in
      let stop = daily_stop || monthly_stop in
      let daily_soft = not hard && not stop && lt l.daily_soft_cap new_daily in
      let monthly_soft = not hard && not stop && lt l.monthly_soft_cap new_monthly in
      let large = lt l.single_tx_approval_cap amount in
      let daily_threshold = sub l.daily_hard_cap l.daily_stop_loss_buffer in
      let monthly_threshold = sub l.monthly_hard_cap l.monthly_stop_loss_buffer in
      record {
        allowed = not hard && not stop;
        warnings =
            warn daily_hard (over "Denný hard cap prekročený: $" new_daily l.daily_hard_cap)
            ++ warn monthly_hard
                (over "Mesačný hard cap prekročený: $" new_monthly l.monthly_hard_cap)
            ++ warn daily_stop (over "Denný stop-loss aktivovaný: $" new_daily daily_threshold)
            ++ warn monthly_stop
                (over "Mesačný stop-loss aktivovaný: $" new_monthly monthly_threshold)
            ++ warn daily_soft (over "Denný soft cap prekročený: $" new_daily l.daily_soft_cap)
            ++ warn monthly_soft
                (over "Mesačný soft cap prekročený: $" new_monthly l.monthly_soft_cap)
            ++ warn large (
                concat (
                  "Suma $"
                  ∷ show2 amount
                  ∷ " > $"
                  ∷ show2 l.single_tx_approval_cap
                  ∷ " — vyžaduje extra approval"
                  ∷ []));
        hard_cap_hit = hard;
        soft_cap_hit = daily_soft || monthly_soft;
        stop_loss_hit = stop;
        requires_approval = large;
        details = record {
          amount = amount;
          daily_spent = daily_spent;
          monthly_spent = monthly_spent;
          new_daily_total = round2 new_daily;
          new_monthly_total = round2 new_monthly;
          daily_stop_loss_threshold = round2 daily_threshold;
          monthly_stop_loss_threshold = round2 monthly_threshold;
        };
      }

  period : Num → Num → Num → Num → Period Num
  period spent soft hard buffer = record {
    spent = round2 spent;
    soft_remaining = round2 (sub soft spent);
    hard_remaining = round2 (sub hard spent);
    stop_loss_remaining = round2 (sub (sub hard buffer) spent);
    soft_cap = soft;
    hard_cap = hard;
    stop_loss_threshold = round2 (sub hard buffer);
  }

  unfoldable pub get_forecast : Limits Num → Num → Num → Forecast Num
  unfolding period
  get_forecast l daily_spent monthly_spent = record {
    daily = period daily_spent l.daily_soft_cap l.daily_hard_cap l.daily_stop_loss_buffer;
    monthly = period monthly_spent l.monthly_soft_cap l.monthly_hard_cap l.monthly_stop_loss_buffer;
    single_tx_approval_cap = l.single_tx_approval_cap;
  }
