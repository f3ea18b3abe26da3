-- ===== src/Finance/Budget/Caps.antt =====
-- agent/finance/budget_policy.py: what `check` allows.
use agent_life_space.Prelude.{
  String, Bool, List, ◌∷◌, ◌&&◌, true, false, ◌≡◌, [], arith, not, ◌||◌, inl, inr, Bool-cases,
}
use agent_life_space.Prelude.Float.{Float}
use agent_life_space.Finance.Budget.{Limits, CheckResult, beyond_stop, check}

abbrev pub no_text : List String → Bool
no_text [] = true
no_text (x ∷ xs) = false

module _ (ops : Float) where
  open ops use {Num, add, sub, lt, le}

  -- Within both hard caps, and short of both stop-losses.
  pub record IsWithin (l : Limits Num) (daily monthly : Num) : Type 0 where
    pub daily_hard : lt l.daily_hard_cap daily ≡ false
    pub monthly_hard : lt l.monthly_hard_cap monthly ≡ false
    pub daily_stop : beyond_stop ops l.daily_stop_loss_buffer l.daily_hard_cap daily ≡ false
    pub monthly_stop : beyond_stop ops l.monthly_stop_loss_buffer l.monthly_hard_cap monthly ≡ false

  module _ (l : Limits Num) (amount daily_spent monthly_spent : Num) where
    abbrev result : CheckResult Num
    result = check ops l amount daily_spent monthly_spent

    pub check-IsWithin :
        result.allowed ≡ true → IsWithin l (add daily_spent amount) (add monthly_spent amount)
    unfolding check
    check-IsWithin h = ground arith

    pub IsWithin-check :
        IsWithin l (add daily_spent amount) (add monthly_spent amount) → result.allowed ≡ true
    unfolding check
    IsWithin-check h = ground arith

    -- A payment is allowed where no flag forbids it. A hard cap and a stop-loss are not reported
    -- together, nor a soft cap with either, and there is no warning exactly where the payment is
    -- allowed, without a soft cap, and needs no further approval.
    pub check_levels :
        (result.allowed ≡ not (result.hard_cap_hit || result.stop_loss_hit))
        × ((result.hard_cap_hit && result.stop_loss_hit) ≡ false)
        × ((result.soft_cap_hit && not result.allowed) ≡ false)
        × (no_text result.warnings
            ≡ (result.allowed && not result.soft_cap_hit && not result.requires_approval))
    unfolding check
    check_levels = (ground arith, ground arith, ground arith, ground arith)

  -- Rounded addition and `<` are monotone, as IEEE 754 has it for every rounding mode.
  unfoldable pub IsMonotone : Type 0
  IsMonotone =
      (cap spent a b : Num)
      → le a b ≡ true
      → lt cap (add spent a) ≡ true
      → lt cap (add spent b) ≡ true

  still_within :
      IsMonotone
      → (cap spent a b : Num) → le a b ≡ true
      → lt cap (add spent b) ≡ false
      → lt cap (add spent a) ≡ false
  unfolding IsMonotone
  still_within mono cap spent a b small h = elim (Bool-cases (lt cap (add spent a))) [
    | inl over ↦ absurd (cc (mono cap spent a b small over))
    | inr fits ↦ fits
  ]

  still_short :
      IsMonotone
      → (buffer cap spent a b : Num) → le a b ≡ true
      → beyond_stop ops buffer cap (add spent b) ≡ false
      → beyond_stop ops buffer cap (add spent a) ≡ false
  still_short mono buffer cap spent a b small h =
      ground (arith, still_within mono (sub cap buffer) spent a b small)

  -- Where the rounded addition and `<` are monotone: if an amount is allowed, any smaller one is.
  pub check_mono :
      IsMonotone
      → (l : Limits Num) (a b daily_spent monthly_spent : Num) → le a b ≡ true
      → (check ops l b daily_spent monthly_spent).allowed ≡ true
      → (check ops l a daily_spent monthly_spent).allowed ≡ true
  check_mono mono l a b daily_spent monthly_spent small h =
      let w = check-IsWithin l b daily_spent monthly_spent h in
      IsWithin-check l a daily_spent monthly_spent (record {
        daily_hard = still_within mono _ _ a b small w.daily_hard;
        monthly_hard = still_within mono _ _ a b small w.monthly_hard;
        daily_stop = still_short mono _ _ _ a b small w.daily_stop;
        monthly_stop = still_short mono _ _ _ a b small w.monthly_stop;
      })
