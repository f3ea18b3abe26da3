-- ===== src/Jobs/Backoff.antt =====
-- agent/core/job_runner.py: the delay before a retry in `_run_with_retries`.
use agent_life_space.Prelude.{ℕ, ◌^◌, false, ◌≡◌, Bool-cases, inl, inr}
use agent_life_space.Prelude.Float.{Float, min_float}
use agent_life_space.Jobs.Record.{JobConfig}

module _ (ops : Float) where
  open ops use {Num, decimal, mul, lt}

  -- `min(retry_base_delay * 2**attempt, retry_max_delay)`
  unfoldable pub retry_delay : JobConfig Num → ℕ → Num
  retry_delay config attempt =
      min_float ops (mul config.retry_base_delay (decimal (2 ^ attempt) 0)) config.retry_max_delay

  -- Where nothing is less than itself, the maximal delay is never less than a delay, whatever the
  -- exponential of the attempt comes to.
  pub retry_delay-bounded :
      (config : JobConfig Num) (attempt : ℕ)
      → ((x : Num) → lt x x ≡ false)
      → lt config.retry_max_delay (retry_delay config attempt) ≡ false
  unfolding retry_delay
  retry_delay-bounded config attempt irreflexive =
      let base = mul config.retry_base_delay (decimal (2 ^ attempt) 0) in
      elim (Bool-cases (lt config.retry_max_delay base)) [
        | inl over ↦ rw over (irreflexive config.retry_max_delay)
        | inr fits ↦ rw fits fits
      ]
