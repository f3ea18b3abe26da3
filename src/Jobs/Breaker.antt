-- ===== src/Jobs/Breaker.antt =====
-- agent/core/job_runner.py: the circuit breaker of JobRunner. The clock never goes back, so that
-- `now - t < window` is written without a subtraction.
use mathlib.Core.List.{append-nil, append_assoc}
use agent_life_space.Prelude.{
  ℕ, ◌+◌, ◌≤◌, ◌<◌, ap, ◌∙◌, Bool, true, false, ◌≡◌, List, [], ◌∷◌, ◌++◌, arith, length, filter,
  ltb, leb, All, if◌then◌else◌, refl,
}

pub record Breaker : Type 0 where
  pub threshold : ℕ
  pub window : ℕ
  pub failures : List ℕ
  pub is_open : Bool

-- The failures that the window still covers.
unfoldable pub recent : ℕ → Breaker → List ℕ
recent now b = filter (λ t. ltb now (t + b.window)) b.failures

-- `_check_circuit_breaker`: true where new jobs are rejected.
unfoldable pub check_circuit_breaker : ℕ → Breaker → Bool × Breaker
unfolding recent
check_circuit_breaker now b =
    let kept = recent now b in
    if leb b.threshold (length kept)
    then (true, record b { failures = kept; is_open = true })
    else (false, record b { failures = kept; is_open = false })

-- `_record_failure`
unfoldable pub record_failure : ℕ → Breaker → Breaker
record_failure now b = record b { failures = b.failures ++ now ∷ [] }

quiet :
    (now : ℕ) (w : ℕ) (ts : List ℕ)
    → All (λ t. t + w ≤ now) ts
    → filter (λ t. ltb now (t + w)) ts ≡ []
quiet now w [] h = refl
quiet now w (t ∷ ts) h = ground (arith, quiet now w ts h.1, h.0)

-- A breaker with a positive threshold lets jobs pass, and is closed and empty, once no failure has
-- been recorded for the length of its window.
pub check_circuit_breaker-quiet :
    (now : ℕ) (b : Breaker)
    → 1 ≤ b.threshold
    → All (λ t. t + b.window ≤ now) b.failures
    → check_circuit_breaker now b ≡ (false, record b { failures = []; is_open = false })
unfolding check_circuit_breaker recent
check_circuit_breaker-quiet now b some_ h = rw (quiet now b.window b.failures h) (ground arith)

-- Failures that are recorded at some instants.
unfoldable pub record_failures : List ℕ → Breaker → Breaker
unfolding record_failure
record_failures [] b = b
record_failures (t ∷ ts) b = record_failures ts (record_failure t b)

record_failures_lem :
    (ts : List ℕ) (b : Breaker) → record_failures ts b ≡ record b { failures = b.failures ++ ts }
unfolding record_failures record_failure
record_failures_lem [] b = rw (append-nil b.failures) refl
record_failures_lem (t ∷ ts) b =
    record_failures_lem ts (record_failure t b)
    ∙ ap (λ l. record b { failures = l }) (append_assoc b.failures (t ∷ []) ts)

within :
    (now w : ℕ) (old ts : List ℕ)
    → All (λ t. now < t + w) ts
    → length ts ≤ length (filter (λ t. ltb now (t + w)) (old ++ ts))
within now w [] [] h = omega arith
within now w [] (t ∷ ts) h = ground (arith, within now w [] ts h.1, h.0)
within now w (t ∷ old) ts h = ground (arith, within now w old ts h)

-- As many failures as the threshold trip the breaker, whatever it held before: a check rejects while
-- the window covers them. Once the window has passed since every failure that it holds, a check of a
-- breaker with a positive threshold lets jobs pass and leaves it closed and without a failure.
pub record_failures-trips :
    (ts : List ℕ) (now later : ℕ) (b : Breaker)
    → 1 ≤ b.threshold
    → b.threshold ≤ length ts
    → All (λ t. now < t + b.window) ts
    → All (λ t. t + b.window ≤ later) (b.failures ++ ts)
    → let tripped = record_failures ts b in
      ((check_circuit_breaker now tripped).0 ≡ true)
      × ((check_circuit_breaker now tripped).1.is_open ≡ true)
      × (check_circuit_breaker later tripped ≡ (false, record b { failures = []; is_open = false }))
record_failures-trips ts now later b some_ enough fresh past =
    let lots : leb b.threshold (length (filter (λ t. ltb now (t + b.window)) (b.failures ++ ts)))
        ≡ true =
      ground (arith, within now b.window b.failures ts fresh) in
    rw (record_failures_lem ts b) (
      unfold check_circuit_breaker in
      unfold recent in
      (
        rw lots refl,
        rw lots refl,
        rw (quiet later b.window (b.failures ++ ts) past) (ground arith),
      ))
