-- ===== src/Finance/Clock.antt =====
-- What agent/finance/tracker.py asks of `datetime`, at the instant of a call.
use agent_life_space.Prelude.{ℕ, String, Option}

pub record Clock : Type 0 where
  -- `now.isoformat()`, `now.date().isoformat()` and `now.strftime("%Y-%m")`
  pub iso : String
  pub today : String
  pub month : String
  -- `time.time()`, for the approval queue
  pub seconds : ℕ
  -- `(now - datetime.fromisoformat(s)).days`, or nothing where that raises. Nothing, too, for an
  -- instant in the future: its negative number of days passes no test of the loop either.
  pub age_days : String → Option ℕ
