-- ===== src/Jobs/Runner/Traces.antt =====
-- agent/core/job_runner.py: interleavings of calls and of steps of the coroutines.
use agent_life_space.Prelude.{
  lookup, true, ltb, subst, Bool-cases, inl, inr, ℕ, ◌≤◌, String, ◌≡◌, refl, List, [], ◌∷◌, All,
  arith,
}
use agent_life_space.Prelude.Result.{ok}
use agent_life_space.Jobs.Record.{JobConfig}
use agent_life_space.Jobs.Runner.{
  Outcome, Checks, Runner, started, new, register_job_type, schedule, resume, cancel,
}
use agent_life_space.Jobs.Runner.Invariant.{fits, IsValid}
use agent_life_space.Jobs.Runner.Steps.{is_caught, resume-IsValid, cancel-IsValid, schedule-IsValid}

-- What happens next: a call, or the coroutine of an id goes on, with what its job function does.
pub data Event (F V : Type 0) : Type 0 where
  register_event : String → Event F V
  schedule_event : String → String → ℕ → String → JobConfig F → Event F V
  resume_event : Outcome V → ℕ → String → String → Event F V
  cancel_event : String → String → Event F V

module _ {F V : Type 0} where
  -- No job function ends in what `except Exception` lets through.
  abbrev pub IsCaught : Event F V → Type 0
  IsCaught (resume_event o now iso id) = is_caught o ≡ true
  IsCaught _ = Unit

module _ {F V : Type 0} (checks : Checks V) where
  unfoldable pub happen : Event F V → Runner F V → Runner F V
  happen (register_event name) s = register_job_type name s
  happen (schedule_event id iso now name config) s = (schedule id iso now name config s).1
  happen (resume_event o now iso id) s = resume checks o now iso id s
  happen (cancel_event iso id) s = (cancel iso id s).1

  unfoldable pub happen_all : List (Event F V) → Runner F V → Runner F V
  happen_all [] s = s
  happen_all (e ∷ es) s = happen_all es (happen e s)

  happen-IsValid : (e : Event F V) (s : Runner F V) → IsCaught e → IsValid s → IsValid (happen e s)
  unfolding happen register_job_type
  happen-IsValid (register_event name) s c v = record {
    paired = v.paired;
    places = v.places;
    some_completed = v.some_completed;
    some_dead = v.some_dead;
    completed_bound = v.completed_bound;
    dead_bound = v.dead_bound;
    counted = v.counted;
  }
  happen-IsValid (schedule_event id iso now name config) s c v =
      schedule-IsValid id iso now name config s v
  happen-IsValid (resume_event o now iso id) s c v = resume-IsValid checks o now iso id s c v
  happen-IsValid (cancel_event iso id) s c v = cancel-IsValid iso id s v

  run-IsValid :
      (es : List (Event F V)) (s : Runner F V)
      → All IsCaught es
      → IsValid s
      → IsValid (happen_all es s)
  unfolding happen_all
  run-IsValid [] s c v = v
  run-IsValid (e ∷ es) s c v = run-IsValid es (happen e s) c.1 (happen-IsValid e s c.0 v)

  started-IsValid :
      (max_concurrent threshold window max_completed max_dead : ℕ)
      → 1 ≤ max_completed
      → 1 ≤ max_dead
      → IsValid {F = F} {V = V} (started max_concurrent threshold window max_completed max_dead)
  unfolding fits lookup
  started-IsValid max_concurrent threshold window max_completed max_dead c d = record {
    paired = λ k. refl;
    places = omega arith;
    some_completed = c;
    some_dead = d;
    completed_bound = omega arith;
    dead_bound = omega arith;
    counted = omega arith;
  }

  new-started :
      (max_concurrent threshold window max_completed max_dead : ℕ) (s : Runner F V)
      → new max_concurrent threshold window max_completed max_dead ≡ ok s
      → started max_concurrent threshold window max_completed max_dead ≡ s
  unfolding new
  new-started max_concurrent threshold window max_completed max_dead s made =
      elim (Bool-cases (ltb max_concurrent 1)) [
        | inl none_ ↦ absurd (ground arith)
        | inr some_ ↦ cc (rw some_ at made)
      ]

  -- In every interleaving of calls and coroutines on a new runner with positive bounds, where each
  -- job function returns, times out or raises an Exception (and no CancelledError or other
  -- BaseException of its own): each active job has exactly one coroutine, which is within its 1 +
  -- max_retries attempts, no more coroutines run than `max_concurrent`, both histories keep their
  -- bounds, and the number of active jobs, completions and dead letters together is at most that of
  -- the jobs that were scheduled.
  pub happen_all-IsValid :
      (max_concurrent threshold window max_completed max_dead : ℕ) (s : Runner F V)
      (es : List (Event F V))
      → 1 ≤ max_completed
      → 1 ≤ max_dead
      → All IsCaught es
      → new max_concurrent threshold window max_completed max_dead ≡ ok s
      → IsValid (happen_all es s)
  happen_all-IsValid max_concurrent threshold window max_completed max_dead s es c d caught made =
      run-IsValid es s caught (
        subst IsValid (new-started max_concurrent threshold window max_completed max_dead s made)
          (started-IsValid max_concurrent threshold window max_completed max_dead c d))
