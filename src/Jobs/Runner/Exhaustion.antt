-- ===== src/Jobs/Runner/Exhaustion.antt =====
-- agent/core/job_runner.py: a job whose attempts all fail.
use agent_life_space.Prelude.{
  All, length, List, [], ◌∷◌, ℕ, suc, ◌+◌, ◌<◌, ◌≤◌, String, Bool, true, false, ◌≡◌, refl, Option,
  none, some, arith, lookup, ltb, lookup-insert_self, lookup-erase_self, Option-cases, inl, inr,
}
use agent_life_space.Jobs.Record.{dead_lettered, JobConfig, JobRecord}
use agent_life_space.Jobs.Runner.Counts.{store_bounded-some}
use agent_life_space.Jobs.Runner.{
  attempting, sleeping, Outcome, returned, timed_out, raised, escaped, Checks, Runner,
  begin_attempt, finish_dead, after_failure, timed_out_attempt, failed_attempt, refusal, settle,
  advance, resume,
}

abbrev is_some : Option String → Bool
is_some none = false
is_some (some s) = true

lt→ltb : (a b : ℕ) → a < b → ltb a b ≡ true
lt→ltb a b h = ground arith

le→ltb : (a b : ℕ) → b ≤ a → ltb a b ≡ false
le→ltb a b h = ground arith

-- The instant of a step, and what the job function does then if it is running.
pub record Moment (V : Type 0) : Type 0 where
  pub outcome : Outcome V
  pub now : ℕ
  pub iso : String

module _ {F V : Type 0} (checks : Checks V) where
  abbrev pub step : String → Moment V → Runner F V → Runner F V
  step id m s = resume checks m.outcome m.now m.iso id s

  -- The outcomes that end an attempt in `except`.
  abbrev pub fails : JobConfig F → Outcome V → Bool
  fails config timed_out = true
  fails config (raised text) = true
  fails config escaped = false
  fails config (returned v) = is_some (refusal checks config v)

  -- The job of the id is in its attempt `n`, and the runner has counted so many failures.
  pub record IsAt (n : ℕ) (id : String) (config : JobConfig F) (failures : ℕ) (s : Runner F V)
      : Type 0 where
    pub start : ℕ
    pub job : JobRecord F V
    pub in_attempt : lookup id s.tasks ≡ some (attempting n start)
    pub active : lookup id s.active_jobs ≡ some job
    pub configured : job.config ≡ config
    pub counted : s.stats.total_failed + s.stats.total_timeouts ≡ failures
    pub some_dead : 1 ≤ s.max_dead

  -- The job of the id is a dead letter, no coroutine of it is left, and so many failures are counted.
  pub record IsBuried (id : String) (config : JobConfig F) (failures : ℕ) (s : Runner F V)
      : Type 0 where
    pub job : JobRecord F V
    pub buried : lookup id s.dead_letters ≡ some job
    pub labelled : job.status ≡ dead_lettered
    pub configured : job.config ≡ config
    pub no_coroutine : lookup id s.tasks ≡ none
    pub inactive : lookup id s.active_jobs ≡ none
    pub counted : s.stats.total_failed + s.stats.total_timeouts ≡ failures

  -- A failure leads to `after_failure` of the job, with one more failure counted.
  record Failed (n : ℕ) (iso id : String) (config : JobConfig F) (failures : ℕ) (s' : Runner F V)
      : Type 0 where
    noted : Runner F V
    job : JobRecord F V
    configured : job.config ≡ config
    counted : noted.stats.total_failed + noted.stats.total_timeouts ≡ failures + 1
    some_dead : 1 ≤ noted.max_dead
    left : s' ≡ after_failure n iso id job noted

  settle-Failed :
      (o : Outcome V) (n start now : ℕ) (iso id : String) (r : JobRecord F V) (s : Runner F V)
      → fails r.config o ≡ true
      → 1 ≤ s.max_dead
      → Failed n iso id r.config
          (s.stats.total_failed + s.stats.total_timeouts)
          (settle checks o n start now iso id r s)
  unfolding settle timed_out_attempt failed_attempt
  settle-Failed timed_out n start now iso id r s f d = record {
    noted = _;
    job = _;
    configured = refl;
    counted = omega arith;
    some_dead = d;
    left = refl;
  }
  settle-Failed escaped n start now iso id r s f d = absurd (ground (arith, f))
  settle-Failed (raised text) n start now iso id r s f d = record {
    noted = _;
    job = _;
    configured = refl;
    counted = omega arith;
    some_dead = d;
    left = refl;
  }
  settle-Failed (returned v) n start now iso id r s f d =
      elim (Option-cases (refusal checks r.config v)) [
        | inl fine ↦ absurd (ground arith)
        | inr (text, bad) ↦
            rw (bad, settle)
              (record {
                noted = _;
                job = _;
                configured = refl;
                counted = omega arith;
                some_dead = d;
                left = refl;
              })
      ]

  resume-Failed :
      (o : Outcome V) (n now : ℕ) (iso id : String) (config : JobConfig F) (failures : ℕ)
      (s : Runner F V)
      → fails config o ≡ true
      → IsAt n id config failures s
      → Failed n iso id config failures (resume checks o now iso id s)
  unfolding resume advance
  resume-Failed o n now iso id config failures s f a =
      rw (a.in_attempt, a.active, ← a.configured, ← a.counted)
        (settle-Failed o n a.start now iso id a.job s (rw a.configured f) a.some_dead)

  -- A sleep that ends begins the next attempt.
  woken-IsAt :
      (o : Outcome V) (n now : ℕ) (iso before id : String) (r : JobRecord F V) (s : Runner F V)
      → n < r.config.max_retries
      → 1 ≤ s.max_dead
      → IsAt
          (suc n)
          id
          r.config
          (s.stats.total_failed + s.stats.total_timeouts)
          (resume checks o now iso id (after_failure n before id r s))
  unfolding after_failure
  woken-IsAt o n now iso before id r s few d = rw (lt→ltb n r.config.max_retries few) (
      unfold resume in
      rw (lookup-insert_self id (sleeping n) s.tasks, lookup-insert_self id r s.active_jobs)
        (unfold advance in
          unfold begin_attempt in
          record {
            start = now;
            job = _;
            in_attempt = lookup-insert_self id (attempting (suc n) now) _;
            active = lookup-insert_self id _ _;
            configured = refl;
            counted = refl;
            some_dead = d;
          }))

  -- The attempt after the one that failed. What a job function does says nothing of its wake-up.
  again-IsAt :
      (end wake : Moment V) (n : ℕ) (id : String) (config : JobConfig F) (failures : ℕ)
      (s : Runner F V)
      → fails config end.outcome ≡ true
      → n < config.max_retries
      → IsAt n id config failures s
      → IsAt (suc n) id config (failures + 1) (step id wake (step id end s))
  again-IsAt end wake n id config failures s f few a =
      let b = resume-Failed end.outcome n end.now end.iso id config failures s f a in
      rw (b.left, ← b.counted, ← b.configured)
        (woken-IsAt wake.outcome n wake.now wake.iso end.iso id b.job b.noted (rw b.configured few)
          b.some_dead)

  buried :
      (n : ℕ) (iso id : String) (r : JobRecord F V) (s : Runner F V)
      → r.config.max_retries ≤ n
      → 1 ≤ s.max_dead
      → IsBuried id r.config
          (s.stats.total_failed + s.stats.total_timeouts)
          (after_failure n iso id r s)
  unfolding after_failure finish_dead
  buried n iso id r s last d =
      let dead : JobRecord F V = record r { status = dead_lettered; completed_at = some iso } in
      rw (le→ltb n r.config.max_retries last) (record {
        job = dead;
        buried =
            rw (store_bounded-some s.max_dead id dead s.dead_letters d)
              (lookup-insert_self id dead _);
        labelled = refl;
        configured = refl;
        no_coroutine = lookup-erase_self id s.tasks;
        inactive = lookup-erase_self id s.active_jobs;
        counted = refl;
      })

  -- The last attempt leaves the job among the dead letters.
  last_failure-IsBuried :
      (o : Outcome V) (n now : ℕ) (iso id : String) (config : JobConfig F) (failures : ℕ)
      (s : Runner F V)
      → fails config o ≡ true
      → config.max_retries ≤ n
      → IsAt n id config failures s
      → IsBuried id config (failures + 1) (resume checks o now iso id s)
  last_failure-IsBuried o n now iso id config failures s f last a =
      let b = resume-Failed o n now iso id config failures s f a in
      rw (b.left, ← b.counted, ← b.configured)
        (buried n iso id b.job b.noted (rw b.configured last) b.some_dead)

  -- The steps of one coroutine: the wake-up before each further attempt, and its end.
  unfoldable pub step_all : String → List (Moment V × Moment V) → Runner F V → Runner F V
  step_all id [] s = s
  step_all id ((wake, end) ∷ rest) s = step_all id rest (step id end (step id wake s))

  abbrev pub AllFail : JobConfig F → List (Moment V × Moment V) → Type 0
  AllFail config ms = All (λ m. fails config m.1.outcome ≡ true) ms

  -- The bound of the dead letters is positive. A job is in one of its attempts, and this one and all
  -- further ones, up to attempt `max_retries`, fail, each by a timeout, an exception or a value that
  -- is refused. When the last of them has ended, the job is among the dead letters, nothing of its
  -- coroutine is left, and each of these attempts was counted as one failure.
  pub step_all-IsBuried :
      (end : Moment V) (rest : List (Moment V × Moment V)) (n : ℕ) (id : String)
      (config : JobConfig F) (failures : ℕ) (s : Runner F V)
      → fails config end.outcome ≡ true
      → AllFail config rest
      → n + length rest ≡ config.max_retries
      → IsAt n id config failures s
      → IsBuried id config (failures + (length rest + 1)) (step_all id rest (step id end s))
  unfolding step_all
  step_all-IsBuried end [] n id config failures s f fs total a =
      last_failure-IsBuried end.outcome n end.now end.iso id config failures s f (omega arith) a
  step_all-IsBuried end ((wake, next) ∷ rest) n id config failures s f fs total a =
      let sum : failures + (length ((wake, next) ∷ rest) + 1) ≡ failures + 1 + (length rest + 1) =
        omega arith in
      rw sum (
        step_all-IsBuried next rest (suc n) id config (failures + 1) _ fs.0 fs.1 (omega arith)
          (again-IsAt end wake n id config failures s f (omega arith) a))
