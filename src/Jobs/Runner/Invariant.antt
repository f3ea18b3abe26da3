-- ===== src/Jobs/Runner/Invariant.antt =====
-- agent/core/job_runner.py: what holds of the runner at every await, in every interleaving.
use agent_life_space.Prelude.{
  ℕ, ◌+◌, ◌≤◌, String, Bool, true, false, ◌≡◌, refl, Option, none, some, arith, lookup, insert,
  erase, values, length, filter, ltb, leb, lookup-insert, lookup-erase, ◌==◌, Bool-cases, inl, inr,
}
use agent_life_space.Jobs.Record.{JobRecord}
use agent_life_space.Jobs.Runner.{
  Stage, waiting, attempting, sleeping, is_running, Runner, begin_attempt,
}
use agent_life_space.Jobs.Runner.Counts.{length-insert_present}

module _ {F V : Type 0} where
  -- A coroutine and the record of its job.
  unfoldable pub fits : Option Stage → Option (JobRecord F V) → Bool
  fits none none = true
  fits none (some r) = false
  fits (some p) none = false
  fits (some waiting) (some r) = true
  fits (some (attempting n start)) (some r) = leb n r.config.max_retries
  fits (some (sleeping n)) (some r) = ltb n r.config.max_retries

  -- Each active job has exactly one coroutine, which is within its attempts; no more coroutines run
  -- than there are places; the histories keep their bounds; and each scheduled job is counted at
  -- most once as active, completed or dead-lettered.
  pub record IsValid (s : Runner F V) : Type 0 where
    pub paired : (k : String) → fits (lookup k s.tasks) (lookup k s.active_jobs) ≡ true
    pub places : length (filter is_running (values s.tasks)) ≤ s.max_concurrent
    pub some_completed : 1 ≤ s.max_completed
    pub some_dead : 1 ≤ s.max_dead
    pub completed_bound : length s.completed_jobs ≤ s.max_completed
    pub dead_bound : length s.dead_letters ≤ s.max_dead
    pub counted :
        length s.active_jobs + s.stats.total_completed + s.stats.total_dead_lettered
        ≤ s.stats.total_scheduled

  -- Both dictionaries get a new entry under one key.
  pub paired-insert :
      (id : String) (p : Stage) (r : JobRecord F V) (s : Runner F V)
      → fits (some p) (some r) ≡ true
      → IsValid s
      → (k : String)
      → fits (lookup k (insert id p s.tasks)) (lookup k (insert id r s.active_jobs)) ≡ true
  paired-insert id p r s fit v k =
      rw (lookup-insert id k p s.tasks, lookup-insert id k r s.active_jobs)
        (elim (Bool-cases (id == k)) [ inl same ↦ rw same fit | inr other ↦ rw other (v.paired k) ])

  pub paired-erase :
      (id : String) (s : Runner F V)
      → IsValid s
      → (k : String) → fits (lookup k (erase id s.tasks)) (lookup k (erase id s.active_jobs)) ≡ true
  unfolding fits
  paired-erase id s v k =
      rw (lookup-erase id k s.tasks, lookup-erase id k s.active_jobs)
        (elim (Bool-cases (id == k)) [
          | inl same ↦ rw same refl
          | inr other ↦ rw other (v.paired k)
        ])

  pub begin_attempt-IsValid :
      (n : ℕ) (id : String) (now : ℕ) (iso : String) (r : JobRecord F V) (s : Runner F V)
      → lookup id s.active_jobs ≡ some r
      → n ≤ r.config.max_retries
      → length (filter is_running (values (insert id (attempting n now) s.tasks)))
        ≤ s.max_concurrent
      → IsValid s
      → IsValid (begin_attempt n id now iso r s)
  unfolding begin_attempt fits
  begin_attempt-IsValid n id now iso r s here few place v = record {
    paired = paired-insert id (attempting n now) _ s (ground arith) v;
    places = place;
    some_completed = v.some_completed;
    some_dead = v.some_dead;
    completed_bound = v.completed_bound;
    dead_bound = v.dead_bound;
    counted = omega (arith, v.counted, length-insert_present id _ r s.active_jobs here);
  }
