-- ===== src/Jobs/Runner/Steps.antt =====
-- agent/core/job_runner.py: each step of a coroutine, and each call, keeps the invariant.
use agent_life_space.Prelude.{
  ℕ, suc, ◌+◌, String, Bool, true, false, Dict, ◌-◌, insert, length, leb, drop, if◌then◌else◌, ◌≡◌,
  refl, Option, none, some, arith, lookup, ltb, elem, Bool-cases, Option-cases, inl, inr,
  length-insert-le,
}
use agent_life_space.Jobs.Record.{completed, JobConfig, JobRecord}
use agent_life_space.Jobs.Breaker.{Breaker, check_circuit_breaker, record_failure}
use agent_life_space.Jobs.Runner.{
  Stage, waiting, attempting, sleeping, is_running, Outcome, returned, timed_out, raised, escaped,
  Checks, Runner, schedule, has_place, finish_completed, finish_dead, after_failure,
  timed_out_attempt, failed_attempt, succeeded_stored, succeeded_attempt, refusal, settle, advance,
  resume, cancel,
}
use agent_life_space.Jobs.Runner.Counts.{
  length-insert_present, length-erase_present, count, count-insert, count-insert_idle,
  count-insert_old, count-erase, length-store_bounded, store_bounded-some,
}
use agent_life_space.Jobs.Runner.Invariant.{
  fits, IsValid, paired-insert, paired-erase, begin_attempt-IsValid,
}

-- `except Exception` catches the outcome, or there is nothing to catch.
abbrev pub is_caught : {V : Type 0} → Outcome V → Bool
is_caught escaped = false
is_caught _ = true

module _ {F V : Type 0} where
  -- A record whose coroutine ends is kept as completed, or as cancelled.
  finish_completed-IsValid :
      (id : String) (r r' : JobRecord F V) (s : Runner F V)
      → lookup id s.active_jobs ≡ some r
      → IsValid s
      → IsValid (finish_completed id r' s)
  unfolding finish_completed
  finish_completed-IsValid id r r' s here v = record {
    paired = paired-erase id s v;
    places = omega (arith, v.places, count-erase is_running id s.tasks);
    some_completed = v.some_completed;
    some_dead = v.some_dead;
    completed_bound =
        length-store_bounded s.max_completed id r' s.completed_jobs v.some_completed
          v.completed_bound;
    dead_bound = v.dead_bound;
    counted = omega (arith, v.counted, length-erase_present id r s.active_jobs here);
  }

  stored-IsValid :
      (d : Dict (JobRecord F V)) (n now : ℕ) (iso id : String) (r r' : JobRecord F V)
      (s : Runner F V)
      → lookup id s.active_jobs ≡ some r
      → IsValid s
      → IsValid (succeeded_stored (some d) n now iso id r' s)
  unfolding succeeded_stored finish_completed
  stored-IsValid d n now iso id r r' s here v =
      let f = finish_completed-IsValid id r r' s here v in
      record {
        paired = paired-erase id s v;
        places = omega (arith, v.places, count-erase is_running id s.tasks);
        some_completed = v.some_completed;
        some_dead = v.some_dead;
        completed_bound = f.completed_bound;
        dead_bound = v.dead_bound;
        counted = omega (arith, v.counted, length-erase_present id r s.active_jobs here);
      }

  succeeded_attempt-IsValid :
      (n start now : ℕ) (iso : String) (w : V) (id : String) (r : JobRecord F V) (s : Runner F V)
      → lookup id s.active_jobs ≡ some r
      → IsValid s
      → IsValid (succeeded_attempt n start now iso w id r s)
  unfolding succeeded_attempt
  succeeded_attempt-IsValid n start now iso w id r s here v =
      let r' : JobRecord F V = record r {
        status = completed;
        result = some w;
        completed_at = some iso;
        execution_time_ms = now - start;
      } in
      let d = s.completed_jobs in
      rw (store_bounded-some s.max_completed id r' d v.some_completed) (
        stored-IsValid (insert id r' (if leb s.max_completed (length d) then drop 1 d else d)) n now
          iso id r r' s here v)

  finish_dead-IsValid :
      (iso id : String) (r r' : JobRecord F V) (s : Runner F V)
      → lookup id s.active_jobs ≡ some r
      → IsValid s
      → IsValid (finish_dead iso id r' s)
  unfolding finish_dead
  finish_dead-IsValid iso id r r' s here v = record {
    paired = paired-erase id s v;
    places = omega (arith, v.places, count-erase is_running id s.tasks);
    some_completed = v.some_completed;
    some_dead = v.some_dead;
    completed_bound = v.completed_bound;
    dead_bound = length-store_bounded s.max_dead id _ s.dead_letters v.some_dead v.dead_bound;
    counted =
        rw (store_bounded-some s.max_dead id _ s.dead_letters v.some_dead)
          (omega (arith, v.counted, length-erase_present id r s.active_jobs here));
  }

  after_failure-IsValid :
      (n : ℕ) (iso id : String) (p : Stage) (r r' : JobRecord F V) (s : Runner F V)
      → lookup id s.active_jobs ≡ some r
      → lookup id s.tasks ≡ some p
      → is_running p ≡ true
      → IsValid s
      → IsValid (after_failure n iso id r' s)
  unfolding after_failure fits
  after_failure-IsValid n iso id p r r' s here there runs v =
      elim (Bool-cases (ltb n r'.config.max_retries)) [
        | inl again ↦ rw again (record {
          paired = paired-insert id (sleeping n) r' s again v;
          places =
              omega
                (arith, v.places, count-insert_old is_running id (sleeping n) p s.tasks there runs);
          some_completed = v.some_completed;
          some_dead = v.some_dead;
          completed_bound = v.completed_bound;
          dead_bound = v.dead_bound;
          counted = omega (arith, v.counted, length-insert_present id r' r s.active_jobs here);
        })
        | inr last ↦ rw last (finish_dead-IsValid iso id r r' s here v)
      ]

  -- The counters of failures and the breaker are not part of the invariant.
  noted-IsValid :
      (b : Breaker) (failures timeouts : ℕ) (s : Runner F V)
      → IsValid s
      → IsValid (record s {
        stats = record s.stats { total_failed = failures; total_timeouts = timeouts };
        breaker = b;
      })
  noted-IsValid b failures timeouts s v = record {
    paired = v.paired;
    places = v.places;
    some_completed = v.some_completed;
    some_dead = v.some_dead;
    completed_bound = v.completed_bound;
    dead_bound = v.dead_bound;
    counted = v.counted;
  }

  failed_attempt-IsValid :
      (n start now : ℕ) (iso text id : String) (r : JobRecord F V) (s : Runner F V)
      → lookup id s.active_jobs ≡ some r
      → lookup id s.tasks ≡ some (attempting n start)
      → IsValid s
      → IsValid (failed_attempt n now iso text id r s)
  unfolding failed_attempt
  failed_attempt-IsValid n start now iso text id r s here there v =
      after_failure-IsValid n iso id (attempting n start) r _ _ here there refl (
        noted-IsValid (record_failure now s.breaker) (s.stats.total_failed + 1)
          s.stats.total_timeouts s v)

  timed_out_attempt-IsValid :
      (n start now : ℕ) (iso id : String) (r : JobRecord F V) (s : Runner F V)
      → lookup id s.active_jobs ≡ some r
      → lookup id s.tasks ≡ some (attempting n start)
      → IsValid s
      → IsValid (timed_out_attempt n now iso id r s)
  unfolding timed_out_attempt
  timed_out_attempt-IsValid n start now iso id r s here there v =
      after_failure-IsValid n iso id (attempting n start) r _ _ here there refl (
        noted-IsValid (record_failure now s.breaker) s.stats.total_failed
          (s.stats.total_timeouts + 1) s v)

  settle-IsValid :
      (checks : Checks V) (o : Outcome V) (n start now : ℕ) (iso id : String) (r : JobRecord F V)
      (s : Runner F V)
      → lookup id s.active_jobs ≡ some r
      → lookup id s.tasks ≡ some (attempting n start)
      → is_caught o ≡ true
      → IsValid s
      → IsValid (settle checks o n start now iso id r s)
  unfolding settle
  settle-IsValid checks escaped n start now iso id r s here there caught v =
      absurd (ground (arith, caught))
  settle-IsValid checks timed_out n start now iso id r s here there caught v =
      timed_out_attempt-IsValid n start now iso id r s here there v
  settle-IsValid checks (raised text) n start now iso id r s here there caught v =
      failed_attempt-IsValid n start now iso text id r s here there v
  settle-IsValid checks (returned w) n start now iso id r s here there caught v =
      elim (Option-cases (refusal checks r.config w)) [
        | inl fine ↦ rw (fine, settle) (succeeded_attempt-IsValid n start now iso w id r s here v)
        | inr (text, bad) ↦
            rw (bad, settle) (failed_attempt-IsValid n start now iso text id r s here there v)
      ]

  advance-IsValid :
      (checks : Checks V) (o : Outcome V) (now : ℕ) (iso id : String) (p : Option Stage)
      (r : Option (JobRecord F V)) (s : Runner F V)
      → lookup id s.tasks ≡ p
      → lookup id s.active_jobs ≡ r
      → fits p r ≡ true
      → is_caught o ≡ true
      → IsValid s
      → IsValid (advance checks o now iso id p r s)
  unfolding advance has_place fits
  advance-IsValid checks o now iso id none r s there here fit caught v = v
  advance-IsValid checks o now iso id (some p) none s there here fit caught v = v
  advance-IsValid checks o now iso id (some waiting) (some r) s there here fit caught v =
      elim (Bool-cases (ltb (count is_running s.tasks) s.max_concurrent)) [
        | inl free ↦ rw free (
            begin_attempt-IsValid 0 id now iso r s here (omega arith)
              (ground (arith, count-insert is_running id (attempting 0 now) s.tasks, free)) v)
        | inr busy ↦ rw busy v
      ]
  advance-IsValid checks o now iso id (some (attempting n start)) (some r) s there here fit caught
        v =
      settle-IsValid checks o n start now iso id r s here there caught v
  advance-IsValid checks o now iso id (some (sleeping n)) (some r) s there here fit caught v =
      begin_attempt-IsValid (suc n) id now iso r s here (ground arith)
        (omega (
          arith,
          v.places,
          count-insert_old is_running id (attempting (suc n) now) (sleeping n) s.tasks there refl,
        ))
        v

  pub resume-IsValid :
      (checks : Checks V) (o : Outcome V) (now : ℕ) (iso id : String) (s : Runner F V)
      → is_caught o ≡ true
      → IsValid s
      → IsValid (resume checks o now iso id s)
  unfolding resume
  resume-IsValid checks o now iso id s caught v =
      advance-IsValid checks o now iso id _ _ s refl refl (v.paired id) caught v

  pub cancel-IsValid : (iso id : String) (s : Runner F V) → IsValid s → IsValid (cancel iso id s).1
  unfolding cancel
  cancel-IsValid iso id s v = elim (Option-cases (lookup id s.active_jobs)) [
    | inl gone ↦ rw (gone, cancel) v
    | inr (r, here) ↦ rw (here, cancel) (finish_completed-IsValid id r _ s here v)
  ]

  pub schedule-IsValid :
      (id iso : String) (now : ℕ) (name : String) (config : JobConfig F) (s : Runner F V)
      → IsValid s
      → IsValid (schedule id iso now name config s).1
  unfolding schedule fits
  schedule-IsValid id iso now name config s v = elim (Bool-cases (elem name s.functions)) [
    | inr unknown ↦ rw unknown v
    | inl known ↦
        let (rejects, b) = check_circuit_breaker now s.breaker in
        elim (Bool-cases rejects) [
          | inl open_ ↦
              rw (known, open_) (noted-IsValid b s.stats.total_failed s.stats.total_timeouts s v)
          | inr closed ↦
              rw (known, closed)
                (record {
                  paired = paired-insert id waiting _ s refl v;
                  places =
                      omega (arith, v.places, count-insert_idle is_running id waiting s.tasks refl);
                  some_completed = v.some_completed;
                  some_dead = v.some_dead;
                  completed_bound = v.completed_bound;
                  dead_bound = v.dead_bound;
                  counted = omega (arith, v.counted, length-insert-le id _ s.active_jobs);
                })
        ]
  ]
