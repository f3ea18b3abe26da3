-- ===== src/Examples/RouterRuns.antt =====
-- agent/core/router.py: two messages of different priorities, one of which is tried twice.
use agent_life_space.Prelude.{ℕ, String, none, some, List, [], ◌∷◌, refl, lookup}
use agent_life_space.Json.{end}
use agent_life_space.Routing.Message.{
  Message, Priority, critical, normal, brain, tasks, request, pending,
}
use agent_life_space.Routing.Router.{responded, raised, timed_out, new_router}
use agent_life_space.Routing.Router.Steps.{
  Working, Step, register_step, unregister_step, send_step, store_step, take_step, drain_step,
  finish_step, wake_step, run,
}
use agent_life_space.Routing.Router.Lanes.{AllAllowed}
use agent_life_space.Routing.Router.Order.{run-AllAllowed}
use agent_life_space.Routing.Router.Durable.{IsDurable, run-IsDurable}
use agent_life_space.Routing.Router.Balance.{IsBalanced, run-IsBalanced}

abbrev to_tasks : String → Priority → Message ℕ
to_tasks id priority = record {
  id = id;
  correlation_id = none;
  source = brain;
  target = tasks;
  msg_type = request;
  priority = priority;
  timestamp = "10:00";
  payload = end;
  status = pending;
  ttl_seconds = 300;
  retry_count = 0;
  max_retries = 3;
  created_at_mono = 10;
}

abbrev fresh : Working ℕ
unfolding new_router
fresh = record {
  router = new_router "30.0" 500 10000;
  delivering = [];
  storing = [];
  resting = [];
  sends = 0;
  delivered_ids = [];
}

abbrev looping : List (Step ℕ)
looping =
    register_step tasks 10
    ∷ send_step (to_tasks "m1" normal) 11
    ∷ store_step 0 11
    ∷ send_step (to_tasks "m2" critical) 12
    ∷ take_step 13
    ∷ store_step 0 13
    ∷ finish_step 0 timed_out 43
    ∷ take_step 44
    ∷ wake_step 0 44
    ∷ finish_step 0 (responded (some (to_tasks "m3" normal))) 45
    ∷ take_step 46
    ∷ finish_step 0 (raised "busy") 47
    ∷ unregister_step tasks
    ∷ take_step 48
    ∷ []

run-AllAllowed_example : AllAllowed (drain_step 9 ∷ looping) fresh
unfolding fresh
run-AllAllowed_example = run-AllAllowed (drain_step 9 ∷ looping) fresh (tt, tt)

run-IsBalanced_example : IsBalanced (run looping fresh)
unfolding new_router fresh lookup
run-IsBalanced_example =
    run-IsBalanced looping fresh
      (
        refl,
        (
          refl,
          (
            refl,
            (
              refl,
              (refl, (refl, (refl, (refl, (refl, (refl, (refl, (refl, (refl, (refl, tt)))))))))),
            ),
          ),
        ),
      )
      refl

abbrev with_table : Working ℕ
unfolding fresh new_router
with_table = record fresh {
  router = record (new_router "30.0" 500 10000) { persistence = record { db = some [] } };
}

run-IsDurable_example : IsDurable (run (drain_step 9 ∷ looping) with_table)
unfolding new_router fresh with_table
run-IsDurable_example =
    run-IsDurable (drain_step 9 ∷ looping) with_table
      (
        refl,
        (
          refl,
          (
            refl,
            (
              refl,
              (
                refl,
                (refl, (refl, (refl, (refl, (refl, (refl, (refl, (refl, (refl, (refl, tt)))))))))),
              ),
            ),
          ),
        ),
      )
      (refl, tt, tt, tt)
