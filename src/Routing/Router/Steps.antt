-- ===== src/Routing/Router/Steps.antt =====
-- agent/core/router.py: the router with the messages that its handlers have and those that wait for a
-- retry, and a run as a sequence of steps in any order: other tasks send while a handler works.
use agent_life_space.Prelude.{ℕ, String, ◌+◌, Option, none, some, List, [], ◌∷◌, ◌++◌}
use agent_life_space.Prelude.Waiting.{take_out}
use agent_life_space.Routing.Message.{Message, ModuleId}
use agent_life_space.Routing.Queue.{Entry}
use agent_life_space.Routing.Router.{
  end_send, MessageRouter, Outcome, responded, register_handler, unregister_handler, send, take,
  take_draining, closed, finish,
}

pub record Working (F : Type 0) : Type 0 where
  pub router : MessageRouter F
  -- What the handlers have.
  pub delivering : List (Message F)
  -- The entries whose rows are being written.
  pub storing : List (Entry F)
  -- What `_maybe_retry` sends after its sleep.
  pub resting : List (Message F)
  -- How many calls of `send` were made, and the ids of the messages that were delivered.
  pub sends : ℕ
  pub delivered_ids : List String

-- The steps: an outcome or the end of a sleep names the message by its place among those that wait.
pub data Step (F : Type 0) : Type 0 where
  register_step : ModuleId → ℕ → Step F
  unregister_step : ModuleId → Step F
  send_step : Message F → ℕ → Step F
  store_step : ℕ → ℕ → Step F
  take_step drain_step : ℕ → Step F
  finish_step : ℕ → Outcome F → ℕ → Step F
  wake_step : ℕ → ℕ → Step F
  close_step : Step F

module _ {F : Type 0} where
  abbrev pub with_option : Option (Message F) → List (Message F) → List (Message F)
  with_option none ms = ms
  with_option (some m) ms = ms ++ m ∷ []

  -- A response is sent too.
  abbrev pub sends_of : Outcome F → ℕ
  sends_of (responded (some m)) = 1
  sends_of _ = 0

  abbrev pub ids_of : Outcome F → Message F → List String → List String
  ids_of (responded a) m ids = m.id ∷ ids
  ids_of _ m ids = ids

  abbrev pub with_entry : Option (Entry F) → List (Entry F) → List (Entry F)
  with_entry none es = es
  with_entry (some e) es = es ++ e ∷ []

  unfoldable pub taken : MessageRouter F × Option (Message F) → Working F → Working F
  taken (r, given) w = record w { router = r; delivering = with_option given w.delivering }

  unfoldable pub sent : MessageRouter F × Option (Entry F) → Working F → Working F
  sent (r, e) w = record w { router = r; storing = with_entry e w.storing; sends = w.sends + 1 }

  unfoldable pub stored : ℕ → Option (Entry F × List (Entry F)) → Working F → Working F
  unfolding end_send
  stored wall none w = w
  stored wall (some (e, others)) w = record w {
    router = end_send e wall w.router;
    storing = others;
  }

  unfoldable pub finished :
      Outcome F → ℕ → Option (Message F × List (Message F)) → Working F → Working F
  unfolding finish
  finished outcome now none w = w
  finished outcome now (some (m, others)) w =
      let (r, again, e) = finish m outcome now w.router in
      record {
        router = r;
        delivering = others;
        storing = with_entry e w.storing;
        resting = with_option again w.resting;
        sends = w.sends + sends_of outcome;
        delivered_ids = ids_of outcome m w.delivered_ids;
      }

  unfoldable pub sent_again : ℕ → Option (Message F × List (Message F)) → Working F → Working F
  unfolding send sent
  sent_again now none w = w
  sent_again now (some (m, others)) w = sent (send m now w.router) (record w { resting = others })

  unfoldable pub step : Step F → Working F → Working F
  unfolding register_handler unregister_handler send take take_draining closed taken sent stored
      finished sent_again take_out
  step (register_step id now) w = record w { router = register_handler id now w.router }
  step (unregister_step id) w = record w { router = unregister_handler id w.router }
  step (send_step m now) w = sent (send m now w.router) w
  step (store_step n wall) w = stored wall (take_out n w.storing) w
  step (take_step now) w = taken (take now w.router) w
  step (drain_step now) w = taken (take_draining now w.router) w
  step (finish_step n outcome now) w = finished outcome now (take_out n w.delivering) w
  step (wake_step n now) w = sent_again now (take_out n w.resting) w
  step close_step w = record w { router = closed w.router }

  unfoldable pub run : List (Step F) → Working F → Working F
  unfolding step
  run [] w = w
  run (s ∷ ss) w = run ss (step s w)
