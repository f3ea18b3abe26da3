-- ===== src/Routing/Router/Lanes.antt =====
-- agent/core/router.py: what a step of the router may do to lanes of messages, one for a priority and
-- without sequence numbers.
use agent_life_space.Prelude.{
  All, none, not, List, ◌&&◌, [], ◌<◌, some, ◌⊎◌, true, ◌∷◌, elem, ltb, Option, ◌++◌, if◌then◌else◌,
  ◌≡◌, false, ◌+◌, ◌≤◌, ℕ, Bool,
}
use agent_life_space.Prelude.Waiting.{take_out}
use agent_life_space.Routing.Message.{pending, Message, module_value, priority_value, is_expired}
use agent_life_space.Routing.Queue.{Entry}
use agent_life_space.Routing.Queue.Lanes.{same, lane, IsOrdered}
use agent_life_space.Routing.Router.{MessageRouter, Outcome, responded, timed_out, raised}
use agent_life_space.Routing.Router.Steps.{
  Working, Step, send_step, take_step, drain_step, finish_step, wake_step, step,
}

module _ {F : Type 0} where
  abbrev pub rank : Message F → ℕ
  rank m = priority_value m.priority

  -- The message has time left, and its target has a handler.
  abbrev pub admits : ℕ → Message F → MessageRouter F → Bool
  admits now m r = not (is_expired now m) && elem (module_value m.target) r.handlers

  abbrev pub Fits : ℕ → Entry F → Type 0
  Fits n e = (e.priority ≡ rank e.message) × (e.seq ≤ n)

  -- The entries are in order, have their message's priority, and no number yet to come.
  abbrev pub IsQueue : List (Entry F) → ℕ → Type 0
  IsQueue es n = IsOrdered es × All (Fits n) es

  abbrev pub lane_of : ℕ → MessageRouter F → List (Message F)
  lane_of p r = lane p r.queue

  abbrev pub Kept : MessageRouter F → MessageRouter F → Type 0
  Kept r r' = (p : ℕ) → lane_of p r' ≡ lane_of p r

  -- A message goes to the end of its lane, or nowhere.
  abbrev pub Sent : Message F → ℕ → MessageRouter F → MessageRouter F → Type 0
  Sent m now r r' =
      (p : ℕ)
      → lane_of p r'
        ≡ (if admits now m r && same p (rank m) then lane_of p r ++ m ∷ [] else lane_of p r)

  -- `m` was the first message of the first lane that has one, and the other lanes are as before.
  abbrev pub First : Message F → MessageRouter F → MessageRouter F → Type 0
  First m r r' =
      ((p : ℕ) → p < rank m → lane_of p r ≡ [])
      × ((p : ℕ) → same p (rank m) ≡ true → lane_of p r ≡ m ∷ lane_of p r')
      × ((p : ℕ) → same p (rank m) ≡ false → lane_of p r ≡ lane_of p r')

  -- All lanes are empty, or the first message is out and goes to its handler where it has one in
  -- time.
  abbrev pub Taken : ℕ → Working F → Working F → Type 0
  Taken now w w' =
      (((p : ℕ) → lane_of p w.router ≡ []) × Kept w.router w'.router)
      ⊎ ((m : Message F) × First m w.router w'.router
          × (w'.delivering
              ≡ (if admits now m w.router then w.delivering ++ m ∷ [] else w.delivering)))

  -- What a delivery of `m` that failed leaves to be sent again after the sleep.
  abbrev pub Rests : Message F → Working F → Working F → Type 0
  Rests m w w' = w'.resting ≡ (
      if ltb m.retry_count m.max_retries
      then w.resting ++ record m { retry_count = m.retry_count + 1; status = pending } ∷ []
      else w.resting)

  -- After an outcome: a response is sent, a failure is to be retried, and nothing happens else.
  abbrev pub Finished :
      Option (Message F × List (Message F)) → Outcome F → ℕ → Working F → Working F → Type 0
  Finished none outcome now w w' = Kept w.router w'.router × (w'.resting ≡ w.resting)
  Finished (some (m, others)) (responded none) now w w' =
      Kept w.router w'.router × (w'.resting ≡ w.resting)
  Finished (some (m, others)) (responded (some a)) now w w' =
      Sent a now w.router w'.router × (w'.resting ≡ w.resting)
  Finished (some (m, others)) timed_out now w w' = Kept w.router w'.router × Rests m w w'
  Finished (some (m, others)) (raised e) now w w' = Kept w.router w'.router × Rests m w w'

  -- After a sleep: the message that waited is sent.
  abbrev pub Woken : Option (Message F × List (Message F)) → ℕ → Working F → Working F → Type 0
  Woken none now w w' = Kept w.router w'.router × (w'.resting ≡ w.resting)
  Woken (some (m, others)) now w w' = Sent m now w.router w'.router × (w'.resting ≡ others)

  -- What a step does to the lanes.
  abbrev pub Allowed : Step F → Working F → Working F → Type 0
  Allowed (send_step m now) w w' = Sent m now w.router w'.router
  Allowed (take_step now) w w' = Taken now w w'
  Allowed (drain_step now) w w' = Taken now w w'
  Allowed (finish_step n outcome now) w w' = Finished (take_out n w.delivering) outcome now w w'
  Allowed (wake_step n now) w w' = Woken (take_out n w.resting) now w w'
  Allowed _ w w' = Kept w.router w'.router

  -- Every step of a run is one that the lanes allow.
  abbrev pub AllAllowed : List (Step F) → Working F → Type 0
  AllAllowed [] w = Unit
  AllAllowed (s ∷ ss) w = Allowed s w (step s w) × AllAllowed ss (step s w)
