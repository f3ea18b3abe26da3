-- ===== src/Tools/Executor/Sessions.antt =====
-- agent/core/tool_executor.py and agent/core/operator.py: calls of `execute` that overlap, between
-- toggles of the operator. A call waits for its handler from `begin` to `finish`.
use agent_life_space.Prelude.{
  ℕ, String, Option, none, some, List, [], ◌∷◌, ◌++◌, All, All-append, inl, inr, Option-cases,
}
use agent_life_space.Prelude.Waiting.{take_out, FoundAll, take_out-All}
use agent_life_space.Tools.Policy.{ToolPolicyDecision}
use agent_life_space.Tools.Operator.{Controls, disable, enable, lockdown, unlock}
use agent_life_space.Tools.Actions.{ActionEnvelope}
use agent_life_space.Tools.Calls.{Executor, Outcome, ToolCall}
use agent_life_space.Tools.Executor.{begin, finish}
use agent_life_space.Tools.Executor.Safety.{
  IsAuthorized, MayUse, begin-KeepsAuthorized, finish-IsAuthorized, running_of,
}

pub record Session (F : Type 0) : Type 0 where
  pub executor : Executor F
  pub running : List (ActionEnvelope F × ToolPolicyDecision)

-- A new call, the end of a handler of the nth call that waits, or a toggle of the operator.
pub data Op (F : Type 0) : Type 0 where
  call : ToolCall F → Op F
  outcome : ℕ → Outcome F → ℕ → Op F
  disabling : String → String → String → ℕ → Op F
  enabling : String → String → String → ℕ → Op F
  locking : String → String → ℕ → Op F
  unlocking : String → String → ℕ → Op F

module _ {F : Type 0} where
  abbrev toggle : (Controls → Controls) → Executor F → Executor F
  toggle f x = elim x.operator [ none ↦ x | some c ↦ record x { operator = some (f c) } ]

  unfoldable pub resume :
      Option
        ((ActionEnvelope F × ToolPolicyDecision) × List (ActionEnvelope F × ToolPolicyDecision))
      → Outcome F
      → ℕ
      → Session F
      → Session F
  unfolding finish
  resume none o now s = s
  resume (some ((a, d), rest)) o now s = record {
    executor = (finish a d o now s.executor).0;
    running = rest;
  }

  unfoldable pub perform : Op F → Session F → Session F
  unfolding begin resume take_out disable enable lockdown unlock
  perform (call c) s =
      let (x, p) = begin c s.executor in
      record { executor = x; running = s.running ++ running_of p }
  perform (outcome n o now) s = resume (take_out n s.running) o now s
  perform (disabling tool reason by now) s = record s {
    executor = toggle (disable tool reason by now) s.executor;
  }
  perform (enabling tool reason by now) s = record s {
    executor = toggle (enable tool reason by now) s.executor;
  }
  perform (locking reason by now) s = record s {
    executor = toggle (lockdown reason by now) s.executor;
  }
  perform (unlocking reason by now) s = record s {
    executor = toggle (unlock reason by now) s.executor;
  }

  unfoldable pub perform_all : List (Op F) → Session F → Session F
  unfolding perform
  perform_all [] s = s
  perform_all (o ∷ os) s = perform_all os (perform o s)

  -- The log and the calls that wait for their handlers.
  abbrev pub IsSafe : Session F → Type 0
  IsSafe s = All IsAuthorized s.executor.action_log.entries × All (λ e. MayUse e.0) s.running

  toggle-IsSafe :
      (f : Controls → Controls) (s : Session F)
      → IsSafe s
      → IsSafe (record s { executor = toggle f s.executor })
  toggle-IsSafe f s h = elim (Option-cases s.executor.operator) [
    | inl e ↦ rw e h
    | inr (c, e) ↦ rw e h
  ]

  resume-IsSafe :
      (o : Option
        ((ActionEnvelope F × ToolPolicyDecision) × List (ActionEnvelope F × ToolPolicyDecision)))
      (out : Outcome F) (now : ℕ) (s : Session F)
      → FoundAll (λ e. MayUse e.0) o
      → IsSafe s
      → IsSafe (resume o out now s)
  unfolding resume
  resume-IsSafe none out now s f h = h
  resume-IsSafe (some ((a, d), rest)) out now s f h =
      (finish-IsAuthorized a d out now s.executor f.0 h.0, f.1)

  perform-IsSafe : (o : Op F) (s : Session F) → IsSafe s → IsSafe (perform o s)
  unfolding perform
  perform-IsSafe (call c) s h =
      let k = begin-KeepsAuthorized c s.executor h.0 in
      (k.0, All-append (λ e. MayUse e.0) s.running (running_of (begin c s.executor).1) h.1 k.1)
  perform-IsSafe (outcome n out now) s h =
      resume-IsSafe (take_out n s.running) out now s
        (take_out-All (λ e. MayUse e.0) n s.running h.1) h
  perform-IsSafe (disabling tool reason by now) s h = toggle-IsSafe (disable tool reason by now) s h
  perform-IsSafe (enabling tool reason by now) s h = toggle-IsSafe (enable tool reason by now) s h
  perform-IsSafe (locking reason by now) s h = toggle-IsSafe (lockdown reason by now) s h
  perform-IsSafe (unlocking reason by now) s h = toggle-IsSafe (unlock reason by now) s h

  -- However calls of the executor overlap, and whatever the operator toggles in between: where it
  -- holds at the start, it holds at the end that each logged action that is executing, completed or
  -- failed, and each call that waits for its handler, has a tool of the table that its context may
  -- use (not on a restricted channel or in safe mode where the tool is blocked there, and by the
  -- owner where it is the owner's only).
  pub perform_all-IsSafe : (os : List (Op F)) (s : Session F) → IsSafe s → IsSafe (perform_all os s)
  unfolding perform_all
  perform_all-IsSafe [] s h = h
  perform_all-IsSafe (o ∷ os) s h = perform_all-IsSafe os (perform o s) (perform-IsSafe o s h)
