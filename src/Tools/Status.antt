-- ===== src/Tools/Status.antt =====
-- agent/core/status.py: the class AgentStatusModel. `time.time()` is an argument. Log lines are
-- left out.
use agent_life_space.Prelude.{
  ℕ, ◌-◌, String, Bool, true, false, List, [], ◌∷◌, ◌++◌, elem, newest, push_bounded, if◌then◌else◌,
  ◌==◌, ◌&&◌, map,
}
use agent_life_space.Prelude.Text.{concat}

pub data AgentState : Type 0 where
  idle thinking executing waiting_approval blocked degraded maintenance : AgentState

unfoldable pub state_value : AgentState → String
state_value idle = "idle"
state_value thinking = "thinking"
state_value executing = "executing"
state_value waiting_approval = "waiting_approval"
state_value blocked = "blocked"
state_value degraded = "degraded"
state_value maintenance = "maintenance"

unfoldable pub same_state : AgentState → AgentState → Bool
same_state idle idle = true
same_state thinking thinking = true
same_state executing executing = true
same_state waiting_approval waiting_approval = true
same_state blocked blocked = true
same_state degraded degraded = true
same_state maintenance maintenance = true
same_state _ _ = false

pub record StateTransition : Type 0 where
  pub from_state : AgentState
  pub to_state : AgentState
  pub reason : String
  pub timestamp : ℕ

pub record AgentStatusModel : Type 0 where
  pub state : AgentState
  pub state_since : ℕ
  pub state_reason : String
  pub history : List StateTransition
  pub max_history : ℕ
  pub blocked_reason : String
  pub degraded_modules : List String

unfoldable pub new : ℕ → ℕ → AgentStatusModel
new max_history now = record {
  state = idle;
  state_since = now;
  state_reason = "initialized";
  history = [];
  max_history = max_history;
  blocked_reason = "";
  degraded_modules = [];
}

-- The blocked reason after a change to the state.
abbrev blocked_reason_in : AgentState → String → String → String
blocked_reason_in blocked reason old = reason
blocked_reason_in degraded reason old = old
blocked_reason_in _ reason old = ""

unfoldable pub transition : AgentState → String → ℕ → AgentStatusModel → AgentStatusModel
unfolding same_state push_bounded
transition to reason now s =
    let t : StateTransition = record {
      from_state = s.state;
      to_state = to;
      reason = reason;
      timestamp = now;
    } in
    if same_state to s.state then s else record s {
      state = to;
      state_since = now;
      state_reason = reason;
      history = push_bounded s.max_history t s.history;
      blocked_reason = blocked_reason_in to reason s.blocked_reason;
    }

-- `reason or default`
abbrev or_text : String → String → String
or_text reason default = if reason == "" then default else reason

unfoldable pub mark_degraded : String → String → ℕ → AgentStatusModel → AgentStatusModel
unfolding transition elem concat
mark_degraded m reason now s =
    let listed = record s {
      degraded_modules =
          if elem m s.degraded_modules then s.degraded_modules else s.degraded_modules ++ m ∷ [];
    } in
    if same_state listed.state degraded
    then listed
    else transition degraded (or_text reason (concat ("Module " ∷ m ∷ " degraded" ∷ []))) now listed

-- `list.remove` of a value that is there.
unfoldable pub remove_first : String → List String → List String
remove_first m [] = []
remove_first m (x ∷ xs) = if x == m then xs else x ∷ remove_first m xs

abbrev is_empty : List String → Bool
is_empty [] = true
is_empty (x ∷ xs) = false

unfoldable pub clear_degraded : String → ℕ → AgentStatusModel → AgentStatusModel
unfolding transition remove_first concat same_state
clear_degraded m now s =
    let cleared = record s { degraded_modules = remove_first m s.degraded_modules } in
    if is_empty cleared.degraded_modules && same_state cleared.state degraded
    then transition idle (concat ("Module " ∷ m ∷ " recovered" ∷ [])) now cleared
    else cleared

-- The dict of `get_status`, with the duration in whole seconds.
pub record AgentStatus : Type 0 where
  pub state : String
  pub state_since : ℕ
  pub state_duration_s : ℕ
  pub reason : String
  pub blocked_reason : String
  pub degraded_modules : List String

unfoldable pub get_status : ℕ → AgentStatusModel → AgentStatus
unfolding state_value
get_status now s = record {
  state = state_value s.state;
  state_since = s.state_since;
  state_duration_s = now - s.state_since;
  reason = s.state_reason;
  blocked_reason = s.blocked_reason;
  degraded_modules = s.degraded_modules;
}

-- One dict of `get_history`.
pub record HistoryEntry : Type 0 where
  pub from : String
  pub to : String
  pub reason : String
  pub timestamp : ℕ

abbrev history_entry : StateTransition → HistoryEntry
unfolding state_value
history_entry t = record {
  from = state_value t.from_state;
  to = state_value t.to_state;
  reason = t.reason;
  timestamp = t.timestamp;
}

unfoldable pub get_history : ℕ → AgentStatusModel → List HistoryEntry
unfolding newest state_value
get_history limit s = map history_entry (newest limit s.history)
