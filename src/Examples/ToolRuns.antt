-- ===== src/Examples/ToolRuns.antt =====
-- agent/core/tool_policy.py, agent/core/operator.py and agent/core/tool_executor.py: a stranger in a
-- public channel, an owner, and a lockdown.
use agent_life_space.Prelude.{
  ℕ, ◌+◌, String, true, false, Option, none, some, List, [], ◌∷◌, ◌≡◌, refl, elem, ◌||◌, ◌==◌,
}
use agent_life_space.Json.{end, field, str}
use agent_life_space.Tools.Capabilities.{tool_capabilities}
use agent_life_space.Tools.Policy.{ToolExecutionContext, or_default, evaluate, simulate}
use agent_life_space.Tools.Policy
use agent_life_space.Tools.Policy.Simulation.{Agrees, simulate-evaluate}
use agent_life_space.Tools.Operator.{Controls, disable, is_disabled, lockdown, unlock}
use agent_life_space.Tools.Operator
use agent_life_space.Tools.Operator.Lockdown.{outside_names, is_disabled-lockdown}
use agent_life_space.Tools.Calls.{Executor, ToolCall, answered, is_operator_disabled}
use agent_life_space.Tools.Executor.{begin}
use agent_life_space.Tools.Executor.Sessions.{
  Op, call, outcome, locking, unlocking, perform_all, IsSafe, perform_all-IsSafe,
}
use agent_life_space.Tools.Executor.Lockdown.{
  is_started, starts_trusted, begin-starts_trusted, begin-lockdown,
}

abbrev public_channel : ToolExecutionContext
public_channel = record { is_owner = false; safe_mode = false; channel_type = "public" }

simulate-evaluate_example :
    Agrees ℕ
      (simulate "run_code" (some public_channel))
      (evaluate "run_code" (some public_channel) 5 Policy.new).1
simulate-evaluate_example = simulate-evaluate ℕ "run_code" (some public_channel) 5 Policy.new

abbrev without_tests : Controls
without_tests = disable "run_tests" "flaky" "owner" 3 Operator.new

is_disabled-lockdown_example :
    (is_disabled "web_fetch" (lockdown "incident" "owner" 10 without_tests) ≡ (
      elem "web_fetch" (outside_names tool_capabilities) || is_disabled "web_fetch" without_tests))
    × (is_disabled "web_fetch"
          (unlock "over" "owner" 20 (lockdown "incident" "owner" 10 without_tests))
        ≡ false)
is_disabled-lockdown_example =
    is_disabled-lockdown "incident" "owner" 10 "over" "owner" 20 "web_fetch" without_tests

abbrev idle : Option Controls → Executor ℕ
idle controls = record {
  policy = Policy.new;
  operator = controls;
  action_log = record { entries = []; max_entries = 2000 };
  approvals = none;
  status = none;
  call_count = 0;
  error_count = 0;
  blocked_count = 0;
}

abbrev fetch : String → Option ToolExecutionContext → ToolCall ℕ
fetch id context = record {
  tool_name = "web_fetch";
  tool_input = field "url" (str "https://example.org") end;
  context = context;
  action_id = id;
  request_id = "r1";
  now = 100;
}

-- The owner's call starts before the lockdown and ends within it; the other two are refused.
abbrev busy : List (Op ℕ)
busy =
    call (fetch "a1" none)
    ∷ call (fetch "a2" (some public_channel))
    ∷ locking "incident" "owner" 105
    ∷ call (fetch "a3" none)
    ∷ outcome 0 (answered end) 110
    ∷ unlocking "over" "owner" 120
    ∷ []

perform_all-IsSafe_example :
    IsSafe (perform_all busy (record { executor = idle (some Operator.new); running = [] }))
perform_all-IsSafe_example =
    perform_all-IsSafe busy (record { executor = idle (some Operator.new); running = [] }) (tt, tt)

begin-starts_trusted_example :
    starts_trusted
      (or_default none)
      (is_operator_disabled "web_fetch" (some without_tests))
      (begin (fetch "a1" none) (idle (some without_tests))).1
    ≡ true
begin-starts_trusted_example = begin-starts_trusted (fetch "a1" none) (idle (some without_tests))

abbrev locked : Executor ℕ
locked = idle (some (lockdown "incident" "owner" 105 Operator.new))

begin-lockdown_example :
    (is_started (begin (fetch "a3" none) locked).1 ≡ false)
    × ((begin (fetch "a3" none) locked).0.blocked_count ≡ 0 + 1)
    × ((begin (fetch "a3" none) locked).0.call_count ≡ 0)
    × ((begin (fetch "a3" none) locked).0.policy ≡ Policy.new)
unfolding tool_capabilities elem ◌==◌
begin-lockdown_example =
    begin-lockdown (fetch "a3" none) "incident" "owner" 105 Operator.new locked refl refl
