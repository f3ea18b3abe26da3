-- ===== src/Tools.antt =====
-- The tools that a language model may call: `Capabilities` and `Policy` are
-- agent/core/tool_policy.py, `Operator` is agent/core/operator.py, `Actions` is
-- agent/core/action.py, `Status` is agent/core/status.py, and `Calls`, `Refusals` and `Executor`
-- are the pipeline of agent/core/tool_executor.py, which composes them with the approval queue.
pub mod Capabilities
pub mod Policy
pub mod Operator
pub mod Actions
pub mod Status
pub mod Calls
pub mod Refusals
pub mod Executor
