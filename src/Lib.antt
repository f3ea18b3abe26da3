-- ===== src/Lib.antt =====
-- Agent Life Space: the parts of the runtime that decide about other actions and keep state over
-- time. An action that is sensitive becomes a request of the approval queue, money goes through
-- the finance tracker, which asks the budget policy and the approval queue, work is ordered by the
-- task manager, and jobs are run, retried and given up by the job runner. The watchdog restarts
-- modules that have gone silent. Projects group tasks, and read their progress from the task
-- manager. A tool that the language model asks for goes through the tool executor, which asks the
-- operator controls and the tool policy, and the approval queue where the policy says so. Work is
-- done in workspaces, each with an audit trail, and an API call that is answered with 402 Payment
-- Required becomes a settlement, which the operator approves before the wallet is topped up. Modules
-- send each other messages through the router, by priority, with retries and dead letters.
--
-- The files and the code, with paths from the repository's root:
--   Approval/Request, Approval/Queue, Approval/Query   agent/core/approval.py
--   Approval/Storage                                   agent/core/approval_storage.py
--   Finance/Transaction, Finance/Check, Finance/Tracker   agent/finance/tracker.py
--   Finance/Clock          what the tracker asks of `datetime` at one instant
--   Finance/Budget         agent/finance/budget_policy.py
--   Finance/Templates      agent/finance/risk_templates.py
--   Control/Denials        agent/control/denials.py
--   Tasks/Task, Tasks/Manager   agent/tasks/manager.py
--   Jobs                   agent/core/job_runner.py
--   Watchdog               agent/core/watchdog.py
--   Projects               agent/projects/manager.py
--   Tools/Capabilities, Tools/Policy   agent/core/tool_policy.py
--   Tools/Operator         agent/core/operator.py
--   Tools/Actions          agent/core/action.py
--   Tools/Status           agent/core/status.py
--   Tools/Calls, Tools/Refusals, Tools/Executor   agent/core/tool_executor.py
--   Workspaces             agent/work/workspace.py
--   Settlement/Record, Settlement/Denial, Settlement/Service   agent/control/settlement.py
--   Routing                agent/core/messages.py, agent/core/router.py
--   Settlement/Storage     the settlement table of agent/control/storage.py
--   Json                   the dictionaries that these dump into their tables and read back
--   Prelude                Python's lists, dictionaries, sorting, texts and floats
--   Examples               concrete runs
-- A class is a record with its fields: ApprovalQueue is Approval.Queue.Queue, FinanceTracker is
-- Finance.Tracker.State.Tracker, TaskManager is Tasks.Manager.Manager, ToolExecutor is
-- Tools.Calls.Executor, WorkspaceManager is Workspaces.Manager.Manager and
-- PaymentSettlementService is Settlement.Service.Service. A method is the function of
-- its name, without a leading underscore. It takes the state and returns the new one with its
-- result, or with the exception that it raises as a value of an Error type; the texts of the
-- exceptions are left out. An object that a method changes in place stands in one dictionary or
-- list only, so that the new value is put back there.
--
-- What the code draws from outside is an argument: ids of `uuid`, and the clock, which a method is
-- taken to read once. Instants of the approval queue are whole seconds; texts of instants are kept
-- as texts. Except for the job runner, the tool executor, the settlements and the router, the
-- coroutines are taken one after the other: a method runs to its end before the next one starts.
-- The coroutines of the job runner interleave: a step takes one of them from its await to the next.
-- `execute` of the tool executor and `execute_topup` of the settlements are in two parts, before
-- and after the await of the handler or of the gateway, between which other calls run, and a round
-- of the router's loop is cut at the handler and at the pause before a retry, and its `send`
-- before the row is written. An SQLite table is a
-- dictionary from the primary key to the row, and a commit does not fail. Floats are a type with
-- the operations that the code uses, so that the theorems hold of any rounding; a theorem that
-- needs a law of the order names it as a hypothesis.
--
-- Every loop of these parts runs over a list, so that recursion on the list ends it and no fuel is
-- needed; the attempts of a job are steps, and Jobs/Runner/Exhaustion counts them. The loops over
-- a dictionary that the body changes run over the keys as the code copied them, or over the
-- entries in place where the body keeps the keys.
--
-- Not modelled: log lines, the opening and closing of database files, get_stats of the approval
-- storage, of the tracker and of the watchdog, the loop of the watchdog, the byte encoding of
-- messages, export_audit_trail, the handlers of the tools, whose outcome is an argument,
-- check_wallet_balance, what the call does that _retry_original of the settlements sends again
-- (that it is sent is noted), the flag of the tracker and of the router's loop that they run
-- already, what a coroutine of the job runner does after a StopIteration beyond its next sleep, the
-- making of directories, and the parts of the repository besides these: the interfaces, the LLM
-- access, the build and review services, the control plane, the memory.
mod Prelude
pub mod Json
pub mod Control
pub mod Approval
pub mod Finance
pub mod Tasks
pub mod Jobs
pub mod Projects
pub mod Watchdog
pub mod Tools
pub mod Workspaces
pub mod Settlement
pub mod Routing
pub mod Examples
