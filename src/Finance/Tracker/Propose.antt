-- ===== src/Finance/Tracker/Propose.antt =====
-- agent/finance/tracker.py: the constructor, `propose_expense` and `record_income`.
use agent_life_space.Prelude.{
  ℕ, String, Option, none, some, [], ◌∷◌, insert, ◌==◌, ◌||◌, if◌then◌else◌,
}
use agent_life_space.Prelude.Result.{Result, ok, err}
use agent_life_space.Prelude.Text.{concat, is_blank}
use agent_life_space.Prelude.Float.{Float, min_float}
use agent_life_space.Json.{Fields, end, field, float, str, bool, obj, set_field}
use agent_life_space.Approval.Request
use agent_life_space.Approval.Queue
use agent_life_space.Finance.Clock.{Clock}
use agent_life_space.Finance.Budget.{check}
use agent_life_space.Finance.Templates.{TemplateCheck, not_found, validate_against_template}
use agent_life_space.Finance.Transaction.{income, expense, proposed, completed, low, Transaction}
use agent_life_space.Finance.Transaction.Codec.{risk_value}
use agent_life_space.Finance.Check.{Budgets, BudgetCheck, check_budget}
use agent_life_space.Finance.Check.Dicts.{result_dict, budget_dict, template_dict}
use agent_life_space.Finance.Tracker.State.{
  Error, empty_path, negative_budget, blank_description, negative_amount, Tracker, Expense, Answer,
  store,
}

module _ {F : Type 0} where
  -- The proposal that `propose_expense` puts into the approval queue.
  abbrev queue_up : String → ℕ → Queue.Proposal F → Option (Queue.Queue F) → Option (Queue.Queue F)
  queue_up id now p none = none
  queue_up id now p (some q) = some (Queue.propose id now p q).0

module _ (ops : Float) where
  open ops use {Num, decimal, mul, lt, show2}

  -- `__init__`, with the limits of its budget policy.
  unfoldable pub new : String → Num → Num → Option (Queue.Queue Num) → Result Error (Tracker Num)
  new db_path daily monthly queue =
      if db_path == ""
      then err empty_path
      else if lt daily (decimal 0 0) || lt monthly (decimal 0 0)
      then err negative_budget
      else ok (record {
        transactions = [];
        budgets = record {
          daily_budget = daily;
          monthly_budget = monthly;
          limits = record {
            daily_hard_cap = daily;
            daily_soft_cap = min_float ops (decimal 300 1) daily;
            daily_stop_loss_buffer = min_float ops (decimal 50 1) (mul daily (decimal 1 1));
            monthly_hard_cap = monthly;
            monthly_soft_cap = min_float ops (decimal 3000 1) monthly;
            monthly_stop_loss_buffer = min_float ops (decimal 500 1) (mul monthly (decimal 1 1));
            single_tx_approval_cap = min_float ops (decimal 200 1) daily;
          };
        };
        db = none;
        approval_queue = queue;
      })

  -- The proposal as it is stored and persisted first.
  unfoldable pub first_draft : String → Clock → Expense Num → BudgetCheck Num → Transaction Num
  first_draft id clock e budget = record {
    id = id;
    type = expense;
    status = proposed;
    amount_usd = e.amount_usd;
    currency = "USD";
    description = e.description;
    category = e.category;
    risk_level = e.risk_level;
    rationale = e.rationale;
    source = e.source;
    created_at = clock.iso;
    approved_at = none;
    completed_at = none;
    approved_by = "";
    metadata = field "budget_check" (obj (budget_dict budget)) end;
  }

  -- `tx.metadata["risk_template"]`, set where the category is not empty and has a template.
  abbrev with_template : TemplateCheck → Fields Num → Fields Num
  with_template not_found m = m
  with_template c m = set_field "risk_template" (obj (template_dict c)) m

  -- The entries that the metadata gets afterwards. The policy sees the rounded sums.
  unfoldable pub annotate :
      Budgets Num → Expense Num → BudgetCheck Num → Transaction Num → Transaction Num
  annotate b e budget t =
      let policy = check ops b.limits e.amount_usd budget.daily_spent budget.monthly_spent in
      let m = set_field "budget_policy" (obj (result_dict policy)) t.metadata in
      record t {
        metadata =
            if e.category == ""
            then m
            else with_template (validate_against_template ops e.category e.amount_usd) m;
      }

  proposal_for : String → Expense Num → BudgetCheck Num → Queue.Proposal Num
  proposal_for id e budget = record {
    category = Request.finance;
    description = concat ("$" ∷ show2 e.amount_usd ∷ " — " ∷ e.description ∷ []);
    risk_level = risk_value e.risk_level;
    reason =
        if e.rationale == ""
        then concat ("Expense proposal: " ∷ e.description ∷ [])
        else e.rationale;
    proposed_by = "agent";
    context = field "transaction_id" (str id) (
        field "amount_usd" (float e.amount_usd) (
          field "category" (str e.category)
            (field "within_budget" (bool budget.within_budget) end)));
    ttl_seconds = 3600;
    required_approvals = 1;
  }

  -- `request_id` is the id that the approval queue draws.
  unfoldable pub propose_expense :
      String → String → Clock → Expense Num → Tracker Num → Answer Num (Transaction Num)
  unfolding first_draft annotate proposal_for store
  propose_expense id request_id clock e s =
      if is_blank e.description
      then (err blank_description, s)
      else if lt e.amount_usd (decimal 0 0)
      then (err negative_amount, s)
      else let budget = check_budget ops clock s.budgets e.amount_usd s.transactions in
        let draft = first_draft id clock e budget in
        let stored = store id draft s in
        let final = annotate s.budgets e budget draft in
        (
          ok final,
          record stored {
            transactions = insert id final stored.transactions;
            approval_queue =
                queue_up request_id clock.seconds (proposal_for id e budget) stored.approval_queue;
          },
        )

  unfoldable pub record_income :
      String → Clock → Num → String → String → String → Tracker Num → Answer Num (Transaction Num)
  unfolding store
  record_income id clock amount description category source s =
      if lt amount (decimal 0 0)
      then (err negative_amount, s)
      else let t : Transaction Num = record {
        id = id;
        type = income;
        status = completed;
        amount_usd = amount;
        currency = "USD";
        description = description;
        category = category;
        risk_level = low;
        rationale = "";
        source = source;
        created_at = clock.iso;
        approved_at = none;
        completed_at = some clock.iso;
        approved_by = "";
        metadata = end;
      } in
        (ok t, store id t s)
