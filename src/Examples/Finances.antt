-- ===== src/Examples/Finances.antt =====
-- agent/finance: one expense from its proposal to its completion, in cents.
use agent_life_space.Prelude.{
  ℕ, ◌+◌, ◌≤◌, String, true, ◌≡◌, refl, none, some, List, [], ◌∷◌, arith, Dict, lookup, insert,
  ◌==◌, ltb→lt, leb→le,
}
use agent_life_space.Prelude.Text.{is_blank}
use agent_life_space.Json.{end}
use agent_life_space.Finance.Budget.{Limits, CheckResult, check}
use agent_life_space.Finance.Budget.Caps.{IsMonotone, check_mono}
use agent_life_space.Finance.Check.{BudgetCheck, check_budget, is_spent}
use agent_life_space.Finance.Transaction.{
  Transaction, expense, proposed, approved, low, is_expense, is_proposed, is_approved, is_completed,
}
use agent_life_space.Finance.Tracker.{
  Tracker, Expense, approve, reject, complete, check_stale_proposals, new, propose_expense,
  record_income, first_draft, annotate, initialize, load_rows,
}
use agent_life_space.Finance.Tracker.Ops.{
  Op, propose_op, approve_op, reject_op, complete_op, perform, perform_all,
}
use agent_life_space.Finance.Tracker.Consent.{perform_all-spent_by_human}
use agent_life_space.Finance.Tracker.Decisions.{decisions, decisions-once}
use agent_life_space.Finance.Tracker.Spending.{spent, spent_in-frame}
use agent_life_space.Finance.Tracker.Staleness.{stale_cancelled, lookup-check_stale_proposals}
use agent_life_space.Finance.Tracker.Durability.{IsHalfStored, propose_expense-IsHalfStored}
use agent_life_space.Examples.Data.{cents, noon}

abbrev caps : Limits ℕ
caps = record {
  daily_hard_cap = 5000;
  daily_soft_cap = 3000;
  daily_stop_loss_buffer = 500;
  monthly_hard_cap = 50000;
  monthly_soft_cap = 30000;
  monthly_stop_loss_buffer = 5000;
  single_tx_approval_cap = 2000;
}

abbrev hosting : Transaction ℕ
hosting = record {
  id = "t1";
  type = expense;
  status = proposed;
  amount_usd = 1200;
  currency = "USD";
  description = "hosting";
  category = "";
  risk_level = low;
  rationale = "";
  source = "";
  created_at = "2026-03-01T12:00:00+00:00";
  approved_at = none;
  completed_at = none;
  approved_by = "";
  metadata = end;
}

abbrev paid : Transaction ℕ
paid = record hosting {
  status = approved;
  approved_at = some "2026-03-01T12:00:00+00:00";
  approved_by = "human";
}

abbrev request : Expense ℕ
request = record {
  amount_usd = 1200;
  description = "hosting";
  category = "";
  rationale = "";
  source = "";
  risk_level = low;
}

abbrev holding : Dict (Transaction ℕ) → Tracker ℕ
holding txs = record {
  transactions = txs;
  budgets = record { daily_budget = 5000; monthly_budget = 50000; limits = caps };
  db = some [];
  approval_queue = none;
}

abbrev one : Tracker ℕ
one = holding (("t1", hosting) ∷ [])

abbrev disputed : List (Op ℕ)
disputed =
    propose_op "t2" "a1" noon request
    ∷ reject_op "t1" "too dear"
    ∷ approve_op noon "t1"
    ∷ complete_op noon "t1"
    ∷ approve_op noon "t2"
    ∷ []

decisions-once_example : decisions cents "t1" disputed one ≤ 1
unfolding ◌==◌
decisions-once_example = decisions-once cents "t1" disputed one (refl, (tt, (tt, (tt, (tt, tt)))))

spent_in-frame_example :
    (spent cents "2026-03" (propose_expense cents "t2" "a1" noon request one).1
      ≡ spent cents "2026-03" one)
    × (spent cents "2026-03" (record_income cents "t2" noon 1200 "hosting" "" "" one).1
        ≡ spent cents "2026-03" one)
    × ((old : String) → spent cents "2026-03" (reject old "no" one).1 ≡ spent cents "2026-03" one)
    × ((old : String) → spent cents "2026-03" (complete noon old one).1 ≡ spent cents "2026-03" one)
    × (spent cents "2026-03" (check_stale_proposals noon 7 one).1 ≡ spent cents "2026-03" one)
unfolding lookup ◌==◌
spent_in-frame_example = spent_in-frame cents "2026-03" "t2" "a1" "no" noon request 7 one refl

lookup-check_stale_proposals_example :
    lookup "t1" (check_stale_proposals noon 7 one).1.transactions
    ≡ some (stale_cancelled 20 hosting)
unfolding lookup is_proposed ◌==◌
lookup-check_stale_proposals_example = lookup-check_stale_proposals noon 7 "t1" one

abbrev verdict : CheckResult ℕ
verdict = check cents caps 1200 2000 2000

cents-IsMonotone : IsMonotone cents
unfolding IsMonotone
cents-IsMonotone top s a b small over = ground (arith, ltb→lt top (s + a), leb→le a b)

check_mono_example : (check cents caps 1100 2000 2000).allowed ≡ true
check_mono_example =
    check_mono cents cents-IsMonotone caps 1100 1200 2000 2000 refl (unfold check in refl)

abbrev checked : BudgetCheck ℕ
checked = check_budget cents noon one.budgets 1200 one.transactions

abbrev answered : Transaction ℕ
answered = annotate cents one.budgets request checked (first_draft cents "t2" noon request checked)

propose_expense-IsHalfStored_example :
    IsHalfStored cents "t2" answered (propose_expense cents "t2" "a1" noon request one).1
unfolding propose_expense is_blank
propose_expense-IsHalfStored_example =
    propose_expense-IsHalfStored cents "t2" "a1" noon request one [] answered refl refl

abbrev made : Tracker ℕ
made = record (holding []) { db = none }

abbrev started : Tracker ℕ
started = record made { db = some [] }

abbrev calls : List (Op ℕ)
calls = propose_op "t1" "a1" noon request ∷ approve_op noon "t1" ∷ []

abbrev spent_one : Transaction ℕ
spent_one = record paid { metadata = answered.metadata }

perform_all-spent_by_human_example : (spent_one.approved_by ≡ "human") × (spent_one.id ≡ "t1")
unfolding initialize load_rows perform perform_all propose_expense approve new is_spent lookup
    insert is_blank is_proposed ◌==◌ check_budget is_expense check is_approved is_completed
perform_all-spent_by_human_example =
    perform_all-spent_by_human cents "f.db" 5000 50000 none [] made started calls "t1" spent_one
      refl tt refl refl refl
