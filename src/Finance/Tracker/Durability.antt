-- ===== src/Finance/Tracker/Durability.antt =====
-- agent/finance/tracker.py: the row of a proposal, and the proposal in memory.
use agent_life_space.Prelude.{
  String, ◌≡◌, refl, Option, none, some, arith, Dict, lookup, lookup-insert_self, ◌==◌, Bool-cases,
  inl, inr,
}
use agent_life_space.Prelude.Float.{Float}
use agent_life_space.Prelude.Text.{is_blank}
use agent_life_space.Prelude.Result.{ok}
use agent_life_space.Json.{Json, Fields, obj, get_field, set_field}
use agent_life_space.Finance.Clock.{Clock}
use agent_life_space.Finance.Transaction.{Transaction}
use agent_life_space.Finance.Transaction.Codec.{to_dict}
use agent_life_space.Finance.Budget.{check}
use agent_life_space.Finance.Check.{Budgets, BudgetCheck, check_budget}
use agent_life_space.Finance.Check.Dicts.{result_dict}
use agent_life_space.Finance.Tracker.{
  Tracker, Expense, persist, store, first_draft, annotate, propose_expense,
}

-- The row of an id in the table, where the tracker is connected.
abbrev pub row : {F : Type 0} → String → Tracker F → Option (Fields F)
row id s = elim s.db [ none ↦ none | some rows ↦ lookup id rows ]

module _ (ops : Float) where
  open ops use {Num, lt, decimal}

  -- What a connected tracker holds of a new proposal: the transaction that was returned, with the
  -- verdict of the budget policy, in memory, and the row of a draft without that verdict.
  pub record IsHalfStored (id : String) (t : Transaction Num) (s : Tracker Num) : Type 0 where
    pub in_memory : lookup id s.transactions ≡ some t
    pub draft : Transaction Num
    pub in_table : row id s ≡ some (to_dict draft)
    pub verdict : Json Num
    pub memory_has_it : get_field "budget_policy" t.metadata ≡ some verdict
    pub table_lacks_it : get_field "budget_policy" draft.metadata ≡ none

  module _ (id : String) (clock : Clock) (e : Expense Num) (b : Budgets Num)
      (c : BudgetCheck Num) where
    draft_lacks : get_field "budget_policy" (first_draft ops id clock e c).metadata ≡ none
    unfolding first_draft get_field ◌==◌
    draft_lacks = refl

    abbrev verdict_of : Json Num
    verdict_of = obj (result_dict (check ops b.limits e.amount_usd c.daily_spent c.monthly_spent))

    final_has :
        get_field "budget_policy" (annotate ops b e c (first_draft ops id clock e c)).metadata
        ≡ some verdict_of
    unfolding annotate first_draft get_field set_field ◌==◌
    final_has = elim (Bool-cases (e.category == "")) [
      | inl plain ↦ rw plain
      | inr kind ↦ rw kind (ground arith)
    ]

  stored_row :
      (t : Transaction Num) (s : Tracker Num) (rows : Dict (Fields Num))
      → s.db ≡ some rows
      → row t.id (store t.id t s) ≡ some (to_dict t)
  unfolding store persist
  stored_row t s rows connected = rw connected (lookup-insert_self t.id (to_dict t) rows)

  -- `propose_expense` persists the proposal before it adds the verdict of the budget policy to the
  -- metadata, and not again afterwards: whenever it succeeds on a connected tracker, the table
  -- lacks the verdict.
  pub propose_expense-IsHalfStored :
      (id request_id : String) (clock : Clock) (e : Expense Num) (s : Tracker Num)
      (rows : Dict (Fields Num)) (t : Transaction Num)
      → s.db ≡ some rows
      → (propose_expense ops id request_id clock e s).0 ≡ ok t
      → IsHalfStored id t (propose_expense ops id request_id clock e s).1
  unfolding propose_expense
  propose_expense-IsHalfStored id request_id clock e s rows t connected h =
      elim (Bool-cases (is_blank e.description)) [
        | inl blank ↦ absurd (ground arith)
        | inr text ↦ elim (Bool-cases (lt e.amount_usd (decimal 0 0))) [
          | inl negative ↦ absurd (ground arith)
          | inr fits ↦
              let c = check_budget ops clock s.budgets e.amount_usd s.transactions in
              let draft = first_draft ops id clock e c in
              let made : t ≡ annotate ops s.budgets e c draft = ground arith in
              rw (text, fits, made)
                (record {
                  in_memory = lookup-insert_self id _ _;
                  draft = draft;
                  in_table = unfold first_draft in stored_row draft s rows connected;
                  verdict = verdict_of id clock e s.budgets c;
                  memory_has_it = final_has id clock e s.budgets c;
                  table_lacks_it = draft_lacks id clock e s.budgets c;
                })
        ]
      ]
