-- ===== src/Finance/Tracker/Spending.antt =====
-- agent/finance/tracker.py: which methods change the sums that the budget is checked against.
use agent_life_space.Prelude.{
  ℕ, String, Bool, true, false, ◌≡◌, refl, Option, none, some, [], ◌∷◌, arith, Dict, lookup, select,
  select-insert_same, select-insert_new, lookup-insert_self, Bool-cases, inl, inr, ◌&&◌, ◌∙◌, ap,
}
use text.Mathlib.Text.{starts_with}
use agent_life_space.Prelude.Float.{Float}
use agent_life_space.Prelude.Text.{is_blank}
use agent_life_space.Finance.Clock.{Clock}
use agent_life_space.Finance.Transaction.{
  Transaction, is_expense, is_proposed, is_approved, is_completed,
}
use agent_life_space.Finance.Check.{is_spent, spent_in}
use agent_life_space.Finance.Tracker.{
  Tracker, Expense, change_found, reject, complete, cancel, visit_aged, visit, persist_cancelled,
  stale_loop, check_stale_proposals, propose_expense, record_income,
}
use agent_life_space.Finance.Tracker.Lifecycle.{transactions-store}

module _ {F A : Type 0} (count : Transaction F → Bool) (f : Transaction F → A) where
  -- A guarded change that the selection does not see.
  select-change_found :
      (id : String) (test : Transaction F → Bool) (change : Transaction F → Transaction F)
      → ((t : Transaction F) → test t ≡ true → count (change t) ≡ count t)
      → ((t : Transaction F) → f (change t) ≡ f t)
      → (o : Option (Transaction F)) (s : Tracker F) → lookup id s.transactions ≡ o
      → select count f (change_found id test change o s).1.transactions
        ≡ select count f s.transactions
  unfolding change_found
  select-change_found id test change same amount none s e = refl
  select-change_found id test change same amount (some t) s e = elim (Bool-cases (test t)) [
    | inl passes ↦ rw passes (
        rw transactions-store (
          select-insert_same count f id (change t) t s.transactions e (same t passes)
            (λ _. amount t)))
    | inr fails ↦ rw fails
  ]

  select-stale_loop :
      (clock : Clock) (max_age : ℕ)
      → ((t : Transaction F) → count (visit clock max_age t).0 ≡ count t)
      → ((t : Transaction F) → f (visit clock max_age t).0 ≡ f t)
      → (txs : Dict (Transaction F)) (s : Tracker F)
      → select count f (stale_loop clock max_age txs s).0 ≡ select count f txs
  unfolding stale_loop
  select-stale_loop clock max_age same amount [] s = refl
  select-stale_loop clock max_age same amount ((k, t) ∷ txs) s =
      let (t', said) = visit clock max_age t in
      ground (
        arith,
        same t,
        amount t,
        select-stale_loop clock max_age same amount txs (persist_cancelled said t' s),
      )

module _ (ops : Float) (prefix : String) where
  open ops use {Num, lt, decimal}

  abbrev counted : Transaction Num → Bool
  counted t = is_spent t && starts_with t.created_at prefix

  abbrev amount_of : Transaction Num → Num
  amount_of t = t.amount_usd

  rejected_same : (t : Transaction Num) → is_proposed t.status ≡ true → is_spent t ≡ false
  unfolding is_spent is_approved is_completed is_proposed
  rejected_same t h = ground arith

  visit_same :
      (clock : Clock) (max_age : ℕ) (t : Transaction Num)
      → (counted (visit clock max_age t).0 ≡ counted t)
        × ((visit clock max_age t).0.amount_usd ≡ t.amount_usd)
  unfolding visit visit_aged cancel is_spent is_approved is_completed
  visit_same clock max_age t = (ground arith, ground arith)

  abbrev pub spent : Tracker Num → Num
  spent s = spent_in ops prefix s.transactions

  spent-reject : (id reason : String) (s : Tracker Num) → spent (reject id reason s).1 ≡ spent s
  unfolding spent_in reject is_spent is_approved is_completed is_proposed
  spent-reject id reason s =
      ap ops.sum
        (select-change_found counted amount_of id _ _ (λ t h. ground arith) (λ t. refl) _ s refl)

  spent-complete :
      (id : String) (clock : Clock) (s : Tracker Num) → spent (complete clock id s).1 ≡ spent s
  unfolding spent_in complete is_spent is_approved is_completed
  spent-complete id clock s =
      ap ops.sum
        (select-change_found counted amount_of id _ _ (λ t h. ground arith) (λ t. refl) _ s refl)

  spent-check_stale :
      (clock : Clock) (max_age : ℕ) (s : Tracker Num)
      → spent (check_stale_proposals clock max_age s).1 ≡ spent s
  unfolding spent_in check_stale_proposals
  spent-check_stale clock max_age s = ap ops.sum (
      select-stale_loop counted amount_of clock max_age (λ t. (visit_same clock max_age t).0)
        (λ t. (visit_same clock max_age t).1) s.transactions s)

  spent-propose_expense :
      (id request_id : String) (clock : Clock) (e : Expense Num) (s : Tracker Num)
      → lookup id s.transactions ≡ none
      → spent (propose_expense ops id request_id clock e s).1 ≡ spent s
  unfolding spent_in propose_expense is_spent is_expense is_approved is_completed
  spent-propose_expense id request_id clock e s new = elim (Bool-cases (is_blank e.description)) [
    | inl blank ↦ rw blank
    | inr text ↦ elim (Bool-cases (lt e.amount_usd (decimal 0 0))) [
      | inl negative ↦ rw (text, negative)
      | inr fits ↦
          rw (text, fits)
            (ap ops.sum (
              rw transactions-store (
                select-insert_same counted amount_of id _ _ _
                  (lookup-insert_self id _ s.transactions) refl (λ _. refl)
                ∙ select-insert_new counted amount_of id _ s.transactions new refl)))
    ]
  ]

  spent-record_income :
      (id : String) (clock : Clock) (amount : Num) (description category source : String)
      (s : Tracker Num)
      → lookup id s.transactions ≡ none
      → spent (record_income ops id clock amount description category source s).1 ≡ spent s
  unfolding spent_in record_income is_spent is_expense
  spent-record_income id clock amount description category source s new =
      elim (Bool-cases (lt amount (decimal 0 0))) [
        | inl negative ↦ rw negative
        | inr fits ↦ rw fits (
            ap ops.sum (
              rw transactions-store
                (select-insert_new counted amount_of id _ s.transactions new refl)))
      ]

-- In any period a proposal or an income under a new id, a rejection, a
-- completion and the check for stale proposals leave the sum that the budget is checked against as
-- it was, whether they succeed or raise.
pub spent_in-frame :
    (ops : Float) (prefix id request_id reason : String) (clock : Clock) (e : Expense ops.Num)
    (max_age : ℕ) (s : Tracker ops.Num)
    → lookup id s.transactions ≡ none
    → (spent ops prefix (propose_expense ops id request_id clock e s).1 ≡ spent ops prefix s)
      × (spent ops prefix
            (record_income ops id clock e.amount_usd e.description e.category e.source s).1
          ≡ spent ops prefix s)
      × ((old : String) → spent ops prefix (reject old reason s).1 ≡ spent ops prefix s)
      × ((old : String) → spent ops prefix (complete clock old s).1 ≡ spent ops prefix s)
      × (spent ops prefix (check_stale_proposals clock max_age s).1 ≡ spent ops prefix s)
spent_in-frame ops prefix id request_id reason clock e max_age s new = (
  spent-propose_expense ops prefix id request_id clock e s new,
  spent-record_income ops prefix id clock e.amount_usd e.description e.category e.source s new,
  λ old. spent-reject ops prefix old reason s,
  λ old. spent-complete ops prefix old clock s,
  spent-check_stale ops prefix clock max_age s,
)
