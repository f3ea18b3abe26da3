-- ===== src/Finance/Tracker/Decisions.antt =====
-- agent/finance/tracker.py: how often a transaction is decided.
use agent_life_space.Prelude.{
  ℕ, ◌+◌, ◌≤◌, String, false, ◌≡◌, refl, Option, none, some, List, [], ◌∷◌, arith, lookup,
  lookup-insert, subst, All, ◌==◌, eq_of_==, if◌then◌else◌, Bool-cases, inl, inr,
}
use agent_life_space.Prelude.Float.{Float}
use agent_life_space.Prelude.Text.{is_blank}
use agent_life_space.Prelude.Result.{Result, ok, err}
use agent_life_space.Finance.Clock.{Clock}
use agent_life_space.Finance.Transaction.{Transaction, completed, is_proposed, is_approved}
use agent_life_space.Finance.Tracker.{
  Tracker, Error, change_found, approve, reject, complete, close, propose_expense, record_income,
  Expense, store,
}
use agent_life_space.Finance.Tracker.Ops.{
  Op, propose_op, income_op, approve_op, reject_op, complete_op, stale_op, close_op, perform,
}
use agent_life_space.Finance.Tracker.Lifecycle.{transactions-store}
use agent_life_space.Finance.Tracker.Staleness.{aged_entry, lookup-check_stale_proposals}

module _ {F : Type 0} where
  -- 1 for an answer, and 0 for an exception.
  abbrev pub answers : Result Error (Transaction F) → ℕ
  answers (ok t) = 1
  answers (err e) = 0

  -- How many decisions a transaction is still open to.
  abbrev open_of : Option (Transaction F) → ℕ
  open_of none = 0
  open_of (some t) = if is_proposed t.status then 1 else 0

  abbrev open_at : String → Tracker F → ℕ
  open_at k s = open_of (lookup k s.transactions)

  -- No new transaction gets the id.
  abbrev pub IsNotMade : String → Op F → Type 0
  IsNotMade k (propose_op id request_id clock e) = (id == k) ≡ false
  IsNotMade k (income_op id clock amount description category source) = (id == k) ≡ false
  IsNotMade k _ = Unit

  closes :
      (k id : String) (t : Transaction F) (s : Tracker F)
      → is_proposed t.status ≡ false
      → open_at k (store id t s) ≡ (if id == k then 0 else open_at k s)
  closes k id t s h =
      rw (transactions-store id t s) (rw (lookup-insert id k t s.transactions) (ground (arith, h)))

  decide_found :
      (k id : String) (change : Transaction F → Transaction F) (o : Option (Transaction F))
      (s : Tracker F)
      → ((t : Transaction F) → is_proposed (change t).status ≡ false)
      → lookup id s.transactions ≡ o
      → let r = change_found id (λ t. is_proposed t.status) change o s in
        (if id == k then answers r.0 else 0) + open_at k r.1 ≤ open_at k s
  unfolding change_found
  decide_found k id change none s c e = ground arith
  decide_found k id change (some t) s c e = elim (Bool-cases (is_proposed t.status)) [
    | inr decided ↦ rw decided (ground arith)
    | inl proposed ↦ rw proposed (elim (Bool-cases (id == k)) [
      | inr other ↦ rw (closes k id (change t) s (c t)) (rw other (omega arith))
      | inl same ↦
          let at_k : lookup k s.transactions ≡ some t =
            subst (λ i. lookup i s.transactions ≡ some t) (eq_of_== id k same) e in
          rw (closes k id (change t) s (c t)) (rw same (rw at_k (rw proposed (omega arith))))
    ])
  ]

  complete-open :
      (k : String) (clock : Clock) (id : String) (s : Tracker F)
      → open_at k (complete clock id s).1 ≤ open_at k s
  unfolding complete change_found is_proposed
  complete-open k clock id s = complete_found (lookup id s.transactions)
    where
      complete_found :
          (o : Option (Transaction F))
          → open_at k
              (change_found id
                (λ t. is_approved t.status)
                (λ t. record t { status = completed; completed_at = some clock.iso })
                o
                s).1
            ≤ open_at k s
      complete_found none = omega arith
      complete_found (some t) = elim (Bool-cases (is_approved t.status)) [
        | inr other ↦ rw other (omega arith)
        | inl passes ↦
            let done = record t { status = completed; completed_at = some clock.iso } in
            rw passes (rw (closes k id done s refl) (ground arith))
      ]

  aged-open :
      (clock : Clock) (o : Option (Transaction F)) → open_of (aged_entry clock o) ≤ open_of o
  unfolding is_proposed
  aged-open clock none = omega arith
  aged-open clock (some t) = elim (Bool-cases (is_proposed t.status)) [
    | inl pending ↦ ground arith
    | inr decided ↦ ground arith
  ]

module _ (ops : Float) where
  open ops use {Num, lt, decimal}

  -- Whether the call is a decision on the id that succeeds.
  abbrev pub decision : String → Op Num → Tracker Num → ℕ
  decision k (approve_op clock id) s = if id == k then answers (approve clock id s).0 else 0
  decision k (reject_op id reason) s = if id == k then answers (reject id reason s).0 else 0
  decision k _ s = 0

  abbrev pub decisions : String → List (Op Num) → Tracker Num → ℕ
  decisions k [] s = 0
  decisions k (op ∷ calls) s = decision k op s + decisions k calls (perform ops op s)

  propose-open :
      (k id request_id : String) (clock : Clock) (e : Expense Num) (s : Tracker Num)
      → (id == k) ≡ false
      → open_at k (propose_expense ops id request_id clock e s).1 ≡ open_at k s
  unfolding propose_expense
  propose-open k id request_id clock e s other = elim (Bool-cases (is_blank e.description)) [
    | inl blank ↦ rw blank refl
    | inr text ↦ elim (Bool-cases (lt e.amount_usd (decimal 0 0))) [
      | inl negative ↦ rw (text, negative) refl
      | inr fits ↦
          rw (text, fits)
            (rw (lookup-insert id k)
              (rw other (rw transactions-store (rw (lookup-insert id k) (rw other refl)))))
    ]
  ]

  income-open :
      (k id : String) (clock : Clock) (amount : Num) (description category source : String)
      (s : Tracker Num)
      → (id == k) ≡ false
      → open_at k (record_income ops id clock amount description category source s).1 ≡ open_at k s
  unfolding record_income
  income-open k id clock amount description category source s other =
      elim (Bool-cases (lt amount (decimal 0 0))) [
        | inl negative ↦ rw negative refl
        | inr fits ↦ rw fits (rw transactions-store (rw (lookup-insert id k) (rw other refl)))
      ]

  perform-open :
      (k : String) (op : Op Num) (s : Tracker Num)
      → IsNotMade k op
      → decision k op s + open_at k (perform ops op s) ≤ open_at k s
  unfolding perform close approve reject is_proposed
  perform-open k (propose_op id request_id clock e) s n =
      omega (arith, propose-open k id request_id clock e s n)
  perform-open k (income_op id clock amount description category source) s n =
      omega (arith, income-open k id clock amount description category source s n)
  perform-open k (approve_op clock id) s n =
      decide_found k id _ (lookup id s.transactions) s (λ t. refl) refl
  perform-open k (reject_op id reason) s n =
      decide_found k id _ (lookup id s.transactions) s (λ t. refl) refl
  perform-open k (complete_op clock id) s n = omega (arith, complete-open k clock id s)
  perform-open k (stale_op clock max_age) s n =
      rw (lookup-check_stale_proposals clock max_age k s)
        (omega (arith, aged-open clock (lookup k s.transactions)))
  perform-open k close_op s n = omega arith

  decisions-open :
      (k : String) (calls : List (Op Num)) (s : Tracker Num)
      → All (IsNotMade k) calls
      → decisions k calls s ≤ open_at k s
  decisions-open k [] s n = omega arith
  decisions-open k (op ∷ calls) s n =
      omega (arith, perform-open k op s n.0, decisions-open k calls (perform ops op s) n.1)

  open_of-le : (o : Option (Transaction Num)) → open_of o ≤ 1
  open_of-le none = omega arith
  open_of-le (some t) = ground arith

  -- A transaction is decided at most once. On any tracker and over any calls of its methods after
  -- `initialize`, of which none makes a new transaction of the id: at most one call of `approve` or
  -- `reject` for the id succeeds.
  pub decisions-once :
      (k : String) (calls : List (Op Num)) (s : Tracker Num)
      → All (IsNotMade k) calls
      → decisions k calls s ≤ 1
  decisions-once k calls s n =
      omega (arith, decisions-open k calls s n, open_of-le (lookup k s.transactions))
