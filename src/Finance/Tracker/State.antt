-- ===== src/Finance/Tracker/State.antt =====
-- agent/finance/tracker.py: the state of FinanceTracker, the decisions of the human, and the
-- connection to the table.
use agent_life_space.Prelude.{
  String, Bool, Option, none, some, List, [], ◌∷◌, Dict, lookup, insert, if◌then◌else◌, values,
  filter,
}
use agent_life_space.Prelude.Result.{Result, ok, err, ◌>>=◌}
use agent_life_space.Json.{Fields, str, set_field, Decoded}
use agent_life_space.Approval.Queue
use agent_life_space.Finance.Clock.{Clock}
use agent_life_space.Finance.Transaction.{
  approved, rejected, completed, RiskLevel, Transaction, is_proposed, is_approved,
}
use agent_life_space.Finance.Transaction.Codec.{to_dict, from_dict}
use agent_life_space.Finance.Check.{Budgets}

-- The exceptions, without their texts: KeyError of `_get_tx`, and the ValueErrors.
pub data Error : Type 0 where
  empty_path negative_budget blank_description negative_amount : Error
  not_found_error wrong_status : String → Error

-- `db` is `None` before `initialize` and after `close`; a row is the dict that was dumped.
pub record Tracker (F : Type 0) : Type 0 where
  pub transactions : Dict (Transaction F)
  pub budgets : Budgets F
  pub db : Option (Dict (Fields F))
  pub approval_queue : Option (Queue.Queue F)

-- The arguments of `propose_expense`.
pub record Expense (F : Type 0) : Type 0 where
  pub amount_usd : F
  pub description : String
  pub category : String
  pub rationale : String
  pub source : String
  pub risk_level : RiskLevel

abbrev pub Answer : Type 0 → Type 0 → Type 0
Answer F A = Result Error A × Tracker F

module _ {F : Type 0} where
  -- `_persist`
  unfoldable pub persist : Transaction F → Tracker F → Tracker F
  persist t s = elim s.db [
    | none ↦ s
    | some rows ↦ record s { db = some (insert t.id (to_dict t) rows) }
  ]

  -- `self._transactions[id]` is, or becomes, the transaction, which is then persisted.
  unfoldable pub store : String → Transaction F → Tracker F → Tracker F
  unfolding persist
  store id t s = persist t (record s { transactions = insert id t s.transactions })

  -- The method body under the lock, on the transaction that `_get_tx` finds: `test` is the guard on
  -- its status and `change` the assignments.
  unfoldable pub change_found :
      String
      → (Transaction F → Bool)
      → (Transaction F → Transaction F)
      → Option (Transaction F)
      → Tracker F
      → Answer F (Transaction F)
  unfolding store
  change_found id test change none s = (err (not_found_error id), s)
  change_found id test change (some t) s =
      if test t then (ok (change t), store id (change t) s) else (err (wrong_status id), s)

  unfoldable pub approve : Clock → String → Tracker F → Answer F (Transaction F)
  unfolding change_found is_proposed
  approve clock id s =
      change_found id (λ t. is_proposed t.status)
        (λ t. record t { status = approved; approved_at = some clock.iso; approved_by = "human" })
        (lookup id s.transactions) s

  unfoldable pub reject : String → String → Tracker F → Answer F (Transaction F)
  unfolding change_found is_proposed
  reject id reason s =
      change_found id (λ t. is_proposed t.status)
        (λ t. record t {
          status = rejected;
          metadata = set_field "rejection_reason" (str reason) t.metadata;
        })
        (lookup id s.transactions) s

  unfoldable pub complete : Clock → String → Tracker F → Answer F (Transaction F)
  unfolding change_found is_approved
  complete clock id s =
      change_found id (λ t. is_approved t.status)
        (λ t. record t { status = completed; completed_at = some clock.iso })
        (lookup id s.transactions) s

  unfoldable pub get_pending_proposals : Tracker F → List (Transaction F)
  get_pending_proposals s =
      filter (λ (t : Transaction F). is_proposed t.status) (values s.transactions)

  -- The rows that `initialize` reads.
  unfoldable pub load_rows : List (Fields F) → Dict (Transaction F) → Decoded (Dict (Transaction F))
  load_rows [] txs = ok txs
  load_rows (d ∷ rows) txs = do t ← from_dict d; load_rows rows (insert t.id t txs)

  -- `initialize` of a tracker that is not connected, with the table that the file holds.
  unfoldable pub initialize : Dict (Fields F) → Tracker F → Decoded (Tracker F)
  unfolding load_rows
  initialize rows s = do
    txs ← load_rows (values rows) s.transactions
    ok (record s { transactions = txs; db = some rows })

  unfoldable pub close : Tracker F → Tracker F
  close s = record s { db = none }
