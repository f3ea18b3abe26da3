-- ===== src/Finance/Tracker/Ops.antt =====
-- agent/finance/tracker.py: calls of the methods that change the tracker, one after the other.
use agent_life_space.Prelude.{ℕ, String, List, [], ◌∷◌}
use agent_life_space.Prelude.Float.{Float}
use agent_life_space.Finance.Clock.{Clock}
use agent_life_space.Finance.Tracker.{
  Tracker, Expense, approve, reject, complete, check_stale_proposals, propose_expense,
  record_income, close,
}

pub data Op (F : Type 0) : Type 0 where
  propose_op : String → String → Clock → Expense F → Op F
  income_op : String → Clock → F → String → String → String → Op F
  approve_op : Clock → String → Op F
  reject_op : String → String → Op F
  complete_op : Clock → String → Op F
  stale_op : Clock → ℕ → Op F
  close_op : Op F

module _ (ops : Float) where
  open ops use {Num}

  unfoldable pub perform : Op Num → Tracker Num → Tracker Num
  perform (propose_op id request_id clock e) s = (propose_expense ops id request_id clock e s).1
  perform (income_op id clock amount description category source) s =
      (record_income ops id clock amount description category source s).1
  perform (approve_op clock id) s = (approve clock id s).1
  perform (reject_op id reason) s = (reject id reason s).1
  perform (complete_op clock id) s = (complete clock id s).1
  perform (stale_op clock max_age) s = (check_stale_proposals clock max_age s).1
  perform close_op s = close s

  unfoldable pub perform_all : List (Op Num) → Tracker Num → Tracker Num
  perform_all [] s = s
  perform_all (op ∷ rest) s = perform_all rest (perform op s)
