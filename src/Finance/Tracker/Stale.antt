-- ===== src/Finance/Tracker/Stale.antt =====
-- agent/finance/tracker.py: `check_stale_proposals`.
use agent_life_space.Prelude.{
  ℕ, String, true, none, some, List, [], ◌∷◌, ◌++◌, Dict, leb, if◌then◌else◌,
}
use agent_life_space.Prelude.Text.{concat, show_nat}
use agent_life_space.Json.{str, bool, set_field}
use agent_life_space.Finance.Clock.{Clock}
use agent_life_space.Finance.Transaction.{cancelled, Transaction, is_proposed}
use agent_life_space.Finance.Tracker.State.{Tracker, persist}

-- An entry of the list that `check_stale_proposals` returns.
pub data StaleAction : Type 0 where
  auto_cancelled escalation warning : StaleAction

pub record Stale (F : Type 0) : Type 0 where
  pub id : String
  pub description : String
  pub amount : F
  pub age_days : ℕ
  pub action : StaleAction

module _ {F : Type 0} where
  abbrev stale_entry : Transaction F → ℕ → StaleAction → Stale F
  stale_entry t age action = record {
    id = t.id;
    description = t.description;
    amount = t.amount_usd;
    age_days = age;
    action = action;
  }

  unfoldable pub cancel : ℕ → Transaction F → Transaction F
  cancel age t = record t {
    status = cancelled;
    metadata =
        set_field "cancel_reason"
          (str (concat ("Stale proposal (" ∷ show_nat age ∷ " dní bez odpovede)" ∷ [])))
          (set_field "auto_cancelled" (bool true) t.metadata);
  }

  -- The body of the loop of `check_stale_proposals` for a proposal of a known age: the transaction
  -- as it leaves it, and what it appends to the answer.
  unfoldable pub visit_aged : ℕ → ℕ → Transaction F → Transaction F × List (Stale F)
  unfolding cancel
  visit_aged max_age age t =
      if leb 14 age
      then (cancel age t, stale_entry t age auto_cancelled ∷ [])
      else if leb max_age age
      then (t, stale_entry t age escalation ∷ [])
      else if leb 3 age
      then (t, stale_entry t age warning ∷ [])
      else (t, [])

  -- With the two `continue`s: what is not proposed, and an instant that cannot be read.
  unfoldable pub visit : Clock → ℕ → Transaction F → Transaction F × List (Stale F)
  unfolding visit_aged is_proposed
  visit clock max_age t =
      if is_proposed t.status
      then elim (clock.age_days t.created_at) [
        | none ↦ (t, [])
        | some age ↦ visit_aged max_age age t
      ]
      else (t, [])

  -- `self._persist` is called for a cancelled transaction only.
  abbrev pub persist_cancelled : List (Stale F) → Transaction F → Tracker F → Tracker F
  persist_cancelled [] t s = s
  persist_cancelled (e ∷ _) t s = elim e.action [
    | auto_cancelled ↦ persist t s
    | escalation ↦ s
    | warning ↦ s
  ]

  -- The loop over the transactions, which are updated in place.
  unfoldable pub stale_loop :
      Clock
      → ℕ
      → Dict (Transaction F)
      → Tracker F
      → Dict (Transaction F) × Tracker F × List (Stale F)
  unfolding visit persist
  stale_loop clock max_age [] s = ([], s, [])
  stale_loop clock max_age ((id, t) ∷ txs) s =
      let (t', said) = visit clock max_age t in
      let (txs', s', rest) = stale_loop clock max_age txs (persist_cancelled said t' s) in
      ((id, t') ∷ txs', s', said ++ rest)

  unfoldable pub check_stale_proposals : Clock → ℕ → Tracker F → List (Stale F) × Tracker F
  unfolding stale_loop
  check_stale_proposals clock max_age s =
      let (txs, s', stale) = stale_loop clock max_age s.transactions s in
      (stale, record s' { transactions = txs })
