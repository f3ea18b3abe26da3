-- ===== src/Finance/Tracker/Consent.antt =====
-- agent/finance/tracker.py: no expense is spent without a human.
use agent_life_space.Prelude.{
  ℕ, String, Bool, true, ◌≡◌, refl, Option, none, some, List, [], ◌∷◌, arith, Dict, lookup, insert,
  values, All, subst, AllIn, AllIn-insert, AllIn-lookup, Bool-cases, inl, inr, ◌⊎◌,
}
use agent_life_space.Prelude.Float.{Float}
use agent_life_space.Prelude.Text.{is_blank}
use agent_life_space.Prelude.Result.{Result, ok, err}
use agent_life_space.Json.{Fields}
use agent_life_space.Finance.Transaction.Codec.{from_dict}
use agent_life_space.Approval.Queue
use agent_life_space.Finance.Clock.{Clock}
use agent_life_space.Finance.Transaction.{Transaction, is_expense, is_approved, is_completed}
use agent_life_space.Finance.Check.{is_spent}
use agent_life_space.Finance.Tracker.{
  Tracker, Expense, persist, store, change_found, approve, reject, complete, cancel, visit_aged,
  visit, stale_loop, check_stale_proposals, new, propose_expense, record_income, load_rows,
  initialize, close,
}
use agent_life_space.Finance.Tracker.Ops.{
  Op, propose_op, income_op, approve_op, reject_op, complete_op, stale_op, close_op, perform,
  perform_all,
}

module _ {E A : Type 0} where
  Result-cases : (r : Result E A) → ((e : E) × (r ≡ err e)) ⊎ ((a : A) × (r ≡ ok a))
  Result-cases (err e) = inl (e, refl)
  Result-cases (ok a) = inr (a, refl)

  abbrev as_ok : A → Result E A
  as_ok a = ok a

  ok_injective : {a b : A} → as_ok a ≡ as_ok b → a ≡ b
  ok_injective e = cc

module _ {F : Type 0} where
  -- The transaction is kept under its id, and an expense that counts as spent was approved by the
  -- human, at a known time.
  pub record IsConsented (k : String) (t : Transaction F) : Type 0 where
    pub at_its_id : t.id ≡ k
    pub by_human : is_spent t ≡ true → t.approved_by ≡ "human"

  abbrev pub AllConsented : Tracker F → Type 0
  AllConsented s = AllIn IsConsented s.transactions

  pub transactions-persist :
      (t : Transaction F) (s : Tracker F) → (persist t s).transactions ≡ s.transactions
  unfolding persist
  transactions-persist t s = ground arith

  store-AllConsented :
      (id : String) (t : Transaction F) (s : Tracker F)
      → IsConsented id t
      → AllConsented s
      → AllConsented (store id t s)
  unfolding store
  store-AllConsented id t s c h =
      rw transactions-persist (AllIn-insert IsConsented id t s.transactions c h)

  -- The change keeps the id, and whatever it makes of a transaction that passes the test has the
  -- consent that it needs.
  record KeepsConsent (test : Transaction F → Bool) (change : Transaction F → Transaction F)
      : Type 0 where
    keeps :
        (k : String) (t : Transaction F)
        → test t ≡ true
        → IsConsented k t
        → IsConsented k (change t)

  change_found-AllConsented :
      (id : String) (test : Transaction F → Bool) (change : Transaction F → Transaction F)
      → KeepsConsent test change
      → (o : Option (Transaction F)) (s : Tracker F) → lookup id s.transactions ≡ o
      → AllConsented s
      → AllConsented (change_found id test change o s).1
  unfolding change_found
  change_found-AllConsented id test change k none s e h = h
  change_found-AllConsented id test change k (some t) s e h = elim (Bool-cases (test t)) [
    | inl passes ↦ rw passes (
        store-AllConsented id (change t) s
          (k.keeps id t passes (AllIn-lookup IsConsented id t s.transactions h e)) h)
    | inr fails ↦ rw fails h
  ]

  approve-AllConsented :
      (clock : Clock) (id : String) (s : Tracker F)
      → AllConsented s
      → AllConsented (approve clock id s).1
  unfolding approve
  approve-AllConsented clock id s h =
      change_found-AllConsented id _ _
        (record { keeps = λ k t test c. record { at_its_id = c.at_its_id; by_human = λ _. refl } })
        _ s refl h

  reject-AllConsented :
      (id reason : String) (s : Tracker F) → AllConsented s → AllConsented (reject id reason s).1
  unfolding reject is_spent is_approved is_completed
  reject-AllConsented id reason s h =
      change_found-AllConsented id _ _
        (record {
          keeps =
              λ k t test c. record { at_its_id = c.at_its_id; by_human = λ spent. ground arith };
        })
        _ s refl h

  complete-AllConsented :
      (clock : Clock) (id : String) (s : Tracker F)
      → AllConsented s
      → AllConsented (complete clock id s).1
  unfolding complete is_spent
  complete-AllConsented clock id s h =
      change_found-AllConsented id _ _
        (record {
          keeps = λ k t test c. record {
            at_its_id = c.at_its_id;
            by_human = λ spent. c.by_human (ground arith);
          };
        })
        _ s refl h

  visit-IsConsented :
      (clock : Clock) (max_age : ℕ) (k : String) (t : Transaction F)
      → IsConsented k t
      → IsConsented k (visit clock max_age t).0
  unfolding visit visit_aged cancel is_spent is_approved is_completed
  visit-IsConsented clock max_age k t c = record {
    at_its_id = ground (arith, c.at_its_id);
    by_human = λ spent. ground (arith, c.by_human);
  }

  stale_loop-AllConsented :
      (clock : Clock) (max_age : ℕ) (txs : Dict (Transaction F)) (s : Tracker F)
      → AllIn IsConsented txs
      → AllIn IsConsented (stale_loop clock max_age txs s).0
  unfolding stale_loop
  stale_loop-AllConsented clock max_age [] s h = tt
  stale_loop-AllConsented clock max_age ((k, t) ∷ txs) s h =
      (visit-IsConsented clock max_age k t h.0, stale_loop-AllConsented clock max_age txs _ h.1)

  check_stale-AllConsented :
      (clock : Clock) (max_age : ℕ) (s : Tracker F)
      → AllConsented s
      → AllConsented (check_stale_proposals clock max_age s).1
  unfolding check_stale_proposals
  check_stale-AllConsented clock max_age s h =
      stale_loop-AllConsented clock max_age s.transactions s h

module _ (ops : Float) where
  open ops use {Num, lt, decimal}

  propose_expense-AllConsented :
      (id request_id : String) (clock : Clock) (e : Expense Num) (s : Tracker Num)
      → AllConsented s
      → AllConsented (propose_expense ops id request_id clock e s).1
  unfolding propose_expense is_spent is_expense is_approved is_completed
  propose_expense-AllConsented id request_id clock e s h =
      elim (Bool-cases (is_blank e.description)) [
        | inl blank ↦ rw blank h
        | inr text ↦ elim (Bool-cases (lt e.amount_usd (decimal 0 0))) [
          | inl negative ↦ rw (text, negative) h
          | inr fits ↦
              rw (text, fits)
                (AllIn-insert IsConsented id _ _
                  (record { at_its_id = refl; by_human = λ spent. absurd (cc) })
                  (store-AllConsented id _ s
                    (record { at_its_id = refl; by_human = λ spent. absurd (cc) }) h))
        ]
      ]

  record_income-AllConsented :
      (id : String) (clock : Clock) (amount : Num) (description category source : String)
      (s : Tracker Num)
      → AllConsented s
      → AllConsented (record_income ops id clock amount description category source s).1
  unfolding record_income is_spent is_expense
  record_income-AllConsented id clock amount description category source s h =
      elim (Bool-cases (lt amount (decimal 0 0))) [
        | inl negative ↦ rw negative h
        | inr fits ↦ rw fits (
            store-AllConsented id _ s (record { at_its_id = refl; by_human = λ spent. absurd (cc) })
              h)
      ]

  perform-AllConsented :
      (op : Op Num) (s : Tracker Num) → AllConsented s → AllConsented (perform ops op s)
  unfolding perform close
  perform-AllConsented (propose_op id request_id clock e) s h =
      propose_expense-AllConsented id request_id clock e s h
  perform-AllConsented (income_op id clock amount description category source) s h =
      record_income-AllConsented id clock amount description category source s h
  perform-AllConsented (approve_op clock id) s h = approve-AllConsented clock id s h
  perform-AllConsented (reject_op id reason) s h = reject-AllConsented id reason s h
  perform-AllConsented (complete_op clock id) s h = complete-AllConsented clock id s h
  perform-AllConsented (stale_op clock max_age) s h = check_stale-AllConsented clock max_age s h
  perform-AllConsented close_op s h = h

  perform_all-AllConsented :
      (calls : List (Op Num)) (s : Tracker Num)
      → AllConsented s
      → AllConsented (perform_all ops calls s)
  unfolding perform_all
  perform_all-AllConsented [] s h = h
  perform_all-AllConsented (op ∷ calls) s h =
      perform_all-AllConsented calls _ (perform-AllConsented op s h)

  new-transactions :
      (db_path : String) (daily monthly : Num) (queue : Option (Queue.Queue Num)) (s : Tracker Num)
      → new ops db_path daily monthly queue ≡ ok s
      → s.transactions ≡ []
  unfolding new
  new-transactions db_path daily monthly queue s e = ground arith

  -- A row whose expense counts as spent was approved by the human.
  abbrev pub HoldsConsent : Fields Num → Type 0
  HoldsConsent d =
      (t : Transaction Num) → from_dict d ≡ ok t → is_spent t ≡ true → t.approved_by ≡ "human"

  load_rows-IsConsented :
      (rows : List (Fields Num)) (txs loaded : Dict (Transaction Num))
      → All HoldsConsent rows
      → AllIn IsConsented txs
      → load_rows rows txs ≡ ok loaded
      → AllIn IsConsented loaded
  unfolding load_rows
  load_rows-IsConsented [] txs loaded rs h e = subst (AllIn IsConsented) (ok_injective e) h
  load_rows-IsConsented (d ∷ rows) txs loaded rs h e = elim (Result-cases (from_dict d)) [
    | inl (error, bad) ↦ absurd (cc (rw bad at e))
    | inr (t, good) ↦
        load_rows-IsConsented rows (insert t.id t txs) loaded rs.1
          (AllIn-insert IsConsented t.id t txs (record { at_its_id = refl; by_human = rs.0 t good })
            h)
          (rw good at e)
  ]

  initialize-AllConsented :
      (rows : Dict (Fields Num)) (s s' : Tracker Num)
      → All HoldsConsent (values rows)
      → AllConsented s
      → initialize rows s ≡ ok s'
      → AllConsented s'
  unfolding initialize
  initialize-AllConsented rows s s' rs h e =
      elim (Result-cases (load_rows (values rows) s.transactions)) [
        | inl (error, bad) ↦ absurd (cc (rw bad at e))
        | inr (txs, good) ↦
            let made : record s { transactions = txs; db = some rows } ≡ s' =
              ok_injective (rw good at e) in
            subst AllConsented made
              (load_rows-IsConsented (values rows) s.transactions txs rs h good)
      ]

  -- A tracker is made and initialized from a table, whose rows of spent expenses, if any, were
  -- approved by the human. Whatever other methods are called then, in any order, an expense that
  -- counts as spent, approved or completed, was approved by the human, and it stands under its id.
  pub perform_all-spent_by_human :
      (db_path : String) (daily monthly : Num) (queue : Option (Queue.Queue Num))
      (rows : Dict (Fields Num)) (made s : Tracker Num) (calls : List (Op Num)) (k : String)
      (t : Transaction Num)
      → new ops db_path daily monthly queue ≡ ok made
      → All HoldsConsent (values rows)
      → initialize rows made ≡ ok s
      → lookup k (perform_all ops calls s).transactions ≡ some t
      → is_spent t ≡ true
      → (t.approved_by ≡ "human") × (t.id ≡ k)
  perform_all-spent_by_human db_path daily monthly queue rows made s calls k t is_new held read
        there spent =
      let start : AllConsented made =
        rw (new-transactions db_path daily monthly queue made is_new) tt in
      let all =
        perform_all-AllConsented calls s (initialize-AllConsented rows made s held start read) in
      let c = AllIn-lookup IsConsented k t _ all there in (c.by_human spent, c.at_its_id)
