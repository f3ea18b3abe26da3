-- ===== src/Finance/Tracker/Lifecycle.antt =====
-- agent/finance/tracker.py: the decisions on one transaction, one after the other, and what they
-- do to the sums of the budget.
use agent_life_space.Prelude.{
  String, Bool, true, false, ◌≡◌, refl, Option, none, some, arith, lookup, insert,
  lookup-insert_self, Bool-cases, inl, inr,
}
use agent_life_space.Prelude.Result.{Result, ok, err}
use agent_life_space.Json.{str, set_field}
use agent_life_space.Finance.Clock.{Clock}
use agent_life_space.Finance.Transaction.{
  Transaction, approved, rejected, completed, is_proposed, is_approved,
}
use agent_life_space.Finance.Tracker.{
  Error, wrong_status, Tracker, store, change_found, approve, reject, complete,
}
use agent_life_space.Finance.Tracker.Consent.{transactions-persist}

module _ {F : Type 0} where
  pub transactions-store :
      (id : String) (t : Transaction F) (s : Tracker F)
      → (store id t s).transactions ≡ insert id t s.transactions
  unfolding store
  transactions-store id t s =
      transactions-persist t (record s { transactions = insert id t s.transactions })

  -- What a change that succeeded has found and left.
  record Changed (id : String) (test : Transaction F → Bool)
      (change : Transaction F → Transaction F) (before : Tracker F) (t : Transaction F)
      (after : Tracker F) : Type 0 where
    old : Transaction F
    was : lookup id before.transactions ≡ some old
    passed : test old ≡ true
    result : t ≡ change old
    now_there : lookup id after.transactions ≡ some t
    stored : after.transactions ≡ insert id t before.transactions

  change_found-Changed :
      (id : String) (test : Transaction F → Bool) (change : Transaction F → Transaction F)
      (o : Option (Transaction F)) (s : Tracker F) (t : Transaction F)
      → lookup id s.transactions ≡ o
      → (change_found id test change o s).0 ≡ ok t
      → Changed id test change s t (change_found id test change o s).1
  unfolding change_found
  change_found-Changed id test change none s t e h = absurd (cc)
  change_found-Changed id test change (some old) s t e h = elim (Bool-cases (test old)) [
    | inl passes ↦
        let made : t ≡ change old = ground arith in
        record {
          old = old;
          was = e;
          passed = passes;
          result = made;
          now_there =
              rw (passes, made)
                (rw transactions-store (lookup-insert_self id (change old) s.transactions));
          stored = rw (passes, made) (transactions-store id (change old) s);
        }
    | inr fails ↦ absurd (ground arith)
  ]

  -- A change is refused, and changes nothing, where the test fails.
  refused :
      (id : String) (test : Transaction F → Bool) (change : Transaction F → Transaction F)
      (s : Tracker F) (t : Transaction F)
      → lookup id s.transactions ≡ some t
      → test t ≡ false
      → change_found id test change (lookup id s.transactions) s ≡ (err (wrong_status id), s)
  refused id test change s t e fails = rw e (unfold change_found in rw fails)

  approve-Changed :
      (clock : Clock) (id : String) (s : Tracker F) (t : Transaction F)
      → (approve clock id s).0 ≡ ok t
      → Changed id
          (λ t. is_proposed t.status)
          (λ t. record t { status = approved; approved_at = some clock.iso; approved_by = "human" })
          s
          t
          (approve clock id s).1
  unfolding approve
  approve-Changed clock id s t h = change_found-Changed id _ _ _ s t refl h

  reject-Changed :
      (id reason : String) (s : Tracker F) (t : Transaction F)
      → (reject id reason s).0 ≡ ok t
      → Changed id
          (λ t. is_proposed t.status)
          (λ t. record t {
            status = rejected;
            metadata = set_field "rejection_reason" (str reason) t.metadata;
          })
          s
          t
          (reject id reason s).1
  unfolding reject
  reject-Changed id reason s t h = change_found-Changed id _ _ _ s t refl h

  complete-Changed :
      (clock : Clock) (id : String) (s : Tracker F) (t : Transaction F)
      → (complete clock id s).0 ≡ ok t
      → Changed id
          (λ t. is_approved t.status)
          (λ t. record t { status = completed; completed_at = some clock.iso })
          s
          t
          (complete clock id s).1
  unfolding complete
  complete-Changed clock id s t h = change_found-Changed id _ _ _ s t refl h

  complete_approved :
      (clock : Clock) (id : String) (s : Tracker F) (t : Transaction F)
      → lookup id s.transactions ≡ some t
      → is_approved t.status ≡ true
      → (complete clock id s).0
        ≡ ok (record t { status = completed; completed_at = some clock.iso })
  unfolding complete
  complete_approved clock id s t e passes = rw e (unfold change_found in rw passes)

  -- After a success of `approve` a second `approve` and a
  -- `reject` raise and change nothing, whoever makes them, while `complete` succeeds; after that
  -- all three raise.
  decided_once :
      (clock later : Clock) (id reason : String) (s : Tracker F) (t : Transaction F)
      → (approve clock id s).0 ≡ ok t
      → let s' = (approve clock id s).1 in
        let s'' = (complete later id s').1 in
        let refusal : Result Error (Transaction F) = err (wrong_status id) in
        (approve later id s' ≡ (refusal, s'))
        × (reject id reason s' ≡ (refusal, s'))
        × ((complete later id s').0
            ≡ ok (record t { status = completed; completed_at = some later.iso }))
        × (approve later id s'' ≡ (refusal, s''))
        × (reject id reason s'' ≡ (refusal, s''))
        × (complete later id s'' ≡ (refusal, s''))
  unfolding is_proposed is_approved
  decided_once clock later id reason s t h =
      let c = approve-Changed clock id s t h in
      let s' = (approve clock id s).1 in
      let there = c.now_there in
      let decided : is_proposed t.status ≡ false = rw c.result in
      let done = record t { status = completed; completed_at = some later.iso } in
      let completes : (complete later id s').0 ≡ ok done =
        complete_approved later id s' t there (rw c.result) in
      let s'' = (complete later id s').1 in
      let there' = (complete-Changed later id s' done completes).now_there in
      (
        unfold approve in refused id _ _ s' t there decided,
        unfold reject in refused id _ _ s' t there decided,
        completes,
        unfold approve in refused id _ _ s'' done there' refl,
        unfold reject in refused id _ _ s'' done there' refl,
        unfold complete in refused id _ _ s'' done there' refl,
      )
