-- ===== src/Approval/Queue/Execution.antt =====
-- agent/core/approval.py: `mark_executed` uses up one approval for each success.
use agent_life_space.Prelude.{
  min, ℕ, suc, ◌+◌, String, Bool, true, false, ◌≡◌, ◌≢◌, refl, Option, none, some, List, [], ◌∷◌,
  arith, ◌==◌, eq_of_==, if◌then◌else◌, Bool-cases, inl, inr,
}
use agent_life_space.Approval.Request.{Request}
use agent_life_space.Approval.Queue.{
  Queue, persist, is_executable, as_executed, execute_first, persist_found, mark_executed,
}

-- A success counted as one.
abbrev pub success_count : Bool → ℕ
success_count true = 1
success_count false = 0

module _ {F : Type 0} where
  -- How many approvals of the id are in the history and not yet executed.
  unfoldable pub consents : String → List (Request F) → ℕ
  consents id [] = 0
  consents id (r ∷ h) = if is_executable id r then suc (consents id h) else consents id h

  abbrev found_count : Option (Request F) → ℕ
  found_count none = 0
  found_count (some r) = 1

  executed_now :
      (now : ℕ) (j : String) (r : Request F) → is_executable j (as_executed now r) ≡ false
  unfolding is_executable
  executed_now now j r = ground arith

  is_executable_ne :
      (id j : String) (r : Request F)
      → id ≢ j
      → is_executable id r ≡ true
      → is_executable j r ≡ false
  unfolding is_executable
  is_executable_ne id j r ne h = elim (Bool-cases (r.id == j)) [
    | inl same ↦ absurd (ne (cc (eq_of_== r.id id (ground arith), eq_of_== r.id j same)))
    | inr other ↦ rw other
  ]

  consents-execute_first :
      (now : ℕ) (id : String) (h : List (Request F))
      → consents id (execute_first now id h).0 + found_count (execute_first now id h).1
        ≡ consents id h
  unfolding consents execute_first
  consents-execute_first now id [] = omega arith
  consents-execute_first now id (r ∷ h) =
      ground (arith, consents-execute_first now id h, executed_now now id r)

  consents-execute_first_ne :
      (now : ℕ) (id j : String) (h : List (Request F))
      → id ≢ j
      → consents j (execute_first now id h).0 ≡ consents j h
  unfolding consents execute_first
  consents-execute_first_ne now id j [] ne = refl
  consents-execute_first_ne now id j (r ∷ h) ne = ground (
    arith,
    consents-execute_first_ne now id j h ne,
    executed_now now j r,
    is_executable_ne id j r ne,
  )

  found-execute_first :
      (now : ℕ) (id : String) (h : List (Request F))
      → found_count (execute_first now id h).1 ≡ min 1 (consents id h)
  unfolding consents execute_first
  found-execute_first now id [] = omega arith
  found-execute_first now id (r ∷ h) = ground (arith, found-execute_first now id h)

  persist_found_frame :
      (o : Option (Request F)) (q : Queue F)
      → ((persist_found o q).0.history ≡ q.history)
        × (success_count (persist_found o q).1 ≡ found_count o)
        × ((persist_found o q).0.waiting ≡ q.waiting)
  unfolding persist
  persist_found_frame none q = (refl, refl, refl)
  persist_found_frame (some r) q = ground arith

  -- `mark_executed` succeeds exactly where its id has an approval that is not yet executed, a
  -- success uses up exactly one of these and none of another id, and what waits stays as it was.
  pub mark_executed-consents :
      (now : ℕ) (id j : String) (q : Queue F)
      → id ≢ j
      → let (q', done) = mark_executed now id q in
        (success_count done ≡ min 1 (consents id q.history))
        × (consents id q'.history + success_count done ≡ consents id q.history)
        × (consents j q'.history ≡ consents j q.history)
        × (q'.waiting ≡ q.waiting)
  unfolding mark_executed
  mark_executed-consents now id j q ne =
      let (h, found) = execute_first now id q.history in
      let after = record q { history = h } in
      let (kept, counted, waits) = persist_found_frame found after in
      (
        rw counted (found-execute_first now id q.history),
        rw (kept, counted) (consents-execute_first now id q.history),
        rw kept (consents-execute_first_ne now id j q.history ne),
        waits,
      )
