-- ===== src/Approval/Queue/Quorum.antt =====
-- agent/core/approval.py: how `approve` counts the approvers of one request.
use agent_life_space.Prelude.{
  ℕ, ◌+◌, ◌≤◌, ◌<◌, String, true, false, ◌≡◌, refl, Option, none, some, List, [], ◌∷◌, ◌++◌, arith,
  length, length-append, AllIn-lookup, lookup, lookup-insert_self, lookup-erase_self, elem,
  Distinct, All, elem-append, eq_of_==, ==_refl, ap, ◌∙◌,
}
use mathlib.Core.List.{append_assoc}
use agent_life_space.Approval.Request.{
  partially_approved, approved, Request, is_waiting, is_expired, is_fully_approved,
}
use agent_life_space.Approval.Queue.{
  Queue, persist, archive, record_approval, grant, approve_found, approve,
}
use agent_life_space.Approval.Queue.Invariant.{IsValid, IsWaiting}

module _ {F : Type 0} where
  pub waiting-persist : (r : Request F) (q : Queue F) → (persist r q).waiting ≡ q.waiting
  unfolding persist
  waiting-persist r q = ground arith

  -- The request with one more approver.
  abbrev voted : String → Request F → Request F
  voted by r = record r { approvals_received = r.approvals_received ++ by ∷ [] }

  -- The request as the last of its approvers leaves it.
  abbrev pub granted : ℕ → String → Request F → Request F
  granted now by r = record r { status = approved; decided_at = now; decided_by = by }

  record_approval_fresh :
      (by : String) (r : Request F)
      → elem by r.approvals_received ≡ false
      → record_approval by r ≡ voted by r
  unfolding record_approval
  record_approval_fresh by r fresh = rw fresh

  record_approval_again :
      (by : String) (r : Request F) → elem by r.approvals_received ≡ true → record_approval by r ≡ r
  unfolding record_approval
  record_approval_again by r old = rw old

  grant_short :
      (now : ℕ) (id by : String) (r : Request F) (q : Queue F)
      → is_fully_approved r ≡ false
      → let part = record r { status = partially_approved } in
        ((grant now id by r q).1 ≡ some part)
        × (lookup id (grant now id by r q).0.waiting ≡ some part)
  unfolding grant
  grant_short now id by r q short =
      rw short (refl, rw waiting-persist (lookup-insert_self id _ q.waiting))

  grant_full :
      (now : ℕ) (id by : String) (r : Request F) (q : Queue F)
      → is_fully_approved r ≡ true
      → ((grant now id by r q).1 ≡ some (granted now by r))
        × (lookup id (grant now id by r q).0.waiting ≡ none)
  unfolding grant archive
  grant_full now id by r q full =
      rw full (refl, rw waiting-persist (lookup-erase_self id q.waiting))

  -- `approve` of a request that waits and is not expired.
  approve_alive :
      (now : ℕ) (id by : String) (r : Request F) (q : Queue F)
      → lookup id q.waiting ≡ some r
      → is_expired now r ≡ false
      → approve now id by q ≡ grant now id by (record_approval by r) q
  unfolding approve approve_found
  approve_alive now id by r q here alive = rw here (rw alive)

  -- Approvals by several names, one after the other: the queue and the last answer.
  unfoldable pub approve_each :
      ℕ → String → String → List String → Queue F → Queue F × Option (Request F)
  approve_each now id by [] q = approve now id by q
  approve_each now id by (next ∷ rest) q = approve_each now id next rest (approve now id by q).0

  short_of :
      (r : Request F)
      → length r.approvals_received < r.required_approvals
      → is_fully_approved r ≡ false
  unfolding is_fully_approved
  short_of r h = ground arith

  full_of :
      (r : Request F)
      → r.required_approvals ≤ length r.approvals_received
      → is_fully_approved r ≡ true
  unfolding is_fully_approved
  full_of r h = ground arith

  still_alive :
      (now : ℕ) (by : String) (r : Request F)
      → is_waiting r.status ≡ true
      → is_expired now r ≡ false
      → is_expired now (record (voted by r) { status = partially_approved }) ≡ false
  unfolding is_expired
  still_alive now by r w alive = ground arith

  -- The same approver does not count twice: in a valid queue a second approval by one name leaves
  -- a request that is not expired waiting with the approvals that it had.
  approve_again :
      (now : ℕ) (id by : String) (r : Request F) (q : Queue F)
      → IsValid q
      → lookup id q.waiting ≡ some r
      → is_expired now r ≡ false
      → elem by r.approvals_received ≡ true
      → let part = record r { status = partially_approved } in
        ((approve now id by q).1 ≡ some part)
        × (lookup id (approve now id by q).0.waiting ≡ some part)
  approve_again now id by r q v here alive old = rw (approve_alive now id by r q here alive) (
      rw (record_approval_again by r old) (
        grant_short now id by r q
          (short_of r (AllIn-lookup IsWaiting id r q.waiting v.waits here).lacks_some)))

  -- The names of the list are not among the approvers, nor twice in the list.
  abbrev pub AllNew : Request F → List String → Type 0
  AllNew r bys = Distinct bys × All (λ by. elem by r.approvals_received ≡ false) bys

  all_new_voted :
      (by : String) (r : Request F) (bys : List String)
      → elem by bys ≡ false
      → All (λ b. elem b r.approvals_received ≡ false) bys
      → All (λ b. elem b (r.approvals_received ++ by ∷ []) ≡ false) bys
  unfolding elem
  all_new_voted by r [] out h = tt
  all_new_voted by r (b ∷ bys) out h = (
    ground (arith, elem-append b r.approvals_received (by ∷ []), h.0, eq_of_== b by, ==_refl b),
    all_new_voted by r bys (ground arith) h.1,
  )

  -- A request waits and is not expired at an instant. Where the names of a list are new and as many
  -- as it still lacks, approvals by them at that instant, one after the other, end with the request
  -- approved, with all of their names, and it waits no longer.
  pub quorum_reached :
      (now : ℕ) (id by : String) (rest : List String) (r : Request F) (q : Queue F)
      → lookup id q.waiting ≡ some r
      → is_waiting r.status ≡ true
      → is_expired now r ≡ false
      → AllNew r (by ∷ rest)
      → length r.approvals_received + length (by ∷ rest) ≡ r.required_approvals
      → (done : Request F) × ((approve_each now id by rest q).1 ≡ some done)
        × (done.status ≡ approved)
        × (done.approvals_received ≡ r.approvals_received ++ by ∷ rest)
        × (lookup id (approve_each now id by rest q).0.waiting ≡ none)
  unfolding approve_each
  quorum_reached now id by [] r q here w alive new enough =
      let r' = voted by r in
      let opened =
        approve_alive now id by r q here alive
        ∙ ap (λ x. grant now id by x q) (record_approval_fresh by r new.1.0) in
      let (answer, gone) =
        grant_full now id by r' q
          (full_of r' (omega (arith, length-append r.approvals_received (by ∷ [])))) in
      (granted now by r', rw opened answer, refl, refl, rw opened gone)
  quorum_reached now id by (next ∷ rest) r q here w alive new enough =
      let r' = voted by r in
      let part = record r' { status = partially_approved } in
      let opened =
        approve_alive now id by r q here alive
        ∙ ap (λ x. grant now id by x q) (record_approval_fresh by r new.1.0) in
      let longer = length-append r.approvals_received (by ∷ []) in
      let (answer, stays) = grant_short now id by r' q (short_of r' (omega (arith, longer))) in
      let (done, last, consent, names, gone) =
        quorum_reached now id next rest part (approve now id by q).0 (rw opened stays)
          (unfold is_waiting in refl) (still_alive now by r w alive)
          (new.0.1, all_new_voted by r (next ∷ rest) new.0.0 new.1.1) (omega (arith, longer)) in
      (done, last, consent, names ∙ append_assoc r.approvals_received (by ∷ []) (next ∷ rest), gone)
