-- ===== src/Approval/Queue/Keeps.antt =====
-- agent/core/approval.py: every method of the queue keeps its invariant.
use agent_life_space.Prelude.{
  ℕ, ◌≤◌, String, true, false, ◌≡◌, refl, Option, none, some, List, [], ◌∷◌, arith, lookup, keys,
  length, elem, Distinct, Distinct-snoc, All, AllIn-lookup, ◌∙◌, Bool-cases, inl, inr,
}
use agent_life_space.Approval.Request.{
  partially_approved, approved, expired, Request, is_waiting, is_expired, is_fully_approved,
}
use agent_life_space.Approval.Queue.{
  Queue, record_approval, grant, approve_found, approve, deny_found, deny, is_executable,
  as_executed, execute_first, persist_found, mark_executed, expire_found, expire_keys, expire_stale,
}
use agent_life_space.Approval.Queue.Invariant.{
  is_granted, IsWaiting, IsDecided, IsValid, persist-IsValid, moved-IsValid, inserted-IsValid,
}

module _ {F : Type 0} where
  record_approval-Distinct :
      (by : String) (r : Request F)
      → Distinct r.approvals_received
      → Distinct (record_approval by r).approvals_received
  unfolding record_approval
  record_approval-Distinct by r h = elim (Bool-cases (elem by r.approvals_received)) [
    | inl old ↦ rw old h
    | inr new ↦ rw new (Distinct-snoc by r.approvals_received new h)
  ]

  -- What `grant` is given: a request taken from the queue, with the new approver recorded.
  record IsRecorded (k : String) (r : Request F) : Type 0 where
    at_its_id : r.id ≡ k
    needs_some : 1 ≤ r.required_approvals
    each_once : Distinct r.approvals_received

  full-IsDecided :
      (now : ℕ) (id by : String) (r : Request F)
      → IsRecorded id r
      → is_fully_approved r ≡ true
      → IsDecided (record r { status = approved; decided_at = now; decided_by = by })
  unfolding is_waiting is_fully_approved
  full-IsDecided now id by r w full = record {
    settled = refl;
    needs_some = w.needs_some;
    each_once = w.each_once;
    quorum = ground arith;
  }

  short-IsWaiting :
      (id : String) (r : Request F)
      → IsRecorded id r
      → is_fully_approved r ≡ false
      → IsWaiting id (record r { status = partially_approved })
  unfolding is_waiting is_fully_approved
  short-IsWaiting id r w short = record {
    at_its_id = w.at_its_id;
    undecided = refl;
    needs_some = w.needs_some;
    lacks_some = ground arith;
    each_once = w.each_once;
  }

  grant-IsValid :
      (now : ℕ) (id by : String) (r : Request F) (q : Queue F)
      → IsRecorded id r
      → IsValid q
      → IsValid (grant now id by r q).0
  unfolding grant
  grant-IsValid now id by r q w v = elim (Bool-cases (is_fully_approved r)) [
    | inl full ↦ rw full (moved-IsValid id _ q (full-IsDecided now id by r w full) v)
    | inr short ↦
        rw short (persist-IsValid _ _ (inserted-IsValid id _ q (short-IsWaiting id r w short) v))
  ]

  pub record_approval-frame :
      (by : String) (r : Request F)
      → ((record_approval by r).id ≡ r.id)
        × ((record_approval by r).required_approvals ≡ r.required_approvals)
        × ((record_approval by r).status ≡ r.status)
  unfolding record_approval
  record_approval-frame by r = ground arith

  recorded :
      (by id : String) (r : Request F) → IsWaiting id r → IsRecorded id (record_approval by r)
  recorded by id r w = record {
    at_its_id = (record_approval-frame by r).0 ∙ w.at_its_id;
    needs_some = rw (record_approval-frame by r).1 w.needs_some;
    each_once = record_approval-Distinct by r w.each_once;
  }

  -- A request that leaves the queue without consent.
  dropped-IsDecided :
      (id : String) (r r' : Request F)
      → IsWaiting id r
      → is_waiting r'.status ≡ false
      → is_granted r'.status ≡ false
      → r'.required_approvals ≡ r.required_approvals
      → r'.approvals_received ≡ r.approvals_received
      → IsDecided r'
  dropped-IsDecided id r r' w settled refused same_needs same_votes = record {
    settled = settled;
    needs_some = rw same_needs w.needs_some;
    each_once = rw same_votes w.each_once;
    quorum = rw refused (omega arith);
  }

  approve_found-IsValid :
      (now : ℕ) (id by : String) (o : Option (Request F)) (q : Queue F)
      → lookup id q.waiting ≡ o
      → IsValid q
      → IsValid (approve_found now id by o q).0
  unfolding approve_found
  approve_found-IsValid now id by none q e v = v
  approve_found-IsValid now id by (some r) q e v =
      let w = AllIn-lookup IsWaiting id r q.waiting v.waits e in
      elim (Bool-cases (is_expired now r)) [
        | inl late ↦ rw late (
            moved-IsValid id _ q
              (dropped-IsDecided id r (record r { status = expired }) w (unfold is_waiting in refl)
                refl refl refl)
              v)
        | inr alive ↦ rw alive (grant-IsValid now id by _ q (recorded by id r w) v)
      ]

  deny_found-IsValid :
      (now : ℕ) (id reason by : String) (o : Option (Request F)) (q : Queue F)
      → lookup id q.waiting ≡ o
      → IsValid q
      → IsValid (deny_found now id reason by o q).0
  unfolding deny_found is_waiting
  deny_found-IsValid now id reason by none q e v = v
  deny_found-IsValid now id reason by (some r) q e v =
      moved-IsValid id _ q
        (dropped-IsDecided id r _ (AllIn-lookup IsWaiting id r q.waiting v.waits e) refl refl refl
          refl)
        v

  -- Only an approved request is executed, so it has its quorum.
  as_executed-IsDecided :
      (now : ℕ) (id : String) (r : Request F)
      → is_executable id r ≡ true
      → IsDecided r
      → IsDecided (as_executed now r)
  unfolding is_executable is_waiting
  as_executed-IsDecided now id r hit d = record {
    settled = refl;
    needs_some = d.needs_some;
    each_once = d.each_once;
    quorum = ground (arith, d.quorum);
  }

  execute_first-IsDecided :
      (now : ℕ) (id : String) (h : List (Request F))
      → All IsDecided h
      → All IsDecided (execute_first now id h).0
  unfolding execute_first
  execute_first-IsDecided now id [] d = tt
  execute_first-IsDecided now id (r ∷ h) d =
      let rest = execute_first-IsDecided now id h d.1 in
      elim (Bool-cases (is_executable id r)) [
        | inl hit ↦ rw hit (as_executed-IsDecided now id r hit d.0, d.1)
        | inr miss ↦ rw miss (d.0, rest)
      ]

  length-execute_first :
      (now : ℕ) (id : String) (h : List (Request F)) → length (execute_first now id h).0 ≡ length h
  unfolding execute_first
  length-execute_first now id [] = refl
  length-execute_first now id (r ∷ h) = ground (arith, length-execute_first now id h)

  persist_found-IsValid :
      (o : Option (Request F)) (q : Queue F) → IsValid q → IsValid (persist_found o q).0
  persist_found-IsValid none q v = v
  persist_found-IsValid (some r) q v = persist-IsValid r q v

  pub mark_executed-IsValid :
      (now : ℕ) (id : String) (q : Queue F) → IsValid q → IsValid (mark_executed now id q).0
  unfolding mark_executed
  mark_executed-IsValid now id q v = persist_found-IsValid _ _ (record {
    waits = v.waits;
    decided = execute_first-IsDecided now id q.history v.decided;
    bounded = rw (length-execute_first now id q.history) v.bounded;
  })

  expire_found-IsValid :
      (now : ℕ) (id : String) (o : Option (Request F)) (acc : Queue F × ℕ)
      → lookup id acc.0.waiting ≡ o
      → IsValid acc.0
      → IsValid (expire_found now id o acc).0
  expire_found-IsValid now id none acc e v = v
  expire_found-IsValid now id (some r) acc e v = elim (Bool-cases (is_expired now r)) [
    | inl late ↦ rw late (
        moved-IsValid id _ acc.0
          (dropped-IsDecided id r (record r { status = expired })
            (AllIn-lookup IsWaiting id r acc.0.waiting v.waits e) (unfold is_waiting in refl) refl
            refl refl)
          v)
    | inr alive ↦ rw alive v
  ]

  pub expire_keys-IsValid :
      (now : ℕ) (ids : List String) (acc : Queue F × ℕ)
      → IsValid acc.0
      → IsValid (expire_keys now ids acc).0
  unfolding expire_keys
  expire_keys-IsValid now [] acc v = v
  expire_keys-IsValid now (id ∷ ids) acc v =
      expire_keys-IsValid now ids _ (expire_found-IsValid now id _ acc refl v)

  pub approve-IsValid :
      (now : ℕ) (id by : String) (q : Queue F) → IsValid q → IsValid (approve now id by q).0
  unfolding approve
  approve-IsValid now id by q = approve_found-IsValid now id by _ q refl

  pub deny-IsValid :
      (now : ℕ) (id reason by : String) (q : Queue F)
      → IsValid q
      → IsValid (deny now id reason by q).0
  unfolding deny
  deny-IsValid now id reason by q = deny_found-IsValid now id reason by _ q refl

  pub expire_stale-IsValid : (now : ℕ) (q : Queue F) → IsValid q → IsValid (expire_stale now q).0
  unfolding expire_stale
  expire_stale-IsValid now q v = expire_keys-IsValid now (keys q.waiting) (q, 0) v
