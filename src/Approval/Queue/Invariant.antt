-- ===== src/Approval/Queue/Invariant.antt =====
-- agent/core/approval.py: what holds of a queue between two calls of its methods.
use agent_life_space.Prelude.{
  if◌then◌else◌, ℕ, ◌≤◌, ◌<◌, String, Bool, true, false, ◌≡◌, arith, insert, erase, length,
  Distinct, All, AllIn, All-push_bounded, length-push_bounded, AllIn-insert, AllIn-erase,
}
use agent_life_space.Approval.Request.{Status, approved, executed, Request, is_waiting}
use agent_life_space.Approval.Queue.{Queue, Proposal, persist, archive, propose}

-- The statuses that stand for the operator's consent.
abbrev pub is_granted : Status → Bool
is_granted approved = true
is_granted executed = true
is_granted _ = false

module _ {F : Type 0} where
  pub record IsWaiting (k : String) (r : Request F) : Type 0 where
    pub at_its_id : r.id ≡ k
    pub undecided : is_waiting r.status ≡ true
    pub needs_some : 1 ≤ r.required_approvals
    pub lacks_some : length r.approvals_received < r.required_approvals
    pub each_once : Distinct r.approvals_received

  -- The count of distinct approvers is what a granted request has to show.
  pub record IsDecided (r : Request F) : Type 0 where
    pub settled : is_waiting r.status ≡ false
    pub needs_some : 1 ≤ r.required_approvals
    pub each_once : Distinct r.approvals_received
    pub quorum :
        (if is_granted r.status then r.required_approvals else 0) ≤ length r.approvals_received

  pub record IsValid (q : Queue F) : Type 0 where
    pub waits : AllIn IsWaiting q.waiting
    pub decided : All IsDecided q.history
    pub bounded : length q.history ≤ q.max_history

  persist_frame :
      (r : Request F) (q : Queue F)
      → ((persist r q).waiting ≡ q.waiting)
        × ((persist r q).history ≡ q.history)
        × ((persist r q).max_history ≡ q.max_history)
  unfolding persist
  persist_frame r q = ground arith

  pub persist-IsValid : (r : Request F) (q : Queue F) → IsValid q → IsValid (persist r q)
  persist-IsValid r q v = record {
    waits = rw (persist_frame r q).0 v.waits;
    decided = rw (persist_frame r q).1 v.decided;
    bounded = rw ((persist_frame r q).1, (persist_frame r q).2) v.bounded;
  }

  pub archive-IsValid :
      (r : Request F) (q : Queue F) → IsDecided r → IsValid q → IsValid (archive r q)
  unfolding archive
  archive-IsValid r q d v = record {
    waits = rw (persist_frame r q).0 v.waits;
    decided = All-push_bounded IsDecided q.max_history r q.history v.decided d;
    bounded = rw (persist_frame r q).2 (length-push_bounded q.max_history r q.history v.bounded);
  }

  erased-IsValid :
      (id : String) (q : Queue F) → IsValid q → IsValid (record q { waiting = erase id q.waiting })
  erased-IsValid id q v = record {
    waits = AllIn-erase IsWaiting id q.waiting v.waits;
    decided = v.decided;
    bounded = v.bounded;
  }

  pub inserted-IsValid :
      (id : String) (r : Request F) (q : Queue F)
      → IsWaiting id r
      → IsValid q
      → IsValid (record q { waiting = insert id r q.waiting })
  inserted-IsValid id r q w v = record {
    waits = AllIn-insert IsWaiting id r q.waiting w v.waits;
    decided = v.decided;
    bounded = v.bounded;
  }

  pub moved-IsValid :
      (id : String) (r : Request F) (q : Queue F)
      → IsDecided r
      → IsValid q
      → IsValid (archive r (record q { waiting = erase id q.waiting }))
  moved-IsValid id r q d v = archive-IsValid r _ d (erased-IsValid id q v)

  pub propose-IsValid :
      (id : String) (now : ℕ) (p : Proposal F) (q : Queue F)
      → IsValid q
      → IsValid (propose id now p q).0
  unfolding propose is_waiting
  propose-IsValid id now p q v = persist-IsValid _ _ (inserted-IsValid id _ q (ground arith) v)
