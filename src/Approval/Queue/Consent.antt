-- ===== src/Approval/Queue/Consent.antt =====
-- agent/core/approval.py: the queue over any sequence of calls, and what a consent amounts to.
use agent_life_space.Prelude.{
  ℕ, ◌≤◌, String, true, ◌≡◌, Option, List, [], ◌∷◌, arith, length, Distinct, All,
}
use agent_life_space.Prelude.Sorting.{Member, here, there}
use agent_life_space.Approval.Request.{Request}
use agent_life_space.Approval.Storage.{Storage}
use agent_life_space.Approval.Queue.{
  Queue, Proposal, propose, approve, deny, mark_executed, expire_stale,
}
use agent_life_space.Approval.Queue.Invariant.{is_granted, IsDecided, IsValid, propose-IsValid}
use agent_life_space.Approval.Queue.Keeps.{
  approve-IsValid, deny-IsValid, mark_executed-IsValid, expire_stale-IsValid,
}

-- One call of a method that changes the queue. The queries change it by `expire_stale` only.
pub data Op (F : Type 0) : Type 0 where
  propose_op : String → ℕ → Proposal F → Op F
  approve_op : ℕ → String → String → Op F
  deny_op : ℕ → String → String → String → Op F
  execute_op : ℕ → String → Op F
  expire_op : ℕ → Op F

module _ {F : Type 0} where
  unfoldable pub perform : Op F → Queue F → Queue F
  perform (propose_op id now p) q = (propose id now p q).0
  perform (approve_op now id by) q = (approve now id by q).0
  perform (deny_op now id reason by) q = (deny now id reason by q).0
  perform (execute_op now id) q = (mark_executed now id q).0
  perform (expire_op now) q = (expire_stale now q).0

  unfoldable pub perform_all : List (Op F) → Queue F → Queue F
  perform_all [] q = q
  perform_all (op ∷ ops) q = perform_all ops (perform op q)

  perform-IsValid : (op : Op F) (q : Queue F) → IsValid q → IsValid (perform op q)
  unfolding perform
  perform-IsValid (propose_op id now p) q = propose-IsValid id now p q
  perform-IsValid (approve_op now id by) q = approve-IsValid now id by q
  perform-IsValid (deny_op now id reason by) q = deny-IsValid now id reason by q
  perform-IsValid (execute_op now id) q = mark_executed-IsValid now id q
  perform-IsValid (expire_op now) q = expire_stale-IsValid now q

  -- Whatever methods are called, in any order and at any times, a valid queue stays valid: what
  -- waits is undecided, under its id and short of its approvals; what is in the history is decided,
  -- no approver is counted twice, and the history keeps its bound.
  pub perform_all-IsValid :
      (ops : List (Op F)) (q : Queue F) → IsValid q → IsValid (perform_all ops q)
  unfolding perform_all
  perform_all-IsValid [] q v = v
  perform_all-IsValid (op ∷ ops) q v = perform_all-IsValid ops _ (perform-IsValid op q v)

  -- A request with the consent that its status claims.
  pub record IsConsented (r : Request F) : Type 0 where
    pub needs_some : 1 ≤ r.required_approvals
    pub enough : r.required_approvals ≤ length r.approvals_received
    pub each_once : Distinct r.approvals_received

  abbrev pub no_requests : ℕ → Option (Storage F) → Queue F
  no_requests max_history storage = record {
    waiting = [];
    history = [];
    max_history = max_history;
    storage = storage;
  }

  pub no_requests-IsValid :
      (max_history : ℕ) (storage : Option (Storage F)) → IsValid (no_requests max_history storage)
  no_requests-IsValid max_history storage = record {
    waits = tt;
    decided = tt;
    bounded = omega arith;
  }

  consented :
      (r : Request F) (h : List (Request F))
      → All IsDecided h
      → Member r h
      → is_granted r.status ≡ true
      → IsConsented r
  consented r [] d m granted = elim m [ ]
  consented r (s ∷ h) d here granted = record {
    needs_some = d.0.needs_some;
    enough = rw granted at d.0.quorum;
    each_once = d.0.each_once;
  }
  consented r (s ∷ h) d (there m) granted = consented r h d.1 m granted

  -- After any calls on a queue that started empty, a request of the history that is approved or
  -- executed has at least one required approval, and that many different approvers.
  pub granted-IsConsented :
      (max_history : ℕ) (storage : Option (Storage F)) (ops : List (Op F)) (r : Request F)
      → Member r (perform_all ops (no_requests max_history storage)).history
      → is_granted r.status ≡ true
      → IsConsented r
  granted-IsConsented max_history storage ops r m granted =
      let v = perform_all-IsValid ops _ (no_requests-IsValid max_history storage) in
      consented r _ v.decided m granted
