-- ===== src/Approval/Queue.antt =====
-- agent/core/approval.py: the class ApprovalQueue. A method returns the new queue with its result.
-- `uuid.uuid4().hex[:12]` and `time.time()` are arguments; a method reads the clock once. Log
-- lines are left out. The queries are in agent_life_space.Approval.Query.
pub mod Invariant
mod Keeps
pub mod Consent
pub mod Execution
pub mod Expiry
pub mod Quorum
pub mod Restart
use agent_life_space.Prelude.{
  ℕ, suc, String, Bool, true, false, Option, none, some, List, [], ◌∷◌, ◌++◌, reverse, Dict, lookup,
  insert, erase, keys, elem, max, push_bounded, ◌==◌, ◌&&◌, if◌then◌else◌,
}
use agent_life_space.Prelude.Result.{ok, ◌>>=◌}
use agent_life_space.Json.{Fields, Decoded}
use agent_life_space.Approval.Request.{
  pending, partially_approved, approved, denied, expired, executed, Category, Request, is_waiting,
  is_approved, is_expired, is_fully_approved,
}
use agent_life_space.Approval.Request.Codec.{from_dict}
use agent_life_space.Approval.Storage.{Storage, save_request, list_requests}

pub record Queue (F : Type 0) : Type 0 where
  pub waiting : Dict (Request F)
  pub history : List (Request F)
  pub max_history : ℕ
  pub storage : Option (Storage F)

-- The keyword arguments of `propose`.
pub record Proposal (F : Type 0) : Type 0 where
  pub category : Category
  pub description : String
  pub risk_level : String
  pub reason : String
  pub proposed_by : String
  pub context : Fields F
  pub ttl_seconds : ℕ
  pub required_approvals : ℕ

module _ {F : Type 0} where
  unfoldable pub persist : Request F → Queue F → Queue F
  persist r q = elim q.storage [
    | none ↦ q
    | some s ↦ record q { storage = some (save_request r s) }
  ]

  -- `_archive`: the history drops its oldest entry where it grew beyond `max_history`.
  unfoldable pub archive : Request F → Queue F → Queue F
  unfolding persist push_bounded
  archive r q = record (persist r q) { history = push_bounded q.max_history r q.history }

  unfoldable pub propose : String → ℕ → Proposal F → Queue F → Queue F × Request F
  unfolding persist
  propose id now p q =
      let r : Request F = record {
        id = id;
        category = p.category;
        description = p.description;
        risk_level = p.risk_level;
        reason = p.reason;
        proposed_by = p.proposed_by;
        context = p.context;
        status = pending;
        created_at = now;
        decided_at = 0;
        decided_by = "";
        denial_reason = "";
        ttl_seconds = p.ttl_seconds;
        executed_at = 0;
        required_approvals = max 1 p.required_approvals;
        approvals_received = [];
      } in
      (persist r (record q { waiting = insert id r q.waiting }), r)

  -- `if decided_by not in req.approvals_received: req.approvals_received.append(decided_by)`
  unfoldable pub record_approval : String → Request F → Request F
  record_approval by r =
      if elem by r.approvals_received
      then r
      else record r { approvals_received = r.approvals_received ++ by ∷ [] }

  -- The part of `approve` behind the expiry test. A request that still waits is the object in the
  -- dictionary, so the dictionary has its new fields.
  unfoldable pub grant : ℕ → String → String → Request F → Queue F → Queue F × Option (Request F)
  unfolding archive persist is_fully_approved
  grant now id by r q =
      if is_fully_approved r
      then (let done = record r { status = approved; decided_at = now; decided_by = by } in
          (archive done (record q { waiting = erase id q.waiting }), some done))
      else let part = record r { status = partially_approved } in
        (persist part (record q { waiting = insert id part q.waiting }), some part)

  unfoldable pub approve_found :
      ℕ → String → String → Option (Request F) → Queue F → Queue F × Option (Request F)
  unfolding grant record_approval is_expired
  approve_found now id by none q = (q, none)
  approve_found now id by (some r) q =
      if is_expired now r
      then (let stale = record r { status = expired } in
          (archive stale (record q { waiting = erase id q.waiting }), some stale))
      else grant now id by (record_approval by r) q

  unfoldable pub approve : ℕ → String → String → Queue F → Queue F × Option (Request F)
  unfolding approve_found
  approve now id by q = approve_found now id by (lookup id q.waiting) q

  unfoldable pub deny_found :
      ℕ → String → String → String → Option (Request F) → Queue F → Queue F × Option (Request F)
  unfolding archive
  deny_found now id reason by none q = (q, none)
  deny_found now id reason by (some r) q =
      let no_more = record r {
        status = denied;
        decided_at = now;
        decided_by = by;
        denial_reason = reason;
      } in
      (archive no_more (record q { waiting = erase id q.waiting }), some no_more)

  unfoldable pub deny : ℕ → String → String → String → Queue F → Queue F × Option (Request F)
  unfolding deny_found
  deny now id reason by q = deny_found now id reason by (lookup id q.waiting) q

  -- The test of the loop of `mark_executed`.
  unfoldable pub is_executable : String → Request F → Bool
  unfolding is_approved
  is_executable id r = r.id == id && is_approved r.status

  abbrev pub as_executed : ℕ → Request F → Request F
  as_executed now r = record r { status = executed; executed_at = now }

  -- The loop: the first match is updated in place, and returned.
  unfoldable pub execute_first :
      ℕ → String → List (Request F) → List (Request F) × Option (Request F)
  unfolding is_executable
  execute_first now id [] = ([], none)
  execute_first now id (r ∷ rest) =
      let (rest', found) = execute_first now id rest in
      if is_executable id r
      then (as_executed now r ∷ rest, some (as_executed now r))
      else (r ∷ rest', found)

  abbrev pub persist_found : Option (Request F) → Queue F → Queue F × Bool
  persist_found none q = (q, false)
  persist_found (some r) q = (persist r q, true)

  unfoldable pub mark_executed : ℕ → String → Queue F → Queue F × Bool
  unfolding execute_first persist
  mark_executed now id q =
      let (history, found) = execute_first now id q.history in
      persist_found found (record q { history = history })

  abbrev pub expire_found : ℕ → String → Option (Request F) → Queue F × ℕ → Queue F × ℕ
  expire_found now id none (q, n) = (q, n)
  expire_found now id (some r) (q, n) =
      if is_expired now r
      then (let stale = record r { status = expired } in
          (archive stale (record q { waiting = erase id q.waiting }), suc n))
      else (q, n)

  -- The loop of `expire_stale` over the keys that it copied. Each key is still in the dictionary.
  unfoldable pub expire_keys : ℕ → List String → Queue F × ℕ → Queue F × ℕ
  unfolding archive is_expired
  expire_keys now [] acc = acc
  expire_keys now (id ∷ ids) acc =
      expire_keys now ids (expire_found now id (lookup id acc.0.waiting) acc)

  unfoldable pub expire_stale : ℕ → Queue F → Queue F × ℕ
  unfolding expire_keys
  expire_stale now q = expire_keys now (keys q.waiting) (q, 0)

  -- `_load_from_storage`: the rows from the oldest to the newest.
  unfoldable pub load_rows : ℕ → List (Fields F) → Queue F → Decoded (Queue F)
  load_rows now [] q = ok q
  load_rows now (d ∷ rows) q = do
    r ← from_dict now d
    load_rows now rows (
        if is_waiting r.status
        then record q { waiting = insert r.id r q.waiting }
        else record q { history = q.history ++ r ∷ [] })

  unfoldable pub load_from_storage : ℕ → Queue F → Decoded (Queue F)
  unfolding load_rows
  load_from_storage now q = elim q.storage [
    | none ↦ ok q
    | some s ↦ load_rows now (reverse (list_requests "" 5000 s)) q
  ]

  -- `__init__` of a queue with the given storage, which `initialize` has opened.
  unfoldable pub new : ℕ → ℕ → Option (Storage F) → Decoded (Queue F)
  unfolding load_from_storage
  new now max_history storage =
      load_from_storage now
        (record { waiting = []; history = []; max_history = max_history; storage = storage })
