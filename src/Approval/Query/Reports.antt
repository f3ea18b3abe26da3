-- ===== src/Approval/Query/Reports.antt =====
-- agent/core/approval.py: what the queries report.
use agent_life_space.Prelude.{
  ℕ, ◌+◌, ◌<◌, String, false, ◌≡◌, refl, some, [], arith, lookup, length, filter, or_zero,
  lookup-count_from, lookup-insert_self, ◌==◌,
}
use agent_life_space.Approval.Request.{Request, is_expired}
use agent_life_space.Approval.Request.Codec.{status_value, to_dict}
use agent_life_space.Approval.Queue.{Queue, Proposal, propose, expire_stale}
use agent_life_space.Approval.Queue.Expiry.{lookup-expire_stale}
use agent_life_space.Approval.Queue.Quorum.{waiting-persist}
use agent_life_space.Approval.Query.{find_request, get_request, get_stats}

module _ {F : Type 0} where
  -- The statistics count, under each text, the decided requests whose status has that value, the
  -- expired ones of this moment included, and as many entries as there are.
  pub lookup-get_stats :
      (now : ℕ) (q : Queue F) (s : String)
      → let (q', stats) = get_stats now q in
        (or_zero (lookup s stats.by_status)
          ≡ length (filter (λ (r : Request F). status_value r.status == s) q'.history))
        × (stats.history_total ≡ length q'.history)
        × (stats.pending ≡ length q'.waiting)
        × (q' ≡ (expire_stale now q).0)
  unfolding get_stats lookup
  lookup-get_stats now q s = (
    omega (
      arith,
      lookup-count_from (λ (r : Request F). status_value r.status) s (expire_stale now q).0.history
          [],
    ),
    refl,
    refl,
    refl,
  )

  find_waiting :
      (id : String) (q : Queue F) (r : Request F)
      → lookup id q.waiting ≡ some r
      → find_request id q ≡ some (to_dict r)
  unfolding find_request
  find_waiting id q r h = rw (h, find_request)

  lookup-propose :
      (id : String) (now : ℕ) (p : Proposal F) (q : Queue F)
      → lookup id (propose id now p q).0.waiting ≡ some (propose id now p q).1
  unfolding propose
  lookup-propose id now p q = rw waiting-persist (lookup-insert_self id _ q.waiting)

  proposed_alive :
      (id : String) (now later : ℕ) (p : Proposal F) (q : Queue F)
      → later < now + p.ttl_seconds
      → is_expired later (propose id now p q).1 ≡ false
  unfolding propose is_expired
  proposed_alive id now later p q h = ground arith

  -- A proposed request is reported by its id, as it was proposed, until its time to live is over.
  pub get_request-propose :
      (id : String) (now later : ℕ) (p : Proposal F) (q : Queue F)
      → later < now + p.ttl_seconds
      → (get_request later id (propose id now p q).0).1 ≡ some (to_dict (propose id now p q).1)
  unfolding get_request
  get_request-propose id now later p q h =
      let made = propose id now p q in
      find_waiting id (expire_stale later made.0).0 made.1
        (rw lookup-expire_stale (rw lookup-propose (rw (proposed_alive id now later p q h))))
