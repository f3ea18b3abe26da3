-- ===== src/Approval/Queue/Restart.antt =====
-- agent/core/approval.py: what `_load_from_storage` makes of stored requests.
use agent_life_space.Prelude.{
  ℕ, ◌≡◌, List, [], ◌∷◌, ◌++◌, arith, Dict, insert, filter, not, map, if◌then◌else◌, Bool-cases,
  inl, inr, ◌∙◌,
}
use mathlib.Core.List.{append-nil, append_assoc}
use agent_life_space.Prelude.Result.{ok}
use agent_life_space.Approval.Request.{Request, is_waiting}
use agent_life_space.Approval.Request.Codec.{to_dict, Request-from_dict-to_dict}
use agent_life_space.Approval.Queue.{Queue, load_rows}

module _ {F : Type 0} where
  -- The requests that still wait, entered one after the other.
  unfoldable pub enter_waiting : List (Request F) → Dict (Request F) → Dict (Request F)
  enter_waiting [] d = d
  enter_waiting (r ∷ rs) d = enter_waiting rs (if is_waiting r.status then insert r.id r d else d)

  abbrev pub decided_of : List (Request F) → List (Request F)
  decided_of rs = filter (λ (r : Request F). not (is_waiting r.status)) rs

  -- Loading the rows that `to_dict` wrote succeeds. Each waiting request is back under its id, and
  -- all decided ones are appended to the history in their order, however many they are.
  pub load_rows-to_dict :
      (now : ℕ) (rs : List (Request F)) (q : Queue F)
      → load_rows now (map to_dict rs) q
        ≡ ok (record q {
          waiting = enter_waiting rs q.waiting;
          history = q.history ++ decided_of rs;
        })
  unfolding load_rows enter_waiting
  load_rows-to_dict now [] q = ground (arith, append-nil q.history)
  load_rows-to_dict now (r ∷ rs) q =
      rw (Request-from_dict-to_dict F now r) (elim (Bool-cases (is_waiting r.status)) [
        | inl waits ↦
            rw waits (load_rows-to_dict now rs (record q { waiting = insert r.id r q.waiting }))
        | inr done ↦ rw done (
            load_rows-to_dict now rs (record q { history = q.history ++ r ∷ [] })
            ∙ rw (append_assoc q.history (r ∷ []) (decided_of rs)))
      ])
