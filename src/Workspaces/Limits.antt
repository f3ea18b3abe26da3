-- ===== src/Workspaces/Limits.antt =====
-- agent/work/workspace.py: the limit on active workspaces, as `create` and `activate` meet it.
use agent_life_space.Prelude.{
  ℕ, ◌+◌, ◌≤◌, ◌<◌, String, Bool, false, none, some, [], ◌∷◌, ◌≡◌, ◌⊎◌, refl, inl, inr, Bool-cases,
  Dict, lookup, insert, lookup-insert, leb, leb→le, ◌==◌, arith, if◌then◌else◌,
}
use agent_life_space.Prelude.Result.{ok, err}
use agent_life_space.Workspaces.Record.{Workspace, is_active}
use agent_life_space.Workspaces.Manager.{
  Manager, NewWorkspace, persist, audit, store, change, create, activate, activated, active_count,
  created_workspace, limit_message,
}

abbrev one_if : Bool → ℕ
one_if b = if b then 1 else 0

active_count-insert_new :
    (id : String) (w : Workspace) (d : Dict Workspace)
    → lookup id d ≡ none
    → active_count (insert id w d) ≡ active_count d + one_if (is_active w.status)
unfolding active_count insert lookup
active_count-insert_new id w [] h = ground arith
active_count-insert_new id w ((j, v) ∷ d) h = ground (arith, active_count-insert_new id w d)

active_count-insert_old :
    (id : String) (w v : Workspace) (d : Dict Workspace)
    → lookup id d ≡ some v
    → active_count (insert id w d) + one_if (is_active v.status)
      ≡ active_count d + one_if (is_active w.status)
unfolding active_count insert lookup
active_count-insert_old id w v [] h = absurd (cc)
active_count-insert_old id w v ((j, u) ∷ d) h = ground (arith, active_count-insert_old id w v d)

module _ (sha : String → String) (id now : String) where
  -- `create` with a new id either finds `max_active` or more workspaces active, answers with the
  -- RuntimeError and changes nothing, or finds fewer, answers with the new workspace, has it under
  -- its id, and changes neither the other workspaces nor the number of active ones.
  pub create-outcome :
      (n : NewWorkspace) (m : Manager)
      → lookup id m.workspaces ≡ none
      → let r = create sha id now n m in
        let w = created_workspace m.root id now n in
        ((m.max_active ≤ active_count m.workspaces)
          × (r ≡ (m, err (limit_message (active_count m.workspaces) m.max_active))))
        ⊎ ((active_count m.workspaces < m.max_active)
            × (r.1 ≡ ok w)
            × ((k : String)
                → lookup k r.0.workspaces ≡ (if id == k then some w else lookup k m.workspaces))
            × (active_count r.0.workspaces ≡ active_count m.workspaces))
  unfolding create store persist audit
  create-outcome n m free =
      let w = created_workspace m.root id now n in
      elim (Bool-cases (leb m.max_active (active_count m.workspaces))) [
        | inl full ↦ inl (leb→le _ _ full, rw full refl)
        | inr room ↦ inr (
          ground arith,
          rw room refl,
          λ k. rw room (lookup-insert id k w m.workspaces),
          rw room (omega (arith, active_count-insert_new id w m.workspaces free)),
        )
      ]

  -- `activate` of a workspace that is not active makes one more active, whatever the limit.
  pub activate-active_count :
      (w : Workspace) (m : Manager)
      → lookup id m.workspaces ≡ some w
      → is_active w.status ≡ false
      → active_count (activate sha id now m).0.workspaces ≡ active_count m.workspaces + 1
  unfolding activate change store persist audit
  activate-active_count w m found off =
      rw (found, change)
        (ground (arith, active_count-insert_old id (activated now w) w m.workspaces found))
