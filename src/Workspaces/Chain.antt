-- ===== src/Workspaces/Chain.antt =====
-- agent/work/workspace.py: the hash chain of the audit trail.
use agent_life_space.Prelude.{
  String, Option, none, some, List, [], ◌∷◌, ◌++◌, ◌≡◌, refl, ap, inl, inr, Bool-cases, insert,
  ◌==◌, eq_of_==, if◌then◌else◌, arith,
}
use agent_life_space.Prelude.Text.{concat}
use agent_life_space.Workspaces.Record.{Workspace}
use agent_life_space.Workspaces.Tables.{
  Tables, AuditRow, rows_for, last_hash, get_last_audit_hash, payload, add_audit, replace_row,
}
use agent_life_space.Workspaces.Manager.{
  Manager, on_tables, persist, audit, store, created_workspace,
}
use agent_life_space.Workspaces.Runs.{Op, create_op, perform, perform_all}
use mathlib.Core.List.{append-nil}
use agent_life_space.Workspaces.Induction.{noted, IsKept, CreateKeeps, perform_kept}

pub rows_for-append :
    (k : String) (rows : List AuditRow) (r : AuditRow)
    → rows_for k (rows ++ r ∷ []) ≡ rows_for k rows ++ (if r.workspace_id == k then r ∷ [] else [])
unfolding rows_for
rows_for-append k [] r = ground arith
rows_for-append k (q ∷ rows) r = elim (Bool-cases (q.workspace_id == k)) [
  | inl e ↦ rw e (ap (◌∷◌ q) (rows_for-append k rows r))
  | inr e ↦ rw e (rows_for-append k rows r)
]

module _ (sha : String → String) where
  -- Each hash is that of the row's texts and the hash before it, with colons in between.
  abbrev pub IsChained : String → String → List AuditRow → Type 0
  IsChained id previous [] = Unit
  IsChained id previous (r ∷ rows) =
      (r.entry_hash
        ≡ sha (
            concat
              (id ∷ ":" ∷ r.event_type ∷ ":" ∷ r.detail ∷ ":" ∷ r.timestamp ∷ ":" ∷ previous ∷ [])))
      × IsChained id r.entry_hash rows

  IsChained-append :
      (id previous : String) (rows : List AuditRow) (r : AuditRow)
      → IsChained id previous rows
      → r.entry_hash
        ≡ sha (
            concat (
              id
              ∷ ":"
              ∷ r.event_type
              ∷ ":"
              ∷ r.detail
              ∷ ":"
              ∷ r.timestamp
              ∷ ":"
              ∷ last_hash previous rows
              ∷ []))
      → IsChained id previous (rows ++ r ∷ [])
  unfolding last_hash
  IsChained-append id previous [] r h e = (e, tt)
  IsChained-append id previous (q ∷ rows) r h e =
      (h.0, IsChained-append id q.entry_hash rows r h.1 e)

  -- The trail of every workspace is chained from "genesis".
  abbrev pub AllChained : Option Tables → Type 0
  AllChained none = Unit
  AllChained (some t) = (k : String) → IsChained k "genesis" (rows_for k t.audit)

  add_audit-IsChained :
      (id event_type detail now : String) (t : Tables)
      → AllChained (some t)
      → AllChained (some (add_audit sha id event_type detail now t))
  unfolding add_audit get_last_audit_hash payload
  add_audit-IsChained id event_type detail now t h k =
      let r : AuditRow = record {
        workspace_id = id;
        event_type = event_type;
        detail = detail;
        timestamp = now;
        entry_hash =
            sha (payload id event_type detail now (last_hash "genesis" (rows_for id t.audit)));
      } in
      rw (rows_for-append k t.audit r) (elim (Bool-cases (id == k)) [
        | inl e ↦
            rw e (
              IsChained-append k "genesis" (rows_for k t.audit) r (h k) (rw (eq_of_== id k e) refl))
        | inr e ↦ rw e (rw (append-nil (rows_for k t.audit)) (h k))
      ])

  AllChained-on_tables :
      (f : Tables → Tables) (o : Option Tables)
      → ((t : Tables) → AllChained (some t) → AllChained (some (f t)))
      → AllChained o
      → AllChained (on_tables f o)
  AllChained-on_tables f none k h = tt
  AllChained-on_tables f (some t) k h = k t h

  audit-AllChained :
      (id event_type detail now : String) (m : Manager)
      → AllChained m.db
      → AllChained (audit sha id event_type detail now m).db
  unfolding audit
  audit-AllChained id event_type detail now m h =
      AllChained-on_tables (add_audit sha id event_type detail now) m.db
        (add_audit-IsChained id event_type detail now) h

  store-AllChained :
      (id detail now : String) (w : Workspace) (m : Manager)
      → AllChained m.db
      → AllChained (store sha id detail now w m).db
  unfolding store persist replace_row
  store-AllChained id detail now w m h =
      let m' = persist w (record m { workspaces = insert id w m.workspaces }) in
      audit-AllChained id "lifecycle" detail now m'
        (AllChained-on_tables (replace_row w) m.db (λ t c. c) h)

  AllChained-IsKept : IsKept sha (λ m. AllChained m.db)
  AllChained-IsKept = record {
    by_change = λ id detail now f w m t e h. store-AllChained id detail now (f w) m h;
    by_note = λ id kind detail now w m e h.
        audit-AllChained id kind detail now
          (record m { workspaces = insert id (noted kind detail w) m.workspaces }) h;
  }

  create_keeps :
      (o : Op) (m : Manager) → AllChained m.db → CreateKeeps sha (λ m'. AllChained m'.db) o m
  create_keeps (create_op id now n) m h =
      store-AllChained id "created" now (created_workspace m.root id now n) m h
  create_keeps _ m h = tt

  -- Where the audit trail of every workspace is a hash chain from "genesis" (each hash is that of the
  -- id, the event, the detail, the instant and the hash before it, with colons between), it is one
  -- after any sequence of calls.
  pub perform_all-AllChained :
      (os : List Op) (m : Manager) → AllChained m.db → AllChained (perform_all sha os m).db
  unfolding perform_all
  perform_all-AllChained [] m h = h
  perform_all-AllChained (o ∷ os) m h =
      perform_all-AllChained os (perform sha o m)
        (perform_kept sha (λ m'. AllChained m'.db) AllChained-IsKept o m (create_keeps o m h) h)
