-- ===== src/Workspaces/Mirror.antt =====
-- agent/work/workspace.py: the tables mirror the workspaces in memory. The commands and files of a
-- workspace are not in its row; they are read from the audit trail.
use agent_life_space.Prelude.{
  String, false, Option, none, some, List, [], ◌∷◌, ◌++◌, ◌≡◌, refl, sym, ap, ◌∙◌, subst, inl, inr,
  Bool-cases, Dict, lookup, insert, lookup-insert, keys, elem, Distinct, ◌==◌, eq_of_==,
  if◌then◌else◌, arith,
}
use mathlib.Core.List.{append-nil}
use agent_life_space.Prelude.Rows.{mapped, lookup-absent}
use agent_life_space.Prelude.Result.{ok}
use agent_life_space.Workspaces.Record.{Workspace, status_of-status_value}
use agent_life_space.Workspaces.Tables.{
  Tables, AuditRow, rows_for, details, row_of, restore, load_rows, load_from_db,
}
use agent_life_space.Workspaces.Chain.{rows_for-append}
use agent_life_space.Workspaces.Induction.{noted}

-- The commands and files of a workspace, from the trail of its id.
abbrev pub refresh : List AuditRow → String → Workspace → Workspace
refresh rows k w = record w {
  id = k;
  commands_run = details "command" (rows_for k rows);
  files_created = details "file" (rows_for k rows);
}

abbrev pub refreshed : List AuditRow → String → Option Workspace → Option Workspace
refreshed rows k none = none
refreshed rows k (some w) = some (refresh rows k w)

details-append :
    (kind : String) (rows : List AuditRow) (r : AuditRow)
    → details kind (rows ++ r ∷ [])
      ≡ (if r.event_type == kind then details kind rows ++ r.detail ∷ [] else details kind rows)
unfolding details
details-append kind [] r = ground arith
details-append kind (q ∷ rows) r = elim (Bool-cases (q.event_type == kind)) [
  | inl e ↦ rw e (ap (◌∷◌ q.detail) (details-append kind rows r) ∙ ground arith)
  | inr e ↦ rw e (details-append kind rows r)
]

pub refresh-append :
    (k : String) (rows : List AuditRow) (r : AuditRow) (w : Workspace)
    → refresh (rows ++ r ∷ []) k w ≡ (
        if r.workspace_id == k
        then noted r.event_type r.detail (refresh rows k w)
        else refresh rows k w)
refresh-append k rows r w = elim (Bool-cases (r.workspace_id == k)) [
  | inl e ↦ rw (rows_for-append k rows r) (
      rw e (
        rw (details-append "command" (rows_for k rows) r)
          (rw (details-append "file" (rows_for k rows) r) refl)))
  | inr e ↦ rw (rows_for-append k rows r) (rw e (rw (append-nil (rows_for k rows)) refl))
]

-- The loop of `_load_from_db` over the rows of `held`.
entered : List AuditRow → Dict Workspace → Dict Workspace → Dict Workspace
entered rows [] d = d
entered rows ((k, w) ∷ held) d = entered rows held (insert k (refresh rows k w) d)

load_rows-mapped :
    (rows : List AuditRow) (held d : Dict Workspace)
    → load_rows rows (mapped row_of held) d ≡ ok (entered rows held d)
unfolding load_rows entered restore row_of
load_rows-mapped rows [] d = refl
load_rows-mapped rows ((k, w) ∷ held) d =
    rw (status_of-status_value w.status)
      (load_rows-mapped rows held (insert k (refresh rows k w) d))

abbrev first_of : Option Workspace → Option Workspace → Option Workspace
first_of none o = o
first_of (some w) o = some w

first_of-none : (o : Option Workspace) → first_of o none ≡ o
first_of-none none = refl
first_of-none (some w) = refl

lookup-entered :
    (k : String) (rows : List AuditRow) (held d : Dict Workspace)
    → Distinct (keys held)
    → lookup k (entered rows held d) ≡ first_of (refreshed rows k (lookup k held)) (lookup k d)
unfolding entered lookup
lookup-entered k rows [] d h = refl
lookup-entered k rows ((j, w) ∷ held) d h =
    lookup-entered k rows held (insert j (refresh rows j w) d) h.1
    ∙ rw (lookup-insert j k (refresh rows j w) d) (elim (Bool-cases (j == k)) [
      | inl e ↦ rw e (
          rw (lookup-absent k held (subst (λ i. elem i (keys held) ≡ false) (eq_of_== j k e) h.0))
            (ap (λ i. some (refresh rows i w)) (eq_of_== j k e)))
      | inr e ↦ rw e refl
    ])

-- The rows of the tables are those of the workspaces `held`, and memory has these with the commands
-- and files of the trail.
pub record IsMirrored (d : Dict Workspace) (t : Tables) : Type 0 where
  pub held : Dict Workspace
  pub written : t.workspaces ≡ mapped row_of held
  pub each_once : Distinct (keys held)
  pub same : (k : String) → lookup k d ≡ refreshed t.audit k (lookup k held)
  pub no_events : (k : String) → lookup k d ≡ none → rows_for k t.audit ≡ []

-- Tables that mirror memory are read back as the same workspaces.
pub load_from_db-IsMirrored :
    (d : Dict Workspace) (t : Tables)
    → IsMirrored d t
    → (d' : Dict Workspace) × (load_from_db t ≡ ok d') × ((k : String) → lookup k d' ≡ lookup k d)
unfolding load_from_db lookup
load_from_db-IsMirrored d t m = (
  entered t.audit m.held [],
  rw m.written (load_rows-mapped t.audit m.held []),
  λ k. lookup-entered k t.audit m.held [] m.each_once ∙ first_of-none _ ∙ sym (m.same k),
)
