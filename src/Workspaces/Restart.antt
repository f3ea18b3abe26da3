-- ===== src/Workspaces/Restart.antt =====
-- agent/work/workspace.py: a manager that starts from the tables of another one has its workspaces.
use agent_life_space.Prelude.{
  String, Option, none, some, List, [], ◌∷◌, ◌++◌, ◌≡◌, refl, sym, ap, ◌∙◌, subst, inl, inr,
  Bool-cases, Dict, lookup, insert, lookup-insert, lookup-insert_self, ◌==◌, eq_of_==,
  if◌then◌else◌, arith,
}
use mathlib.Core.List.{append-nil}
use agent_life_space.Prelude.Rows.{
  not_found, replace, lookup-replace, Distinct-replace, mapped, mapped-replace,
}
use agent_life_space.Workspaces.Record.{Workspace}
use agent_life_space.Workspaces.Tables.{Tables, AuditRow, rows_for, row_of, add_audit, replace_row}
use agent_life_space.Workspaces.Manager.{on_tables}
use agent_life_space.Workspaces.Chain.{rows_for-append}
use agent_life_space.Workspaces.Induction.{noted}
use agent_life_space.Workspaces.Mirror.{IsMirrored, refresh, refreshed, refresh-append}

abbrev noted_opt : String → String → Option Workspace → Option Workspace
noted_opt kind detail none = none
noted_opt kind detail (some w) = some (noted kind detail w)

refreshed-append :
    (k : String) (rows : List AuditRow) (r : AuditRow) (o : Option Workspace)
    → refreshed (rows ++ r ∷ []) k o ≡ (
        if r.workspace_id == k
        then noted_opt r.event_type r.detail (refreshed rows k o)
        else refreshed rows k o)
refreshed-append k rows r none = elim (Bool-cases (r.workspace_id == k)) [
  | inl e ↦ rw e refl
  | inr e ↦ rw e refl
]
refreshed-append k rows r (some w) =
    ap some (refresh-append k rows r w)
    ∙ elim (Bool-cases (r.workspace_id == k)) [ inl e ↦ rw e refl | inr e ↦ rw e refl ]

noted_none :
    (kind detail : String) (o : Option Workspace) → noted_opt kind detail o ≡ none → o ≡ none
noted_none kind detail none h = refl
noted_none kind detail (some w) h = absurd (cc)

insert_absent :
    (id k : String) (w : Workspace) (d : Dict Workspace)
    → lookup k (insert id w d) ≡ none
    → lookup k d ≡ none
insert_absent id k w d h = ground (arith, lookup-insert id k w d)

-- An event of a workspace, where memory has already what the event adds.
add_audit-IsMirrored :
    (sha : String → String) (id kind detail now : String) (w : Workspace) (d d' : Dict Workspace)
    (t : Tables)
    → lookup id d ≡ some w
    → ((k : String)
        → lookup k d' ≡ (if id == k then noted_opt kind detail (lookup k d) else lookup k d))
    → IsMirrored d t
    → IsMirrored d' (add_audit sha id kind detail now t)
unfolding add_audit
add_audit-IsMirrored sha id kind detail now w d d' t found changed m = record {
  held = m.held;
  written = m.written;
  each_once = m.each_once;
  same = λ k. changed k ∙ rw (m.same k) (sym (refreshed-append k t.audit _ (lookup k m.held)));
  no_events = λ k gone.
      let before = was_absent k gone in
      rw (rows_for-append k t.audit _) (
        rw (not_found id k w d found before)
          (rw (append-nil (rows_for k t.audit)) (m.no_events k before)));
}
  where
    was_absent : (k : String) → lookup k d' ≡ none → lookup k d ≡ none
    was_absent k gone = elim (Bool-cases (id == k)) [
      | inl e ↦ noted_none kind detail (lookup k d) (sym (rw e at (changed k)) ∙ gone)
      | inr e ↦ sym (rw e at (changed k)) ∙ gone
    ]

-- The row of a workspace that has the commands and files of its trail.
replace_row-IsMirrored :
    (id : String) (w : Workspace) (d : Dict Workspace) (t : Tables)
    → refresh t.audit id w ≡ w
    → IsMirrored d t
    → IsMirrored (insert id w d) (replace_row w t)
unfolding replace_row
replace_row-IsMirrored id w d t fits m = record {
  held = replace id w m.held;
  written =
      ap (λ r. replace w.id (row_of w) r) m.written
      ∙ ap (λ i. replace i (row_of w) (mapped row_of m.held)) (sym (ap (λ v. v.id) fits))
      ∙ sym (mapped-replace row_of id w m.held);
  each_once = Distinct-replace id w m.held m.each_once;
  same = λ k.
      rw (lookup-insert id k w d, lookup-replace id k w m.held)
        (elim (Bool-cases (id == k)) [
          | inl e ↦
              rw e (ap some (sym (subst (λ i. refresh t.audit i w ≡ w) (eq_of_== id k e) fits)))
          | inr e ↦ rw e (m.same k)
        ]);
  no_events = λ k gone. m.no_events k (insert_absent id k w d gone);
}

noted_lifecycle : (detail : String) (o : Option Workspace) → o ≡ noted_opt "lifecycle" detail o
unfolding ◌==◌
noted_lifecycle detail none = refl
noted_lifecycle detail (some w) = refl

-- What holds of a manager whose database is open.
abbrev pub MirroredIn : Dict Workspace → Option Tables → Type 0
MirroredIn d none = ⊥
MirroredIn d (some t) = IsMirrored d t

module _ (sha : String → String) where
  pub store_tables :
      (id detail now : String) (w : Workspace) (d : Dict Workspace) (o : Option Tables)
      → ((t : Tables) → IsMirrored d t → refresh t.audit id w ≡ w)
      → MirroredIn d o
      → MirroredIn
          (insert id w d)
          (on_tables (add_audit sha id "lifecycle" detail now) (on_tables (replace_row w) o))
  store_tables id detail now w d none fits h = absurd h
  store_tables id detail now w d (some t) fits h =
      add_audit-IsMirrored sha id "lifecycle" detail now w (insert id w d) (insert id w d)
        (replace_row w t) (lookup-insert_self id w d)
        (λ k. elim (Bool-cases (id == k)) [
          | inl e ↦ rw e (noted_lifecycle detail (lookup k (insert id w d)))
          | inr e ↦ rw e refl
        ])
        (replace_row-IsMirrored id w d t (fits t h) h)

  pub note_tables :
      (id kind detail now : String) (w : Workspace) (d : Dict Workspace) (o : Option Tables)
      → lookup id d ≡ some w
      → MirroredIn d o
      → MirroredIn
          (insert id (noted kind detail w) d)
          (on_tables (add_audit sha id kind detail now) o)
  note_tables id kind detail now w d none found h = absurd h
  note_tables id kind detail now w d (some t) found h =
      add_audit-IsMirrored sha id kind detail now w d (insert id (noted kind detail w) d) t found
        (λ k. lookup-insert id k (noted kind detail w) d ∙ elim (Bool-cases (id == k)) [
          | inl e ↦ rw e (rw (subst (λ i. lookup i d ≡ some w) (eq_of_== id k e) found) refl)
          | inr e ↦ rw e refl
        ])
        h
