-- ===== src/Workspaces/Recovery.antt =====
-- agent/work/workspace.py: recovery after any sequence of calls.
use agent_life_space.Prelude.{
  ℕ, String, false, Option, none, some, List, [], ◌∷◌, ◌≡◌, refl, sym, ap, ◌∙◌, subst, Dict, lookup,
  lookup-insert, elem, Distinct, All, arith,
}
use agent_life_space.Prelude.Rows.{not_found}
use agent_life_space.Prelude.Result.{ok, ◌>>=◌}
use agent_life_space.Workspaces.Record.{Workspace}
use agent_life_space.Workspaces.Tables.{Tables, AuditRow, rows_for, details}
use agent_life_space.Workspaces.Manager.{
  Manager, NewWorkspace, persist, audit, store, created_workspace, new, initialize, get,
}
use agent_life_space.Workspaces.Runs.{Op, create_op, perform, perform_all, new_ids, with_new_id}
use agent_life_space.Workspaces.Induction.{noted, KeepsTrail, IsKept, CreateKeeps, perform_kept}
use agent_life_space.Workspaces.Mirror.{IsMirrored, refresh, refreshed, load_from_db-IsMirrored}
use agent_life_space.Workspaces.Restart.{MirroredIn, store_tables, note_tables}

-- What memory has of a workspace is what the trail has.
refresh_held :
    (rows : List AuditRow) (k : String) (w : Workspace) (o : Option Workspace)
    → some w ≡ refreshed rows k o
    → refresh rows k w ≡ w
refresh_held rows k w none e = absurd (cc)
refresh_held rows k w (some h) e =
    let same : w ≡ refresh rows k h = cc in subst (λ v. refresh rows k v ≡ v) (sym same) refl

refresh_changed :
    (rows : List AuditRow) (k : String) (f : Workspace → Workspace) (w : Workspace)
    → KeepsTrail f
    → refresh rows k w ≡ w
    → refresh rows k (f w) ≡ f w
refresh_changed rows k f w t e =
    let p : k ≡ (f w).id = ap (λ v. v.id) e ∙ sym (t w).0 in
    let q : details "command" (rows_for k rows) ≡ (f w).commands_run =
      ap (λ v. v.commands_run) e ∙ sym (t w).1 in
    let r : details "file" (rows_for k rows) ≡ (f w).files_created =
      ap (λ v. v.files_created) e ∙ sym (t w).2 in
    λ i. record (f w) { id = p i; commands_run = q i; files_created = r i }

module _ (sha : String → String) where
  abbrev Mirrored : Manager → Type 0
  Mirrored m = MirroredIn m.workspaces m.db

  Mirrored-IsKept : IsKept sha Mirrored
  unfolding store persist audit
  Mirrored-IsKept = record {
    by_change = λ id detail now f w m t e h.
        store_tables sha id detail now (f w) m.workspaces m.db
          (λ tables k.
            refresh_changed tables.audit id f w t
              (refresh_held tables.audit id w (lookup id k.held) (sym e ∙ k.same id)))
          h;
    by_note =
        λ id kind detail now w m e h. note_tables sha id kind detail now w m.workspaces m.db e h;
  }

  created-Mirrored :
      (id now : String) (n : NewWorkspace) (m : Manager)
      → lookup id m.workspaces ≡ none
      → Mirrored m
      → Mirrored (store sha id "created" now (created_workspace m.root id now n) m)
  unfolding store persist audit created_workspace details
  created-Mirrored id now n m free h =
      store_tables sha id "created" now (created_workspace m.root id now n) m.workspaces m.db
        (λ t k. rw (k.no_events id free) refl) h

  Absent-IsKept : (j : String) → IsKept sha (λ m. lookup j m.workspaces ≡ none)
  unfolding store persist audit
  Absent-IsKept j = record {
    by_change = λ id detail now f w m t e h.
        lookup-insert id j (f w) m.workspaces ∙ rw (not_found id j w m.workspaces e h) h;
    by_note = λ id kind detail now w m e h.
        lookup-insert id j (noted kind detail w) m.workspaces
        ∙ rw (not_found id j w m.workspaces e h) h;
  }

  -- Ids that are not used yet.
  abbrev Free : List String → Manager → Type 0
  Free ids m = All (λ id. lookup id m.workspaces ≡ none) ids

  Free-perform :
      (o : Op) (m : Manager) (ids : List String)
      → All (λ j. CreateKeeps sha (λ m'. lookup j m'.workspaces ≡ none) o m) ids
      → Free ids m
      → Free ids (perform sha o m)
  Free-perform o m [] c h = tt
  Free-perform o m (j ∷ ids) c h = (
    perform_kept sha (λ m'. lookup j m'.workspaces ≡ none) (Absent-IsKept j) o m c.0 h.0,
    Free-perform o m ids c.1 h.1,
  )

  created-Free :
      (id detail now : String) (w : Workspace) (m : Manager) (ids : List String)
      → elem id ids ≡ false
      → Free ids m
      → All (λ j. lookup j (store sha id detail now w m).workspaces ≡ none) ids
  unfolding elem store persist audit
  created-Free id detail now w m [] e h = tt
  created-Free id detail now w m (j ∷ ids) e h = (
    lookup-insert id j w m.workspaces ∙ ground (arith, h.0),
    created-Free id detail now w m ids (ground arith) h.1,
  )

  all_free : (ids : List String) → All (λ (j : String). Unit {0}) ids
  all_free [] = tt
  all_free (j ∷ ids) = (tt, all_free ids)

  step-Mirrored :
      (o : Op) (ids : List String) (m : Manager)
      → Distinct (with_new_id o ids)
      → Free (with_new_id o ids) m
      → Mirrored m
      → Distinct ids × Free ids (perform sha o m) × Mirrored (perform sha o m)
  step-Mirrored (create_op id now n) ids m d f h =
      let w = created_workspace m.root id now n in
      (
        d.1,
        Free-perform (create_op id now n) m ids (created-Free id "created" now w m ids d.0 f.1) f.1,
        perform_kept sha Mirrored Mirrored-IsKept (create_op id now n) m
            (created-Mirrored id now n m f.0 h) h,
      )
  step-Mirrored o ids m d f h =
      (d, Free-perform o m ids (all_free ids) f, perform_kept sha Mirrored Mirrored-IsKept o m tt h)

  run-Mirrored :
      (os : List Op) (m : Manager)
      → Distinct (new_ids os)
      → Free (new_ids os) m
      → Mirrored m
      → Mirrored (perform_all sha os m)
  unfolding perform_all
  run-Mirrored [] m d f h = h
  run-Mirrored (o ∷ os) m d f h =
      let s = step-Mirrored o (new_ids os) m d f h in run-Mirrored os (perform sha o m) s.0 s.1 s.2

-- The tables of a new file, and a manager that was initialized on them.
abbrev pub no_rows : Tables
no_rows = record { workspaces = []; audit = [] }

abbrev pub started : String → ℕ → ℕ → Manager
started root max_active ttl_hours = record {
  root = root;
  workspaces = [];
  db = some no_rows;
  max_active = max_active;
  ttl_hours = ttl_hours;
}

no_rows-IsMirrored : IsMirrored [] no_rows
unfolding lookup rows_for
no_rows-IsMirrored = record {
  held = [];
  written = refl;
  each_once = tt;
  same = λ k. refl;
  no_events = λ k e. refl;
}

nothing_free :
    (ids : List String) (m : Manager)
    → m.workspaces ≡ []
    → All (λ id. lookup id m.workspaces ≡ none) ids
unfolding lookup
nothing_free [] m e = tt
nothing_free (id ∷ ids) m e = (rw e refl, nothing_free ids m e)

recovered :
    (o : Option Tables) (d : Dict Workspace)
    → MirroredIn d o
    → (t : Tables) × (o ≡ some t) × IsMirrored d t
recovered none d h = absurd h
recovered (some t) d h = (t, refl, h)

-- A manager that was initialized on a new file has, after any sequence of calls whose new ids are
-- all different, tables on which another manager initializes without an error, with the same
-- workspace under every id: status, dates, commands, files, output and error included.
pub recover-perform_all :
    (sha : String → String) (root : String) (max_active ttl_hours : ℕ) (os : List Op)
    → Distinct (new_ids os)
    → let m = perform_all sha os (started root max_active ttl_hours) in
      (t : Tables) × (m' : Manager) × (m.db ≡ some t)
      × (initialize t (new root max_active ttl_hours) ≡ ok m')
      × ((id : String) → get id m' ≡ get id m)
unfolding initialize new get
recover-perform_all sha root max_active ttl_hours os d =
    let m = perform_all sha os (started root max_active ttl_hours) in
    let h =
      run-Mirrored sha os (started root max_active ttl_hours) d
        (nothing_free (new_ids os) (started root max_active ttl_hours) refl) no_rows-IsMirrored in
    let t = recovered m.db m.workspaces h in
    let l = load_from_db-IsMirrored m.workspaces t.0 t.2 in
    (
      t.0,
      record {
        root = root;
        workspaces = l.0;
        db = some t.0;
        max_active = max_active;
        ttl_hours = ttl_hours;
      },
      t.1,
      rw (l.1, ◌>>=◌) refl,
      l.2,
    )
