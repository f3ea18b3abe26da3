-- ===== src/Tasks/Manager/Reports.antt =====
-- agent/tasks/manager.py: what the queries answer.
use agent_life_space.Prelude.{
  Bool, true, false, ◌≡◌, refl, Option, none, some, List, [], ◌∷◌, arith, values, filter, All, ◌&&◌,
  Bool-cases, Option-cases, inl, inr,
}
use agent_life_space.Prelude.Float.{Float}
use agent_life_space.Prelude.Sorting.{
  Member, here, there, IsPreorder, first, sort_desc, first-sort_desc, sort_desc-empty,
}
use agent_life_space.Tasks.Task.{Task, is_queued}
use agent_life_space.Tasks.Manager.{Manager}
use agent_life_space.Tasks.Manager.Queries.{score, get_next_task}

All-of_members {ℓ κ} :
    {A : Type ℓ} {P : A → Type κ} (xs : List A) → ((r : A) → Member r xs → P r) → All P xs
All-of_members [] f = tt
All-of_members (x ∷ xs) f = (f x here, All-of_members xs (λ r m. f r (there m)))

module _ {ℓ} {A : Type ℓ} (test : A → Bool) where
  kept_member :
      {r x : A} {xs ys : List A}
      → test x ≡ true
      → (Member r ys → (test r ≡ true) × Member r xs)
      → Member r (x ∷ ys)
      → (test r ≡ true) × Member r (x ∷ xs)
  kept_member kept rest here = (kept, here)
  kept_member kept rest (there m) = let (t, n) = rest m in (t, there n)

  Member-filter : (r : A) (xs : List A) → Member r (filter test xs) → (test r ≡ true) × Member r xs
  Member-filter r [] m = elim m [ ]
  Member-filter r (x ∷ xs) m = elim (Bool-cases (test x)) [
    | inl kept ↦ kept_member kept (Member-filter r xs) (rw kept at m)
    | inr left ↦ let (t, n) = Member-filter r xs (rw left at m) in (t, there n)
  ]

  All-Member-filter : (xs : List A) → All (λ r. Member r xs) (filter test xs)
  All-Member-filter xs = All-of_members (filter test xs) (λ r m. (Member-filter r xs m).1)

  All-filter :
      (p : A → Bool) (xs : List A)
      → All (λ x. p x ≡ false) (filter test xs)
      → All (λ x. (test x && p x) ≡ false) xs
  All-filter p [] h = tt
  All-filter p (x ∷ xs) h = elim (Bool-cases (test x)) [
    | inl kept ↦ let g = (rw kept at h) in (rw kept g.0, All-filter p xs g.1)
    | inr left ↦ (rw left refl, All-filter p xs (rw left at h))
  ]

  none-filter : (xs : List A) → filter test xs ≡ [] → All (λ x. test x ≡ false) xs
  none-filter [] e = tt
  none-filter (x ∷ xs) e = elim (Bool-cases (test x)) [
    | inl kept ↦ absurd (ground arith)
    | inr left ↦ (left, none-filter xs (rw left at e))
  ]

module _ (ops : Float) where
  open ops use {Num, lt}

  -- The answer of the query over the given tasks.
  abbrev pub IsNext : Option (Task Num) → List (Task Num) → Type 0
  IsNext none ts = All (λ (t : Task Num). is_queued t.status ≡ false) ts
  IsNext (some r) ts =
      (is_queued r.status ≡ true)
      × Member r ts
      × All (λ (t : Task Num). (is_queued t.status && lt (score ops r) (score ops t)) ≡ false) ts

  -- Where the comparison of floats orders the scores of the manager's tasks, the next task is a
  -- queued one that no queued task has a higher score than. There is none only where no task is
  -- queued.
  pub get_next_task-IsNext :
      (s : Manager Num)
      → IsPreorder
          (λ (t u : Task Num). lt (score ops t) (score ops u))
          (λ t. Member t (values s.tasks))
      → IsNext (get_next_task ops s) (values s.tasks)
  unfolding get_next_task
  get_next_task-IsNext s order =
      let queued_ones = filter (λ (t : Task Num). is_queued t.status) (values s.tasks) in
      let below = λ (t u : Task Num). lt (score ops t) (score ops u) in
      elim (Option-cases (first (sort_desc below queued_ones))) [
        | inl empty ↦
            rw empty (none-filter _ (values s.tasks) (sort_desc-empty below queued_ones empty))
        | inr (r, e) ↦
            let (member, best) =
              first-sort_desc below (λ t. Member t (values s.tasks)) order queued_ones r
                (All-Member-filter _ (values s.tasks)) e in
            let (fit, place) = Member-filter _ r (values s.tasks) member in
            rw e (fit, place, All-filter _ _ (values s.tasks) best)
      ]
