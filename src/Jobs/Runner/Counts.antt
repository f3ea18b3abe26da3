-- ===== src/Jobs/Runner/Counts.antt =====
-- agent/core/job_runner.py: how many coroutines run, and how many records the dictionaries have.
use agent_life_space.Prelude.{
  if◌then◌else◌, lt→leb, refl, some, ℕ, ◌+◌, ◌≤◌, String, Bool, true, false, ◌≡◌, some, [], ◌∷◌,
  arith, Dict, lookup, insert, erase, values, length, drop, filter, leb, Bool-cases, inl, inr,
  length-insert-le, length-drop_one,
}
use agent_life_space.Jobs.Record.{JobRecord}
use agent_life_space.Jobs.Runner.{store_bounded, or_kept}

module _ {ℓ} {V : Type ℓ} where
  pub length-insert_present :
      (k : String) (v w : V) (d : Dict V) → lookup k d ≡ some w → length (insert k v d) ≤ length d
  unfolding lookup insert
  length-insert_present k v w [] e = absurd (cc)
  length-insert_present k v w ((j, u) ∷ d) e = ground (arith, length-insert_present k v w d)

  length-erase-le : (k : String) (d : Dict V) → length (erase k d) ≤ length d
  unfolding erase
  length-erase-le k [] = omega arith
  length-erase-le k ((j, u) ∷ d) = ground (arith, length-erase-le k d)

  pub length-erase_present :
      (k : String) (w : V) (d : Dict V) → lookup k d ≡ some w → length (erase k d) + 1 ≤ length d
  unfolding lookup erase
  length-erase_present k w [] e = absurd (cc)
  length-erase_present k w ((j, u) ∷ d) e =
      ground (arith, length-erase_present k w d, length-erase-le k d)

module _ {ℓ} {V : Type ℓ} (test : V → Bool) where
  abbrev pub count : Dict V → ℕ
  count d = length (filter test (values d))

  pub count-insert : (k : String) (v : V) (d : Dict V) → count (insert k v d) ≤ count d + 1
  unfolding insert
  count-insert k v [] = ground arith
  count-insert k v ((j, u) ∷ d) = ground (arith, count-insert k v d)

  pub count-insert_idle :
      (k : String) (v : V) (d : Dict V) → test v ≡ false → count (insert k v d) ≤ count d
  unfolding insert
  count-insert_idle k v [] e = ground arith
  count-insert_idle k v ((j, u) ∷ d) e = ground (arith, count-insert_idle k v d)

  pub count-insert_old :
      (k : String) (v w : V) (d : Dict V)
      → lookup k d ≡ some w
      → test w ≡ true
      → count (insert k v d) ≤ count d
  unfolding lookup insert
  count-insert_old k v w [] e t = absurd (cc)
  count-insert_old k v w ((j, u) ∷ d) e t = ground (arith, count-insert_old k v w d)

  pub count-erase : (k : String) (d : Dict V) → count (erase k d) ≤ count d
  unfolding erase
  count-erase k [] = omega arith
  count-erase k ((j, u) ∷ d) = ground (arith, count-erase k d)

module _ {F V : Type 0} where
  -- With a positive bound, storing does not raise.
  pub store_bounded-some :
      (limit : ℕ) (id : String) (r : JobRecord F V) (d : Dict (JobRecord F V))
      → 1 ≤ limit
      → store_bounded limit id r d
        ≡ some (insert id r (if leb limit (length d) then drop 1 d else d))
  unfolding store_bounded
  store_bounded-some limit id r [] some_ = rw (lt→leb limit 0 some_) refl
  store_bounded-some limit id r (x ∷ d) some_ = elim (Bool-cases (leb limit (length (x ∷ d)))) [
    | inl full ↦ rw full refl
    | inr free ↦ rw free refl
  ]

  pub length-store_bounded :
      (limit : ℕ) (id : String) (r : JobRecord F V) (d : Dict (JobRecord F V))
      → 1 ≤ limit
      → length d ≤ limit
      → length (or_kept d (store_bounded limit id r d)) ≤ limit
  length-store_bounded limit id r d some_ h =
      rw (store_bounded-some limit id r d some_) (elim (Bool-cases (leb limit (length d))) [
        | inl full ↦ rw full (omega (arith, length-insert-le id r (drop 1 d), length-drop_one d))
        | inr free ↦ rw free (ground (arith, length-insert-le id r d))
      ])
