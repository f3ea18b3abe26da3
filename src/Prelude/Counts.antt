-- ===== src/Prelude/Counts.antt =====
-- The idiom `by[key] = by.get(key, 0) + 1` in a loop over records.
use Prim.Native.Nat.{ℕ, ◌+◌}
use Prim.Native.String.{String}
use mathlib.Core.Path.{◌≡◌}
use mathlib.Core.Option.{Option, none, some}
use mathlib.Core.List.{List, [], ◌∷◌}
use native.Mathlib.Omega.{arith}
use agent_life_space.Prelude.Tests.{◌==◌, eq_of_==}
use agent_life_space.Prelude.Lists.{length, filter}
use agent_life_space.Prelude.Dicts.{Dict, lookup, insert, lookup-insert}

-- d.get(key, 0)
abbrev pub or_zero : Option ℕ → ℕ
or_zero none = 0
or_zero (some n) = n

unfoldable pub bump : String → Dict ℕ → Dict ℕ
bump k d = insert k (or_zero (lookup k d) + 1) d

module _ {ℓ} {A : Type ℓ} where
  unfoldable pub count_from : (A → String) → List A → Dict ℕ → Dict ℕ
  unfolding bump
  count_from key [] d = d
  count_from key (x ∷ xs) d = count_from key xs (bump (key x) d)

  -- The count under a key is the number of records with the key.
  pub lookup-count_from :
      (key : A → String) (k : String) (xs : List A) (d : Dict ℕ)
      → or_zero (lookup k (count_from key xs d))
        ≡ or_zero (lookup k d) + length (filter (λ x. key x == k) xs)
  unfolding count_from
  lookup-count_from key k [] d = omega arith
  lookup-count_from key k (x ∷ xs) d = ground (
    arith,
    lookup-count_from key k xs (bump (key x) d),
    lookup-insert (key x) k (or_zero (lookup (key x) d) + 1) d,
    eq_of_== (key x) k,
  )
