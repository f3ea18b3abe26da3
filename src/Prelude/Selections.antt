-- ===== src/Prelude/Selections.antt =====
-- Sums and selections over the values of a dictionary, and what an assignment does to them.
use Prim.Native.String.{String}
use mathlib.Core.Path.{◌≡◌}
use mathlib.Core.Bool.{Bool, true, false}
use mathlib.Core.Option.{none, some}
use mathlib.Core.List.{List, [], ◌∷◌, map}
use native.Mathlib.Omega.{arith}
use agent_life_space.Prelude.Lists.{filter}
use agent_life_space.Prelude.Dicts.{Dict, lookup, insert, values}

module _ {ℓ κ} {V : Type ℓ} {A : Type κ} where
  -- `[f(v) for v in d.values() if test(v)]`
  abbrev pub select : (V → Bool) → (V → A) → Dict V → List A
  select test f d = map f (filter test (values d))

  -- A value that is replaced by one that the selection does not tell apart.
  pub select-insert_same :
      (test : V → Bool) (f : V → A) (k : String) (v old : V) (d : Dict V)
      → lookup k d ≡ some old
      → test v ≡ test old
      → (test v ≡ true → f v ≡ f old)
      → select test f (insert k v d) ≡ select test f d
  unfolding lookup insert
  select-insert_same test f k v old [] e same amount = ground arith
  select-insert_same test f k v old ((j, w) ∷ d) e same amount =
      ground (arith, select-insert_same test f k v old d)

  -- A new value that the selection leaves out.
  pub select-insert_new :
      (test : V → Bool) (f : V → A) (k : String) (v : V) (d : Dict V)
      → lookup k d ≡ none
      → test v ≡ false
      → select test f (insert k v d) ≡ select test f d
  unfolding lookup insert
  select-insert_new test f k v [] e out = ground arith
  select-insert_new test f k v ((j, w) ∷ d) e out = ground (arith, select-insert_new test f k v d)
