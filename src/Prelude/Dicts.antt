-- ===== src/Prelude/Dicts.antt =====
-- Python's `dict` with string keys, in insertion order: a new key goes to the end, and an
-- assignment to an old key keeps its place.
use Prim.Native.Nat.{◌+◌, ◌≤◌}
use Prim.Native.String.{String}
use mathlib.Core.Path.{◌≡◌, refl, sym, subst}
use mathlib.Core.Logic.{inl, inr}
use mathlib.Core.Bool.{◌||◌}
use mathlib.Core.Option.{Option, none, some}
use mathlib.Core.List.{List, [], ◌∷◌, map}
use native.Mathlib.Omega.{arith}
use agent_life_space.Prelude.Tests.{◌==◌, if◌then◌else◌, eq_of_==, ==_refl, Bool-cases}
use agent_life_space.Prelude.Lists.{length, elem, Distinct}

abbrev pub Dict {ℓ} : Type ℓ → Type ℓ
Dict V = List (String × V)

module _ {ℓ} {V : Type ℓ} where
  -- d.get(k)
  unfoldable pub lookup : String → Dict V → Option V
  lookup k [] = none
  lookup k ((j, v) ∷ d) = if j == k then some v else lookup k d

  -- d[k] = v
  unfoldable pub insert : String → V → Dict V → Dict V
  insert k v [] = (k, v) ∷ []
  insert k v ((j, w) ∷ d) = if j == k then (j, v) ∷ d else (j, w) ∷ insert k v d

  -- d.pop(k, None), del d[k]
  unfoldable pub erase : String → Dict V → Dict V
  erase k [] = []
  erase k ((j, w) ∷ d) = let rest = erase k d in if j == k then rest else (j, w) ∷ rest

  -- list(d.values())
  abbrev pub values : Dict V → List V
  values d = map (λ e. e.1) d

  -- list(d.keys())
  abbrev pub keys : Dict V → List String
  keys d = map (λ e. e.0) d

  pub lookup-insert :
      (k j : String) (v : V) (d : Dict V)
      → lookup j (insert k v d) ≡ (if k == j then some v else lookup j d)
  unfolding lookup insert
  lookup-insert k j v [] = refl
  lookup-insert k j v ((i, w) ∷ d) =
      ground
        (arith, eq_of_== i k, eq_of_== k j, ==_refl i, ==_refl k, ==_refl j, lookup-insert k j v d)

  pub lookup-erase :
      (k j : String) (d : Dict V) → lookup j (erase k d) ≡ (if k == j then none else lookup j d)
  unfolding lookup erase
  lookup-erase k j [] = ground arith
  lookup-erase k j ((i, w) ∷ d) =
      ground
        (arith, eq_of_== i k, eq_of_== k j, ==_refl i, ==_refl k, ==_refl j, lookup-erase k j d)

  pub lookup-insert_self : (k : String) (v : V) (d : Dict V) → lookup k (insert k v d) ≡ some v
  lookup-insert_self k v d = simp (lookup-insert, ==_refl)

  pub lookup-erase_self : (k : String) (d : Dict V) → lookup k (erase k d) ≡ none
  lookup-erase_self k d = simp (lookup-erase, ==_refl)

  pub length-insert-le : (k : String) (v : V) (d : Dict V) → length (insert k v d) ≤ length d + 1
  unfolding insert
  length-insert-le k v [] = omega arith
  length-insert-le k v ((j, w) ∷ d) = ground (arith, length-insert-le k v d)

  pub length-erase-le : (k : String) (d : Dict V) → length (erase k d) ≤ length d
  unfolding erase
  length-erase-le k [] = omega arith
  length-erase-le k ((j, w) ∷ d) = ground (arith, length-erase-le k d)

  elem-keys-insert :
      (j k : String) (v : V) (d : Dict V)
      → elem j (keys (insert k v d)) ≡ (j == k || elem j (keys d))
  unfolding insert elem
  elem-keys-insert j k v [] = refl
  elem-keys-insert j k v ((i, w) ∷ d) = ground (arith, elem-keys-insert j k v d, eq_of_== i k)

  pub Distinct-insert :
      (k : String) (v : V) (d : Dict V) → Distinct (keys d) → Distinct (keys (insert k v d))
  unfolding insert elem
  Distinct-insert k v [] h = (refl, tt)
  Distinct-insert k v ((i, w) ∷ d) h = elim (Bool-cases (i == k)) [
    | inl same ↦ rw same h
    | inr other ↦ rw other (rw (elem-keys-insert, other) h.0, Distinct-insert k v d h.1)
  ]

  -- `P` holds of every key with its value.
  abbrev pub AllIn {κ} : (String → V → Type κ) → Dict V → Type κ
  AllIn P [] = Unit
  AllIn P ((k, v) ∷ d) = P k v × AllIn P d

module _ {ℓ κ} {V : Type ℓ} (P : String → V → Type κ) where
  pub AllIn-lookup : (k : String) (v : V) (d : Dict V) → AllIn P d → lookup k d ≡ some v → P k v
  unfolding lookup
  AllIn-lookup k v [] h e = absurd (cc)
  AllIn-lookup k v ((j, w) ∷ d) h e = elim (Bool-cases (j == k)) [
    | inl same ↦
        let found : w ≡ v = ground arith in
        subst (λ i. P i v) (eq_of_== j k same) (subst (P j) found h.0)
    | inr other ↦ AllIn-lookup k v d h.1 (rw other at e)
  ]

  pub AllIn-insert : (k : String) (v : V) (d : Dict V) → P k v → AllIn P d → AllIn P (insert k v d)
  unfolding insert
  AllIn-insert k v [] p h = (p, tt)
  AllIn-insert k v ((j, w) ∷ d) p h = elim (Bool-cases (j == k)) [
    | inl same ↦ rw same (subst (λ i. P i v) (sym (eq_of_== j k same)) p, h.1)
    | inr other ↦ rw other (h.0, AllIn-insert k v d p h.1)
  ]

  pub AllIn-erase : (k : String) (d : Dict V) → AllIn P d → AllIn P (erase k d)
  unfolding erase
  AllIn-erase k [] h = tt
  AllIn-erase k ((j, w) ∷ d) h = elim (Bool-cases (j == k)) [
    | inl same ↦ rw same (AllIn-erase k d h.1)
    | inr other ↦ rw other (h.0, AllIn-erase k d h.1)
  ]

  pub AllIn-weaken {μ} :
      (Q : String → V → Type μ) (d : Dict V)
      → ((k : String) (v : V) → P k v → Q k v)
      → AllIn P d
      → AllIn Q d
  AllIn-weaken Q [] w h = tt
  AllIn-weaken Q ((k, v) ∷ d) w h = (w k v h.0, AllIn-weaken Q d w h.1)
