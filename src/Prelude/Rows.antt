-- ===== src/Prelude/Rows.antt =====
-- SQLite tables with a text as primary key, in the order of their rows: INSERT OR REPLACE deletes the
-- row of an old key and appends the new one.
use Prim.Native.String.{String}
use mathlib.Core.Path.{◌≡◌, refl, ap, ◌∙◌, subst}
use mathlib.Core.Logic.{inl, inr}
use mathlib.Core.Bool.{false}
use mathlib.Core.Option.{none, some}
use mathlib.Core.List.{[], ◌∷◌, ◌++◌, map}
use native.Mathlib.Omega.{arith}
use agent_life_space.Prelude.Tests.{◌==◌, if◌then◌else◌, eq_of_==, ==_refl, Bool-cases}
use agent_life_space.Prelude.Lists.{elem, Distinct, Distinct-snoc}
use agent_life_space.Prelude.Dicts.{Dict, lookup, erase, keys, lookup-erase}

module _ {ℓ} {V : Type ℓ} where
  unfoldable pub replace : String → V → Dict V → Dict V
  unfolding erase
  replace k v d = erase k d ++ (k, v) ∷ []

  pub lookup-absent : (k : String) (d : Dict V) → elem k (keys d) ≡ false → lookup k d ≡ none
  unfolding elem lookup
  lookup-absent k [] h = refl
  lookup-absent k ((j, v) ∷ d) h = ground (arith, lookup-absent k d, eq_of_== j k, ==_refl j)

  lookup-append :
      (k : String) (d : Dict V) (j : String) (v : V)
      → lookup k (d ++ (j, v) ∷ [])
        ≡ elim (lookup k d) [ none ↦ if j == k then some v else none | some w ↦ some w ]
  unfolding lookup
  lookup-append k [] j v = refl
  lookup-append k ((i, w) ∷ d) j v = elim (Bool-cases (i == k)) [
    | inl e ↦ rw e refl
    | inr e ↦ rw e (lookup-append k d j v)
  ]

  pub lookup-replace :
      (k j : String) (v : V) (d : Dict V)
      → lookup j (replace k v d) ≡ (if k == j then some v else lookup j d)
  unfolding replace
  lookup-replace k j v d = lookup-append j (erase k d) k v ∙ ground (arith, lookup-erase k j d)

  elem-keys-erase :
      (j k : String) (d : Dict V) → elem j (keys d) ≡ false → elem j (keys (erase k d)) ≡ false
  unfolding erase elem
  elem-keys-erase j k [] h = refl
  elem-keys-erase j k ((i, w) ∷ d) h = ground (arith, elem-keys-erase j k d)

  erase_self : (k : String) (d : Dict V) → elem k (keys (erase k d)) ≡ false
  unfolding erase elem
  erase_self k [] = refl
  erase_self k ((i, w) ∷ d) = ground (arith, erase_self k d, eq_of_== k i, ==_refl k)

  Distinct-erase : (k : String) (d : Dict V) → Distinct (keys d) → Distinct (keys (erase k d))
  unfolding erase
  Distinct-erase k [] h = tt
  Distinct-erase k ((j, w) ∷ d) h = elim (Bool-cases (j == k)) [
    | inl e ↦ rw e (Distinct-erase k d h.1)
    | inr e ↦ rw e (elem-keys-erase j k d h.0, Distinct-erase k d h.1)
  ]

  keys-append : (d : Dict V) (k : String) (v : V) → keys (d ++ (k, v) ∷ []) ≡ keys d ++ k ∷ []
  keys-append [] k v = refl
  keys-append ((j, w) ∷ d) k v = ap (◌∷◌ j) (keys-append d k v)

  pub Distinct-replace :
      (k : String) (v : V) (d : Dict V) → Distinct (keys d) → Distinct (keys (replace k v d))
  unfolding replace
  Distinct-replace k v d h =
      rw (keys-append (erase k d) k v)
        (Distinct-snoc k (keys (erase k d)) (erase_self k d) (Distinct-erase k d h))

-- A key that is found is not one that is missing.
pub not_found {ℓ} :
    {V : Type ℓ} (id k : String) (v : V) (d : Dict V)
    → lookup id d ≡ some v
    → lookup k d ≡ none
    → (id == k) ≡ false
not_found id k v d found gone = elim (Bool-cases (id == k)) [
  | inl e ↦ absurd (let at_k = subst (λ i. lookup i d ≡ some v) (eq_of_== id k e) found in cc)
  | inr e ↦ e
]

-- The rows of a table of other values.
module _ {ℓ κ} {V : Type ℓ} {W : Type κ} (f : V → W) where
  abbrev pub mapped : Dict V → Dict W
  mapped d = map (λ e. (e.0, f e.1)) d

  mapped-erase : (k : String) (d : Dict V) → mapped (erase k d) ≡ erase k (mapped d)
  unfolding erase
  mapped-erase k [] = refl
  mapped-erase k ((j, v) ∷ d) = elim (Bool-cases (j == k)) [
    | inl e ↦ rw e (mapped-erase k d)
    | inr e ↦ rw e (ap (◌∷◌ (j, f v)) (mapped-erase k d))
  ]

  mapped-append :
      (d : Dict V) (k : String) (v : V) → mapped (d ++ (k, v) ∷ []) ≡ mapped d ++ (k, f v) ∷ []
  mapped-append [] k v = refl
  mapped-append ((j, w) ∷ d) k v = ap (◌∷◌ (j, f w)) (mapped-append d k v)

  pub mapped-replace :
      (k : String) (v : V) (d : Dict V) → mapped (replace k v d) ≡ replace k (f v) (mapped d)
  unfolding replace
  mapped-replace k v d =
      mapped-append (erase k d) k v ∙ ap (λ l. l ++ (k, f v) ∷ []) (mapped-erase k d)
