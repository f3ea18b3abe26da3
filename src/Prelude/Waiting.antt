-- ===== src/Prelude/Waiting.antt =====
-- Calls that wait for an answer, in the order in which they were made: an answer takes one out.
use agent_life_space.Prelude.Lists.{All, length}
use Prim.Native.Nat.{ℕ, zero, suc, ◌+◌}
use mathlib.Core.Path.{◌≡◌}
use native.Mathlib.Omega.{arith}
use mathlib.Core.Option.{Option, none, some}
use mathlib.Core.List.{List, [], ◌∷◌}

module _ {ℓ} {A : Type ℓ} where
  -- The nth element, and the list without it.
  unfoldable pub take_out : ℕ → List A → Option (A × List A)
  take_out n [] = none
  take_out zero (x ∷ xs) = some (x, xs)
  take_out (suc n) (x ∷ xs) = elim (take_out n xs) [ none ↦ none | some (y, ys) ↦ some (y, x ∷ ys) ]

  abbrev pub FoundAll {κ} : (A → Type κ) → Option (A × List A) → Type κ
  FoundAll P none = Unit
  FoundAll P (some (y, ys)) = P y × All P ys

  FoundAll-later {κ} :
      (P : A → Type κ) (x : A) (o : Option (A × List A))
      → P x
      → FoundAll P o
      → FoundAll P (elim o [ none ↦ none | some (y, ys) ↦ some (y, x ∷ ys) ])
  FoundAll-later P x none h f = tt
  FoundAll-later P x (some (y, ys)) h f = (f.0, (h, f.1))

  pub take_out-All {κ} :
      (P : A → Type κ) (n : ℕ) (xs : List A) → All P xs → FoundAll P (take_out n xs)
  unfolding take_out
  take_out-All P n [] h = tt
  take_out-All P zero (x ∷ xs) h = h
  take_out-All P (suc n) (x ∷ xs) h =
      FoundAll-later P x (take_out n xs) h.0 (take_out-All P n xs h.1)

  -- One element is out.
  abbrev pub Shorter : List A → Option (A × List A) → Type 0
  Shorter xs none = Unit
  Shorter xs (some (y, ys)) = length xs ≡ length ys + 1

  Shorter-later :
      (x : A) (xs : List A) (o : Option (A × List A))
      → Shorter xs o
      → Shorter (x ∷ xs) (elim o [ none ↦ none | some (y, ys) ↦ some (y, x ∷ ys) ])
  Shorter-later x xs none h = tt
  Shorter-later x xs (some (y, ys)) h = omega (arith, h)

  pub take_out-Shorter : (n : ℕ) (xs : List A) → Shorter xs (take_out n xs)
  unfolding take_out
  take_out-Shorter n [] = tt
  take_out-Shorter zero (x ∷ xs) = omega arith
  take_out-Shorter (suc n) (x ∷ xs) = Shorter-later x xs (take_out n xs) (take_out-Shorter n xs)
