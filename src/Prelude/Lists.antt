-- ===== src/Prelude/Lists.antt =====
-- Lists measured by native numbers, and predicates on lists by recursion.
use Prim.Native.Nat.{ℕ, zero, suc, ◌+◌, ◌-◌, ◌≤◌, max}
use Prim.Native.String.{String}
use mathlib.Core.Path.{◌≡◌, refl}
use mathlib.Core.Logic.{inl, inr}
use mathlib.Core.Bool.{Bool, true, false, ◌&&◌, ◌||◌}
use mathlib.Core.List.{List, [], ◌∷◌, ◌++◌}
use native.Mathlib.Omega.{arith}
use agent_life_space.Prelude.Tests.{◌==◌, ltb, Bool-cases, if◌then◌else◌, eq_of_==, ==_refl}

module _ {ℓ} {A : Type ℓ} where
  abbrev pub length : List A → ℕ
  length [] = 0
  length (x ∷ xs) = suc (length xs)

  abbrev pub take : ℕ → List A → List A
  take zero xs = []
  take (suc n) [] = []
  take (suc n) (x ∷ xs) = x ∷ take n xs

  abbrev pub drop : ℕ → List A → List A
  drop zero xs = xs
  drop (suc n) [] = []
  drop (suc n) (x ∷ xs) = drop n xs

  -- A comprehension `[x for x in xs if test(x)]`.
  abbrev pub filter : (A → Bool) → List A → List A
  filter test [] = []
  filter test (x ∷ xs) = let rest = filter test xs in if test x then x ∷ rest else rest

  -- Python's `all(test(x) for x in xs)`.
  abbrev pub all : (A → Bool) → List A → Bool
  all test [] = true
  all test (x ∷ xs) = test x && all test xs

  pub length-append : (xs ys : List A) → length (xs ++ ys) ≡ length xs + length ys
  length-append [] ys = omega arith
  length-append (x ∷ xs) ys = omega (arith, length-append xs ys)

  -- `xs.append(x)`, and `xs.pop(0)` where the list has then more than `limit` entries.
  unfoldable pub push_bounded : ℕ → A → List A → List A
  push_bounded limit x xs =
      let grown = xs ++ x ∷ [] in if ltb limit (length grown) then drop 1 grown else grown

  pub length-drop_one : (xs : List A) → length (drop 1 xs) + 1 ≤ max 1 (length xs)
  length-drop_one [] = omega arith
  length-drop_one (x ∷ xs) = omega arith

  pub length-push_bounded :
      (limit : ℕ) (x : A) (xs : List A)
      → length xs ≤ limit
      → length (push_bounded limit x xs) ≤ limit
  unfolding push_bounded
  length-push_bounded limit x xs h = elim (Bool-cases (ltb limit (length (xs ++ x ∷ [])))) [
    | inl over ↦ rw over (omega (arith, length-drop_one (xs ++ x ∷ []), length-append xs (x ∷ [])))
    | inr fits ↦ rw fits (ground (arith, length-append xs (x ∷ [])))
  ]

  pub length-filter-le : (test : A → Bool) (xs : List A) → length (filter test xs) ≤ length xs
  length-filter-le test [] = omega arith
  length-filter-le test (x ∷ xs) = ground (arith, length-filter-le test xs)

  -- `xs[-limit:]`, where `-0` selects everything.
  unfoldable pub newest : ℕ → List A → List A
  newest zero xs = xs
  newest (suc n) xs = drop (length xs - suc n) xs

  -- `P` holds of every element.
  abbrev pub All {κ} : (A → Type κ) → List A → Type κ
  All P [] = Unit
  All P (x ∷ xs) = P x × All P xs

module _ {ℓ κ} {A : Type ℓ} (P : A → Type κ) where
  pub All-append : (xs ys : List A) → All P xs → All P ys → All P (xs ++ ys)
  All-append [] ys h k = k
  All-append (x ∷ xs) ys h k = (h.0, All-append xs ys h.1 k)

  pub All-drop : (n : ℕ) (xs : List A) → All P xs → All P (drop n xs)
  All-drop zero xs h = h
  All-drop (suc n) [] h = h
  All-drop (suc n) (x ∷ xs) h = All-drop n xs h.1

  pub All-push_bounded :
      (limit : ℕ) (x : A) (xs : List A) → All P xs → P x → All P (push_bounded limit x xs)
  unfolding push_bounded
  All-push_bounded limit x xs h p = elim (Bool-cases (ltb limit (length (xs ++ x ∷ [])))) [
    | inl over ↦ rw over (All-drop 1 (xs ++ x ∷ []) (All-append xs (x ∷ []) h (p, tt)))
    | inr fits ↦ rw fits (All-append xs (x ∷ []) h (p, tt))
  ]

module _ {ℓ κ μ} {A : Type ℓ} (P : A → Type κ) (Q : A → Type μ) where
  pub All-implies : ((x : A) → P x → Q x) → (xs : List A) → All P xs → All Q xs
  All-implies f [] h = tt
  All-implies f (x ∷ xs) h = (f x h.0, All-implies f xs h.1)

-- Python's `x in xs` for a list of strings.
unfoldable pub elem : String → List String → Bool
elem s [] = false
elem s (x ∷ xs) = s == x || elem s xs

-- No string stands twice in the list.
abbrev pub Distinct : List String → Type 0
Distinct [] = Unit
Distinct (x ∷ xs) = (elem x xs ≡ false) × Distinct xs

pub elem-append : (s : String) (xs ys : List String) → elem s (xs ++ ys) ≡ (elem s xs || elem s ys)
unfolding elem
elem-append s [] ys = refl
elem-append s (x ∷ xs) ys = ground (arith, elem-append s xs ys)

pub Distinct-snoc :
    (s : String) (xs : List String) → elem s xs ≡ false → Distinct xs → Distinct (xs ++ s ∷ [])
unfolding elem
Distinct-snoc s [] h d = (refl, tt)
Distinct-snoc s (x ∷ xs) h d = (
  ground (arith, elem-append x xs (s ∷ []), eq_of_== x s, ==_refl s),
  Distinct-snoc s xs (ground arith) d.1,
)
