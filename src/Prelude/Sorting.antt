-- ===== src/Prelude/Sorting.antt =====
-- `xs.sort(key=key, reverse=True)`: stable, with the largest key first.
use mathlib.Core.Path.{◌≡◌, refl, sym, subst}
use mathlib.Core.Logic.{◌≢◌, ◌⊎◌, inl, inr}
use mathlib.Core.Bool.{Bool, true, false}
use mathlib.Core.Option.{Option, none, some}
use mathlib.Core.List.{List, [], ◌∷◌}
use native.Mathlib.Omega.{arith}
use agent_life_space.Prelude.Tests.{if◌then◌else◌, Bool-cases}
use agent_life_space.Prelude.Lists.{All}

-- The first element, if there is one.
abbrev pub first {ℓ} : {A : Type ℓ} → List A → Option A
first [] = none
first (x ∷ xs) = some x

-- Membership as a family.
pub data Member {ℓ} {A : Type ℓ} (a : A) : List A → Type ℓ where
  here : {xs : List A} → Member a (a ∷ xs)
  there : {x : A} {xs : List A} → Member a xs → Member a (x ∷ xs)

module _ {ℓ} {A : Type ℓ} where
  later : {r x : A} {xs : List A} → (r ≡ x) ⊎ Member r xs → Member r (x ∷ xs)
  later {x = x} {xs = xs} (inl same) = subst (λ r. Member r (x ∷ xs)) (sym same) here
  later (inr m) = there m

  step_over : {r m x : A} {xs : List A} → (r ≡ m) ⊎ Member r xs → (r ≡ m) ⊎ Member r (x ∷ xs)
  step_over (inl same) = inl same
  step_over (inr m) = inr (there m)

  some_injective : {m r : A} → some m ≡ some r → m ≡ r
  some_injective e = cc

-- `below x y` says that the key of `x` is smaller.
module _ {ℓ} {A : Type ℓ} (below : A → A → Bool) where
  unfoldable pub insert_desc : A → List A → List A
  insert_desc x [] = x ∷ []
  insert_desc x (y ∷ ys) = if below y x then x ∷ y ∷ ys else y ∷ insert_desc x ys

  unfoldable pub sort_from : List A → List A → List A
  unfolding insert_desc
  sort_from done [] = done
  sort_from done (x ∷ xs) = sort_from (insert_desc x done) xs

  unfoldable pub sort_desc : List A → List A
  unfolding sort_from
  sort_desc xs = sort_from [] xs

  -- A total preorder by the key on the elements with `P`: it fails at keys such as NaN.
  pub record IsPreorder {κ} (P : A → Type κ) : Type (ℓ ⊔ κ) where
    pub asym : (x y : A) → P x → P y → below x y ≡ true → below y x ≡ false
    pub trans :
        (x y z : A) → P x → P y → P z → below x y ≡ false → below y z ≡ false → below x z ≡ false

  -- The first of the largest elements, by one pass.
  abbrev pick : Option A → A → Option A
  pick none x = some x
  pick (some m) x = if below m x then some x else some m

  best : Option A → List A → Option A
  best h [] = h
  best h (x ∷ xs) = best (pick h x) xs

  first-insert_desc : (x : A) (ys : List A) → first (insert_desc x ys) ≡ pick (first ys) x
  unfolding insert_desc
  first-insert_desc x [] = refl
  first-insert_desc x (y ∷ ys) = ground arith

  first-sort_from : (done xs : List A) → first (sort_from done xs) ≡ best (first done) xs
  unfolding sort_from best
  first-sort_from done [] = refl
  first-sort_from done (x ∷ xs) =
      rw (← first-insert_desc x done) (first-sort_from (insert_desc x done) xs)

  best-some : (m : A) (xs : List A) → best (some m) xs ≢ none
  unfolding best
  best-some m [] e = absurd (cc)
  best-some m (x ∷ xs) e = elim (Bool-cases (below m x)) [
    | inl less ↦ best-some x xs (rw less at e)
    | inr more ↦ best-some m xs (rw more at e)
  ]

  -- Only the empty list has no first element when it is sorted.
  pub sort_desc-empty : (xs : List A) → first (sort_desc xs) ≡ none → xs ≡ []
  unfolding sort_desc best
  sort_desc-empty [] e = refl
  sort_desc-empty (x ∷ xs) e = absurd (best-some x xs (rw first-sort_from at e))

  module _ {κ} (P : A → Type κ) (order : IsPreorder P) where
    below_self : (m : A) → P m → below m m ≡ false
    below_self m p = elim (Bool-cases (below m m)) [
      | inl less ↦ order.asym m m p p less
      | inr same ↦ same
    ]

    -- The result `r` of a pass that starts from `m`.
    record IsBest (m r : A) (xs : List A) : Type (ℓ ⊔ κ) where
      fit : P r
      one_of_them : (r ≡ m) ⊎ Member r xs
      not_below_start : below r m ≡ false
      not_below : All (λ x. below r x ≡ false) xs

    best-IsBest :
        (m r : A) (xs : List A) → P m → All P xs → best (some m) xs ≡ some r → IsBest m r xs
    unfolding best
    best-IsBest m r [] p ps e = record {
      fit = subst P (some_injective e) p;
      one_of_them = inl (sym (some_injective e));
      not_below_start = subst (λ i. below i m ≡ false) (some_injective e) (below_self m p);
      not_below = tt;
    }
    best-IsBest m r (x ∷ xs) p ps e = elim (Bool-cases (below m x)) [
      | inl less ↦
          let b = best-IsBest x r xs ps.0 ps.1 (rw less at e) in
          record {
            fit = b.fit;
            one_of_them = inr (later b.one_of_them);
            not_below_start =
                order.trans r x m b.fit ps.0 p b.not_below_start (order.asym m x p ps.0 less);
            not_below = (b.not_below_start, b.not_below);
          }
      | inr more ↦
          let b = best-IsBest m r xs p ps.1 (rw more at e) in
          record {
            fit = b.fit;
            one_of_them = step_over b.one_of_them;
            not_below_start = b.not_below_start;
            not_below = (order.trans r m x b.fit p ps.0 b.not_below_start more, b.not_below);
          }
    ]

    -- The first element of a sorted list is one of the elements, and none has a larger key.
    pub first-sort_desc :
        (xs : List A) (r : A)
        → All P xs
        → first (sort_desc xs) ≡ some r
        → Member r xs × All (λ x. below r x ≡ false) xs
    unfolding sort_desc best
    first-sort_desc [] r ps e = absurd (cc)
    first-sort_desc (x ∷ xs) r ps e =
        let b = best-IsBest x r xs ps.0 ps.1 (rw first-sort_from at e) in
        (later b.one_of_them, (b.not_below_start, b.not_below))
