-- ===== src/Routing/Router/Rows.antt =====
-- agent/core/router.py: the ids that a table of pending messages covers, and how they change.
use agent_life_space.Prelude.{
  zero, suc, [], ◌++◌, ap, ◌==◌, elem-append, Bool-cases, inl, inr, ℕ, String, Bool, true, false,
  Option, none, some, List, ◌∷◌, ◌≡◌, refl, elem, ◌||◌, Dict, lookup, lookup-erase, eq_of_==,
  ==_refl, arith,
}
use agent_life_space.Prelude.Waiting.{take_out}
use agent_life_space.Prelude.Rows.{lookup-replace}
use agent_life_space.Routing.Message.{Message}
use agent_life_space.Routing.Queue.{Entry}
use agent_life_space.Routing.Persistence.{PendingRow, store_row, remove_row}

module _ {F : Type 0} where
  abbrev pub is_row : Option (PendingRow F) → Bool
  is_row none = false
  is_row (some row) = true

  abbrev pub has_row : String → Option (Dict (PendingRow F)) → Bool
  has_row id none = false
  has_row id (some rows) = is_row (lookup id rows)

  abbrev pub is_open : Option (Dict (PendingRow F)) → Bool
  is_open none = false
  is_open (some rows) = true

  -- A message of the id was delivered, or there is a row.
  abbrev pub covered : List String → Option (Dict (PendingRow F)) → String → Bool
  covered ids t id = elem id ids || has_row id t

  abbrev pub Safe : List String → Option (Dict (PendingRow F)) → Message F → Type 0
  Safe ids t m = covered ids t m.id ≡ true

  abbrev pub SafeEntry : List String → Option (Dict (PendingRow F)) → Entry F → Type 0
  SafeEntry ids t e = Safe ids t e.message

  -- What is open stays open, and nothing that is covered gets lost.
  abbrev pub Grows :
      List String
      → Option (Dict (PendingRow F))
      → List String
      → Option (Dict (PendingRow F))
      → Type 0
  Grows ids t ids' t' =
      (is_open t ≡ true → is_open t' ≡ true)
      × ((id : String) → covered ids t id ≡ true → covered ids' t' id ≡ true)

  pub store_row-Grows :
      (ids : List String) (id : String) (e : Entry F) (now : ℕ) (t : Option (Dict (PendingRow F)))
      → Grows ids t ids (store_row id e now t)
  unfolding store_row
  store_row-Grows ids id e now none = (λ h. h, λ k h. h)
  store_row-Grows ids id e now (some rows) = (
    λ h. refl,
    λ k h. ground (arith, lookup-replace id k (record { entry = e; enqueued_at = now }) rows),
  )

  pub has_row-store_row :
      (id : String) (e : Entry F) (now : ℕ) (t : Option (Dict (PendingRow F)))
      → is_open t ≡ true
      → has_row id (store_row id e now t) ≡ true
  unfolding store_row
  has_row-store_row id e now none h = ground (arith, h)
  has_row-store_row id e now (some rows) h =
      ground
        (arith, ==_refl id, lookup-replace id id (record { entry = e; enqueued_at = now }) rows)

  pub remove_row-Grows :
      (ids : List String) (id : String) (t : Option (Dict (PendingRow F)))
      → Grows ids t (id ∷ ids) (remove_row id t)
  unfolding remove_row elem
  remove_row-Grows ids id none = (λ h. h, λ k h. ground (arith, h))
  remove_row-Grows ids id (some rows) = (
    λ h. refl,
    λ k h. ground (arith, h, lookup-erase id k rows, eq_of_== id k, eq_of_== k id, ==_refl id),
  )

  pub same_table : (ids : List String) (t : Option (Dict (PendingRow F))) → Grows ids t ids t
  same_table ids t = (λ h. h, λ k h. h)

  -- The ids of entries whose rows are being written, after the ids of what was delivered.
  abbrev pub ids_in : List (Entry F) → List String
  ids_in [] = []
  ids_in (e ∷ es) = e.message.id ∷ ids_in es

  abbrev pub known : List String → List (Entry F) → List String
  known ids es = ids ++ ids_in es

  ids_in-append :
      (es : List (Entry F)) (e : Entry F) → ids_in (es ++ e ∷ []) ≡ ids_in es ++ e.message.id ∷ []
  ids_in-append [] e = refl
  ids_in-append (x ∷ es) e = ap (◌∷◌ x.message.id) (ids_in-append es e)

  elem-known-more :
      (ids : List String) (es : List (Entry F)) (e : Entry F) (k : String)
      → elem k (known ids (es ++ e ∷ []))
        ≡ (elem k ids || (elem k (ids_in es) || k == e.message.id))
  unfolding elem
  elem-known-more ids es e k =
      rw (elem-append k ids (ids_in (es ++ e ∷ []))) (
        rw (ids_in-append es e) (rw (elem-append k (ids_in es) (e.message.id ∷ [])) (ground arith)))

  pub known-Grows :
      (ids : List String) (es : List (Entry F)) (e : Entry F) (t : Option (Dict (PendingRow F)))
      → Grows (known ids es) t (known ids (es ++ e ∷ [])) t
  known-Grows ids es e t =
      (λ h. h, λ k h. ground (arith, h, elem-known-more ids es e k, elem-append k ids (ids_in es)))

  pub known-new :
      (ids : List String) (es : List (Entry F)) (e : Entry F)
      → elem e.message.id (known ids (es ++ e ∷ [])) ≡ true
  known-new ids es e = ground (arith, elem-known-more ids es e e.message.id, ==_refl e.message.id)

  -- An entry that is taken out has its id, and the others have theirs.
  abbrev pub Splits : List (Entry F) → Option (Entry F × List (Entry F)) → Type 0
  Splits es none = Unit
  Splits es (some (e, rest)) =
      (k : String) → elem k (ids_in es) ≡ true → (k == e.message.id || elem k (ids_in rest)) ≡ true

  Splits-later :
      (x : Entry F) (es : List (Entry F)) (o : Option (Entry F × List (Entry F)))
      → Splits es o
      → Splits (x ∷ es) (elim o [ none ↦ none | some (y, ys) ↦ some (y, x ∷ ys) ])
  unfolding elem
  Splits-later x es none h = tt
  Splits-later x es (some (y, ys)) h = λ k c. ground (arith, c, h k)

  pub take_out-Splits : (n : ℕ) (es : List (Entry F)) → Splits es (take_out n es)
  unfolding take_out elem
  take_out-Splits n [] = tt
  take_out-Splits zero (x ∷ es) = λ k c. c
  take_out-Splits (suc n) (x ∷ es) = Splits-later x es (take_out n es) (take_out-Splits n es)

  -- A row that is written covers its id.
  pub written-Grows :
      (ids : List String) (es rest : List (Entry F)) (e : Entry F) (now : ℕ)
      (t : Option (Dict (PendingRow F)))
      → Splits es (some (e, rest))
      → is_open t ≡ true
      → Grows (known ids es) t (known ids rest) (store_row e.message.id e now t)
  written-Grows ids es rest e now t split open_ =
      let stored = store_row-Grows (known ids rest) e.message.id e now t in
      (
        stored.0,
        λ k h. elim (Bool-cases (k == e.message.id)) [
          | inl same ↦
              rw (eq_of_== k e.message.id same)
                (ground (arith, has_row-store_row e.message.id e now t open_))
          | inr other ↦
              let kept : elem k (known ids rest) ≡ (elem k ids || elem k (ids_in rest)) =
                elem-append k ids (ids_in rest) in
              let before : elem k (known ids es) ≡ (elem k ids || elem k (ids_in es)) =
                elem-append k ids (ids_in es) in
              stored.1 k (ground (arith, h, kept, before, split k, other))
        ],
      )
