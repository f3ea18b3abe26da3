-- ===== src/Prelude/Float.antt =====
-- Python's floats as a type with the operations that the program uses. Nothing is assumed of them
-- here; a theorem that needs a law of the order or of rounded addition names it.
use Prim.Native.Nat.{ℕ}
use Prim.Native.String.{String}
use mathlib.Core.Bool.{Bool}
use mathlib.Core.List.{List}
use agent_life_space.Prelude.Tests.{if◌then◌else◌}

pub record Float : Type 1 where
  pub Num : Type 0
  -- `decimal n d` is the literal n / 10 ^ d.
  pub decimal : ℕ → ℕ → Num
  pub add : Num → Num → Num
  pub sub : Num → Num → Num
  pub mul : Num → Num → Num
  -- `<` and `<=`, both false at a NaN.
  pub lt : Num → Num → Bool
  pub le : Num → Num → Bool
  -- `sum` of a sequence, and the text of `str(x)`.
  pub sum : List Num → Num
  pub show : Num → String
  -- `round(x, 2)` and the text of `f"{x:.2f}"`.
  pub round2 : Num → Num
  pub show2 : Num → String

module _ (ops : Float) where
  open ops use {Num, lt}

  -- `min(a, b)` and `max(a, b)`: the first argument unless the second is smaller, or greater.
  abbrev pub min_float : Num → Num → Num
  min_float a b = if lt b a then b else a

  abbrev pub max_float : Num → Num → Num
  max_float a b = if lt a b then b else a
