-- ===== src/Prelude/Text.antt =====
-- Text as the program builds and tests it.
use Prim.Native.Nat.{Ordering, ℕ, zero, suc, ◌+◌, ◌/◌, ◌%◌}
use Prim.Native.Char.{code}
use Prim.Native.String
use Prim.Native.String.{String}
use mathlib.Core.Path.{◌≡◌, refl}
use mathlib.Core.Bool.{Bool, true, false, ◌&&◌, ◌||◌}
use mathlib.Core.List.{List, [], ◌∷◌}
use agent_life_space.Prelude.Tests.{leb, ◌==◌}

-- An f-string, as the list of its parts.
unfoldable pub concat : List String → String
concat [] = ""
concat (s ∷ l) = String.◌++◌ s (concat l)

abbrev between : ℕ → ℕ → ℕ → Bool
between lo hi c = leb lo c && leb c hi

-- `str.isspace` of one character.
unfoldable pub is_space : ℕ → Bool
is_space c =
    between 0x09 0x0d c
    || between 0x1c 0x20 c
    || between 0x85 0x85 c
    || between 0xa0 0xa0 c
    || between 0x1680 0x1680 c
    || between 0x2000 0x200a c
    || between 0x2028 0x2029 c
    || between 0x202f 0x202f c
    || between 0x205f 0x205f c
    || between 0x3000 0x3000 c

-- `not s or not s.strip()`
unfoldable pub is_blank : String → Bool
unfolding is_space
is_blank String.[] = true
is_blank (String.◌∷◌ c s) = is_space (code c) && is_blank s

-- `sep.join(parts)`
unfoldable pub join : String → List String → String
join sep [] = ""
join sep (s ∷ []) = s
join sep (s ∷ t ∷ l) = String.◌++◌ s (String.◌++◌ sep (join sep (t ∷ l)))

-- `str(n)` of an int that is not negative.
digit : ℕ → String
digit zero = "0"
digit (suc zero) = "1"
digit (suc (suc zero)) = "2"
digit (suc (suc (suc zero))) = "3"
digit (suc (suc (suc (suc zero)))) = "4"
digit (suc (suc (suc (suc (suc zero))))) = "5"
digit (suc (suc (suc (suc (suc (suc zero)))))) = "6"
digit (suc (suc (suc (suc (suc (suc (suc zero))))))) = "7"
digit (suc (suc (suc (suc (suc (suc (suc (suc zero)))))))) = "8"
digit _ = "9"

-- The digits of `n` before `acc`. A number has fewer digits than its value plus one.
digits : ℕ → ℕ → String → String
digits zero n acc = acc
digits (suc fuel) n acc =
    let longer = String.◌++◌ (digit (n % 10)) acc in
    elim (leb n 9) [ true ↦ longer | false ↦ digits fuel (n / 10) longer ]

unfoldable pub show_nat : ℕ → String
unfolding digits digit
show_nat n = digits (n + 1) n ""

show_nat_test : show_nat 9307 ≡ "9307"
unfolding show_nat
show_nat_test = refl

-- `s[:n]`
unfoldable pub prefix : ℕ → String → String
prefix zero s = ""
prefix (suc n) String.[] = ""
prefix (suc n) (String.◌∷◌ c s) = String.◌∷◌ c (prefix n s)

size : String → ℕ
size String.[] = 0
size (String.◌∷◌ c s) = suc (size s)

-- `s.startswith(start)`
unfoldable pub starts_with : String → String → Bool
unfolding size prefix ◌==◌
starts_with s start = prefix (size start) s == start

-- `s < t` of two texts, by their code points.
abbrev pub before : String → String → Bool
before s t = elim (String.compare s t) [ Ordering.lt ↦ true | _ ↦ false ]
