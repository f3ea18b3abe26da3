-- ===== src/Examples/Data.antt =====
-- Amounts in whole cents, and a clock.
use agent_life_space.Prelude.{ℕ, zero, suc, ◌+◌, ◌-◌, ◌*◌, some, List, [], ◌∷◌, ltb, leb}
use agent_life_space.Prelude.Text.{show_nat}
use agent_life_space.Prelude.Float.{Float}
use agent_life_space.Finance.Clock.{Clock}

abbrev total : List ℕ → ℕ
total [] = 0
total (x ∷ xs) = x + total xs

abbrev cents_of : ℕ → ℕ → ℕ
cents_of n zero = n * 100
cents_of n (suc zero) = n * 10
cents_of n (suc (suc d)) = n

abbrev pub cents : Float
cents = record {
  Num = ℕ;
  decimal = cents_of;
  add = λ a b. a + b;
  sub = λ a b. a - b;
  mul = λ a b. a * b;
  lt = ltb;
  le = leb;
  sum = total;
  show = show_nat;
  round2 = λ a. a;
  show2 = show_nat;
}

abbrev pub noon : Clock
noon = record {
  iso = "2026-03-01T12:00:00+00:00";
  today = "2026-03-01";
  month = "2026-03";
  seconds = 1000;
  age_days = λ s. some 20;
}
