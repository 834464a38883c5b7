-- ===== src/Prelude/Ratio.antt =====
-- The source's floating-point numbers that are compared and multiplied, as exact fractions that are
-- not negative; rounding is left out. A denominator is not 0.
use Prim.Native.Nat.{ℕ, ◌+◌, ◌-◌, ◌*◌}
use mathlib.Core.Bool.{Bool}
use rideshare_simulation_pla.Prelude.Tests.{ltb, leb}

pub record Ratio : Type 0 where
  pub num : ℕ
  pub den : ℕ

abbrev pub add : Ratio → Ratio → Ratio
add a b = record { num = a.num * b.den + b.num * a.den; den = a.den * b.den }

abbrev pub multiply : Ratio → Ratio → Ratio
multiply a b = record { num = a.num * b.num; den = a.den * b.den }

-- `a / b` for `b` not 0.
abbrev pub divide : Ratio → Ratio → Ratio
divide a b = record { num = a.num * b.den; den = a.den * b.num }

-- `a - 1` for `1 ≤ a`.
abbrev pub less_one : Ratio → Ratio
less_one a = record { num = a.num - a.den; den = a.den }

abbrev pub whole : ℕ → Ratio
whole n = record { num = n; den = 1 }

abbrev pub ltb_ratio : Ratio → Ratio → Bool
ltb_ratio a b = ltb (a.num * b.den) (b.num * a.den)

abbrev pub leb_ratio : Ratio → Ratio → Bool
leb_ratio a b = leb (a.num * b.den) (b.num * a.den)
