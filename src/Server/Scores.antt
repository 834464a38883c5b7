-- ===== src/Server/Scores.antt =====
-- The composite score of matching_server.py: how a driver's distance counts.
use native.Mathlib.Nat.{mul-lt-mul_of_pos_right}
use rideshare_simulation_pla.Prelude.{
  ℕ, ◌+◌, ◌*◌, ◌-◌, ◌≤◌, ◌<◌, ◌≡◌, refl, ap, sym, true, false, arith, ◌==◌,
}
use rideshare_simulation_pla.Prelude.Ratio.{
  Ratio, add as add_ratio, multiply, divide, less_one, whole, ltb_ratio,
}
use rideshare_simulation_pla.Agents.{Driver}
use rideshare_simulation_pla.Server.{Config}
use rideshare_simulation_pla.Server.Search.{Timed, composite_score}

-- A fraction that is less at the same denominator, which is not 0.
abbrev IsBelow : Ratio → Ratio → Type 0
IsBelow p q = (p.den ≡ q.den) × (p.num < q.num) × (0 < p.den)

mul-pos : {m n : ℕ} → 0 < m → 0 < n → 0 < m * n
mul-pos {n} h k = omega (arith, mul-lt-mul_of_pos_right {k = n} h k)

multiply-IsBelow :
    (p q r : Ratio) → 0 < r.num → 0 < r.den → IsBelow p q → IsBelow (multiply p r) (multiply q r)
multiply-IsBelow p q r n d (e, l, m) =
    (ap (λ x. x * r.den) e, mul-lt-mul_of_pos_right l n, mul-pos m d)

add_ratio-IsBelow :
    (p q r : Ratio) → 0 < r.den → IsBelow p q → IsBelow (add_ratio p r) (add_ratio q r)
add_ratio-IsBelow p q r d (e, l, m) =
    (ap (λ x. x * r.den) e, more (mul-lt-mul_of_pos_right l d) (ap (λ x. r.num * x) e), mul-pos m d)
  where
    more : {a b x y : ℕ} → a < b → x ≡ y → a + x < b + y
    more h k = omega (arith, h, k)

IsBelow-ltb_ratio : (p q : Ratio) → IsBelow p q → ltb_ratio p q ≡ true
IsBelow-ltb_ratio p q (e, l, m) = ground (arith, scaled)
  where
    scaled : p.num * q.den < q.num * p.den
    scaled = rw (sym e) (mul-lt-mul_of_pos_right l m)

-- What the score asks of its numbers: the ETA counts, and no denominator is 0.
abbrev pub IsProper : Config → Driver → Type 0
IsProper c d =
    (0 < c.eta_weight.num)
    × (0 < c.eta_weight.den)
    × (0 < c.rating_weight.den)
    × (0 < c.acceptance_weight.den)
    × (0 < d.current_rating.den)
    × (0 < d.dna.acceptance_rate.den)

-- Of two drivers with the same rating and acceptance rate, whose ETAs lie between the least and the
-- greatest that were found, the one that is there sooner has the better composite score, where the
-- weight of the ETA is not 0 and no denominator is.
pub nearer_scores_better :
    (c : Config) (lo hi : ℕ) (a b : Timed) (x y : Driver)
    → lo ≤ a.eta_seconds
    → a.eta_seconds < b.eta_seconds
    → b.eta_seconds ≤ hi
    → x.current_rating ≡ y.current_rating
    → x.dna.acceptance_rate ≡ y.dna.acceptance_rate
    → IsProper c x
    → ltb_ratio (composite_score c lo hi b y) (composite_score c lo hi a x) ≡ true
unfolding composite_score
nearer_scores_better c lo hi a b x y l n h e f (wn, wd, rd, ad, xd, qd) =
    rw (sym e, sym f, differ)
      (IsBelow-ltb_ratio _ _ (
        add_ratio-IsBelow _ _ (multiply x.dna.acceptance_rate c.acceptance_weight) (mul-pos qd ad) (
          add_ratio-IsBelow _ _
            (multiply (divide (less_one x.current_rating) (whole 4)) c.rating_weight)
            (mul-pos (mul-pos xd (omega arith)) rd)
            (multiply-IsBelow (record { num = hi - b.eta_seconds; den = hi - lo })
              (record { num = hi - a.eta_seconds; den = hi - lo }) c.eta_weight wn wd
              (refl, omega arith, omega arith)))))
  where
    differ : (hi == lo) ≡ false
    differ = ground arith
