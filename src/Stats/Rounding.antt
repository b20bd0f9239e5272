-- ===== src/Stats/Rounding.antt =====
-- What the decision relies on of single-precision arithmetic, for quotients of small integers.
use relay_proxy.Base.{
  ℕ, ◌*◌, ◌<◌, ◌≤◌, ◌≡◌, ℤ, pos, negsuc, leb, ltb_ℤ, leb_ℤ, ◌*ℤ◌, true, false, arith,
}
use relay_proxy.Stats.{FloatOps}

-- A quotient of integers below 2 ^ 24 is compared with 0 and with a percentage as the exact fraction
-- is: rounding is monotone, and with a denominator below 2 ^ 16 the fraction is further from a
-- percentage that it differs from than half a unit in the last place.
pub record IsRounded (fl : FloatOps) : Type 0 where
  pub fle-percent :
      (a b m : ℕ)
      → 0 < b
      → b < 65536
      → a ≤ 100 * b
      → m ≤ 100
      → fl.fle (fl.div (fl.of_int (pos a)) (fl.of_int (pos b))) (fl.of_int (pos m)) ≡ leb a (m * b)
  pub flt-pos :
      (a b : ℕ)
      → 0 < b
      → b < 65536
      → a ≤ 100 * b
      → fl.flt (fl.div (fl.of_int (pos a)) (fl.of_int (pos b))) (fl.of_int (pos 0)) ≡ false
  pub flt-negsuc :
      (a b : ℕ)
      → 0 < b
      → b < 65536
      → a < 6553600
      → fl.flt (fl.div (fl.of_int (negsuc a)) (fl.of_int (pos b))) (fl.of_int (pos 0)) ≡ true
  pub fle-zero : (m : ℕ) → m ≤ 100 → fl.fle (fl.of_int (pos 0)) (fl.of_int (pos m)) ≡ true

-- Fractions kept as pairs, with exact comparison: arithmetic that never rounds.
abbrev pub exact : FloatOps
exact = record {
  Float = ℤ × ℤ;
  of_int = λ a. (a, pos 1);
  div = λ x y. (x.0 *ℤ y.1, x.1 *ℤ y.0);
  flt = λ x y. ltb_ℤ (x.0 *ℤ y.1) (y.0 *ℤ x.1);
  fle = λ x y. leb_ℤ (x.0 *ℤ y.1) (y.0 *ℤ x.1);
}

pub exact-IsRounded : IsRounded exact
unfolding ◌*ℤ◌
exact-IsRounded = record {
  fle-percent = λ a b m pb sb h hm. ground arith;
  flt-pos = λ a b pb sb h. ground arith;
  flt-negsuc = λ a b pb sb h. ground arith;
  fle-zero = λ m h. ground arith;
}
