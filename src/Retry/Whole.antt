-- ===== src/Retry/Whole.antt =====
-- Whole numbers in the place of float64, which show that the laws asked of floats can hold; a
-- product takes its factors as not negative.
use mcp_operator.Prelude.{
  ◌+◌, ◌*◌, ◌/◌, ◌^◌, ◌≡◌, refl, false, arith, ℤ, pos, pos_part, neg_part, sub_ℕ, ◌+ℤ◌, ◌≤ℤ◌, ltb_ℤ,
  eqb_ℤ,
}
use mcp_operator.Retry.Delay.{Floats, FloatLaws}

abbrev product : ℤ → ℤ → ℤ
product x y = pos (pos_part x * pos_part y)

abbrev power : ℤ → ℤ → ℤ
power x y = pos (pos_part x ^ pos_part y)

abbrev difference : ℤ → ℤ → ℤ
difference x y = sub_ℕ (pos_part x + neg_part y) (neg_part x + pos_part y)

abbrev pub whole : Floats
whole = record {
  Float = ℤ;
  of_int = λ n. n;
  to_int = λ x. x;
  lit = λ m k. pos (m / 10 ^ k);
  plus = ◌+ℤ◌;
  minus = difference;
  times = product;
  math_pow = power;
  less = ltb_ℤ;
  equal = eqb_ℤ;
}

pub in_range : (x n : ℤ) → ltb_ℤ x (pos 0) ≡ false → ltb_ℤ n x ≡ false → (pos 0 ≤ℤ x) × (x ≤ℤ n)
in_range x n low high = ground arith

abbrev pub whole_laws : FloatLaws whole
whole_laws = record {
  is_nan = λ x. false;
  exact = λ n e. refl;
  truncate_le = λ x n e num low high. in_range x n low high;
}
