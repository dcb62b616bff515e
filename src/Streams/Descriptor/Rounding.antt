-- ===== src/Streams/Descriptor/Rounding.antt =====
-- Rounding down to a multiple, as `x - x % e` does.
use native.Mathlib.Nat.{div-add-mod, mul-le-mul_left, mul-mod_right}
use native.Mathlib.Decide.{dec_lt}
use spiderfire.Prelude.{ℕ, ◌+◌, ◌-◌, ◌*◌, ◌/◌, ◌%◌, ◌≤◌, ◌<◌, ◌≡◌, arith}

-- The part of a number that is a multiple of `e`.
floor-multiple : (e x : ℕ) → x - x % e ≡ e * (x / e)
floor-multiple e x = omega (arith, div-add-mod x e)

-- Between two multiples of `e` there are at least `e` numbers.
multiple-gap : (e a b : ℕ) → e * a < e * b → e * a + e ≤ e * b
multiple-gap e a b h = elim (dec_lt a b) [
  | yes p ↦ let up : e * (a + 1) ≤ e * b = mul-le-mul_left e (omega arith) in omega arith
  | no np ↦ let down : e * b ≤ e * a = mul-le-mul_left e (omega arith) in absurd (omega arith)
]

-- What is rounded down and still above a multiple `n` of `e` is above all that is less than `n + e`.
pub floor-above : (e x n : ℕ) → 0 < e → n % e ≡ 0 → n < x - x % e → n + e ≤ x - x % e
floor-above e x n p d h =
    let exact : n ≡ e * (n / e) = omega (arith, div-add-mod n e) in
    omega (
      arith,
      floor-multiple e x,
      multiple-gap e (n / e) (x / e) (omega (arith, floor-multiple e x, exact)),
      exact,
    )

pub floor-mod : (e x : ℕ) → (x - x % e) % e ≡ 0
floor-mod e x = rw (floor-multiple e x) (mul-mod_right e (x / e))
