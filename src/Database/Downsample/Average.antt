-- ===== src/Database/Downsample/Average.antt =====
-- src/database/DatabaseUtil.cpp: a rounded average lies between the bounds of what it averages.
use native.Mathlib.Nat.{le-div_iff_mul-le, div-lt_iff_lt-mul}
use iotic.Prelude.{
  ℕ, suc, ◌+◌, ◌*◌, ◌/◌, ◌≤◌, ◌<◌, ◌≡◌, ℤ, pos, negsuc, sub_ℕ, pos_part, neg_part, ◌+ℤ◌, ◌*ℤ◌, ◌≤ℤ◌,
  int_laws, arith,
}
use iotic.Database.Downsample.{round_div}

-- The parts of a multiple.
times_parts :
    (a : ℤ) (n : ℕ)
    → (pos_part (a *ℤ pos n) ≡ pos_part a * n) × (neg_part (a *ℤ pos n) ≡ neg_part a * n)
unfolding ◌*ℤ◌
times_parts (pos a) n = grind arith
times_parts (negsuc a) n = grind arith

mul_suc : (a n : ℕ) → a * suc n ≡ a * n + a
mul_suc a n = grind arith

pub times_zero : (a : ℤ) → a *ℤ pos 0 ≡ pos 0
unfolding ◌*ℤ◌
times_zero (pos a) = ground arith
times_zero (negsuc a) = ground arith

-- One more times.
pub times_suc : (a : ℤ) (n : ℕ) → a *ℤ pos (suc n) ≡ a *ℤ pos n +ℤ a
times_suc a n = omega (
  int_laws,
  times_parts a n,
  times_parts a (suc n),
  mul_suc (pos_part a) n,
  mul_suc (neg_part a) n,
)

div-ge : (a x n : ℕ) → 0 < n → a * n ≤ x → a ≤ (2 * x + n) / (2 * n)
div-ge a x n h k = (le-div_iff_mul-le (omega arith)).1 (grind arith)

div-le : (a x n : ℕ) → 0 < n → x ≤ a * n → (2 * x + n) / (2 * n) ≤ a
div-le a x n h k =
    let positive : 0 < 2 * n = omega arith in
    let below : (2 * x + n) / (2 * n) < a + 1 = (div-lt_iff_lt-mul positive).1 (grind arith) in
    omega arith

minus-ge : (q a : ℕ) → q ≤ suc a → negsuc a ≤ℤ sub_ℕ 0 q
minus-ge q a h = ground arith

minus-le : (q a : ℕ) → suc a ≤ q → sub_ℕ 0 q ≤ℤ negsuc a
minus-le q a h = ground arith

pub round_div-ge : (lo s : ℤ) (n : ℕ) → 0 < n → lo *ℤ pos n ≤ℤ s → lo ≤ℤ round_div s n
unfolding round_div
round_div-ge (pos a) (pos x) n h k = omega (arith, times_parts (pos a) n, div-ge a x n h)
round_div-ge (pos a) (negsuc x) n h k = absurd (omega (arith, times_parts (pos a) n))
round_div-ge (negsuc a) (pos x) n h k = omega arith
round_div-ge (negsuc a) (negsuc x) n h k =
    minus-ge _ a (div-le (suc a) (suc x) n h (omega (arith, times_parts (negsuc a) n)))

pub round_div-le : (hi s : ℤ) (n : ℕ) → 0 < n → s ≤ℤ hi *ℤ pos n → round_div s n ≤ℤ hi
unfolding round_div
round_div-le (pos a) (pos x) n h k =
    let least : x ≤ a * n = omega (arith, times_parts (pos a) n) in
    omega (arith, div-le a x n h least)
round_div-le (pos a) (negsuc x) n h k = ground arith
round_div-le (negsuc a) (pos x) n h k = absurd (omega (arith, times_parts (negsuc a) n))
round_div-le (negsuc a) (negsuc x) n h k =
    minus-le _ a (div-ge (suc a) (suc x) n h (omega (arith, times_parts (negsuc a) n)))
