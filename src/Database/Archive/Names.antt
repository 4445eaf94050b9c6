-- ===== src/Database/Archive/Names.antt =====
-- The decimal digits in the name of a map.
use iotic.Prelude.{ℕ, zero, suc, ◌/◌, ◌<◌, ◌≡◌, refl, inl, inr, arith, ltb, Bool-cases}
use iotic.Database.Archive.{digits}

-- Any two amounts of fuel above the number give the same digits, so `to_string` has enough.
pub digits_enough : (fuel more n : ℕ) → n < fuel → n < more → digits fuel n ≡ digits more n
unfolding digits
digits_enough zero more n h k = absurd (omega arith)
digits_enough (suc fuel) zero n h k = absurd (omega arith)
digits_enough (suc fuel) (suc more) n h k = elim (Bool-cases (ltb n 10)) [
  | inl one ↦ rw one refl
  | inr further ↦
      let large : 9 < n = ground (arith, further) in
      rw (further, digits_enough fuel more (n / 10) (omega arith) (omega arith)) refl
]
