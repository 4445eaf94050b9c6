-- ===== src/Common/Date/Print.antt =====
-- The dates that `parse_ymd` reads.
use iotic.Prelude.{ℕ, ◌+◌, ◌-◌, ◌*◌, ◌/◌, ◌%◌, ◌<◌, ◌≡◌, refl, true, List, [], ◌∷◌, arith}
use iotic.Common.Date.{YearMonthDay, is_digit, parse_ymd}

abbrev two_digits : ℕ → List ℕ → List ℕ
two_digits n rest = (48 + n / 10 % 10) ∷ (48 + n % 10) ∷ rest

-- The date as four digits, two and two, with dashes between them.
unfoldable pub print_ymd : YearMonthDay → List ℕ
print_ymd x =
    two_digits (x.year / 100)
      (two_digits (x.year % 100) (45 ∷ two_digits x.month (45 ∷ two_digits x.day [])))

digit : (n : ℕ) → is_digit (48 + n % 10) ≡ true
digit n = ground arith

two_value : (n : ℕ) → n < 100 → (48 + n / 10 % 10 - 48) * 10 + (48 + n % 10 - 48) ≡ n
two_value n h = omega arith

four_value :
    (n : ℕ)
    → n < 10000
    → (48 + n / 100 / 10 % 10 - 48) * 1000
        + (48 + n / 100 % 10 - 48) * 100
        + (48 + n % 100 / 10 % 10 - 48) * 10
        + (48 + n % 100 % 10 - 48)
      ≡ n
four_value n h =
    let high = two_value (n / 100) (omega arith) in
    let low = two_value (n % 100) (omega arith) in omega (arith, high, low)

-- A date of at most four, two and two digits, written with all of them and dashes, is read as it is.
pub parse-print_ymd :
    (x : YearMonthDay) → x.year < 10000 → x.month < 100 → x.day < 100 → parse_ymd (print_ymd x) ≡ x
unfolding parse_ymd print_ymd
parse-print_ymd x h k l =
    rw
      (
        digit (x.year / 100 / 10),
        digit (x.year / 100),
        digit (x.year % 100 / 10),
        digit (x.year % 100),
        digit (x.month / 10),
        digit x.month,
        digit (x.day / 10),
        digit x.day,
        four_value x.year h,
        two_value x.month k,
        two_value x.day l,
      )
      refl
