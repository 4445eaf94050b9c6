-- ===== src/Common/Date.antt =====
-- src/common/Util.cpp: `parse_ymd`, with the calendar of the standard library that its result is used
-- with. A text is the list of its bytes.
pub mod Print
use iotic.Prelude.{
  ℕ, ◌+◌, ◌-◌, ◌*◌, ◌/◌, ◌%◌, ℤ, sub_ℕ, Bool, true, false, ◌&&◌, ◌||◌, not, List, [], ◌∷◌, ltb, leb,
  ◌==◌, if◌then◌else◌, get_or,
}

pub record YearMonthDay : Type 0 where
  pub year : ℕ
  pub month : ℕ
  pub day : ℕ

abbrev pub no_date : YearMonthDay
no_date = record { year = 0; month = 0; day = 0 }

abbrev pub is_digit : ℕ → Bool
is_digit c = leb 48 c && leb c 57

-- The pattern, four digits, two and two with a `-` between them, against the whole text.
unfoldable pub parse_ymd : List ℕ → YearMonthDay
parse_ymd (a ∷ b ∷ c ∷ d ∷ h ∷ e ∷ f ∷ k ∷ i ∷ j ∷ []) =
    if is_digit a
      && is_digit b
      && is_digit c
      && is_digit d
      && (h == 45)
      && is_digit e
      && is_digit f
      && (k == 45)
      && is_digit i
      && is_digit j
    then record {
      year = (a - 48) * 1000 + (b - 48) * 100 + (c - 48) * 10 + (d - 48);
      month = (e - 48) * 10 + (f - 48);
      day = (i - 48) * 10 + (j - 48);
    }
    else no_date
parse_ymd _ = no_date

unfoldable pub is_leap : ℕ → Bool
is_leap y = y % 4 == 0 && (not (y % 100 == 0) || y % 400 == 0)

abbrev month_days : List ℕ
month_days = 31 ∷ 28 ∷ 31 ∷ 30 ∷ 31 ∷ 30 ∷ 31 ∷ 31 ∷ 30 ∷ 31 ∷ 30 ∷ 31 ∷ []

unfoldable pub last_day : ℕ → ℕ → ℕ
last_day y m = if m == 2 && is_leap y then 29 else get_or month_days (m - 1) 0

-- `ymd.ok()`
unfoldable pub ok : YearMonthDay → Bool
ok x = leb 1 x.month && leb x.month 12 && leb 1 x.day && leb x.day (last_day x.year x.month)

abbrev days_before : List ℕ
days_before = 0 ∷ 31 ∷ 59 ∷ 90 ∷ 120 ∷ 151 ∷ 181 ∷ 212 ∷ 243 ∷ 273 ∷ 304 ∷ 334 ∷ []

-- The days from the first of January of the year 0 on.
unfoldable pub days_from_zero : YearMonthDay → ℕ
days_from_zero x =
    x.year * 365
    + (x.year + 3) / 4
    - (x.year + 99) / 100
    + (x.year + 399) / 400
    + get_or days_before (x.month - 1) 0
    + (if leb 3 x.month && is_leap x.year then 1 else 0)
    + (x.day - 1)

-- `sys_days(ymd)`: the days since 1970.
unfoldable pub sys_days : YearMonthDay → ℤ
sys_days x = sub_ℕ (days_from_zero x) 719528
