-- ===== src/Things/ThingsManager.antt =====
-- src/things/ThingsManager.cpp: when the things are asked for their properties.
pub mod Polls
use iotic.Prelude.{
  ℕ, suc, ◌+◌, ◌*◌, ◌/◌, ◌%◌, ℤ, pos, negsuc, Bool, Option, none, some, ◌||◌, ltb, ◌==◌,
  if◌then◌else◌,
}

-- `now_ms % (interval * 1000)`, whose sign does not matter for the test; `none` is undefined: a division
-- by zero, and a product beyond the 32 bits of an int.
abbrev is_multiple : ℕ → ℕ → Option Bool
is_multiple now seconds =
    if seconds == 0 || ltb 2147483 seconds then none else some (now % (seconds * 1000) == 0)

-- Whether `fetchProperties` is called, at an interval in seconds and a time in milliseconds, which is
-- rounded to a tenth of a second.
unfoldable pub on_timer : ℤ → ℕ → Option Bool
on_timer (pos n) now = is_multiple ((now + 50) / 100 * 100) n
on_timer (negsuc n) now = is_multiple ((now + 50) / 100 * 100) (suc n)
