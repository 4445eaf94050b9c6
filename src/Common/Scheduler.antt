-- ===== src/Common/Scheduler.antt =====
-- src/common/RppUvw.h: the scheduler on the timers of the main loop. Times and durations are in
-- nanoseconds; the timers and their loop belong to a library.
pub mod Due
use iotic.Prelude.{
  ℕ, ℤ, pos, negsuc, suc, ◌-◌, ◌/◌, ◌%◌, ◌-ℤ◌, ◌+ℤ◌, quot, Bool, Option, none, some, if◌then◌else◌,
}

abbrev pub u64_mod : ℕ
u64_mod = 18446744073709551616

-- The conversion to an unsigned number of 64 bits.
abbrev pub to_u64 : ℤ → ℕ
to_u64 (pos n) = n % u64_mod
to_u64 (negsuc n) = u64_mod - 1 - n % u64_mod

-- The milliseconds that a timer is started with; `duration_cast` cuts off towards zero.
unfoldable pub defer_for : ℤ → ℕ
defer_for duration = to_u64 (quot duration 1000000)

-- What a function that was called asks for, by the three kinds of functions.
pub data Again : Type 0 where
  delay_from_now : ℤ → Again
  delay_from_this_timepoint : ℤ → Again
  delay_to : ℤ → Again

-- `before` is the time at which the function is called, `after` the one at which it has returned.
abbrev invoke : ℤ → ℤ → Option Again → Option ℕ
invoke before after none = none
invoke before after (some (Again.delay_from_now d)) = some (defer_for d)
invoke before after (some (Again.delay_from_this_timepoint d)) =
    some (defer_for (before +ℤ d -ℤ after))
invoke before after (some (Again.delay_to tp)) = some (defer_for (tp -ℤ after))

-- The handler of the timer: the milliseconds of the next timer, if there is one.
unfoldable pub on_timer_event : Bool → ℤ → ℤ → Option Again → Option ℕ
on_timer_event is_disposed before after again =
    if is_disposed then none else invoke before after again
