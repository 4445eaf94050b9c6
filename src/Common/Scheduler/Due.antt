-- ===== src/Common/Scheduler/Due.antt =====
-- When the function that asks for a time point is called again.
use iotic.Prelude.{
  ℕ, pos, negsuc, suc, ◌≡◌, ◌∙◌, ap, ◌+◌, ◌*◌, ◌/◌, ◌≤◌, ◌<◌, ◌-ℤ◌, quot, false, some, arith,
}
use iotic.Common.Scheduler.{defer_for, Again, on_timer_event}

ahead : (after left : ℕ) → pos (after + left) -ℤ pos after ≡ pos left
unfolding ◌-ℤ◌
ahead after left = ground arith

behind : (tp late : ℕ) → pos tp -ℤ pos (tp + suc late) ≡ negsuc late
unfolding ◌-ℤ◌
behind tp late = ground arith

defer_for_ahead : (left : ℕ) → left < 9223372036854775808 → defer_for (pos left) ≡ left / 1000000
unfolding defer_for quot
defer_for_ahead left h = omega arith

defer_for_behind :
    (late : ℕ)
    → 1000000 ≤ suc late
    → suc late < 9223372036854775808
    → 9223372036854775808 < defer_for (negsuc late)
unfolding defer_for quot
defer_for_behind late h k = ground arith

-- A function that asks in time to be called at a time point, less than 2^63 nanoseconds ahead, is called
-- less than a millisecond before it.
pub delay_to_due :
    (before after left : ℕ)
    → left < 9223372036854775808
    → (ms : ℕ) × (on_timer_event false
          (pos before)
          (pos after)
          (some (Again.delay_to (pos (after + left))))
        ≡ some ms)
      × (after + ms * 1000000 ≤ after + left)
      × (after + left < after + ms * 1000000 + 1000000)
unfolding on_timer_event
delay_to_due before after left h = (
  left / 1000000,
  ap some (ap defer_for (ahead after left) ∙ defer_for_ahead left h),
  omega arith,
  omega arith,
)

-- A function that asks when the time point is a millisecond or more behind is not called again: its timer
-- is started with more than 2^63 milliseconds.
pub delay_to_lost :
    (before tp late : ℕ)
    → 1000000 ≤ suc late
    → suc late < 9223372036854775808
    → (ms : ℕ) × (on_timer_event false
          (pos before)
          (pos (tp + suc late))
          (some (Again.delay_to (pos tp)))
        ≡ some ms)
      × (9223372036854775808 < ms)
unfolding on_timer_event
delay_to_lost before tp late h k = (
  defer_for (negsuc late),
  ap (λ d. some (defer_for d)) (behind tp late),
  defer_for_behind late h k,
)
