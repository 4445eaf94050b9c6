-- ===== src/Strategies/MultiPhase/Valid.antt =====
-- src/strategies/MultiPhaseStrategy.cpp: every index that the code uses is in range.
use Prim.Native.String.{String}
use native.Mathlib.Nat.{mod-lt}
use iotic.Prelude.{
  ℕ, ◌+◌, ◌≤◌, ◌<◌, ◌≡◌, ◌∙◌, ℤ, Bool, some, List, [], ◌∷◌, length, arith, length-set, length-map,
  length-replicate,
}
use iotic.Strategies.Strategy.{
  Step, keep, down, up, SiteProperties, World, ThingType, relay, ev_station, solar_inverter, other,
}
use iotic.Strategies.MultiPhase.{
  MultiPhase, from, decrement_phase_limit, increment_phase_limit, on_digital_input,
  on_multistate_selector, wants_to_step_up, roll_day, take_step, adjust,
}

-- There is a phase; the lists have an entry for each phase; the next phases are phases; and the
-- limit is not above their number.
pub record IsValid (s : MultiPhase) : Type 0 where
  pub some_phase : 0 < length s.power_thresholds
  pub hysteresis_each : length s.hystereses ≡ length s.power_thresholds
  pub state_each : length s.current_states ≡ length s.power_thresholds
  pub timestamp_each : length s.timestamps ≡ length s.power_thresholds
  pub up_phase : s.next_step_up_phase < length s.power_thresholds
  pub down_phase : s.next_step_down_phase < length s.power_thresholds
  pub limited : s.phase_limit ≤ length s.power_thresholds

-- What `from` builds is in order.
pub from-IsValid :
    (type : ThingType) (thing_id : String) (thresholds : List ℤ) (hysteresis_for : ℤ → ℤ)
    (duration : ℕ) (s : MultiPhase)
    → from type thing_id thresholds hysteresis_for duration ≡ some s
    → IsValid s
unfolding from
from-IsValid relay thing_id [] hysteresis_for duration s e = cc
from-IsValid relay thing_id (t ∷ ts) hysteresis_for duration s e = ground (
  arith,
  length-map ts hysteresis_for,
  length-replicate (length ts) Bool.false,
  length-replicate {0} {A = ℕ} (length ts) 0,
)
from-IsValid ev_station thing_id thresholds hysteresis_for duration s e = cc
from-IsValid solar_inverter thing_id thresholds hysteresis_for duration s e = cc
from-IsValid other thing_id thresholds hysteresis_for duration s e = cc

take_step-IsValid :
    (step : Step) (ts : ℕ) (s : MultiPhase) → IsValid s → IsValid (take_step step ts s)
unfolding take_step
take_step-IsValid keep ts s v = v
take_step-IsValid down ts s v = record {
  some_phase = v.some_phase;
  hysteresis_each = v.hysteresis_each;
  state_each = length-set s.current_states _ Bool.false ∙ v.state_each;
  timestamp_each = v.timestamp_each;
  up_phase = v.up_phase;
  down_phase = omega (
    arith,
    v.state_each,
    mod-lt (s.next_step_down_phase + 1) {m = length s.current_states}
        (omega (arith, v.state_each, v.some_phase)),
  );
  limited = v.limited;
}
take_step-IsValid up ts s v = record {
  some_phase = v.some_phase;
  hysteresis_each = v.hysteresis_each;
  state_each = length-set s.current_states _ Bool.true ∙ v.state_each;
  timestamp_each = length-set s.timestamps _ ts ∙ v.timestamp_each;
  up_phase = omega (
    arith,
    v.state_each,
    mod-lt (s.next_step_up_phase + 1) {m = length s.current_states}
        (omega (arith, v.state_each, v.some_phase)),
  );
  down_phase = v.down_phase;
  limited = v.limited;
}

pub roll_day-IsValid : (ts : ℕ) (s : MultiPhase) → IsValid s → IsValid (roll_day ts s)
unfolding roll_day
roll_day-IsValid ts s v = ground arith

-- The calls that change a strategy: the two requests, `adjust` and what the thing publishes.
pub data Event : Type 0 where
  digital_input : ℕ → List Bool → Event
  multistate_selector : List Bool → Event
  step_up_request : World → SiteProperties → Event
  adjustment : Step → SiteProperties → Event

unfoldable pub handle : Event → MultiPhase → MultiPhase
handle (digital_input now value) s = on_digital_input now value s
handle (multistate_selector value) s = on_multistate_selector value s
handle (step_up_request world site) s = (wants_to_step_up world site s).0
handle (adjustment step site) s = adjust step site s

increment_phase_limit-IsValid :
    (now : ℕ) (s : MultiPhase) → IsValid s → IsValid (increment_phase_limit now s)
unfolding increment_phase_limit
increment_phase_limit-IsValid now s v = ground arith

-- Every call keeps the strategy in order, so that no index of the source is ever out of range and
-- the limit never passes the number of phases.
pub handle-IsValid : (e : Event) (s : MultiPhase) → IsValid s → IsValid (handle e s)
unfolding handle on_digital_input on_multistate_selector wants_to_step_up adjust
handle-IsValid (digital_input now value) s v = unfold decrement_phase_limit in ground arith
handle-IsValid (multistate_selector value) s v = ground arith
handle-IsValid (step_up_request world site) s v =
    ground (arith, increment_phase_limit-IsValid world.now s v)
handle-IsValid (adjustment step site) s v =
    let w = take_step-IsValid step site.ts (roll_day site.ts s) (roll_day-IsValid site.ts s v) in
    record {
      some_phase = w.some_phase;
      hysteresis_each = w.hysteresis_each;
      state_each = w.state_each;
      timestamp_each = w.timestamp_each;
      up_phase = w.up_phase;
      down_phase = w.down_phase;
      limited = w.limited;
    }
