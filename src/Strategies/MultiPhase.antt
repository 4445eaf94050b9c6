-- ===== src/Strategies/MultiPhase.antt =====
-- src/strategies/MultiPhaseStrategy.cpp: a relay with several outputs, each of which draws a known
-- power when it is on.
pub mod Valid
pub mod Ring
pub mod Limit
pub mod Energy
use Prim.Native.String.{String}
use iotic.Prelude.{
  ℕ, suc, ◌+◌, ◌-◌, ◌*◌, ◌/◌, ◌%◌, ◌≡◌, ℤ, pos, sub_ℕ, ◌+ℤ◌, ◌-ℤ◌, ◌*ℤ◌, ltb_ℤ, quot, Bool, true,
  false, not, ◌&&◌, ◌||◌, Option, none, some, List, [], ◌∷◌, map, length, get_or, set, replicate,
  ltb, leb, ◌==◌, if◌then◌else◌,
}
use iotic.Strategies.Strategy.{
  Step, keep, down, up, SiteProperties, World, ThingType, relay, ev_station, solar_inverter, other,
}

-- The property map that `adjust` sets on the thing.
pub record Output : Type 0 where
  pub multistate_selector : List Bool
  pub power : ℤ
  pub energy : ℤ

-- `digital_inputs` and `multistate_selector` are the thing's current properties, empty where it has
-- none. `phase_limit_duration` and the time points are in the ticks of the clock. `sent` is what
-- `setProperties` was called with, the newest first.
pub record MultiPhase : Type 0 where
  pub thing_id : String
  pub priority : ℤ
  pub power_thresholds : List ℤ
  pub hystereses : List ℤ
  pub next_step_up_phase : ℕ
  pub next_step_down_phase : ℕ
  pub current_states : List Bool
  pub timestamps : List ℕ
  pub delivered_energy : ℤ
  pub current_day : ℕ
  pub is_input_active : Bool
  pub phase_limit : ℕ
  pub phase_limit_timepoint : ℕ
  pub phase_limit_duration : ℕ
  pub digital_inputs : List Bool
  pub multistate_selector : List Bool
  pub sent : List Output

-- `from` with the constructor. The priority is set by the factory.
unfoldable pub from : ThingType → String → List ℤ → (ℤ → ℤ) → ℕ → Option MultiPhase
from relay thing_id [] hysteresis_for duration = none
from relay thing_id (t ∷ ts) hysteresis_for duration = some (record {
  thing_id = thing_id;
  priority = pos 0;
  power_thresholds = t ∷ ts;
  hystereses = map hysteresis_for (t ∷ ts);
  next_step_up_phase = 0;
  next_step_down_phase = 0;
  current_states = replicate (length (t ∷ ts)) false;
  timestamps = replicate (length (t ∷ ts)) 0;
  delivered_energy = pos 0;
  current_day = 0;
  is_input_active = false;
  phase_limit = length (t ∷ ts);
  phase_limit_timepoint = 0;
  phase_limit_duration = duration;
  digital_inputs = [];
  multistate_selector = [];
  sent = [];
})
from _ thing_id thresholds hysteresis_for duration = none

unfoldable pub decrement_phase_limit : ℕ → MultiPhase → MultiPhase
decrement_phase_limit now s =
    if s.phase_limit == 0
    then s
    else record s { phase_limit_timepoint = now; phase_limit = s.phase_limit - 1 }

unfoldable pub increment_phase_limit : ℕ → MultiPhase → MultiPhase
increment_phase_limit now s =
    if leb (length s.power_thresholds) s.phase_limit
    then s
    else if ltb now (s.phase_limit_timepoint + s.phase_limit_duration)
    then s
    else record s { phase_limit_timepoint = now; phase_limit = s.phase_limit + 1 }

abbrev pub all_true : List Bool → Bool
all_true [] = true
all_true (b ∷ bs) = b && all_true bs

abbrev pub count_true : List Bool → ℕ
count_true [] = 0
count_true (b ∷ bs) = if b then suc (count_true bs) else count_true bs

-- The thing publishes its digital inputs: its properties change, and the handler of the constructor
-- lowers the limit when the inputs fall.
unfoldable pub on_digital_input : ℕ → List Bool → MultiPhase → MultiPhase
on_digital_input now value s =
    let s' = record s { digital_inputs = value } in
    record (if s.is_input_active && not (all_true value)
      then decrement_phase_limit now s'
      else s') { is_input_active = all_true value }

-- The thing publishes the states of its outputs.
unfoldable pub on_multistate_selector : List Bool → MultiPhase → MultiPhase
on_multistate_selector value s = record s { multistate_selector = value }

abbrev pub sizes_differ : MultiPhase → Bool
sizes_differ s =
    not (length s.digital_inputs == length s.power_thresholds)
    || not (length s.multistate_selector == length s.power_thresholds)

unfoldable pub wants_to_step_down : SiteProperties → MultiPhase → Bool
wants_to_step_down site s =
    if sizes_differ s
    then false
    else if not (get_or s.multistate_selector s.next_step_down_phase false)
    then false
    else if not s.is_input_active
    then true
    else ltb_ℤ (pos 0) site.long_term_grid_power

-- The power that must be left over before the next phase is switched on, as a grid power.
abbrev pub step_up_bound : MultiPhase → ℤ
step_up_bound s =
    pos 0
    -ℤ get_or s.power_thresholds s.next_step_up_phase (pos 0)
    -ℤ get_or s.hystereses s.next_step_up_phase (pos 0)

unfoldable pub wants_to_step_up : World → SiteProperties → MultiPhase → MultiPhase × Bool
wants_to_step_up world site s =
    if sizes_differ s
    then (s, false)
    else if get_or s.multistate_selector s.next_step_up_phase false
    then (s, false)
    else if not (get_or s.digital_inputs s.next_step_up_phase false)
    then (s, false)
    else let s' = increment_phase_limit world.now s in
      if leb s'.phase_limit (count_true s'.multistate_selector)
      then (s', false)
      else (s', ltb_ℤ site.long_term_grid_power (step_up_bound s'))

unfoldable pub roll_day : ℕ → MultiPhase → MultiPhase
roll_day ts s =
    if ts / (24 * 3600) == s.current_day
    then s
    else record s { current_day = ts / (24 * 3600); delivered_energy = pos 0 }

-- Watt seconds of one phase since it was switched on.
abbrev pub phase_energy : ℕ → ℕ → ℤ → ℤ
phase_energy ts timestamp threshold = sub_ℕ ts timestamp *ℤ threshold

unfoldable pub take_step : Step → ℕ → MultiPhase → MultiPhase
take_step keep ts s = s
take_step down ts s =
    let i = s.next_step_down_phase in
    record s {
      delivered_energy =
          s.delivered_energy
          +ℤ phase_energy ts (get_or s.timestamps i 0) (get_or s.power_thresholds i (pos 0));
      current_states = set s.current_states i false;
      next_step_down_phase = (i + 1) % length s.current_states;
    }
take_step up ts s =
    let i = s.next_step_up_phase in
    record s {
      timestamps = set s.timestamps i ts;
      current_states = set s.current_states i true;
      next_step_up_phase = (i + 1) % length s.current_states;
    }

-- The two loops over the phases that are on. The lists have one length.
unfoldable pub current_power : List Bool → List ℤ → ℤ
current_power [] thresholds = pos 0
current_power (b ∷ bs) [] = pos 0
current_power (b ∷ bs) (t ∷ ts) = (if b then t else pos 0) +ℤ current_power bs ts

unfoldable pub current_energy : ℕ → List Bool → List ℕ → List ℤ → ℤ
current_energy now [] stamps thresholds = pos 0
current_energy now (b ∷ bs) [] thresholds = pos 0
current_energy now (b ∷ bs) (i ∷ is) [] = pos 0
current_energy now (b ∷ bs) (i ∷ is) (t ∷ ts) =
    (if b then phase_energy now i t else pos 0) +ℤ current_energy now bs is ts

-- Watt seconds are converted into units of 60000.
abbrev pub output : ℕ → MultiPhase → Output
output ts s = record {
  multistate_selector = s.current_states;
  power = current_power s.current_states s.power_thresholds;
  energy =
      quot
        (s.delivered_energy +ℤ current_energy ts s.current_states s.timestamps s.power_thresholds)
        60000;
}

unfoldable pub adjust : Step → SiteProperties → MultiPhase → MultiPhase
adjust step site s =
    let s' = take_step step site.ts (roll_day site.ts s) in
    record s' { sent = output site.ts s' ∷ s'.sent }
