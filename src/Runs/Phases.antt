-- ===== src/Runs/Phases.antt =====
-- Runs of src/strategies/MultiPhaseStrategy.cpp.
use iotic.Prelude.{
  ℕ, ◌<◌, ◌≤◌, ◌≡◌, refl, pos, negsuc, ◌+ℤ◌, ◌-ℤ◌, quot, true, false, [], ◌∷◌, arith, get_or,
}
use iotic.Strategies.Strategy.{ThingType, down, up, SiteProperties, World}
use iotic.Strategies.MultiPhase
use iotic.Strategies.MultiPhase.{
  MultiPhase, from, on_digital_input, wants_to_step_down, wants_to_step_up, adjust, count_true,
  current_power,
}
use iotic.Strategies.MultiPhase.Valid.{IsValid, Event, handle, from-IsValid, handle-IsValid}
use iotic.Strategies.MultiPhase.Ring.{IsRing, adjust-IsRing, adjust_down_oldest}
use iotic.Strategies.MultiPhase.Limit.{step_up_no_flapping, step_up_within_limit}
use iotic.Strategies.MultiPhase.Energy.{total_energy, adjust_energy}

abbrev noon : World
noon = record { symbols = []; now = 1000 }

abbrev sun : SiteProperties
sun = record {
  ts = 1000;
  pv_power = pos 5000;
  grid_power = negsuc 1999;
  short_term_grid_power = negsuc 1999;
  long_term_grid_power = negsuc 1999;
}

-- Phase 1 has been on since second 500.
abbrev pump : MultiPhase
pump = record {
  thing_id = "pump";
  priority = pos 3;
  power_thresholds = pos 600 ∷ pos 600 ∷ pos 800 ∷ [];
  hystereses = pos 50 ∷ pos 50 ∷ pos 50 ∷ [];
  next_step_up_phase = 2;
  next_step_down_phase = 1;
  current_states = false ∷ true ∷ false ∷ [];
  timestamps = 0 ∷ 500 ∷ 0 ∷ [];
  delivered_energy = pos 90000;
  current_day = 0;
  is_input_active = true;
  phase_limit = 2;
  phase_limit_timepoint = 100;
  phase_limit_duration = 600;
  digital_inputs = true ∷ true ∷ true ∷ [];
  multistate_selector = false ∷ true ∷ false ∷ [];
  sent = [];
}

pump-IsValid : IsValid pump
pump-IsValid = record {
  some_phase = omega arith;
  hysteresis_each = refl;
  state_each = refl;
  timestamp_each = refl;
  up_phase = omega arith;
  down_phase = omega arith;
  limited = omega arith;
}

pump-IsRing : IsRing 1 500 pump
pump-IsRing = record {
  count_le = omega arith;
  front = refl;
  on = λ i h. ground arith;
  past = λ i h p. ground arith;
  oldest_first = λ i j h k p q. ground arith;
}

from-IsValid_example : IsValid (record pump {
  thing_id = "boiler";
  priority = pos 0;
  power_thresholds = pos 700 ∷ [];
  hystereses = pos 70 ∷ [];
  next_step_up_phase = 0;
  next_step_down_phase = 0;
  current_states = false ∷ [];
  timestamps = 0 ∷ [];
  delivered_energy = pos 0;
  is_input_active = false;
  phase_limit = 1;
  phase_limit_timepoint = 0;
  phase_limit_duration = 60;
  digital_inputs = [];
  multistate_selector = [];
})
unfolding from quot
from-IsValid_example =
    from-IsValid ThingType.relay "boiler" (pos 700 ∷ []) (λ t. quot t 10) 60 _ refl

handle-IsValid_example : IsValid (handle (Event.adjustment up sun) pump)
handle-IsValid_example = handle-IsValid (Event.adjustment up sun) pump pump-IsValid

adjust-IsRing_example : IsRing 2 1000 (adjust up sun pump)
adjust-IsRing_example =
    adjust-IsRing up sun 1 500 pump pump-IsValid (omega arith) (omega arith) pump-IsRing

adjust_down_oldest_example :
    (true ≡ true)
    × (get_or (adjust down sun pump).current_states 1 false ≡ false)
    × ((j : ℕ)
        → j < 3
        → get_or (false ∷ true ∷ false ∷ []) j false ≡ true
        → 500 ≤ get_or (0 ∷ 500 ∷ 0 ∷ []) j 0)
adjust_down_oldest_example = adjust_down_oldest sun 0 500 pump pump-IsValid pump-IsRing

-- The third phase may be switched on, after the time of the limit has passed.
abbrev asked : MultiPhase
asked = record pump { phase_limit = 3; phase_limit_timepoint = 1000 }

asks : wants_to_step_up noon sun pump ≡ (asked, true)
unfolding wants_to_step_up MultiPhase.increment_phase_limit ◌-ℤ◌
asks = refl

step_up_no_flapping_example :
    wants_to_step_down (record sun { long_term_grid_power = negsuc 1199 }) (adjust up sun asked)
    ≡ false
unfolding ◌+ℤ◌ adjust MultiPhase.take_step MultiPhase.roll_day
step_up_no_flapping_example =
    step_up_no_flapping noon sun (record sun { long_term_grid_power = negsuc 1199 }) pump asked
      (adjust up sun asked) asks (omega arith) (omega arith) refl

step_up_within_limit_example :
    count_true (adjust up sun asked).current_states ≤ (adjust up sun asked).phase_limit
step_up_within_limit_example = step_up_within_limit noon sun pump asked pump-IsValid refl asks

adjust_energy_example : total_energy 1000 (adjust down sun pump) ≡ total_energy 1000 pump
adjust_energy_example = adjust_energy down sun pump pump-IsValid refl refl
