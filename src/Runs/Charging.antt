-- ===== src/Runs/Charging.antt =====
-- Runs of src/strategies/WallboxStrategy.cpp, on whole numbers.
use iotic.Prelude.{
  ◌<◌, ◌≡◌, refl, ℤ, pos, negsuc, ◌+ℤ◌, ◌-ℤ◌, ◌*ℤ◌, ◌≤ℤ◌, ltb_ℤ, pos_part, neg_part, ◌+◌, true,
  false, some, [], arith, ltb_ℤ→lt, int_laws,
}
use iotic.Strategies.Strategy.{up, SiteProperties}
use iotic.Strategies.Wallbox
use iotic.Strategies.Wallbox.{
  DoubleOps, Wallbox, ThingStatus, wants_to_step_down, wants_to_step_up, adjust, on_offset,
}
use iotic.Strategies.Wallbox.Flapping.{phases_no_flapping}

ltb_of_lt : (a b : ℤ) → pos_part a + neg_part b < pos_part b + neg_part a → ltb_ℤ a b ≡ true
ltb_of_lt a b h = ground arith

pub whole_less-sub : (x y h k : ℤ) → h ≤ℤ k → ltb_ℤ x (y -ℤ k) ≡ true → ltb_ℤ x (y -ℤ h) ≡ true
whole_less-sub x y h k a b = ltb_of_lt x (y -ℤ h) (omega (int_laws, ltb_ℤ→lt x (y -ℤ k) b))

pub whole_less-add :
    (x m a b g h : ℤ)
    → a ≤ℤ b
    → ltb_ℤ x (a +ℤ m -ℤ g -ℤ h) ≡ true
    → ltb_ℤ x (b +ℤ m -ℤ g -ℤ h) ≡ true
whole_less-add x m a b g h l p =
    ltb_of_lt x (b +ℤ m -ℤ g -ℤ h) (omega (int_laws, ltb_ℤ→lt x (a +ℤ m -ℤ g -ℤ h) p))

-- Whole numbers in place of `double`, and a filter that keeps the last measurement.
abbrev pub whole : DoubleOps
whole = record {
  Double = ℤ;
  of_int = λ i. i;
  add = ◌+ℤ◌;
  sub = ◌-ℤ◌;
  div = λ a b. a;
  to_int = λ d. d;
  less = ltb_ℤ;
  ema = λ old measured elapsed tau. measured;
  less-sub = whole_less-sub;
  less-add = whole_less-add;
}

-- Charging with 6 A on one phase.
abbrev station : Wallbox whole
station = record {
  thing_id = "station";
  priority = pos 1;
  power_measured = pos 1380;
  last_measurement_ts = 0;
  voltage_1 = pos 230;
  voltage_2 = pos 230;
  voltage_3 = pos 230;
  power_offset = pos 0;
  status = ThingStatus.charging;
  phases = 1;
  current = pos 6;
  next_phases = 1;
  one_phase_hysteresis = pos 138;
  three_phase_hysteresis = pos 414;
  sent = [];
}

abbrev sun : SiteProperties
sun = record {
  ts = 1000;
  pv_power = pos 8000;
  grid_power = negsuc 3999;
  short_term_grid_power = negsuc 3999;
  long_term_grid_power = negsuc 3999;
}

on_offset_run : on_offset whole (pos 8) station ≡ some (record station { power_offset = pos 32767 })
unfolding on_offset
on_offset_run = refl

phases_no_flapping_example :
    (wants_to_step_down whole sun (adjust whole up sun (wants_to_step_up whole sun station).0)).1
    ≡ false
unfolding wants_to_step_up Wallbox.compute_phases ◌*ℤ◌ ◌+ℤ◌ ◌-ℤ◌
phases_no_flapping_example =
    phases_no_flapping whole sun station (omega arith) (omega arith) refl refl
