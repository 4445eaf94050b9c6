-- ===== src/Strategies/Wallbox.antt =====
-- src/strategies/WallboxStrategy.cpp with src/common/OffsetTable.h: a charging station that is
-- switched between 0, 1 and 3 phases and modulated by its current. The arithmetic of `double` and
-- the smoothing filter of the library are parameters.
pub mod Flapping
use Prim.Native.String.{String}
use iotic.Prelude.{
  ℕ, ◌+◌, ◌-◌, ◌*◌, ◌≡◌, ℤ, pos, negsuc, sub_ℕ, ◌+ℤ◌, ◌*ℤ◌, ◌≤ℤ◌, ltb_ℤ, max_ℤ, Bool, true, false,
  ◌||◌, Option, none, some, List, [], ◌∷◌, get_elem?, ltb, ◌==◌, if◌then◌else◌,
}
use iotic.Strategies.Strategy.{
  Step, keep, down, up, SiteProperties, ThingType, relay, ev_station, solar_inverter, other,
}

-- The operations on `double` that the strategy uses, and two laws: a smaller subtrahend and a larger
-- first summand leave a value above what it was above. IEEE 754 has them for all operands, as its
-- rounding is monotone and a comparison with a NaN fails.
pub record DoubleOps : Type 1 where
  pub Double : Type 0
  pub of_int : ℤ → Double
  pub add : Double → Double → Double
  pub sub : Double → Double → Double
  pub div : Double → Double → Double
  pub to_int : Double → ℤ
  pub less : Double → Double → Bool
  -- The filter: the value, the measurement, the time since the last one and the time constant.
  pub ema : Double → ℤ → ℤ → ℕ → Double
  pub less-sub :
      (x y : Double) (h k : ℤ)
      → h ≤ℤ k
      → less x (sub y (of_int k)) ≡ true
      → less x (sub y (of_int h)) ≡ true
  pub less-add :
      (x m : Double) (a b g h : ℤ)
      → a ≤ℤ b
      → less x (sub (sub (add (of_int a) m) (of_int g)) (of_int h)) ≡ true
      → less x (sub (sub (add (of_int b) m) (of_int g)) (of_int h)) ≡ true

abbrev pub default_offset : ℤ
default_offset = pos 3

-- ConfigRepository::shortTermTau, in milliseconds like the times of measurements.
abbrev pub short_term_tau : ℕ
short_term_tau = 10000

abbrev pub offset_front : ℤ
offset_front = negsuc 32767

abbrev pub offset_table : List ℤ
offset_table =
    offset_front
    ∷ negsuc 1999
    ∷ negsuc 999
    ∷ pos 0
    ∷ pos 1000
    ∷ pos 2000
    ∷ pos 5000
    ∷ pos 10000
    ∷ pos 32767
    ∷ []

-- A read at an index outside the table is undefined: `none`.
abbrev pub offset_at : ℤ → Option ℤ
offset_at (pos n) = get_elem? offset_table n
offset_at (negsuc n) = none

pub data ThingStatus : Type 0 where
  unknown off idle waiting charging throttled complete error service : ThingStatus

-- `_powerOffset == offsetTable.front()`
abbrev pub is_off : ℤ → Bool
is_off (pos n) = false
is_off (negsuc n) = n == 32767

abbrev pub can_charge : ThingStatus → Bool
can_charge ThingStatus.waiting = true
can_charge ThingStatus.charging = true
can_charge _ = false

-- The property map that `adjust` sets.
pub record Output : Type 0 where
  pub phases : ℕ
  pub next_phases : ℕ
  pub countdown : ℕ
  pub current : ℤ

-- The properties of a published map that the strategy reads.
pub record Published : Type 0 where
  pub power : Option ℤ
  pub voltage : Option (ℤ × ℤ × ℤ)
  pub offset : Option ℤ
  pub status : Option ThingStatus

module _ (ops : DoubleOps) where
  open ops use {Double, of_int, add, sub, div, to_int, less, ema}

  pub record Wallbox : Type 0 where
    pub thing_id : String
    pub priority : ℤ
    pub power_measured : Double
    pub last_measurement_ts : ℕ
    pub voltage_1 : ℤ
    pub voltage_2 : ℤ
    pub voltage_3 : ℤ
    pub power_offset : ℤ
    pub status : ThingStatus
    pub phases : ℕ
    pub current : ℤ
    pub next_phases : ℕ
    pub one_phase_hysteresis : ℤ
    pub three_phase_hysteresis : ℤ
    pub sent : List Output

  -- `std::reduce(_voltages.begin(), _voltages.end())`
  abbrev pub voltage_sum : Wallbox → ℤ
  voltage_sum s = s.voltage_1 +ℤ s.voltage_2 +ℤ s.voltage_3

  unfoldable pub compute_phases : Double → Bool → Wallbox → ℕ
  compute_phases available apply_hysteresis s =
      let one = if apply_hysteresis then s.one_phase_hysteresis else pos 0 in
      let three = if apply_hysteresis then s.three_phase_hysteresis else pos 0 in
      if less (of_int (pos 6 *ℤ voltage_sum s)) (sub available (of_int three))
      then 3
      else if less (of_int (pos 6 *ℤ s.voltage_1)) (sub available (of_int one))
      then 1
      else 0

  unfoldable pub compute_current : Double → Wallbox → ℤ
  compute_current available s =
      if s.phases == 1
      then to_int (div available (of_int s.voltage_1))
      else if s.phases == 3
      then to_int (div available (of_int (voltage_sum s)))
      else pos 0

  unfoldable pub power_controlled : Wallbox → ℤ
  power_controlled s =
      if s.phases == 0
      then pos 0
      else if s.phases == 1
      then s.current *ℤ s.voltage_1
      else s.current *ℤ voltage_sum s

  -- What is left over for the station with the offset `o`, at the grid power `g`.
  abbrev pub available_power : ℤ → ℤ → Wallbox → Double
  available_power o g s = sub (add (of_int o) s.power_measured) (of_int g)

  unfoldable pub wants_to_step_down : SiteProperties → Wallbox → Wallbox × Bool
  wants_to_step_down site s =
      let available = available_power (max_ℤ (pos 0) s.power_offset) site.long_term_grid_power s in
      let next = if is_off s.power_offset then 0 else compute_phases available false s in
      (record s { next_phases = next }, ltb next s.phases)

  unfoldable pub wants_to_step_up : SiteProperties → Wallbox → Wallbox × Bool
  wants_to_step_up site s =
      let available = available_power s.power_offset site.long_term_grid_power s in
      let next = compute_phases available true s in
      if can_charge s.status
      then (record s { next_phases = next }, ltb s.phases next)
      else (s, false)

  abbrev take_step : Step → Wallbox → Wallbox
  take_step keep s = s
  take_step down s = record s { phases = s.next_phases }
  take_step up s = record s { phases = s.next_phases }

  unfoldable pub adjust : Step → SiteProperties → Wallbox → Wallbox
  adjust step site s =
      let s' = take_step step s in
      let available =
        available_power (max_ℤ (pos 0) s'.power_offset) site.short_term_grid_power s' in
      let current = compute_current available s' in
      record s' {
        current = current;
        sent =
            record {
              phases = s'.phases;
              next_phases = s'.next_phases;
              countdown = 0;
              current = current;
            }
            ∷ s'.sent;
      }

  -- The handlers of the thing's properties. An offset that is no index of the table is read out of
  -- its bounds: `none`.
  unfoldable pub on_power : ℕ → ℤ → Wallbox → Wallbox
  on_power now value s = record s {
    power_measured =
        ema s.power_measured (max_ℤ value (pos 0)) (sub_ℕ now s.last_measurement_ts) short_term_tau;
  }

  unfoldable pub on_voltages : ℤ × ℤ × ℤ → Wallbox → Wallbox
  on_voltages (a, b, c) s = record s { voltage_1 = a; voltage_2 = b; voltage_3 = c }

  unfoldable pub on_offset : ℤ → Wallbox → Option Wallbox
  on_offset value s = elim (offset_at value) [
    | none ↦ none
    | some o ↦ some (record s { power_offset = o })
  ]

  unfoldable pub on_status : ThingStatus → Wallbox → Wallbox
  on_status status s = record s { status = status }

  abbrev when : {A : Type 0} → Option A → (A → Wallbox → Wallbox) → Wallbox → Wallbox
  when none f s = s
  when (some a) f s = f a s

  abbrev when_offset : Option ℤ → Wallbox → Option Wallbox
  when_offset none s = some s
  when_offset (some value) s = on_offset value s

  -- The subscription of the constructor: the handlers run in this order, and the time of the last
  -- measurement is set whatever was published.
  unfoldable pub on_properties : ℕ → Published → Wallbox → Option Wallbox
  on_properties now map s =
      elim (when_offset map.offset
        (when map.voltage on_voltages (when map.power (on_power now) s))) [
          | none ↦ none
          | some s' ↦ some (record (when map.status on_status s') { last_measurement_ts = now })
        ]

  -- `from` and the constructor. The offset that is configured is set on the thing; `offset` is what
  -- the thing then has for a property. The voltages and the time are not initialised in the source.
  unfoldable pub from :
      ThingType → String → Option ℤ → (ℤ → ℤ) → ℤ × ℤ × ℤ → ℕ → Double → Option (Option Wallbox)
  from ev_station thing_id offset hysteresis_for (a, b, c) ts zero = some (
      when_offset offset (record {
        thing_id = thing_id;
        priority = pos 0;
        power_measured = zero;
        last_measurement_ts = ts;
        voltage_1 = a;
        voltage_2 = b;
        voltage_3 = c;
        power_offset = pos 0;
        status = ThingStatus.unknown;
        phases = 0;
        current = pos 0;
        next_phases = 0;
        one_phase_hysteresis = hysteresis_for (pos (6 * 230));
        three_phase_hysteresis = hysteresis_for (pos (3 * 6 * 230));
        sent = [];
      }))
  from _ thing_id offset hysteresis_for voltages ts zero = none
