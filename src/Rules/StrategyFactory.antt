-- ===== src/Rules/StrategyFactory.antt =====
-- src/rules/StrategyFactory.cpp: which strategy a thing gets, and the strategies behind their common
-- interface.
pub mod Priority
use Prim.Native.String.{String}
use iotic.Prelude.{ℕ, ◌*◌, ℤ, pos, Bool, Option, none, some, List, [], ◌∷◌}
use iotic.Strategies.Strategy.{
  Step, SiteProperties, World, StrategyOps, ThingType, relay, ev_station, solar_inverter, other,
}
use iotic.Strategies.MultiPhase
use iotic.Strategies.MultiPhase.{MultiPhase}
use iotic.Strategies.RuleActuation
use iotic.Strategies.RuleActuation.{RuleActuation, Compiler, Made}
use iotic.Strategies.Wallbox
use iotic.Strategies.Wallbox.{DoubleOps, Wallbox}

-- What the factory reads of the configuration and of the thing.
pub record Setup (ops : DoubleOps) : Type 0 where
  pub type : ThingType
  pub thing_id : String
  pub offset : Option ℤ
  pub on : String
  pub off : String
  pub power_thresholds : List ℤ
  pub priority : ℤ
  pub hysteresis_for : ℤ → ℤ
  pub phase_limit_duration : ℕ
  pub voltages : ℤ × ℤ × ℤ
  pub measured_at : ℕ
  pub zero : ops.Double

module _ (ops : DoubleOps) (Expression : Type 0) where
  pub data AnyStrategy : Type 0 where
    wallbox : Wallbox ops → AnyStrategy
    rule_actuation : RuleActuation Expression → AnyStrategy
    multi_phase : MultiPhase → AnyStrategy

  abbrev pub thing_id : AnyStrategy → String
  thing_id (wallbox s) = s.thing_id
  thing_id (rule_actuation s) = s.thing_id
  thing_id (multi_phase s) = s.thing_id

  abbrev pub priority : AnyStrategy → ℤ
  priority (wallbox s) = s.priority
  priority (rule_actuation s) = s.priority
  priority (multi_phase s) = s.priority

  -- `strategy->_priority = priority`
  abbrev pub set_priority : ℤ → AnyStrategy → AnyStrategy
  set_priority p (wallbox s) = wallbox (record s { priority = p })
  set_priority p (rule_actuation s) = rule_actuation (record s { priority = p })
  set_priority p (multi_phase s) = multi_phase (record s { priority = p })

module _ {ops : DoubleOps} {Expression : Type 0} where
  abbrev pub then_multi_phase :
      Setup ops → Made Expression → List (String × ℤ) × Option (AnyStrategy ops Expression)
  then_multi_phase setup (symbols, some (s, thing_offset)) =
      (symbols, some (set_priority ops Expression setup.priority (rule_actuation s)))
  then_multi_phase setup (symbols, none) = (
    symbols,
    elim (MultiPhase.from setup.type setup.thing_id setup.power_thresholds setup.hysteresis_for
        setup.phase_limit_duration) [
          | none ↦ none
          | some s ↦ some (set_priority ops Expression setup.priority (multi_phase s))
        ],
  )

  -- `none` is a read outside the table of offsets.
  abbrev pub then_rule :
      Compiler Expression
      → Setup ops
      → List (String × ℤ)
      → Option (Option (Wallbox ops))
      → Option (List (String × ℤ) × Option (AnyStrategy ops Expression))
  then_rule create setup symbols (some none) = none
  then_rule create setup symbols (some (some s)) =
      some (symbols, some (set_priority ops Expression setup.priority (wallbox s)))
  then_rule create setup symbols none =
      some (
        then_multi_phase setup
          (RuleActuation.from create setup.thing_id setup.on setup.off symbols))

  unfoldable pub from :
      Compiler Expression
      → Setup ops
      → List (String × ℤ)
      → Option (List (String × ℤ) × Option (AnyStrategy ops Expression))
  from create setup symbols = then_rule create setup symbols (
      Wallbox.from ops setup.type setup.thing_id setup.offset setup.hysteresis_for setup.voltages
        setup.measured_at setup.zero)

-- The virtual functions.
module _ (ops : DoubleOps) {Expression : Type 0}
    (evaluate : Expression → List (String × ℤ) → Bool) where
  abbrev any_wants_to_step_down :
      World → SiteProperties → AnyStrategy ops Expression → AnyStrategy ops Expression × Bool
  any_wants_to_step_down world site (wallbox s) =
      let (s', w) = Wallbox.wants_to_step_down ops site s in (wallbox s', w)
  any_wants_to_step_down world site (rule_actuation s) =
      let (s', w) = RuleActuation.wants_to_step_down evaluate world s in (rule_actuation s', w)
  any_wants_to_step_down world site (multi_phase s) =
      (multi_phase s, MultiPhase.wants_to_step_down site s)

  abbrev any_wants_to_step_up :
      World → SiteProperties → AnyStrategy ops Expression → AnyStrategy ops Expression × Bool
  any_wants_to_step_up world site (wallbox s) =
      let (s', w) = Wallbox.wants_to_step_up ops site s in (wallbox s', w)
  any_wants_to_step_up world site (rule_actuation s) =
      let (s', w) = RuleActuation.wants_to_step_up evaluate world s in (rule_actuation s', w)
  any_wants_to_step_up world site (multi_phase s) =
      let (s', w) = MultiPhase.wants_to_step_up world site s in (multi_phase s', w)

  abbrev any_adjust :
      Step → SiteProperties → AnyStrategy ops Expression → AnyStrategy ops Expression
  any_adjust step site (wallbox s) = wallbox (Wallbox.adjust ops step site s)
  any_adjust step site (rule_actuation s) = rule_actuation (RuleActuation.adjust step s)
  any_adjust step site (multi_phase s) = multi_phase (MultiPhase.adjust step site s)

  abbrev pub any_ops : StrategyOps (AnyStrategy ops Expression)
  any_ops = record {
    thing_id = thing_id ops Expression;
    priority = priority ops Expression;
    wants_to_step_down = any_wants_to_step_down;
    wants_to_step_up = any_wants_to_step_up;
    adjust = any_adjust;
  }
