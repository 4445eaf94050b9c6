-- ===== src/Runs/Rules.antt =====
-- Runs of src/rules/RuleEngine.cpp.
use Prim.Native.String.{String}
use iotic.Prelude.{
  ℤ, pos, ◌≡◌, refl, Bool, true, Option, none, some, List, [], ◌∷◌, not, inl, filter_by,
}
use iotic.Strategies.Strategy.{ThingType}
use iotic.Strategies.RuleActuation.{RuleActuation, Compiler}
use iotic.Rules.StrategyFactory.{Setup, AnyStrategy}
use iotic.Runs.Charging.{whole}
use iotic.Rules.RuleEngine.{Rules, contains, before_dot, on_thing_added}
use iotic.Rules.RuleEngine.Parser.{Parser, create_parser, resolve_all}
use iotic.Rules.RuleEngine.Symbols.{rule_subscribes}
use iotic.Rules.StrategyFactory
use iotic.Strategies.RuleActuation
use iotic.Strategies.Wallbox
use iotic.Rules.SymbolRepository.{find_symbol, set_symbol, resolve_symbol}

-- The meter is subscribed to, as a symbol is named for it; the switch is waited for.
abbrev rules : Rules ℤ ℤ
rules = record {
  engine = record {
    dependent = "switch" ∷ [];
    subscribed = "meter" ∷ [];
    subscriptions = "meter" ∷ [];
  };
  symbols = ("meter.power", pos 40) ∷ ("switch.power", pos 0) ∷ [];
  strategies = [];
}

abbrev priority : ℤ → ℤ
priority s = s

abbrev no_strategy : List (String × ℤ) → List (String × ℤ) × Option ℤ
no_strategy symbols = (symbols, none)

abbrev some_strategy : List (String × ℤ) → List (String × ℤ) × Option ℤ
some_strategy symbols = (("pv.power", pos 0) ∷ symbols, some (pos 4))

-- Expressions of two names, whatever their text.
abbrev two_names : String → List String → Bool × List String
two_names expr known = (true, filter_by (λ n. not (contains n known)) ("sun" ∷ "meter.power" ∷ []))

abbrev compile : Compiler Bool
compile text symbols = (symbols, none)

-- A relay with two outputs and no expressions.
abbrev boiler : Setup whole
boiler = record {
  type = ThingType.relay;
  thing_id = "boiler";
  offset = none;
  on = "";
  off = "";
  power_thresholds = pos 600 ∷ pos 800 ∷ [];
  priority = pos 4;
  hysteresis_for = λ power. pos 200;
  phase_limit_duration = 120;
  voltages = (pos 230, pos 230, pos 230);
  measured_at = 0;
  zero = pos 0;
}

-- A relay with two expressions of the same two names.
abbrev lamp : Setup whole
lamp = record {
  type = ThingType.relay;
  thing_id = "lamp";
  offset = none;
  on = "sun > meter.power";
  off = "sun < meter.power";
  power_thresholds = [];
  priority = pos 1;
  hysteresis_for = λ power. pos 200;
  phase_limit_duration = 120;
  voltages = (pos 230, pos 230, pos 230);
  measured_at = 0;
  zero = pos 0;
}

abbrev no_rules : Rules ℤ (AnyStrategy whole Parser)
no_rules = record {
  engine = record { dependent = []; subscribed = []; subscriptions = [] };
  symbols = [];
  strategies = [];
}

abbrev lamp_rule : RuleActuation Parser
lamp_rule = record {
  thing_id = "lamp";
  priority = pos 1;
  on_expression = record {
    expression = "sun > meter.power";
    variables = "sun" ∷ "meter.power" ∷ [];
  };
  off_expression = record {
    expression = "sun < meter.power";
    variables = "sun" ∷ "meter.power" ∷ [];
  };
  state = none;
  next_state = none;
  measured_power = pos 0;
  sent = [];
}

abbrev lamp_factory : List (String × ℤ) → List (String × ℤ) × Option (AnyStrategy whole Parser)
lamp_factory symbols =
    (("sun", pos 0) ∷ ("meter.power", pos 0) ∷ [], some (AnyStrategy.rule_actuation lamp_rule))

abbrev own_priority : AnyStrategy whole Parser → ℤ
own_priority s = pos 1

rule_subscribes_example :
    contains "meter"
      (on_thing_added own_priority lamp_factory
        ("lamp" ∷ "meter" ∷ [])
        "lamp"
        no_rules).engine.subscribed
    ≡ true
unfolding contains filter_by before_dot StrategyFactory.from create_parser RuleActuation.from
    resolve_all resolve_symbol find_symbol set_symbol Wallbox.from
rule_subscribes_example =
    rule_subscribes two_names lamp own_priority lamp_factory ("lamp" ∷ "meter" ∷ []) no_rules
      lamp_rule "meter.power" (λ e k. refl) refl refl (inl refl) refl
