-- ===== src/Runs/Power.antt =====
-- Runs of src/strategies/PowerManager.cpp, src/strategies/StrategyRepository.cpp
-- and src/rules/RuleActuationStrategy.cpp.
use Prim.Native.String.{String}
use mathlib.Core.HLevel.{¬_prop}
use mathlib.Core.List.{Nodup, Pairwise-pair}
use iotic.Prelude.{
  ℕ, ℤ, pos, negsuc, ◌≡◌, refl, Bool, true, false, none, List, [], ◌∷◌, arith, if◌then◌else◌, Perm,
}
use iotic.Strategies.Strategy.{keep, SiteProperties, World, StrategyOps}
use iotic.Strategies.RuleActuation
use iotic.Strategies.RuleActuation.{RuleActuation}
use iotic.Strategies.RuleActuation.Latch.{request_kept}
use iotic.Strategies.PowerManager
use iotic.Strategies.PowerManager.{Manager, SiteEvent, cycle, evaluate, step_down, step_up}
use iotic.Strategies.PowerManager.Turns.{
  adjusted, AtMostOneStep, evaluate-adjusted, evaluate_one_step,
}
use iotic.Strategies.PowerManager.Spacing.{step_times, Spaced, step_times-Spaced}
use iotic.Strategies.PowerManager.Choice.{first_wanting, step_down_choice}
use iotic.Strategies.StrategyRepository
use iotic.Strategies.StrategyRepository.{add_strategy}

-- An expression that does not depend on the symbols.
abbrev constant : Bool → List (String × ℤ) → Bool
constant e symbols = e

abbrev rule_ops : StrategyOps (RuleActuation Bool)
rule_ops = record {
  thing_id = λ s. s.thing_id;
  priority = λ s. s.priority;
  wants_to_step_down = λ world site s. RuleActuation.wants_to_step_down constant world s;
  wants_to_step_up = λ world site s. RuleActuation.wants_to_step_up constant world s;
  adjust = λ step site s. RuleActuation.adjust step s;
}

abbrev lamp : RuleActuation Bool
lamp = record {
  thing_id = "lamp";
  priority = pos 2;
  on_expression = true;
  off_expression = false;
  state = none;
  next_state = none;
  measured_power = pos 0;
  sent = [];
}

abbrev heater : RuleActuation Bool
heater = record lamp {
  thing_id = "heater";
  priority = pos 7;
  on_expression = false;
  off_expression = true;
}

abbrev noon : World
noon = record { symbols = []; now = 1000 }

abbrev sun : SiteProperties
sun = record {
  ts = 1000;
  pv_power = pos 5000;
  grid_power = negsuc 1999;
  short_term_grid_power = negsuc 1999;
  long_term_grid_power = negsuc 1999;
}

abbrev house : Manager (RuleActuation Bool)
house = record { store = heater ∷ lamp ∷ []; last_step_ts = 0; log = [] }

abbrev event_at : ℕ → SiteEvent
event_at t = record { world = noon; site = record sun { ts = t }; strategies = 0 ∷ 1 ∷ [] }

abbrev events : List SiteEvent
events = event_at 1000 ∷ event_at 1060 ∷ event_at 1200 ∷ event_at 1400 ∷ []

-- The heater is switched off first, then the lamp is switched on.
step_times_run : step_times rule_ops events house ≡ 1000 ∷ 1200 ∷ []
unfolding step_times cycle evaluate step_down step_up RuleActuation.wants_to_step_down
    RuleActuation.wants_to_step_up RuleActuation.adjust PowerManager.keep_all PowerManager.visit
    PowerManager.ask PowerManager.erase PowerManager.adjust_at
step_times_run = refl

evaluate-adjusted_example :
    Perm (adjusted rule_ops noon sun (evaluate rule_ops noon sun (0 ∷ 1 ∷ []) house)) (0 ∷ 1 ∷ [])
evaluate-adjusted_example = evaluate-adjusted rule_ops noon sun (0 ∷ 1 ∷ []) house refl

evaluate_one_step_example :
    AtMostOneStep rule_ops noon sun house (evaluate rule_ops noon sun (0 ∷ 1 ∷ []) house)
evaluate_one_step_example = evaluate_one_step rule_ops noon sun (0 ∷ 1 ∷ []) house refl

step_times-Spaced_example : Spaced 0 (step_times rule_ops events house)
step_times-Spaced_example = step_times-Spaced rule_ops events house

two_pointers : Nodup {A = ℕ} (0 ∷ 1 ∷ [])
two_pointers = (Pairwise-pair (λ a b. ¬_prop)).1 (λ e. omega arith)

step_down_choice_example : (step_down rule_ops noon sun (0 ∷ 1 ∷ []) house).1 ≡ (
    if true
    then first_wanting (rule_ops.wants_to_step_down noon sun) house.store (1 ∷ 0 ∷ [])
    else none)
step_down_choice_example = step_down_choice rule_ops noon sun (0 ∷ 1 ∷ []) house two_pointers

abbrev rank : RuleActuation Bool → ℤ
rank s = s.priority

abbrev fan : RuleActuation Bool
fan = record lamp { thing_id = "fan"; priority = pos 5 }

add_strategy_run : add_strategy rank fan (heater ∷ lamp ∷ []) ≡ heater ∷ fan ∷ lamp ∷ []
unfolding add_strategy StrategyRepository.sort StrategyRepository.insert
add_strategy_run = refl

request_kept_example :
    let asked = (RuleActuation.wants_to_step_down constant noon heater).0 in
    let waiting =
      RuleActuation.adjust keep (RuleActuation.wants_to_step_up constant noon asked).0 in
    (RuleActuation.wants_to_step_down constant noon waiting).1 ≡ true
unfolding RuleActuation.wants_to_step_down
request_kept_example = request_kept constant noon noon heater refl refl
