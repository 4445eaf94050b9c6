-- ===== src/Strategies/RuleActuation.antt =====
-- src/rules/RuleActuationStrategy.cpp: a switch with one expression that turns it on and one that
-- turns it off. The expressions are compiled and evaluated by a library, which is a parameter.
pub mod Latch
use Prim.Native.String.{String, ◌++◌ as str_append}
use iotic.Prelude.{
  ℤ, pos, Bool, true, false, not, ◌&&◌, Option, none, some, List, [], ◌∷◌, if◌then◌else◌,
}
use iotic.Rules.SymbolRepository.{contains_symbol}
use iotic.Strategies.Wallbox.{default_offset}
use iotic.Strategies.Strategy.{Step, keep, down, up, SiteProperties, World}

-- `sent` is what `power_control` was set to, the newest first.
pub record RuleActuation (Expression : Type 0) : Type 0 where
  pub thing_id : String
  pub priority : ℤ
  pub on_expression : Expression
  pub off_expression : Expression
  pub state : Option Bool
  pub next_state : Option Bool
  pub measured_power : ℤ
  pub sent : List Bool

-- `has_value() && value() == b`.
abbrev pub is : Bool → Option Bool → Bool
is b none = false
is true (some x) = x
is false (some x) = not x

-- `_state != _nextState` where the latter is `b`.
abbrev pub differs : Bool → Option Bool → Bool
differs b s = not (is b s)

-- `if (_state.has_value())`
abbrev send : Option Bool → List Bool → List Bool
send none l = l
send (some b) l = b ∷ l

module _ {Expression : Type 0} (evaluate : Expression → List (String × ℤ) → Bool) where
  unfoldable pub wants_to_step_down :
      World → RuleActuation Expression → RuleActuation Expression × Bool
  wants_to_step_down world s =
      let next = if evaluate s.off_expression world.symbols then some false else s.next_state in
      (record s { next_state = next }, is false next && differs false s.state)

  unfoldable pub wants_to_step_up :
      World → RuleActuation Expression → RuleActuation Expression × Bool
  wants_to_step_up world s =
      let next = if evaluate s.on_expression world.symbols then some true else s.next_state in
      (record s { next_state = next }, is true next && differs true s.state)

module _ {Expression : Type 0} where
  abbrev switch : Step → RuleActuation Expression → RuleActuation Expression
  switch keep s = s
  switch down s = record s { state = some false }
  switch up s = record s { state = some true }

  unfoldable pub adjust : Step → RuleActuation Expression → RuleActuation Expression
  adjust step s = let s' = switch step s in record s' { sent = send s'.state s'.sent }

  -- The handler of the thing's power.
  unfoldable pub on_power : ℤ → RuleActuation Expression → RuleActuation Expression
  on_power value s = record s { measured_power = value }

abbrev pub is_empty : String → Bool
is_empty String.[] = true
is_empty (String.◌∷◌ c s) = false

-- `RuleEngine::createParser` compiles an expression; it may enter symbols.
abbrev pub Compiler : Type 0 → Type 0
Compiler Expression = String → List (String × ℤ) → List (String × ℤ) × Option Expression

abbrev initial_offset : String → List (String × ℤ) → Option ℤ
initial_offset thing_id symbols =
    if contains_symbol (str_append thing_id ".offset") symbols then some default_offset else none

-- The symbols, and the strategy with the offset that the thing is set to.
abbrev pub Made : Type 0 → Type 0
Made Expression = List (String × ℤ) × Option (RuleActuation Expression × Option ℤ)

module _ {Expression : Type 0} where
  -- The constructor.
  abbrev pub construct : String → Expression → Expression → RuleActuation Expression
  construct thing_id on_expression off_expression = record {
    thing_id = thing_id;
    priority = pos 0;
    on_expression = on_expression;
    off_expression = off_expression;
    state = none;
    next_state = none;
    measured_power = pos 0;
    sent = [];
  }

  abbrev pub second : String → Expression → List (String × ℤ) × Option Expression → Made Expression
  second thing_id on_expression (symbols, none) = (symbols, none)
  second thing_id on_expression (symbols, some off_expression) = (
    symbols,
    some (construct thing_id on_expression off_expression, initial_offset thing_id symbols),
  )

  abbrev pub first :
      Compiler Expression
      → String
      → String
      → List (String × ℤ) × Option Expression
      → Made Expression
  first create thing_id off (symbols, none) = (symbols, none)
  first create thing_id off (symbols, some on_expression) =
      second thing_id on_expression (create off symbols)

  -- `from`, with the configured expressions.
  unfoldable pub from :
      Compiler Expression → String → String → String → List (String × ℤ) → Made Expression
  from create thing_id on off symbols =
      if is_empty on
      then (symbols, none)
      else if is_empty off
      then (symbols, none)
      else first create thing_id off (create on symbols)
