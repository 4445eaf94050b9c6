-- ===== src/Rules/RuleEngine.antt =====
-- src/rules/RuleEngine.cpp: the things that expressions depend on, and the subscriptions to them. The
-- library's repository of things is the list of the identifiers that it holds.
pub mod Parser
pub mod Symbols
pub mod Dependencies
pub mod Removal
use Prim.Native.Char.{code}
use Prim.Native.String.{String, ◌++◌ as str_append}
use text.Mathlib.Text.{◌==◌ as str_eq}
use iotic.Prelude.{
  ◌==◌, ℤ, pos, Bool, true, false, not, ◌||◌, Option, none, some, List, [], ◌∷◌, ◌++◌, map,
  filter_by, if◌then◌else◌,
}
use iotic.Strategies.StrategyRepository.{add_strategy}
use iotic.Strategies.Wallbox.{offset_at}
use iotic.Rules.SymbolRepository.{set_symbol}

-- The two sets as lists. `subscriptions` is not in the source: it records whose observable was
-- subscribed to, the newest first.
pub record RuleEngine : Type 0 where
  pub dependent : List String
  pub subscribed : List String
  pub subscriptions : List String

unfoldable pub contains : String → List String → Bool
contains id [] = false
contains id (x ∷ xs) = str_eq x id || contains id xs

unfoldable pub subscribe : String → RuleEngine → RuleEngine
subscribe id e =
    if contains id e.subscribed
    then e
    else record e { subscribed = id ∷ e.subscribed; subscriptions = id ∷ e.subscriptions }

unfoldable pub add_dependency : String → RuleEngine → RuleEngine
add_dependency id e =
    if contains id e.subscribed
    then e
    else if contains id e.dependent
    then e
    else record e { dependent = id ∷ e.dependent }

-- The loop over the dependencies: one whose thing is there is subscribed to and erased.
unfoldable pub subscribe_loop : List String → List String → RuleEngine → RuleEngine
subscribe_loop things [] e = e
subscribe_loop things (d ∷ ds) e =
    let e' =
      if contains d things then subscribe d e else record e { dependent = d ∷ e.dependent } in
    subscribe_loop things ds e'

unfoldable pub subscribe_dependencies : List String → RuleEngine → RuleEngine
subscribe_dependencies things e = subscribe_loop things e.dependent (record e { dependent = [] })

-- `kv.first.substr(0, kv.first.find("."))`: all of it where there is no dot.
unfoldable pub before_dot : String → String
before_dot String.[] = String.[]
before_dot (String.◌∷◌ c s) = if (code c == 46) then String.[] else String.◌∷◌ c (before_dot s)

unfoldable pub add_dependencies : List String → RuleEngine → RuleEngine
add_dependencies [] e = e
add_dependencies (id ∷ ids) e = add_dependencies ids (add_dependency id e)

-- What the handlers of things change: the engine, the symbols and the repository of strategies.
pub record Rules (V S : Type 0) : Type 0 where
  pub engine : RuleEngine
  pub symbols : List (String × V)
  pub strategies : List S

-- The value of a property as the library's variant has it; `other` is not arithmetic.
pub data PropertyValue (V : Type 0) : Type 0 where
  whole : ℤ → PropertyValue V
  flag : Bool → PropertyValue V
  real : V → PropertyValue V
  other : PropertyValue V

module _ {V S : Type 0} where
  -- The factory may enter symbols, as it compiles expressions.
  unfoldable pub added :
      (S → ℤ)
      → List String
      → String
      → RuleEngine
      → List (String × V) × Option S
      → List S
      → Rules V S
  added priority things id e (symbols, none) strategies = record {
    engine = e;
    symbols = symbols;
    strategies = strategies;
  }
  added priority things id e (symbols, some s) strategies = record {
    engine =
        subscribe_dependencies things
          (add_dependency id (add_dependencies (map (λ kv. before_dot kv.0) symbols) e));
    symbols = symbols;
    strategies = add_strategy priority s strategies;
  }

  unfoldable pub on_thing_added :
      (S → ℤ)
      → (List (String × V) → List (String × V) × Option S)
      → List String
      → String
      → Rules V S
      → Rules V S
  on_thing_added priority factory things id r =
      added priority things id (subscribe_dependencies things r.engine) (factory r.symbols)
        r.strategies

  unfoldable pub on_thing_removed : String → Rules V S → Rules V S
  on_thing_removed id r = record r {
    engine = record r.engine {
      subscribed = filter_by (λ t. not (str_eq t id)) r.engine.subscribed;
    };
  }

module _ {V : Type 0} (of_int : ℤ → V) where
  abbrev set_offset : String → Option ℤ → List (String × V) → Option (List (String × V))
  set_offset var none symbols = none
  set_offset var (some o) symbols = some (set_symbol var (of_int o) symbols)

  abbrev set_value : String → PropertyValue V → List (String × V) → List (String × V)
  set_value var (PropertyValue.whole i) symbols = set_symbol var (of_int i) symbols
  set_value var (PropertyValue.flag b) symbols =
      set_symbol var (of_int (if b then pos 1 else pos 0)) symbols
  set_value var (PropertyValue.real v) symbols = set_symbol var v symbols
  set_value var PropertyValue.other symbols = symbols

  abbrev set_offset_value :
      String → PropertyValue V → List (String × V) → Option (List (String × V))
  set_offset_value var (PropertyValue.whole i) symbols = set_offset var (offset_at i) symbols
  set_offset_value var _ symbols = some symbols

  -- The handler of a property of a thing that is subscribed to; `none` is a read outside the table
  -- of offsets.
  unfoldable pub on_property :
      String → String → PropertyValue V → List (String × V) → Option (List (String × V))
  on_property id key value symbols =
      let var = str_append (str_append id ".") key in
      if str_eq key "offset"
      then set_offset_value var value symbols
      else some (set_value var value symbols)
