-- ===== src/Rules/RuleEngine/Symbols.antt =====
-- src/rules/RuleEngine.cpp with src/rules/RuleActuationStrategy.cpp and src/rules/StrategyFactory.cpp: from
-- the names in the expressions of a rule to the things that the engine is subscribed to.
use Prim.Native.String.{String}
use text.Mathlib.Text.{◌==◌ as str_eq}
use text.Mathlib.TextEquality.{eq_iff}
use iotic.Config.ConfigRepository.{or_else}
use iotic.Prelude.{
  ℤ, pos, ◌≡◌, refl, ap, ◌∙◌, subst, ◌⊎◌, inl, inr, Bool, true, not, Option, none, some, List, [],
  ◌∷◌, map, filter_by, arith, Bool-cases,
}
use iotic.Rules.RuleEngine.{Rules, contains, before_dot, on_thing_added}
use iotic.Rules.RuleEngine.Dependencies.{on_thing_added_subscribes}
use iotic.Rules.RuleEngine.Parser.{Parser, create_parser, create_parser_table, contains-find}
use iotic.Rules.StrategyFactory.{
  AnyStrategy, Setup, from, set_priority, then_rule, then_multi_phase,
}
use iotic.Rules.SymbolRepository.{find_symbol}
use iotic.Strategies.MultiPhase
use iotic.Strategies.MultiPhase.{MultiPhase}
use iotic.Strategies.RuleActuation
use iotic.Strategies.RuleActuation.{RuleActuation, Compiler, Made, first, second, is_empty}
use iotic.Strategies.Wallbox.{DoubleOps, Wallbox}

abbrev names : {V : Type 0} → List (String × V) → List String
names symbols = map (λ kv. kv.0) symbols

pub find-contains :
    {V : Type 0} (n : String) (table : List (String × V))
    → contains n (names table) ≡ true
    → (v : V) × (find_symbol n table ≡ some v)
unfolding find_symbol contains
find-contains n [] h = cc
find-contains n ((k, w) ∷ table) h = elim (Bool-cases (str_eq k n)) [
  | inl same ↦ (w, rw same refl)
  | inr differ ↦ rw differ (find-contains n table (rw differ at h))
]

contains-map :
    {V : Type 0} (f : String → String) (n : String) (table : List (String × V))
    → contains n (names table) ≡ true
    → contains (f n) (map (λ kv. f kv.0) table) ≡ true
unfolding contains
contains-map f n [] h = cc
contains-map f n ((k, w) ∷ table) h = elim (Bool-cases (str_eq k n)) [
  | inl same ↦ rw ((eq_iff (f k) (f n)).1 (ap f ((eq_iff k n).0 same))) refl
  | inr differ ↦ ground (arith, contains-map f n table (rw differ at h))
]

-- The library accepts the same expressions whatever is known, and does not ask for what is known.
abbrev pub IsCompiler : (String → List String → Bool × List String) → Type 0
IsCompiler compile =
    (expr : String) (known : List String)
    → (compile expr known).1 ≡ filter_by (λ n. not (contains n known)) (compile expr []).1

module _ {V : Type 0} (zero : V) (compile : String → List String → Bool × List String) where
  create_parser-enters :
      (expr n : String) (symbols : List (String × V))
      → IsCompiler compile
      → (contains n (compile expr []).1 ≡ true) ⊎ (contains n (names symbols) ≡ true)
      → contains n (names (create_parser zero compile expr symbols).0) ≡ true
  create_parser-enters expr n symbols law h =
      let found = (create_parser_table zero compile law expr symbols n).1 in
      let table = (create_parser zero compile expr symbols).0 in
      elim (Bool-cases (contains n (compile expr []).1)) [
        | inl asked ↦
            contains-find n (or_else zero (find_symbol n symbols)) table (found ∙ rw asked refl)
        | inr other ↦ elim h [
          | inl asked ↦ cc
          | inr before ↦
              let old = find-contains n symbols before in
              contains-find n old.0 table (found ∙ rw other old.1)
        ]
      ]

-- A rule comes with the table that its second expression was compiled with.
module _ {Expression : Type 0} (create : Compiler Expression) where
  second-table :
      (id : String) (on : Expression) (r : List (String × ℤ) × Option Expression)
      (table : List (String × ℤ)) (p : RuleActuation Expression × Option ℤ)
      → second id on r ≡ (table, some p)
      → r.0 ≡ table
  second-table id on (t, none) table p e = cc
  second-table id on (t, some off) table p e = ap (λ m. m.0) e

  first-table :
      (id off : String) (r : List (String × ℤ) × Option Expression) (table : List (String × ℤ))
      (p : RuleActuation Expression × Option ℤ)
      → first create id off r ≡ (table, some p)
      → (create off r.0).0 ≡ table
  first-table id off (t, none) table p e = cc
  first-table id off (t, some on) table p e = second-table id on (create off t) table p e

  from-table :
      (id on off : String) (symbols table : List (String × ℤ))
      (p : RuleActuation Expression × Option ℤ)
      → RuleActuation.from create id on off symbols ≡ (table, some p)
      → (create off (create on symbols).0).0 ≡ table
  unfolding RuleActuation.from
  from-table id on off symbols table p e = elim (Bool-cases (is_empty on)) [
    | inl empty ↦ cc (rw empty at e)
    | inr full ↦ elim (Bool-cases (is_empty off)) [
      | inl empty ↦ cc (rw (full, empty) at e)
      | inr both ↦ first-table id off (create on symbols) table p (rw (full, both) at e)
    ]
  ]

-- The three ways of the factory that make no rule make another strategy, or none.
module _ {ops : DoubleOps} where
  other_strategy :
      (priority : ℤ) (o : Option MultiPhase) (s : RuleActuation Parser)
      → elim o as (λ x. Option (AnyStrategy ops Parser)) [
        | none ↦ none
        | some x ↦ some (set_priority ops Parser priority (AnyStrategy.multi_phase x))
      ]
        ≡ some (AnyStrategy.rule_actuation s)
      → ⊥
  other_strategy priority none s e = cc
  other_strategy priority (some x) s e = cc

  then_multi_phase_rule :
      (setup : Setup ops) (m : Made Parser) (symbols : List (String × ℤ)) (s : RuleActuation Parser)
      → then_multi_phase setup m ≡ (symbols, some (AnyStrategy.rule_actuation s))
      → (p : RuleActuation Parser × Option ℤ) × (m ≡ (symbols, some p))
  then_multi_phase_rule setup (table, some (p, o)) symbols s e =
      ((p, o), ap (λ t. (t, some (p, o))) (ap (λ m. m.0) e))
  then_multi_phase_rule setup (table, none) symbols s e = absurd (
      other_strategy setup.priority
        (MultiPhase.from setup.type setup.thing_id setup.power_thresholds setup.hysteresis_for
          setup.phase_limit_duration)
        s (ap (λ m. m.1) e))

  then_rule-table :
      (create : Compiler Parser) (setup : Setup ops) (symbols table : List (String × ℤ))
      (w : Option (Option (Wallbox ops))) (s : RuleActuation Parser)
      → then_rule create setup symbols w ≡ some (table, some (AnyStrategy.rule_actuation s))
      → (create setup.off (create setup.on symbols).0).0 ≡ table
  then_rule-table create setup symbols table none s e =
      let made = RuleActuation.from create setup.thing_id setup.on setup.off symbols in
      let inner : then_multi_phase setup made ≡ (table, some (AnyStrategy.rule_actuation s)) = cc in
      let rule = then_multi_phase_rule setup made table s inner in
      from-table create setup.thing_id setup.on setup.off symbols table rule.0 rule.1
  then_rule-table create setup symbols table (some none) s e = cc
  then_rule-table create setup symbols table (some (some w)) s e = cc

  from_rule-table :
      (create : Compiler Parser) (setup : Setup ops) (symbols table : List (String × ℤ))
      (s : RuleActuation Parser)
      → from create setup symbols ≡ some (table, some (AnyStrategy.rule_actuation s))
      → (create setup.off (create setup.on symbols).0).0 ≡ table
  unfolding from
  from_rule-table create setup symbols table s e = then_rule-table create setup symbols table _ s e

  -- When the factory has made a rule for an added thing, the engine is subscribed to every thing that is
  -- there and that one of the names in the rule's two expressions is made from, up to the dot; the
  -- library accepts the same expressions whatever is known, and does not ask for what is known.
  pub rule_subscribes :
      (compile : String → List String → Bool × List String) (setup : Setup ops)
      (priority : AnyStrategy ops Parser → ℤ)
      (factory : List (String × ℤ) → List (String × ℤ) × Option (AnyStrategy ops Parser))
      (things : List String) (r : Rules ℤ (AnyStrategy ops Parser)) (s : RuleActuation Parser)
      (n : String)
      → IsCompiler compile
      → from (create_parser (pos 0) compile) setup r.symbols ≡ some (factory r.symbols)
      → (factory r.symbols).1 ≡ some (AnyStrategy.rule_actuation s)
      → (contains n (compile setup.on []).1 ≡ true) ⊎ (contains n (compile setup.off []).1 ≡ true)
      → contains (before_dot n) things ≡ true
      → contains
          (before_dot n)
          (on_thing_added priority factory things setup.thing_id r).engine.subscribed
        ≡ true
  unfolding contains
  rule_subscribes compile setup priority factory things r s n law made rule asked there =
      let create = create_parser (pos 0) compile in
      let table = (factory r.symbols).0 in
      let pair : factory r.symbols ≡ (table, some (AnyStrategy.rule_actuation s)) =
        ap (λ o. (table, o)) rule in
      let last = from_rule-table create setup r.symbols table s (made ∙ ap some pair) in
      let entered : contains n (names (create setup.off (create setup.on r.symbols).0).0) ≡ true =
        create_parser-enters (pos 0) compile setup.off n (create setup.on r.symbols).0 law
          (elim asked [
            | inl on ↦ inr (create_parser-enters (pos 0) compile setup.on n r.symbols law (inl on))
            | inr off ↦ inl off
          ]) in
      let known =
        contains-map before_dot n table (subst (λ t. contains n (names t) ≡ true) last entered) in
      on_thing_added_subscribes priority factory things setup.thing_id (before_dot n) r table
        (AnyStrategy.rule_actuation s) pair there (ground (arith, known))
