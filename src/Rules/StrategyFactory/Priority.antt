-- ===== src/Rules/StrategyFactory/Priority.antt =====
-- src/rules/StrategyFactory.cpp: what the factory makes.
use Prim.Native.String.{String}
use iotic.Prelude.{ℕ, ℤ, ◌≡◌, refl, subst, inl, inr, Option-cases, Option, none, some, List, arith}
use iotic.Strategies.Strategy.{ThingType, relay, ev_station, solar_inverter, other}
use iotic.Strategies.MultiPhase
use iotic.Strategies.MultiPhase.{MultiPhase}
use iotic.Strategies.RuleActuation
use iotic.Strategies.RuleActuation.{RuleActuation, Compiler, Made}
use iotic.Strategies.Wallbox
use iotic.Strategies.Wallbox.{DoubleOps, Wallbox, offset_at}
use iotic.Rules.StrategyFactory.{
  AnyStrategy, Setup, from, then_multi_phase, then_rule, thing_id, priority,
}

-- The thing of a wallbox strategy, or `id` where there is none.
abbrev thing_or : (ops : DoubleOps) → String → Option (Option (Wallbox ops)) → String
thing_or ops id none = id
thing_or ops id (some none) = id
thing_or ops id (some (some w)) = w.thing_id

wallbox_thing :
    (ops : DoubleOps) (type : ThingType) (id : String) (offset : Option ℤ) (h : ℤ → ℤ)
    (v : ℤ × ℤ × ℤ) (ts : ℕ) (zero : ops.Double)
    → thing_or ops id (Wallbox.from ops type id offset h v ts zero) ≡ id
unfolding Wallbox.from Wallbox.on_offset
wallbox_thing ops relay id offset h v ts zero = refl
wallbox_thing ops solar_inverter id offset h v ts zero = refl
wallbox_thing ops other id offset h v ts zero = refl
wallbox_thing ops ev_station id none h (a, b, c) ts zero = refl
wallbox_thing ops ev_station id (some x) h (a, b, c) ts zero = elim (Option-cases (offset_at x)) [
  | inl e ↦ rw (e, thing_or) refl
  | inr (o, e) ↦ rw (e, thing_or) refl
]

multi_phase_thing :
    (type : ThingType) (id : String) (thresholds : List ℤ) (h : ℤ → ℤ) (d : ℕ) (m : MultiPhase)
    → MultiPhase.from type id thresholds h d ≡ some m
    → m.thing_id ≡ id
unfolding MultiPhase.from
multi_phase_thing type id thresholds h d m e = ground arith

module _ {Expression : Type 0} where
  rule_thing :
      (create : Compiler Expression) (id on off : String) (symbols : List (String × ℤ))
      (r : RuleActuation Expression) (o : Option ℤ)
      → (RuleActuation.from create id on off symbols).1 ≡ some (r, o)
      → r.thing_id ≡ id
  unfolding RuleActuation.from
  rule_thing create id on off symbols r o e = ground arith

module _ {ops : DoubleOps} {Expression : Type 0} (setup : Setup ops) where
  -- Nothing is made, or something for the thing of the setup with its priority.
  abbrev IsFor : Option (AnyStrategy ops Expression) → Type 0
  IsFor none = Unit {0}
  IsFor (some s) =
      (thing_id ops Expression s ≡ setup.thing_id) × (priority ops Expression s ≡ setup.priority)

  abbrev MakesFor : Option (List (String × ℤ) × Option (AnyStrategy ops Expression)) → Type 0
  MakesFor none = Unit {0}
  MakesFor (some (symbols, made)) = IsFor made

  then_multi_phase-IsFor :
      (made : Made Expression)
      → ((r : RuleActuation Expression) (o : Option ℤ)
          → made.1 ≡ some (r, o)
          → r.thing_id ≡ setup.thing_id)
      → IsFor (then_multi_phase setup made).1
  then_multi_phase-IsFor (symbols, some (r, o)) k = (k r o refl, refl)
  then_multi_phase-IsFor (symbols, none) k =
      elim (Option-cases (
        MultiPhase.from setup.type setup.thing_id setup.power_thresholds setup.hysteresis_for
          setup.phase_limit_duration)) [
            | inl e ↦ rw (e, IsFor) tt
            | inr (m, e) ↦ rw (e, IsFor) (multi_phase_thing _ _ _ _ _ m e, refl)
          ]

  then_rule-MakesFor :
      (create : Compiler Expression) (symbols : List (String × ℤ))
      (w : Option (Option (Wallbox ops)))
      → thing_or ops setup.thing_id w ≡ setup.thing_id
      → MakesFor (then_rule create setup symbols w)
  then_rule-MakesFor create symbols (some none) k = tt
  then_rule-MakesFor create symbols (some (some w)) k = (k, refl)
  then_rule-MakesFor create symbols none k =
      then_multi_phase-IsFor (RuleActuation.from create setup.thing_id setup.on setup.off symbols)
        (λ r o e. rule_thing create setup.thing_id setup.on setup.off symbols r o e)

module _ {ops : DoubleOps} {Expression : Type 0} (create : Compiler Expression) where
  -- A strategy that the factory makes belongs to the thing and has the configured priority.
  pub from_priority :
      (setup : Setup ops) (symbols symbols' : List (String × ℤ)) (s : AnyStrategy ops Expression)
      → from create setup symbols ≡ some (symbols', some s)
      → (thing_id ops Expression s ≡ setup.thing_id) × (priority ops Expression s ≡ setup.priority)
  unfolding from
  from_priority setup symbols symbols' s e = subst (MakesFor setup) e (
      then_rule-MakesFor setup create symbols _ (
        wallbox_thing ops setup.type setup.thing_id setup.offset setup.hysteresis_for setup.voltages
          setup.measured_at setup.zero))
