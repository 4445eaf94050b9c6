-- ===== src/Rules/RuleEngine/Removal.antt =====
-- src/rules/RuleEngine.cpp: what a removed thing leaves behind.
use Prim.Native.String.{String}
use text.Mathlib.Text.{◌==◌ as str_eq}
use text.Mathlib.TextEquality.{eq_iff}
use iotic.Prelude.{
  ◌≢◌, ℤ, ◌≡◌, refl, sym, ◌∙◌, ap, ◌⊎◌, inl, inr, true, false, not, Option, none, some, List, [],
  ◌∷◌, map, filter_by, arith, Bool-cases, if◌then◌else◌,
}
use iotic.Rules.RuleEngine.{
  RuleEngine, contains, subscribe, add_dependency, subscribe_loop, subscribe_dependencies,
  add_dependencies, before_dot, Rules, added, on_thing_added, on_thing_removed,
}

-- No thing is both subscribed to and waited for.
abbrev pub Disjoint : RuleEngine → Type 0
Disjoint e = (x : String) → contains x e.dependent ≡ true → contains x e.subscribed ≡ false

abbrev round : List String → String → RuleEngine → RuleEngine
round things d e =
    if contains d things then subscribe d e else record e { dependent = d ∷ e.dependent }

contains-subscribe :
    (x d : String) (e : RuleEngine)
    → str_eq d x ≡ false
    → contains x (subscribe d e).subscribed ≡ contains x e.subscribed
unfolding subscribe contains
contains-subscribe x d e h = ground arith

subscribe-dependent : (d : String) (e : RuleEngine) → (subscribe d e).dependent ≡ e.dependent
unfolding subscribe
subscribe-dependent d e = ground arith

contains_parts :
    (x d : String) (ds : List String)
    → contains x (d ∷ ds) ≡ false
    → (str_eq d x ≡ false) × (contains x ds ≡ false)
unfolding contains
contains_parts x d ds h = ground arith

different :
    (x d : String) (things : List String)
    → contains x things ≢ contains d things
    → str_eq d x ≡ false
different x d things h = elim (Bool-cases (str_eq d x)) [
  | inl same ↦ absurd (h (ap (λ y. contains y things) (sym ((eq_iff d x).0 same))))
  | inr differ ↦ differ
]

round_absent :
    (x d : String) (things : List String) (e : RuleEngine)
    → contains x things ≡ false
    → contains x (round things d e).subscribed ≡ contains x e.subscribed
round_absent x d things e h = elim (Bool-cases (contains d things)) [
  | inl e1 ↦ rw e1 (contains-subscribe x d e (different x d things (λ q. cc)))
  | inr e2 ↦ rw e2 refl
]

-- Nor to a thing that is not there.
loop_absent :
    (x : String) (things ds : List String) (e : RuleEngine)
    → contains x things ≡ false
    → contains x (subscribe_loop things ds e).subscribed ≡ contains x e.subscribed
unfolding subscribe_loop
loop_absent x things [] e h = refl
loop_absent x things (d ∷ ds) e h =
    loop_absent x things ds (round things d e) h ∙ round_absent x d things e h

round_waits :
    (x d : String) (things : List String) (e : RuleEngine)
    → contains x (round things d e).dependent ≡ true
    → (contains x e.dependent ≡ true) ⊎ ((str_eq d x ≡ true) × (contains d things ≡ false))
unfolding contains
round_waits x d things e h = ground (arith, subscribe-dependent d e)

-- What still waits behind the loop has waited before, and its thing is not there.
loop_waits :
    (x : String) (things ds : List String) (e : RuleEngine)
    → contains x (subscribe_loop things ds e).dependent ≡ true
    → (contains x e.dependent ≡ true) ⊎ ((contains x ds ≡ true) × (contains x things ≡ false))
unfolding subscribe_loop contains
loop_waits x things [] e h = inl h
loop_waits x things (d ∷ ds) e h = elim (loop_waits x things ds (round things d e) h) [
  | inr (k, t) ↦ ground arith
  | inl k ↦ elim (round_waits x d things e k) [
    | inl j ↦ inl j
    | inr (same, t) ↦
        inr (ground arith, ap (λ y. contains y things) (sym ((eq_iff d x).0 same)) ∙ t)
  ]
]

subscribe_dependencies-Disjoint :
    (things : List String) (e : RuleEngine)
    → Disjoint e
    → Disjoint (subscribe_dependencies things e)
unfolding subscribe_dependencies contains
subscribe_dependencies-Disjoint things e apart x h =
    elim (loop_waits x things e.dependent (record e { dependent = [] }) h) [
      | inl k ↦ cc
      | inr (k, t) ↦ loop_absent x things e.dependent (record e { dependent = [] }) t ∙ apart x k
    ]

add_dependency-Disjoint :
    (id : String) (e : RuleEngine) → Disjoint e → Disjoint (add_dependency id e)
unfolding add_dependency contains
add_dependency-Disjoint id e apart x h = elim (Bool-cases (str_eq id x)) [
  | inl same ↦
      let there : contains x e.subscribed ≡ contains id e.subscribed =
        ap (λ y. contains y e.subscribed) (sym ((eq_iff id x).0 same)) in
      ground (arith, there, same, h, apart x)
  | inr differ ↦ ground (arith, differ, h, apart x)
]

add_dependencies-Disjoint :
    (ids : List String) (e : RuleEngine) → Disjoint e → Disjoint (add_dependencies ids e)
unfolding add_dependencies
add_dependencies-Disjoint [] e apart = apart
add_dependencies-Disjoint (id ∷ ids) e apart =
    add_dependencies-Disjoint ids (add_dependency id e) (add_dependency-Disjoint id e apart)

removed_inside :
    (x id : String) (xs : List String)
    → contains x xs ≡ false
    → contains x (filter_by (λ t. not (str_eq t id)) xs) ≡ false
unfolding contains filter_by
removed_inside x id [] h = refl
removed_inside x id (y ∷ xs) h = ground (arith, contains_parts x y xs h, removed_inside x id xs)

module _ {V S : Type 0} (priority : S → ℤ) where
  added-Disjoint :
      (things : List String) (id : String) (e : RuleEngine) (made : List (String × V) × Option S)
      (strategies : List S)
      → Disjoint e
      → Disjoint (added priority things id e made strategies).engine
  unfolding added
  added-Disjoint things id e (symbols, none) strategies apart = apart
  added-Disjoint things id e (symbols, some s) strategies apart =
      let names = map (λ (kv : String × V). before_dot kv.0) symbols in
      subscribe_dependencies-Disjoint things (add_dependency id (add_dependencies names e)) (
        add_dependency-Disjoint id (add_dependencies names e)
          (add_dependencies-Disjoint names e apart))

  module _ (factory : List (String × V) → List (String × V) × Option S) where
    -- Both handlers of things keep the things that are subscribed to and those that are waited for
    -- apart.
    pub handlers-Disjoint :
        (things : List String) (id : String) (r : Rules V S)
        → Disjoint r.engine
        → Disjoint (on_thing_added priority factory things id r).engine
          × Disjoint (on_thing_removed id r).engine
    unfolding on_thing_added on_thing_removed
    handlers-Disjoint things id r apart = (
      added-Disjoint things id (subscribe_dependencies things r.engine) (factory r.symbols)
          r.strategies (subscribe_dependencies-Disjoint things r.engine apart),
      λ x h. removed_inside x id r.engine.subscribed (apart x h),
    )
