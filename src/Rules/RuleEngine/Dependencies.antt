-- ===== src/Rules/RuleEngine/Dependencies.antt =====
-- src/rules/RuleEngine.cpp: which things the engine is subscribed to.
use Prim.Native.String.{String}
use text.Mathlib.Text.{◌==◌ as str_eq}
use text.Mathlib.TextEquality.{eq_iff}
use iotic.Prelude.{
  ℤ, ◌≡◌, refl, sym, ◌∙◌, ap, subst, ◌⊎◌, inl, inr, true, Option, some, List, [], ◌∷◌, map, arith,
  Bool-cases, if◌then◌else◌,
}
use iotic.Rules.RuleEngine.{
  RuleEngine, contains, subscribe, add_dependency, subscribe_loop, subscribe_dependencies,
  add_dependencies, before_dot, Rules, added, on_thing_added,
}

-- What is subscribed to stays so in the loop, and a dependency whose thing is there is.
subscribe-keeps :
    (x d : String) (e : RuleEngine)
    → contains x e.subscribed ≡ true
    → contains x (subscribe d e).subscribed ≡ true
unfolding subscribe contains
subscribe-keeps x d e h = ground arith

subscribe-contains : (x : String) (e : RuleEngine) → contains x (subscribe x e).subscribed ≡ true
unfolding subscribe contains
subscribe-contains x e = ground (arith, (eq_iff x x).1 refl)

subscribe-eq :
    (x d : String) (e : RuleEngine)
    → str_eq d x ≡ true
    → contains x (subscribe d e).subscribed ≡ true
subscribe-eq x d e h =
    subst (λ y. contains x (subscribe y e).subscribed ≡ true) (sym ((eq_iff d x).0 h))
      (subscribe-contains x e)

contains-eq :
    (x d : String) (things : List String)
    → str_eq d x ≡ true
    → contains d things ≡ contains x things
contains-eq x d things h = ap (λ y. contains y things) ((eq_iff d x).0 h)

-- One round of the loop.
abbrev round : List String → String → RuleEngine → RuleEngine
round things d e =
    if contains d things then subscribe d e else record e { dependent = d ∷ e.dependent }

round-keeps :
    (x d : String) (things : List String) (e : RuleEngine)
    → contains x e.subscribed ≡ true
    → contains x (round things d e).subscribed ≡ true
round-keeps x d things e h = ground (arith, subscribe-keeps x d e h)

loop-keeps :
    (x : String) (things ds : List String) (e : RuleEngine)
    → contains x e.subscribed ≡ true
    → contains x (subscribe_loop things ds e).subscribed ≡ true
unfolding subscribe_loop
loop-keeps x things [] e h = h
loop-keeps x things (d ∷ ds) e h =
    loop-keeps x things ds (round things d e) (round-keeps x d things e h)

loop-subscribes :
    (x : String) (things ds : List String) (e : RuleEngine)
    → contains x things ≡ true
    → contains x ds ≡ true
    → contains x (subscribe_loop things ds e).subscribed ≡ true
unfolding subscribe_loop contains
loop-subscribes x things [] e t h = cc
loop-subscribes x things (d ∷ ds) e t h = elim (Bool-cases (str_eq d x)) [
  | inl same ↦
      loop-keeps x things ds (round things d e)
        (rw (contains-eq x d things same ∙ t) (subscribe-eq x d e same))
  | inr differ ↦ loop-subscribes x things ds (round things d e) t (cc (rw differ at h))
]

-- Either already subscribed to, or waiting for its thing.
abbrev Known : String → RuleEngine → Type 0
Known x e = (contains x e.subscribed ≡ true) ⊎ (contains x e.dependent ≡ true)

Known-add_dependency : (x id : String) (e : RuleEngine) → Known x e → Known x (add_dependency id e)
unfolding add_dependency contains
Known-add_dependency x id e k = ground arith

add_dependency-Known : (id : String) (e : RuleEngine) → Known id (add_dependency id e)
unfolding add_dependency contains
add_dependency-Known id e = ground (arith, (eq_iff id id).1 refl)

Known-add_dependencies :
    (x : String) (ids : List String) (e : RuleEngine)
    → Known x e ⊎ (contains x ids ≡ true)
    → Known x (add_dependencies ids e)
unfolding add_dependencies contains
Known-add_dependencies x [] e (inl k) = k
Known-add_dependencies x [] e (inr h) = cc
Known-add_dependencies x (id ∷ ids) e (inl k) =
    Known-add_dependencies x ids (add_dependency id e) (inl (Known-add_dependency x id e k))
Known-add_dependencies x (id ∷ ids) e (inr h) = elim (Bool-cases (str_eq id x)) [
  | inl same ↦ Known-add_dependencies x ids (add_dependency id e) (
      inl (
        subst (λ y. Known y (add_dependency id e)) ((eq_iff id x).0 same)
          (add_dependency-Known id e)))
  | inr differ ↦ Known-add_dependencies x ids (add_dependency id e) (inr (cc (rw differ at h)))
]

Known-subscribed :
    (x : String) (things : List String) (e : RuleEngine)
    → contains x things ≡ true
    → Known x e
    → contains x (subscribe_dependencies things e).subscribed ≡ true
unfolding subscribe_dependencies
Known-subscribed x things e t (inl k) =
    loop-keeps x things e.dependent (record e { dependent = [] }) k
Known-subscribed x things e t (inr k) =
    loop-subscribes x things e.dependent (record e { dependent = [] }) t k

module _ {V S : Type 0} (priority : S → ℤ)
    (factory : List (String × V) → List (String × V) × Option S) where
  -- When an added thing has got a strategy, the engine is subscribed to this thing and to every thing
  -- that a symbol is named for, as far as the repository holds them.
  pub on_thing_added_subscribes :
      (things : List String) (id x : String) (r : Rules V S) (symbols : List (String × V)) (s : S)
      → factory r.symbols ≡ (symbols, some s)
      → contains x things ≡ true
      → contains x (id ∷ map (λ kv. before_dot kv.0) symbols) ≡ true
      → contains x (on_thing_added priority factory things id r).engine.subscribed ≡ true
  unfolding on_thing_added added contains
  on_thing_added_subscribes things id x r symbols s e t h =
      let names = map (λ (kv : String × V). before_dot kv.0) symbols in
      let start = subscribe_dependencies things r.engine in
      rw e (
        Known-subscribed x things (add_dependency id (add_dependencies names start)) t
          (elim (Bool-cases (str_eq id x)) [
            | inl same ↦
                subst (λ y. Known y (add_dependency id (add_dependencies names start)))
                  ((eq_iff id x).0 same) (add_dependency-Known id (add_dependencies names start))
            | inr differ ↦
                Known-add_dependency x id (add_dependencies names start)
                  (Known-add_dependencies x names start (inr (cc (rw differ at h))))
          ]))
