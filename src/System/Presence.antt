-- ===== src/System/Presence.antt =====
-- No strategy outlives its thing.
use Prim.Native.String.{String}
use mathlib.Core.Bool.{Bool-set}
use mathlib.Core.List.{Mem, mem-cons, not-mem-nil}
use mathlib.Core.List.Perm
use mathlib.Core.Logic.Or
use text.Mathlib.Text.{◌==◌ as str_eq}
use text.Mathlib.TextEquality.{eq_iff}
use iotic.Prelude.{
  ℕ, ℤ, ◌≡◌, refl, sym, ap, ◌∙◌, subst, true, false, not, Option, none, some, List, [], ◌∷◌, map,
  inl, inr, arith, Bool-cases, All, All-append, All-filter_by, filter_by,
}
use iotic.Rules.RuleEngine.{
  RuleEngine, contains, subscribe_dependencies, added, on_thing_added, on_thing_removed,
}
use iotic.Rules.RuleEngine.Removal.{Disjoint, handlers-Disjoint}
use iotic.Strategies.Strategy.{SiteProperties, World, StrategyOps}
use iotic.Strategies.StrategyRepository.{remove_thing}
use iotic.Strategies.StrategyRepository.Order.{
  IsSorted, before, behind, add_strategy_split, add_strategy-IsSorted,
}
use iotic.Strategies.PowerManager.{cycle, begin}
use iotic.Strategies.PowerManager.Turns.{evaluate-adjusted}
use iotic.System.{System, thing_added, thing_removed, site_changed, removed_rules, Event, Reach}

contains-kept :
    (x id : String) (xs : List String)
    → str_eq x id ≡ false
    → contains x xs ≡ true
    → contains x (filter_by (λ t. not (str_eq t id)) xs) ≡ true
unfolding contains filter_by
contains-kept x id [] h k = k
contains-kept x id (y ∷ xs) h k = elim (Bool-cases (str_eq y x)) [
  | inl same ↦
      let stays : str_eq y id ≡ false = ap (λ z. str_eq z id) ((eq_iff y x).0 same) ∙ h in
      rw (stays, same) refl
  | inr differ ↦ let rest = contains-kept x id xs h (rw differ at k) in ground (arith, differ, rest)
]

module _ (thing_id : ℕ → String) where
  -- The strategies whose things are there.
  abbrev pub ArePresent : List String → List ℕ → Type 0
  ArePresent things = All (λ p. contains (thing_id p) things ≡ true)

  present-Mem :
      (things : List String) (p : ℕ) (ps : List ℕ)
      → ArePresent things ps
      → Mem p ps
      → contains (thing_id p) things ≡ true
  present-Mem things p [] h m = absurd (not-mem-nil m)
  present-Mem things p (q ∷ ps) h m =
      Or.elim (Bool-set (contains (thing_id p) things) true) (mem-cons.0 m)
        (λ e. ap (λ z. contains (thing_id z) things) e ∙ h.0) (present-Mem things p ps h.1)

  ArePresent-cons :
      (id : String) (things : List String) (ps : List ℕ)
      → ArePresent things ps
      → ArePresent (id ∷ things) ps
  unfolding contains
  ArePresent-cons id things [] h = tt
  ArePresent-cons id things (p ∷ ps) h = ground (arith, ArePresent-cons id things ps h.1)

  ArePresent-remove_thing :
      (id : String) (things : List String) (ps : List ℕ)
      → ArePresent things ps
      → ArePresent (filter_by (λ t. not (str_eq t id)) things) (remove_thing thing_id id ps)
  unfolding remove_thing filter_by
  ArePresent-remove_thing id things [] h = tt
  ArePresent-remove_thing id things (p ∷ ps) h = elim (Bool-cases (str_eq (thing_id p) id)) [
    | inl gone ↦ rw gone (ArePresent-remove_thing id things ps h.1)
    | inr stays ↦
        rw stays
          (contains-kept (thing_id p) id things stays h.0, ArePresent-remove_thing id things ps h.1)
  ]

module _ (thing_id : ℕ → String) (priority : ℕ → ℤ) where
  remove_thing-IsSorted :
      (id : String) (ps : List ℕ)
      → IsSorted priority ps
      → IsSorted priority (remove_thing thing_id id ps)
  unfolding remove_thing filter_by
  remove_thing-IsSorted id [] h = tt
  remove_thing-IsSorted id (p ∷ ps) h = elim (Bool-cases (str_eq (thing_id p) id)) [
    | inl gone ↦ rw gone (remove_thing-IsSorted id ps h.1)
    | inr stays ↦ rw stays (All-filter_by _ _ ps h.0, remove_thing-IsSorted id ps h.1)
  ]

  added_strategies :
      {V : Type 0} (things : List String) (id : String) (e : RuleEngine)
      (made : List (String × V) × Option ℕ) (ps : List ℕ)
      → IsSorted priority ps
      → ArePresent thing_id things ps
      → ((p : ℕ) → made.1 ≡ some p → thing_id p ≡ id)
      → IsSorted priority (added priority (id ∷ things) id e made ps).strategies
        × ArePresent thing_id (id ∷ things) (added priority (id ∷ things) id e made ps).strategies
  unfolding added contains
  added_strategies things id e (symbols, none) ps s h f =
      (s, ArePresent-cons thing_id id things ps h)
  added_strategies things id e (symbols, some p) ps s h f =
      let others = ArePresent-cons thing_id id things ps h in
      let own : contains (thing_id p) (id ∷ things) ≡ true =
        rw (f p refl, (eq_iff id id).1 refl) refl in
      (
        add_strategy-IsSorted priority p ps,
        subst (ArePresent thing_id (id ∷ things)) (sym (add_strategy_split priority p ps s)) (
            All-append _ (before priority p ps) (p ∷ behind priority p ps)
              (All-filter_by _ _ ps others) (own, All-filter_by _ _ ps others)),
      )

  -- The strategies are in the order of their priority, each of a thing that is there, and no thing is
  -- both subscribed to and waited for.
  pub record IsSystem {V S : Type 0} (s : System V S) : Type 0 where
    pub sorted : IsSorted priority s.rules.strategies
    pub present : ArePresent thing_id s.things s.rules.strategies
    pub apart : Disjoint s.rules.engine

module _ {V S : Type 0} (ops : StrategyOps S) (thing_id : ℕ → String) (priority : ℕ → ℤ) where
  pub Event-IsSystem :
      {s t : System V S}
      → Event ops thing_id priority s t
      → IsSystem thing_id priority s
      → IsSystem thing_id priority t
  unfolding thing_added thing_removed site_changed on_thing_added on_thing_removed
  Event-IsSystem (Event.added factory id s f) h =
      let (sorted, present) =
        added_strategies thing_id priority s.things id
          (subscribe_dependencies (id ∷ s.things) s.rules.engine) (factory s.rules.symbols)
          s.rules.strategies h.sorted h.present (f s.rules.symbols) in
      record {
        sorted = sorted;
        present = present;
        apart = (handlers-Disjoint priority factory (id ∷ s.things) id s.rules h.apart).0;
      }
  Event-IsSystem (Event.removed id s) h = record {
    sorted = remove_thing-IsSorted thing_id priority id s.rules.strategies h.sorted;
    present = ArePresent-remove_thing thing_id id s.things s.rules.strategies h.present;
    apart =
        (handlers-Disjoint priority (λ symbols. (symbols, none)) s.things id
          (removed_rules thing_id id s.rules) h.apart).1;
  }
  Event-IsSystem (Event.changed world site s) h = record {
    sorted = h.sorted;
    present = h.present;
    apart = h.apart;
  }

  -- What holds of the strategies and the subscriptions goes on to hold, whatever happens.
  pub Reach-IsSystem :
      {s t : System V S}
      → IsSystem thing_id priority s
      → Reach ops thing_id priority s t
      → IsSystem thing_id priority t
  Reach-IsSystem h Reach.here = h
  Reach-IsSystem h (Reach.next r e) = Event-IsSystem e (Reach-IsSystem h r)

  -- However things have come and gone, a cycle adjusts only strategies of things that are there.
  pub adjusted-present :
      (s t : System V S) (world : World) (site : SiteProperties) (p : ℕ)
      → IsSystem thing_id priority s
      → Reach ops thing_id priority s t
      → Mem p (map (λ e. e.0) (site_changed ops world site t).manager.log)
      → contains (thing_id p) t.things ≡ true
  unfolding site_changed cycle
  adjusted-present s t world site p h r m =
      let now = Reach-IsSystem h r in
      present-Mem thing_id t.things p t.rules.strategies now.present (
        (Perm.mem_iff (evaluate-adjusted ops _ site t.rules.strategies (begin t.manager) refl)).0 m)
