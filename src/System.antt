-- ===== src/System.antt =====
-- src/appDaemon/AppBackend.cpp: the parts of the daemon that the things and the site's powers drive. A
-- strategy is a pointer, whose thing and priority never change. The repository of things is a
-- library's: it holds a thing before its observers are told of it, and does not hold it when they are
-- told that it is removed.
pub mod Presence
pub mod Daemon
use Prim.Native.String.{String}
use text.Mathlib.Text.{◌==◌ as str_eq}
use iotic.Prelude.{ℕ, ℤ, ◌≡◌, not, Option, some, List, [], ◌∷◌, filter_by}
use iotic.Rules.RuleEngine.{Rules, on_thing_added, on_thing_removed}
use iotic.Strategies.Strategy.{SiteProperties, World, StrategyOps}
use iotic.Strategies.StrategyRepository.{remove_thing}
use iotic.Strategies.PowerManager.{Manager, cycle}

pub record System (V S : Type 0) : Type 0 where
  pub things : List String
  pub rules : Rules V ℕ
  pub manager : Manager S

abbrev pub removed_rules : {V : Type 0} → (ℕ → String) → String → Rules V ℕ → Rules V ℕ
removed_rules thing_id id r = record r { strategies = remove_thing thing_id id r.strategies }

module _ {V S : Type 0} where
  unfoldable pub thing_added :
      (ℕ → ℤ)
      → (List (String × V) → List (String × V) × Option ℕ)
      → String
      → System V S
      → System V S
  thing_added priority factory id s = record s {
    things = id ∷ s.things;
    rules = on_thing_added priority factory (id ∷ s.things) id s.rules;
  }

  unfoldable pub thing_removed : (ℕ → String) → String → System V S → System V S
  thing_removed thing_id id s = record s {
    things = filter_by (λ t. not (str_eq t id)) s.things;
    rules = on_thing_removed id (removed_rules thing_id id s.rules);
  }

  unfoldable pub site_changed : StrategyOps S → World → SiteProperties → System V S → System V S
  site_changed ops world site s = record s {
    manager =
        cycle ops (record { world = world; site = site; strategies = s.rules.strategies })
          s.manager;
  }

module _ {V S : Type 0} (ops : StrategyOps S) (thing_id : ℕ → String) (priority : ℕ → ℤ) where
  -- What can happen: a factory makes strategies of the thing that it is asked for.
  pub data Event : System V S → System V S → Type 0 where
    added :
        (factory : List (String × V) → List (String × V) × Option ℕ) (id : String) (s : System V S)
        → ((symbols : List (String × V)) (p : ℕ) → (factory symbols).1 ≡ some p → thing_id p ≡ id)
        → Event s (thing_added priority factory id s)
    removed : (id : String) (s : System V S) → Event s (thing_removed thing_id id s)
    changed :
        (world : World) (site : SiteProperties) (s : System V S)
        → Event s (site_changed ops world site s)

  pub data Reach (s : System V S) : System V S → Type 0 where
    here : Reach s s
    next : {t u : System V S} → Reach s t → Event t u → Reach s u
