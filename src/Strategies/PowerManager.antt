-- ===== src/Strategies/PowerManager.antt =====
-- src/strategies/PowerManager.cpp over any strategies. The repository's list of shared pointers is
-- a list of positions in a store of objects; the local copy that the handler erases from is
-- another such list.
pub mod Turns
pub mod Spacing
pub mod Choice
use Prim.Native.String.{String}
use iotic.Prelude.{
  ℤ, ℕ, ◌+◌, Bool, ◌&&◌, Option, none, some, List, [], ◌∷◌, reverse, leb, ◌==◌, if◌then◌else◌,
  get_elem?, set,
}
use iotic.Rules.SymbolRepository.{set_symbol}
use iotic.Strategies.Strategy.{Step, keep, down, up, SiteProperties, World, StrategyOps}

-- ConfigRepository::stepDownDebounceSeconds and stepUpDebounceSeconds.
abbrev pub step_up_debounce_seconds : ℕ
step_up_debounce_seconds = 180

abbrev pub step_down_debounce_seconds : ℕ
step_down_debounce_seconds = 120

-- `log` is not in the source: it records the calls of `adjust`, the newest first.
pub record Manager (S : Type 0) : Type 0 where
  pub store : List S
  pub last_step_ts : ℕ
  pub log : List (ℕ × Step)

-- `strategies.erase(it)` on the local copy.
unfoldable pub erase : ℕ → List ℕ → List ℕ
erase p [] = []
erase p (q ∷ qs) = if q == p then qs else q ∷ erase p qs

abbrev pub erase_stepped : Option ℕ → List ℕ → List ℕ
erase_stepped none ps = ps
erase_stepped (some p) ps = erase p ps

module _ {S : Type 0} (ops : StrategyOps S) (world : World) (site : SiteProperties) where
  unfoldable pub adjust_at : Step → ℕ → Manager S → Manager S
  adjust_at step p m = record m {
    store = elim (get_elem? m.store p) [
      | none ↦ m.store
      | some s ↦ set m.store p (ops.adjust step site s)
    ];
    log = (p, step) ∷ m.log;
  }

  -- A call of `wantsToStepDown` or `wantsToStepUp` through the pointer `p`.
  abbrev pub ask_object : (S → S × Bool) → ℕ → Manager S → Option S → Manager S × Bool
  ask_object wants p m none = (m, Bool.false)
  ask_object wants p m (some s) =
      let (s', w) = wants s in (record m { store = set m.store p s' }, w)

  unfoldable pub ask : (S → S × Bool) → ℕ → Manager S → Manager S × Bool
  ask wants p m = ask_object wants p m (get_elem? m.store p)

  -- One of the two loops that look for a step: the first strategy that wants it, and whose turn the
  -- debounce allows, takes it and ends the loop. The request is asked for before the time is tested.
  unfoldable pub visit : (S → S × Bool) → ℕ → Step → List ℕ → Manager S → Manager S × Option ℕ
  visit wants debounce step [] m = (m, none)
  visit wants debounce step (p ∷ ps) m =
      let (m', w) = ask wants p m in
      let taken = adjust_at step p (record m' { last_step_ts = site.ts }) in
      let rest = visit wants debounce step ps m' in
      if w && leb (m'.last_step_ts + debounce) site.ts then (taken, some p) else rest

  unfoldable pub keep_all : List ℕ → Manager S → Manager S
  keep_all [] m = m
  keep_all (p ∷ ps) m = keep_all ps (adjust_at keep p m)

  unfoldable pub step_down : List ℕ → Manager S → Manager S × Option ℕ
  step_down ps =
      visit (ops.wants_to_step_down world site) step_down_debounce_seconds down (reverse ps)

  unfoldable pub step_up : List ℕ → Manager S → Manager S × Option ℕ
  step_up = visit (ops.wants_to_step_up world site) step_up_debounce_seconds up

  -- The handler of a new value of the site's properties, behind the update of the symbols.
  unfoldable pub evaluate : List ℕ → Manager S → Manager S
  evaluate ps m =
      let (m1, d) = step_down ps m in
      let ps1 = erase_stepped d ps in
      let (m2, u) = step_up ps1 m1 in keep_all (erase_stepped u ps1) m2

-- One event of the site's observable: the world and the site at that time, and the list of
-- strategies that the repository holds then.
pub record SiteEvent : Type 0 where
  pub world : World
  pub site : SiteProperties
  pub strategies : List ℕ

abbrev pub begin : {S : Type 0} → Manager S → Manager S
begin m = record m { log = [] }

-- What is set before the strategies are asked.
unfoldable pub update_symbols : SiteProperties → List (String × ℤ) → List (String × ℤ)
update_symbols site symbols = set_symbol "pv_power" site.pv_power (
    set_symbol "grid_power" site.grid_power (
      set_symbol "long_term_grid_power" site.long_term_grid_power
        (set_symbol "short_term_grid_power" site.short_term_grid_power symbols)))

-- The world that the strategies of an event see.
abbrev pub seen : SiteEvent → World
seen e = record e.world { symbols = update_symbols e.site e.world.symbols }

-- One cycle of the manager, with a log of its own.
unfoldable pub cycle : {S : Type 0} → StrategyOps S → SiteEvent → Manager S → Manager S
cycle ops e m = evaluate ops (seen e) e.site e.strategies (begin m)
