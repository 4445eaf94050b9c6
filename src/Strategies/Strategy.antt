-- ===== src/Strategies/Strategy.antt =====
-- The interface of src/strategies/Strategy.h, with the values that it takes. The site's properties
-- come from a library; these are the fields that iotic reads.
use Prim.Native.String.{String}
use iotic.Prelude.{ℕ, ℤ, Bool, List}

-- The steps that a strategy can be told to take.
pub data Step : Type 0 where
  keep down up : Step

-- The library's types of things that iotic tests for.
pub data ThingType : Type 0 where
  relay ev_station solar_inverter other : ThingType

-- `ts` counts seconds; powers are in watts, and a negative grid power is surplus.
pub record SiteProperties : Type 0 where
  pub ts : ℕ
  pub pv_power : ℤ
  pub grid_power : ℤ
  pub short_term_grid_power : ℤ
  pub long_term_grid_power : ℤ

-- What a strategy can observe beside the site: the symbol table and the system clock in seconds.
pub record World : Type 0 where
  pub symbols : List (String × ℤ)
  pub now : ℕ

-- The virtual functions. `wants_to_step_down` and `wants_to_step_up` are const in the source and
-- write mutable members, so they return the object as well.
pub record StrategyOps (S : Type 0) : Type 0 where
  pub thing_id : S → String
  pub priority : S → ℤ
  pub wants_to_step_down : World → SiteProperties → S → S × Bool
  pub wants_to_step_up : World → SiteProperties → S → S × Bool
  pub adjust : Step → SiteProperties → S → S
