-- ===== src/Database/Store/Series.antt =====
-- A series of samples from an empty environment, and what is read of it.
use Prim.Native.String.{String}
use iotic.Prelude.{◌≡◌, refl, ℤ, none, List, [], ◌∷◌}
use iotic.Rules.SymbolRepository.{find_symbol}
use iotic.Database.Types.{Dataset}
use iotic.Database.Environment.{Environment, or_empty}
use iotic.Database.Store.{Store, contains, last_value}
use iotic.Database.Store.Table.{Table}
use iotic.Database.Store.Refinement.{Represents}
use iotic.Database.Store.Commands.{Command}

abbrev pub empty_table : Table
empty_table = record { samples = λ m. none; last = λ u q. [] }

-- The commands of a series for one thing, and then a read of a day.
abbrev pub series : String → String → Dataset → ℤ → List Command
series thing property [] day = Command.read_command thing property day ∷ []
series thing property ((t, p) ∷ d) day =
    Command.put_command thing property t p ∷ series thing property d day

module _ {Env : Type 0} ⦃M : Environment Env⦄ where
  abbrev pub fresh : Env → Store Env
  fresh e = record { env = e; map_cache = []; last_values = [] }

  pub fresh-Represents :
      (e : Env) → ((m : String) → M.entries e m ≡ none) → Represents (fresh e) empty_table
  unfolding contains last_value or_empty find_symbol
  fresh-Represents e empty = record {
    maps = empty;
    lasts = λ u q. refl;
    cached = λ m c. cc;
    recorded = λ m x q. cc;
  }
