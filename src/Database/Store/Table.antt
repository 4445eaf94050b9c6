-- ===== src/Database/Store/Table.antt =====
-- What the raw samples of src/database/Database.cpp are kept for, without environment, cache and bytes:
-- the samples by the map's name, and the values last recorded.
use Prim.Native.String.{String}
use text.Mathlib.Text.{◌==◌ as str_eq}
use iotic.Prelude.{ℕ, ℤ, ◌&&◌, Option, none, some, [], ◌∷◌, ltb, leb, if◌then◌else◌}
use iotic.Database.Types.{Datapoint, Dataset, put}
use iotic.Database.Delta.Thin.{same_point}
use iotic.Database.Environment.{or_empty}
use iotic.Database.Store.{raw_name, day_start, day_end}

pub record Table : Type 0 where
  pub samples : String → Option Dataset
  pub last : String → String → Datapoint

-- The samples of `start ≤ t < stop`, and the samples outside.
unfoldable pub within : ℕ → ℕ → Dataset → Dataset
within start stop [] = []
within start stop ((t, p) ∷ d) =
    if leb start t && ltb t stop then (t, p) ∷ within start stop d else within start stop d

unfoldable pub outside : ℕ → ℕ → Dataset → Dataset
outside start stop [] = []
outside start stop ((t, p) ∷ d) =
    if leb start t && ltb t stop then outside start stop d else (t, p) ∷ outside start stop d

unfoldable pub with_point : String → String → ℕ → Datapoint → Table → Table
with_point thing property t p table = record {
  samples = λ m.
      if str_eq (raw_name thing property) m
      then some (put t p (or_empty (table.samples (raw_name thing property))))
      else table.samples m;
  last = λ u q. if str_eq thing u && str_eq property q then p else table.last u q;
}

unfoldable pub record_point : String → String → ℕ → Datapoint → Table → Table
record_point thing property t p table =
    if same_point (table.last thing property) p then table else with_point thing property t p table

unfoldable pub samples_of : String → String → ℤ → Table → Dataset
samples_of thing property day table =
    within (day_start day) (day_end day) (or_empty (table.samples (raw_name thing property)))

abbrev pub outside_of : ℤ → Option Dataset → Option Dataset
outside_of day none = none
outside_of day (some d) = some (outside (day_start day) (day_end day) d)

unfoldable pub forget_day : String → String → ℤ → Table → Table
forget_day thing property day table = record table {
  samples = λ m.
      if str_eq (raw_name thing property) m
      then outside_of day (table.samples (raw_name thing property))
      else table.samples m;
}
