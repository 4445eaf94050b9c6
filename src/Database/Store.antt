-- ===== src/Database/Store.antt =====
-- src/database/Database.cpp: the raw samples of `DatabasePrivate`. A property key is its name; a day is
-- the number of days since 1970, and what the processor stores is in little-endian order.
pub mod Table
pub mod Bytes
pub mod Day
pub mod Shape
pub mod Handles
pub mod Refinement
pub mod Commands
pub mod Series
pub mod Errors
use Prim.Native.String.{String, ◌++◌ as str_append}
use text.Mathlib.Text.{◌==◌ as str_eq}
use iotic.Prelude.{
  ℕ, ◌+◌, ◌*◌, ◌/◌, ◌%◌, ℤ, pos, ◌*ℤ◌, quot, to_u32, u32_mod, Bool, true, false, ◌||◌, Option, none,
  some, List, [], ◌∷◌, leb, if◌then◌else◌,
}
use iotic.Rules.SymbolRepository.{find_symbol, set_symbol}
use iotic.Database.Types.{Datapoint, Dataset, put}
use iotic.Database.Delta.{◌>>=◌}
use iotic.Database.Delta.Thin.{same_point}
use iotic.Database.Environment.{Entries, Environment, or_empty}

abbrev pub LastValues : Type 0
LastValues = List (String × List (String × Datapoint))

pub record Store (Env : Type 0) : Type 0 where
  pub env : Env
  pub map_cache : List String
  pub last_values : LastValues

-- What a call leaves when it returns and when it throws.
pub data Outcome (Env : Type 0) : Type 0 where
  returned : Store Env → Outcome Env
  thrown : Store Env → Outcome Env

unfoldable pub contains : List String → String → Bool
contains [] name = false
contains (n ∷ names) name = str_eq n name || contains names name

-- `_lastValues[thingId][property]`, which is empty before it is first set.
unfoldable pub last_value : String → String → LastValues → Datapoint
last_value thing property lasts =
    or_empty (find_symbol property (or_empty (find_symbol thing lasts)))

unfoldable pub set_last_value : String → String → Datapoint → LastValues → LastValues
set_last_value thing property p lasts =
    set_symbol thing (set_symbol property p (or_empty (find_symbol thing lasts))) lasts

unfoldable pub to_bytes : Datapoint → List ℕ
to_bytes [] = []
to_bytes (v ∷ p) = v % 256 ∷ v / 256 ∷ to_bytes p

-- A vector of `size / 2` elements that `size` bytes are copied into; `none` is a copy past its end.
unfoldable pub from_bytes : List ℕ → Option Datapoint
from_bytes [] = some []
from_bytes (b ∷ []) = none
from_bytes (b ∷ c ∷ bytes) = do p ← from_bytes bytes; some ((b + 256 * c) ∷ p)

-- `mapName` without a resolution.
unfoldable pub raw_name : String → String → String
raw_name thing property = str_append (str_append thing ".") property

-- `system_clock::to_time_t(sys_days(ymd))`, and what is stored of it in 32 bits.
abbrev pub to_time_t : ℤ → ℤ
to_time_t day = day *ℤ pos 86400

unfoldable pub day_start : ℤ → ℕ
day_start day = to_u32 (to_time_t day)

unfoldable pub day_end : ℤ → ℕ
day_end day = (day_start day + 24 * 60 * 60) % u32_mod

unfoldable pub day_since_epoch : ℤ → ℕ
day_since_epoch day = to_u32 (quot (to_time_t day) 86400)

-- The callback of `rawData` on the entries that the cursor visits.
unfoldable pub read_until : ℕ → Entries → Dataset → Option Dataset
read_until stop [] samples = some samples
read_until stop ((t, bytes) ∷ es) samples =
    if leb stop t
    then some samples
    else (from_bytes bytes >>= λ p. read_until stop es (put t p samples))

module _ {Env : Type 0} ⦃M : Environment Env⦄ where
  abbrev created : String → Store Env → Option Env → Outcome Env
  created name s none = thrown s
  created name s (some e) = returned (record s { env = e; map_cache = name ∷ s.map_cache })

  unfoldable pub create_map : String → Store Env → Outcome Env
  create_map name s =
      if contains s.map_cache name then returned s else created name s (M.create_map name s.env)

  abbrev opened : String → Store Env → Option Env → Option (Store Env)
  opened name s none = none
  opened name s (some e) = some (record s { env = e; map_cache = name ∷ s.map_cache })

  -- `none` is the empty handle.
  unfoldable pub map_for : String → Store Env → Option (Store Env)
  map_for name s =
      if contains s.map_cache name then some s else opened name s (M.open_map name s.env)

  abbrev pub upsert_in : String → ℕ → List ℕ → Outcome Env → Outcome Env
  upsert_in name k bytes (thrown s) = thrown s
  upsert_in name k bytes (returned s) = returned (record s { env = M.upsert name k bytes s.env })

  unfoldable pub put_datapoint : String → String → ℕ → Datapoint → Store Env → Outcome Env
  put_datapoint thing property t p s =
      let name = raw_name thing property in
      if same_point (last_value thing property s.last_values) p
      then returned s
      else upsert_in name t (to_bytes p) (
          create_map name
            (record s { last_values = set_last_value thing property p s.last_values }))

  abbrev pub read_day : String → ℤ → Store Env → Option (Store Env) → Option (Dataset × Store Env)
  read_day name day s none = some ([], s)
  read_day name day s (some r) = do
    samples ← read_until (day_end day) (M.scan_from r.env name (day_start day)) []
    some (samples, r)

  -- The samples that are read; `none` is a fault.
  unfoldable pub raw_data : String → String → ℤ → Store Env → Option (Dataset × Store Env)
  raw_data thing property day s =
      let name = raw_name thing property in read_day name day s (map_for name s)

  -- The callback of `eraseRawData` on the entries that the cursor visits.
  unfoldable pub erase_until : String → ℕ → Entries → Env → Env
  erase_until name stop [] e = e
  erase_until name stop ((t, bytes) ∷ es) e =
      if leb stop t then e else erase_until name stop es (M.erase name t e)

  abbrev pub erase_day : String → ℤ → Store Env → Option (Store Env) → Store Env
  erase_day name day s none = s
  erase_day name day s (some r) = record r {
    env = erase_until name (day_end day) (M.scan_from r.env name (day_start day)) r.env;
  }

  unfoldable pub erase_raw_data : String → String → ℤ → Store Env → Store Env
  erase_raw_data thing property day s =
      let name = raw_name thing property in erase_day name day s (map_for name s)
