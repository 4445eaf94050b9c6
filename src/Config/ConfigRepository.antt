-- ===== src/Config/ConfigRepository.antt =====
-- src/config/ConfigRepository.cpp: the configuration in a table of tables. The values of the file
-- format and its parser belong to a library: `Value` is any type, with a reader for each type that a
-- value is asked for. A table is a map like that of the symbols.
pub mod Persistence
pub mod Restart
use Prim.Native.String.{String}
use iotic.Prelude.{
  ℕ, suc, ◌+◌, ◌/◌, ℤ, pos, negsuc, sub_ℕ, ◌*ℤ◌, max_ℤ, Bool, Option, none, some, List, [], ◌∷◌,
  if◌then◌else◌,
}
use text.Mathlib.Text.{◌==◌ as str_eq}
use iotic.Rules.SymbolRepository.{find_symbol, set_symbol}

-- `intervals` is what the subject has published, `files` what was written to the file, both the
-- newest first.
pub record ConfigRepository (Value : Type 0) : Type 0 where
  pub table : List (String × List (String × Value))
  pub thing_interval : ℤ
  pub discovery_interval : ℤ
  pub intervals : List ℤ
  pub files : List (List (String × List (String × Value)))

-- The properties of a thing that are kept in the file.
pub record Kept : Type 0 where
  pub name : Option String
  pub pinned : Option Bool
  pub offset : Option ℤ

abbrev pub or_else : {T : Type 0} → T → Option T → T
or_else fallback none = fallback
or_else fallback (some x) = x

-- `round(n / 100.0)`, half away from zero; a quotient of two ints that is not half of an odd number
-- is at least a hundredth away from it, so the rounding of `double` does not matter.
abbrev pub round_percent : ℤ → ℤ
round_percent (pos n) = pos ((n + 50) / 100)
round_percent (negsuc n) = sub_ℕ 0 ((suc n + 50) / 100)

module _ {Value : Type 0} where
  abbrev pub find_in : String → Option (List (String × Value)) → Option Value
  find_in key none = none
  find_in key (some section) = find_symbol key section

  -- `ConfigRepository::Impl::value`, where `none` is the empty value.
  unfoldable pub value : String → String → ConfigRepository Value → Option Value
  value id key c = find_in key (find_symbol id c.table)

  abbrev pub read_with : {T : Type 0} → (Value → Option T) → Option Value → Option T
  read_with read none = none
  read_with read (some v) = read v

  -- `get_or` gives the fallback for a value of another type.
  unfoldable pub value_or :
      {T : Type 0} → (Value → Option T) → String → String → T → ConfigRepository Value → T
  value_or read table key fallback c = or_else fallback (read_with read (value table key c))

  abbrev section_of : Option (List (String × Value)) → List (String × Value)
  section_of none = []
  section_of (some section) = section

  unfoldable pub persist_property :
      String → String → Value → ConfigRepository Value → ConfigRepository Value
  persist_property table key v c =
      let section = section_of (find_symbol table c.table) in
      let tables = set_symbol table (set_symbol key v section) c.table in
      record c { table = tables; files = tables ∷ c.files }

  abbrev pub loaded :
      Option (List (String × List (String × Value)))
      → ConfigRepository Value
      → ConfigRepository Value
  loaded none c = record c { table = [] }
  loaded (some tables) c = record c { table = tables }

  abbrev persist_some :
      {T : Type 0}
      → (T → Value)
      → String
      → String
      → Option T
      → ConfigRepository Value
      → ConfigRepository Value
  persist_some write id key none c = c
  persist_some write id key (some x) c = persist_property id key (write x) c

module _ {Value : Type 0} (read_int : Value → Option ℤ) where
  unfoldable pub hysteresis_for : ℤ → ConfigRepository Value → ℤ
  hysteresis_for power c =
      let absolute = value_or read_int "site" "hysteresis_absolute" (pos 200) c in
      let percent = value_or read_int "site" "hysteresis_percent" (pos 10) c in
      max_ℤ absolute (round_percent (power *ℤ percent))

  -- In minutes.
  unfoldable pub phase_limit_duration : ConfigRepository Value → ℤ
  phase_limit_duration = value_or read_int "site" "phase_limit_duration_minutes" (pos 120)

module _ {Value : Type 0} (write_int : ℤ → Value) (read_int : Value → Option ℤ) where
  unfoldable pub set_thing_interval : ℤ → ConfigRepository Value → ConfigRepository Value
  set_thing_interval seconds c =
      persist_property "site" "thing_interval" (write_int seconds)
        (record c { thing_interval = seconds; intervals = seconds ∷ c.intervals })

  -- The tables of the file, `none` where it cannot be read, up to the names of the meters.
  unfoldable pub parse_config_file :
      Option (List (String × List (String × Value)))
      → ConfigRepository Value
      → ConfigRepository Value
  parse_config_file file c =
      let c1 = loaded file c in
      let c2 = record c1 {
        discovery_interval = value_or read_int "site" "discovery_interval" (pos 60) c1;
      } in
      set_thing_interval (value_or read_int "site" "thing_interval" (pos 10) c2) c2

module _ {Value : Type 0} (read_string : Value → Option String) (read_bool : Value → Option Bool)
    (read_int : Value → Option ℤ) where
  -- What is set on a thing that was added.
  unfoldable pub set_properties_to : String → ConfigRepository Value → Kept
  set_properties_to id c = record {
    name = read_with read_string (value id "name" c);
    pinned = read_with read_bool (value id "pinned" c);
    offset = read_with read_int (value id "offset" c);
  }

module _ {Value : Type 0} (write_string : String → Value) (write_bool : Bool → Value)
    (write_int : ℤ → Value) where
  -- The handler of what a thing publishes.
  unfoldable pub on_properties : String → Kept → ConfigRepository Value → ConfigRepository Value
  on_properties id map c = persist_some write_int id "offset" map.offset (
      persist_some write_bool id "pinned" map.pinned
        (persist_some write_string id "name" map.name c))

-- `_pvMeters`, a set, and `_gridMeter`.
pub record Meters : Type 0 where
  pub pv_meters : List String
  pub grid_meter : String

unfoldable pub insert_meter : String → List String → List String
insert_meter name [] = name ∷ []
insert_meter name (m ∷ meters) =
    let rest = insert_meter name meters in if str_eq m name then m ∷ meters else m ∷ rest

module _ {Value : Type 0} (read_string : Value → Option String)
    (read_array : Value → Option (List Value)) where
  abbrev insert_string : Option String → List String → List String
  insert_string none meters = meters
  insert_string (some name) meters = insert_meter name meters

  -- The loop over the elements of `pv`.
  unfoldable pub insert_meters : List Value → List String → List String
  insert_meters [] meters = meters
  insert_meters (v ∷ vs) meters = insert_meters vs (insert_string (read_string v) meters)

  -- The names of the meters, which `parseConfigFile` reads last.
  unfoldable pub parse_meters : ConfigRepository Value → Meters
  parse_meters c = record {
    pv_meters = insert_meters (value_or read_array "site" "pv" [] c) [];
    grid_meter = value_or read_string "site" "grid" "" c;
  }
