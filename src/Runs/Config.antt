-- ===== src/Runs/Config.antt =====
-- Runs of src/config/ConfigRepository.cpp.
use Prim.Native.String.{String}
use iotic.Prelude.{ℤ, pos, ◌≡◌, refl, Bool, Option, none, some, [], ◌∷◌, ◌*ℤ◌}
use iotic.Rules.SymbolRepository.{find_symbol}
use iotic.Config.ConfigRepository
use iotic.Config.ConfigRepository.{
  ConfigRepository, Kept, value, persist_property, hysteresis_for, set_properties_to, on_properties,
}
use iotic.Config.ConfigRepository.Restart.{restarted, properties_survive}

-- Three of the types of values in the file.
pub data Entry : Type 0 where
  text : String → Entry
  boolean : Bool → Entry
  integer : ℤ → Entry

abbrev pub read_text : Entry → Option String
read_text (text s) = some s
read_text _ = none

abbrev pub read_boolean : Entry → Option Bool
read_boolean (boolean b) = some b
read_boolean _ = none

abbrev pub read_integer : Entry → Option ℤ
read_integer (integer i) = some i
read_integer _ = none

abbrev pub config : ConfigRepository Entry
config = record {
  table =
      ("site", ("hysteresis_percent", integer (pos 15)) ∷ [])
      ∷ ("lamp", ("name", text "Lamp") ∷ [])
      ∷ [];
  thing_interval = pos 10;
  discovery_interval = pos 60;
  intervals = [];
  files = [];
}

-- 15 percent of 3010 watts are 451.5 watts.
hysteresis_for_run : hysteresis_for read_integer (pos 3010) config ≡ pos 452
unfolding hysteresis_for ConfigRepository.value_or value find_symbol ◌*ℤ◌
hysteresis_for_run = refl

abbrev pub renamed : Kept
renamed = record { name = some "Desk"; pinned = none; offset = some (pos 5) }

abbrev pub again : ConfigRepository Entry
again =
    restarted text boolean integer read_text read_boolean read_integer config
      (on_properties text boolean integer "lamp" renamed config)

properties_survive_example :
    let old = set_properties_to read_text read_boolean read_integer "lamp" config in
    let new = set_properties_to read_text read_boolean read_integer "lamp" again in
    (new.name ≡ some "Desk") × (new.pinned ≡ old.pinned) × (new.offset ≡ some (pos 5))
properties_survive_example =
    properties_survive text boolean integer read_text read_boolean read_integer (λ x. refl)
      (λ x. refl) (λ x. refl) "lamp" "Desk" renamed config config refl refl
