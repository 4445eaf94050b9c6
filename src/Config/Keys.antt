-- ===== src/Config/Keys.antt =====
-- src/config/ConfigRepository.h: the keys of the configuration, and their names, which the enum library
-- makes.
use Prim.Native.String.{String}
use text.Mathlib.Text.{◌==◌ as str_eq}
use iotic.Prelude.{◌≡◌, refl, sym, ap, ◌∙◌, Option, none, some, if◌then◌else◌}
use iotic.Config.ConfigRepository.{ConfigRepository, value_or}

pub data Key : Type 0 where
  discovery_interval thing_interval time_constant grid pv name pinned offset on off debounce
        priority hysteresis_percent hysteresis_absolute power_thresholds
        phase_limit_duration_minutes :
      Key

unfoldable pub to_string : Key → String
to_string Key.discovery_interval = "discovery_interval"
to_string Key.thing_interval = "thing_interval"
to_string Key.time_constant = "time_constant"
to_string Key.grid = "grid"
to_string Key.pv = "pv"
to_string Key.name = "name"
to_string Key.pinned = "pinned"
to_string Key.offset = "offset"
to_string Key.on = "on"
to_string Key.off = "off"
to_string Key.debounce = "debounce"
to_string Key.priority = "priority"
to_string Key.hysteresis_percent = "hysteresis_percent"
to_string Key.hysteresis_absolute = "hysteresis_absolute"
to_string Key.power_thresholds = "power_thresholds"
to_string Key.phase_limit_duration_minutes = "phase_limit_duration_minutes"

-- `valueOr`, of a thing's table and of the site's.
unfoldable pub value_or_key :
    {Value T : Type 0} → (Value → Option T) → String → Key → T → ConfigRepository Value → T
value_or_key read table key fallback c = value_or read table (to_string key) fallback c

unfoldable pub site_value_or :
    {Value T : Type 0} → (Value → Option T) → Key → T → ConfigRepository Value → T
site_value_or read key fallback c = value_or_key read "site" key fallback c

-- The key of a name.
enum_cast : String → Option Key
enum_cast s =
    if str_eq s "discovery_interval"
    then some Key.discovery_interval
    else if str_eq s "thing_interval"
    then some Key.thing_interval
    else if str_eq s "time_constant"
    then some Key.time_constant
    else if str_eq s "grid"
    then some Key.grid
    else if str_eq s "pv"
    then some Key.pv
    else if str_eq s "name"
    then some Key.name
    else if str_eq s "pinned"
    then some Key.pinned
    else if str_eq s "offset"
    then some Key.offset
    else if str_eq s "on"
    then some Key.on
    else if str_eq s "off"
    then some Key.off
    else if str_eq s "debounce"
    then some Key.debounce
    else if str_eq s "priority"
    then some Key.priority
    else if str_eq s "hysteresis_percent"
    then some Key.hysteresis_percent
    else if str_eq s "hysteresis_absolute"
    then some Key.hysteresis_absolute
    else if str_eq s "power_thresholds"
    then some Key.power_thresholds
    else if str_eq s "phase_limit_duration_minutes"
    then some Key.phase_limit_duration_minutes
    else none

enum_cast-to_string : (k : Key) → enum_cast (to_string k) ≡ some k
unfolding enum_cast to_string
enum_cast-to_string Key.discovery_interval = refl
enum_cast-to_string Key.thing_interval = refl
enum_cast-to_string Key.time_constant = refl
enum_cast-to_string Key.grid = refl
enum_cast-to_string Key.pv = refl
enum_cast-to_string Key.name = refl
enum_cast-to_string Key.pinned = refl
enum_cast-to_string Key.offset = refl
enum_cast-to_string Key.on = refl
enum_cast-to_string Key.off = refl
enum_cast-to_string Key.debounce = refl
enum_cast-to_string Key.priority = refl
enum_cast-to_string Key.hysteresis_percent = refl
enum_cast-to_string Key.hysteresis_absolute = refl
enum_cast-to_string Key.power_thresholds = refl
enum_cast-to_string Key.phase_limit_duration_minutes = refl

-- No two keys have one name, so none reads the entry of another.
pub to_string_injective : (k j : Key) → to_string k ≡ to_string j → k ≡ j
to_string_injective k j e =
    let same : some k ≡ some j =
      sym (enum_cast-to_string k) ∙ ap enum_cast e ∙ enum_cast-to_string j in
    cc
