-- ===== src/AppDiscover.antt =====
-- src/appDiscover/AppDiscover.cpp and src/fronius/FroniusDiscovery.cpp: what is printed of a device that is
-- found. The discoveries and the names of enumerators belong to libraries.
use Prim.Native.String.{String, ◌++◌ as str_append}
use iotic.Prelude.{ℕ, ◌+◌, ◌*◌, Option, none, some, List, [], ◌∷◌, leb, ◌&&◌, if◌then◌else◌}

-- What the applications read of a client of the SunSpec library.
pub record SunSpecClient : Type 0 where
  pub sun_spec_id : String
  pub host : String
  pub unit_id : ℕ
  pub models : List ℕ

abbrev model_text : (ℕ → String) → Option String → ℕ → String → String
model_text show none id rest = rest
model_text show (some name) id rest =
    str_append name (str_append " (" (str_append (show id) (str_append "), " rest)))

-- The models that have a name.
unfoldable pub supported_models : (ℕ → Option String) → (ℕ → String) → List ℕ → String
supported_models enum_name show [] = ""
supported_models enum_name show (id ∷ ids) =
    model_text show (enum_name id) id (supported_models enum_name show ids)

unfoldable pub on_sunspec_client : (ℕ → Option String) → (ℕ → String) → SunSpecClient → String
on_sunspec_client enum_name show client = str_append "sunspec thing found> id: " (
    str_append client.sun_spec_id (
      str_append ", host: " (
        str_append client.host (
          str_append ", unitId: " (
            str_append (show client.unit_id) (
              str_append ", supportedModels: " (supported_models enum_name show client.models)))))))

-- The searches that a cycle starts, and what a device of the Modbus leads to.
pub data Search : Type 0 where
  coap http shelly modbus shelly_gen2_plus : Search
  sunspec : SunSpecClient → Search

unfoldable pub on_modbus_client : SunSpecClient → Search
on_modbus_client client = Search.sunspec client

unfoldable pub on_discovery_timer : List Search
on_discovery_timer = Search.http ∷ Search.shelly_gen2_plus ∷ []

-- The milliseconds from the start to a cycle of a timer that is started at once.
abbrev pub cycle_time : ℕ → ℕ → ℕ
cycle_time repeat n = 2000 + n * repeat

unfoldable pub discovery_time : ℕ → ℕ
discovery_time n = cycle_time 5000 n

-- The daemon's cycles, `msec` milliseconds apart.
unfoldable pub start_discovery : List Search
start_discovery = Search.coap ∷ Search.http ∷ Search.shelly ∷ Search.modbus ∷ []

unfoldable pub start_discovery_time : ℕ → ℕ → ℕ
start_discovery_time msec n = cycle_time msec n

-- The types of the library that the discovery of Fronius devices tests for, and what it does.
pub data SunSpecType : Type 0 where
  solar_inverter smart_meter other : SunSpecType

pub data Fronius : Type 0 where
  ignored on_solar_inverter_discovered on_smart_meter_discovered : Fronius

unfoldable pub on_thing_discovered : ℕ → SunSpecType → Fronius
on_thing_discovered unit_id SunSpecType.solar_inverter =
    if leb 1 unit_id && leb unit_id 100
    then Fronius.on_solar_inverter_discovered
    else Fronius.ignored
on_thing_discovered unit_id SunSpecType.smart_meter =
    if leb 240 unit_id && leb unit_id 244
    then Fronius.on_smart_meter_discovered
    else Fronius.ignored
on_thing_discovered unit_id SunSpecType.other = Fronius.ignored
