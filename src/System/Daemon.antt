-- ===== src/System/Daemon.antt =====
-- src/appDaemon/AppBackend.cpp: the daemon as the events of the things, of the site and of the clients reach
-- its parts. What a thing publishes may change the symbols of the rules in any way.
pub mod Together
use Prim.Native.String.{String}
use text.Mathlib.Text.{◌==◌ as str_eq}
use iotic.Config.ConfigRepository.{ConfigRepository, Kept, set_properties_to, on_properties}
use iotic.Prelude.{ℕ, ℤ, ◌≡◌, Bool, false, Option, some, List}
use iotic.Rules.SymbolRepository.{find_symbol}
use iotic.Strategies.Strategy.{SiteProperties, World, StrategyOps}
use iotic.System
use iotic.System.{System}
use iotic.WebServer.Broadcast.{PropertyMap, Thing}
use iotic.WebServer.Broadcast.Hub
use iotic.WebServer.Broadcast.Hub.{
  Hub, client_opened, client_closed, properties_emitted, client_sent,
}
use iotic.WebServer.Broadcast.Hub.Restored.{property_map}
use iotic.WebServer.Messages.{Message}

pub record Daemon (V S Value : Type 0) : Type 0 where
  pub system : System V S
  pub hub : Hub Value

abbrev pub with_config : {Value : Type 0} → ConfigRepository Value → Hub Value → Hub Value
with_config c h = record h { config = c }

module _ {V S Value : Type 0} where
  unfoldable pub thing_removed : (ℕ → String) → String → Daemon V S Value → Daemon V S Value
  thing_removed thing_id id d = record {
    system = System.thing_removed thing_id id d.system;
    hub = Hub.thing_removed id d.hub;
  }

  unfoldable pub site_changed :
      StrategyOps S
      → World
      → SiteProperties
      → List SiteProperties
      → Daemon V S Value
      → Daemon V S Value
  site_changed ops world p history d = record {
    system = System.site_changed ops world p d.system;
    hub = Hub.site_changed p history d.hub;
  }

  abbrev pub with_hub : Hub Value → Daemon V S Value → Daemon V S Value
  with_hub h d = record d { hub = h }

  abbrev pub with_symbols : List (String × V) → Daemon V S Value → Daemon V S Value
  with_symbols symbols d = record d {
    system = record d.system { rules = record d.system.rules { symbols = symbols } };
  }

module _ {V S Value : Type 0} (read_string : Value → Option String)
    (read_bool : Value → Option Bool) (read_int : Value → Option ℤ)
    (store : PropertyMap → PropertyMap → PropertyMap) where
  -- The configuration sets what it has kept, the rules may get a strategy and set `set` on the thing, and
  -- the clients are told.
  unfoldable pub thing_added :
      (ℕ → ℤ)
      → (List (String × V) → List (String × V) × Option ℕ)
      → String
      → Thing
      → PropertyMap
      → Daemon V S Value
      → Daemon V S Value
  thing_added priority factory id t set d =
      let kept = set_properties_to read_string read_bool read_int id d.hub.config in
      let properties = store (store t.properties (property_map kept)) set in
      record {
        system = System.thing_added priority factory id d.system;
        hub = Hub.thing_added id (record t { properties = properties }) d.hub;
      }

module _ {V S Value : Type 0} (ops : StrategyOps S) (thing_id : ℕ → String) (priority : ℕ → ℤ)
    (write_string : String → Value) (write_bool : Bool → Value) (write_int : ℤ → Value)
    (read_string : Value → Option String) (read_bool : Value → Option Bool)
    (read_int : Value → Option ℤ) (is_property : String → Bool)
    (store emit : PropertyMap → PropertyMap → PropertyMap) where
  pub data Event : Daemon V S Value → Daemon V S Value → Type 0 where
    added :
        (factory : List (String × V) → List (String × V) × Option ℕ) (id : String) (t : Thing)
        (set : PropertyMap) (d : Daemon V S Value)
        → ((symbols : List (String × V)) (p : ℕ) → (factory symbols).1 ≡ some p → thing_id p ≡ id)
        → str_eq "site" id ≡ false
        → Event d (thing_added read_string read_bool read_int store priority factory id t set d)
    removed : (id : String) (d : Daemon V S Value) → Event d (thing_removed thing_id id d)
    changed :
        (world : World) (p : SiteProperties) (history : List SiteProperties) (d : Daemon V S Value)
        → Event d (site_changed ops world p history d)
    -- `kept` is what the configuration keeps of what is published.
    emitted :
        (id : String) (t : Thing) (set : PropertyMap) (kept : Kept) (symbols : List (String × V))
        (d : Daemon V S Value)
        → find_symbol id d.hub.things ≡ some t
        → Event d (
            with_hub
              (properties_emitted id t (store t.properties set) (emit t.properties set) (
                with_config
                  (on_properties write_string write_bool write_int id kept d.hub.config)
                  d.hub))
              (with_symbols symbols d))
    opened : (c : ℕ) (d : Daemon V S Value) → Event d (with_hub (client_opened c d.hub) d)
    closed : (c : ℕ) (d : Daemon V S Value) → Event d (with_hub (client_closed c d.hub) d)
    sent :
        (n : ℕ) (m : Message) (d : Daemon V S Value) (k : Hub Value)
        → client_sent write_int read_int is_property n m d.hub ≡ some k
        → Event d (with_hub k d)

  pub data Reach (d : Daemon V S Value) : Daemon V S Value → Type 0 where
    here : Reach d d
    next : {e f : Daemon V S Value} → Reach d e → Event e f → Reach d f
