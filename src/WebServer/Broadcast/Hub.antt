-- ===== src/WebServer/Broadcast/Hub.antt =====
-- src/webserver/WebServer.cpp and src/webserver/WebAppBehavior.cpp: the web server among the things, the
-- configuration and the clients. The sockets and the topic that an open client is subscribed to belong to
-- a library, which hands a published message to every client that is subscribed.
pub mod Seen
pub mod Emitted
pub mod Answers
pub mod Restored
pub mod Interval
use Prim.Native.String.{String}
use text.Mathlib.Text.{◌==◌ as str_eq}
use iotic.Prelude.{
  ℕ, ℤ, ◌≡◌, Bool, false, not, Option, none, some, List, [], ◌∷◌, map, ◌==◌, filter_by,
}
use iotic.Config.ConfigRepository.{ConfigRepository}
use iotic.Rules.SymbolRepository.{find_symbol}
use iotic.Strategies.Strategy.{SiteProperties}
use iotic.Things.ThingValue.{Json, ThingPropertyValue}
use iotic.WebServer.Broadcast.{
  PropertyMap, Thing, Published, serialize_user_properties, serialize_site_properties, site_history,
  site_properties, thing_properties,
}
use iotic.WebServer.Messages.{Message, Effect, on_message}
use iotic.WebServer.SiteHistory.{Reply}

-- `clients` are those that are subscribed, each with what it was sent, the newest first; `replies` and
-- `requests` are what was sent back and what the repository was asked to set, the newest first.
pub record Hub (Value : Type 0) : Type 0 where
  pub things : List (String × Thing)
  pub history : List SiteProperties
  pub config : ConfigRepository Value
  pub clients : List (ℕ × List Published)
  pub replies : List (ℕ × Reply)
  pub requests : List (String × String × Json)

-- The repository's map with one thing entered.
abbrev pub put : String → Thing → List (String × Thing) → List (String × Thing)
put id t things = (id, t) ∷ filter_by (λ e. not (str_eq e.0 id)) things

-- The loop that sends every thing to a new client.
unfoldable pub send_things : List (String × Thing) → List Published → List Published
send_things [] inbox = inbox
send_things ((id, t) ∷ things) inbox = send_things things (serialize_user_properties id t ∷ inbox)

module _ {Value : Type 0} where
  abbrev pub publish : Published → Hub Value → Hub Value
  publish m h = record h { clients = map (λ c. (c.0, m ∷ c.1)) h.clients }

  abbrev pub publish_some : Option Published → Hub Value → Hub Value
  publish_some none h = h
  publish_some (some m) h = publish m h

  unfoldable pub client_opened : ℕ → Hub Value → Hub Value
  client_opened c h =
      let inbox =
        site_history h.history
        ∷ serialize_site_properties h.config.thing_interval
        ∷ send_things h.things [] in
      record h { clients = (c, inbox) ∷ h.clients }

  unfoldable pub client_closed : ℕ → Hub Value → Hub Value
  client_closed c h = record h { clients = filter_by (λ x. not (x.0 == c)) h.clients }

  unfoldable pub thing_added : String → Thing → Hub Value → Hub Value
  thing_added id t h =
      publish (serialize_user_properties id t) (record h { things = put id t h.things })

  -- Nothing is sent.
  unfoldable pub thing_removed : String → Hub Value → Hub Value
  thing_removed id h = record h { things = filter_by (λ e. not (str_eq e.0 id)) h.things }

  -- A thing that has the properties `new` now and has published `emitted`.
  unfoldable pub properties_emitted :
      String → Thing → PropertyMap → PropertyMap → Hub Value → Hub Value
  properties_emitted id t new emitted h =
      publish_some (thing_properties id emitted)
        (record h { things = put id (record t { properties = new }) h.things })

  unfoldable pub site_changed : SiteProperties → List SiteProperties → Hub Value → Hub Value
  site_changed p history h = publish (site_properties p) (record h { history = history })

  -- The observable of the interval tells the clients.
  unfoldable pub configured : ConfigRepository Value → Hub Value → Hub Value
  configured c h = publish (serialize_site_properties c.thing_interval) (record h { config = c })

  abbrev take_effect : ℕ → Effect Value → Hub Value → Option (Hub Value)
  take_effect n Effect.ignored h = some h
  take_effect n Effect.escaped h = none
  take_effect n (Effect.replied Reply.fault) h = none
  take_effect n (Effect.replied Reply.nothing) h = some h
  take_effect n (Effect.replied (Reply.series s)) h =
      some (record h { replies = (n, Reply.series s) ∷ h.replies })
  take_effect n (Effect.configured c) h = some (configured c h)
  take_effect n (Effect.set_property id key value) h =
      some (record h { requests = (id, key, value) ∷ h.requests })

-- `none` is an exception that nothing catches, or undefined behaviour.
unfoldable pub client_sent :
    {Value : Type 0}
    → (ℤ → Value)
    → (Value → Option ℤ)
    → (String → Bool)
    → ℕ
    → Message
    → Hub Value
    → Option (Hub Value)
client_sent write_int read_int is_property n m h =
    take_effect n (on_message write_int read_int is_property h.history h.config m) h

-- The repository of things is a library's: `store` is what a thing's properties become when some are
-- set on it, and `emit` what it then publishes.
module _ {Value : Type 0} (write_int : ℤ → Value) (read_int : Value → Option ℤ)
    (is_property : String → Bool) (store emit : PropertyMap → PropertyMap → PropertyMap) where
  pub data Event : Hub Value → Hub Value → Type 0 where
    opened : (c : ℕ) (h : Hub Value) → Event h (client_opened c h)
    closed : (c : ℕ) (h : Hub Value) → Event h (client_closed c h)
    added :
        (id : String) (t : Thing) (h : Hub Value)
        → str_eq "site" id ≡ false
        → Event h (thing_added id t h)
    removed : (id : String) (h : Hub Value) → Event h (thing_removed id h)
    emitted :
        (id : String) (t : Thing) (set : PropertyMap) (h : Hub Value)
        → find_symbol id h.things ≡ some t
        → Event h (properties_emitted id t (store t.properties set) (emit t.properties set) h)
    changed :
        (p : SiteProperties) (history : List SiteProperties) (h : Hub Value)
        → Event h (site_changed p history h)
    sent :
        (n : ℕ) (m : Message) (h k : Hub Value)
        → client_sent write_int read_int is_property n m h ≡ some k
        → Event h k

  pub data Reach (h : Hub Value) : Hub Value → Type 0 where
    here : Reach h h
    next : {k l : Hub Value} → Reach h k → Event k l → Reach h l
