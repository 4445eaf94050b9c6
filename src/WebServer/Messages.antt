-- ===== src/WebServer/Messages.antt =====
-- src/webserver/WebAppBehavior.cpp: the messages of a client. The parser of JSON is a library's; a text
-- is known by the first member of its object, with the first member of that one's object.
use Prim.Native.String.{String}
use iotic.Prelude.{ℤ, Bool, Option, none, some, List, if◌then◌else◌}
use iotic.Config.ConfigRepository.{ConfigRepository}
use iotic.Rules.RuleEngine.{PropertyValue}
use iotic.Strategies.Strategy.{SiteProperties}
use iotic.Things.ThingValue.{Json, ThingPropertyValue, from_json_value}
use iotic.WebServer.Router.{Routed, not_routed, threw, routed, route, on_binary_message}
use iotic.WebServer.SiteHistory.{Reply}

-- `malformed` makes the parser throw; `unusable` is no object, or an empty one, at one of the levels.
pub data Document : Type 0 where
  malformed unusable : Document
  member : String → String → Json → Document

pub data Message : Type 0 where
  binary : List (String × List (String × List ℤ)) → Message
  text : Document → Message

-- What a message leads to; `escaped` is an exception that nothing catches.
pub data Effect (Value : Type 0) : Type 0 where
  ignored escaped : Effect Value
  replied : Reply → Effect Value
  configured : ConfigRepository Value → Effect Value
  set_property : String → String → Json → Effect Value

-- The value as the routes see it.
abbrev property_value : {V : Type 0} → ThingPropertyValue → PropertyValue V
property_value (ThingPropertyValue.flag b) = PropertyValue.flag b
property_value (ThingPropertyValue.whole i) = PropertyValue.whole i
property_value _ = PropertyValue.other

module _ {Value : Type 0} (write_int : ℤ → Value) (read_int : Value → Option ℤ) where
  abbrev or_set : String → String → Json → Routed Value → Effect Value
  or_set thing property value not_routed = Effect.set_property thing property value
  or_set thing property value threw = Effect.escaped
  or_set thing property value (routed c) = Effect.configured c

  abbrev route_value :
      String → String → Json → ConfigRepository Value → Option ThingPropertyValue → Effect Value
  route_value thing property value c none = Effect.escaped
  route_value thing property value c (some v) =
      or_set thing property value
        (route write_int read_int thing property (property_value {V = Value} v) c)

  abbrev on_text : (String → Bool) → ConfigRepository Value → Document → Effect Value
  on_text is_property c malformed = Effect.escaped
  on_text is_property c unusable = Effect.ignored
  on_text is_property c (member thing property value) =
      if is_property property
      then route_value thing property value c (from_json_value value)
      else Effect.ignored

  -- Whether a name is that of a property is the enum library's answer.
  unfoldable pub on_message :
      (String → Bool) → List SiteProperties → ConfigRepository Value → Message → Effect Value
  on_message is_property history c (binary document) =
      Effect.replied (on_binary_message history document)
  on_message is_property history c (text document) = on_text is_property c document
