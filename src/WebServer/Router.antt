-- ===== src/WebServer/Router.antt =====
-- src/webserver/WebAppRouter.cpp: the routes and the handler of binary messages. The parser of CBOR
-- belongs to a library; a document is an object of objects of arrays.
use Prim.Native.String.{String}
use text.Mathlib.Text.{◌==◌ as str_eq}
use iotic.Prelude.{ℤ, ◌&&◌, Option, none, some, List, [], ◌∷◌, if◌then◌else◌}
use iotic.Strategies.Strategy.{SiteProperties}
use iotic.Rules.SymbolRepository.{find_symbol}
use iotic.Rules.RuleEngine.{PropertyValue}
use iotic.Config.ConfigRepository.{ConfigRepository, set_thing_interval}
use iotic.WebServer.SiteHistory.{Reply, nothing, serialize_site_history}

-- `threw` is the exception of `std::get<int>` on a value of another type.
pub data Routed (Value : Type 0) : Type 0 where
  not_routed threw : Routed Value
  routed : ConfigRepository Value → Routed Value

module _ {V Value : Type 0} (write_int : ℤ → Value) (read_int : Value → Option ℤ) where
  abbrev route_interval : PropertyValue V → ConfigRepository Value → Routed Value
  route_interval (PropertyValue.whole i) c = routed (set_thing_interval write_int read_int i c)
  route_interval _ c = threw

  -- The one route that the constructor enters.
  unfoldable pub route : String → String → PropertyValue V → ConfigRepository Value → Routed Value
  route thing property value c =
      if str_eq thing "site" && str_eq property "thing_interval"
      then route_interval value c
      else not_routed

-- The range, which must have two ends.
abbrev answer_range : List SiteProperties → List ℤ → Reply
answer_range history (from ∷ to ∷ []) = serialize_site_history history from to
answer_range history _ = nothing

abbrev answer_section : List SiteProperties → Option (List ℤ) → Reply
answer_section history none = nothing
answer_section history (some timestamps) = answer_range history timestamps

-- What is sent back.
unfoldable pub on_binary_message :
    List SiteProperties → List (String × List (String × List ℤ)) → Reply
on_binary_message history ((thing, section) ∷ []) =
    if str_eq thing "site"
    then answer_section history (find_symbol "timestamp" section)
    else nothing
on_binary_message history _ = nothing
