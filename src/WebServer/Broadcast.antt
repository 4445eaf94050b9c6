-- ===== src/WebServer/Broadcast.antt =====
-- src/webserver/WebServer.cpp and src/webserver/WebAppBehavior.cpp: the messages that the clients of the
-- web app are sent, up to the text of a JSON library. A message is an object with one member; an empty
-- object of properties stands for the null that an unused value is.
pub mod Hub
pub mod View
use Prim.Native.String.{String}
use iotic.Prelude.{ℤ, pos, Option, none, some, List, [], ◌∷◌, map}
use iotic.Rules.SymbolRepository.{set_symbol}
use iotic.Strategies.Strategy.{SiteProperties}
use iotic.Things.ThingValue.{Json, scalar, array, integer, text, ThingPropertyValue, to_json_value}
use iotic.WebServer.Behavior.{recent_history}

-- The library's map, as the entries that a visit finds, in their order.
abbrev pub PropertyMap : Type 0
PropertyMap = List (String × ThingPropertyValue)

-- A thing of the library's repository: the name of its type, `none` where that is unknown, and the
-- properties.
pub record Thing : Type 0 where
  pub thing_type : Option String
  pub properties : PropertyMap

pub record Published : Type 0 where
  pub thing : String
  pub members : List (String × Json)

-- The loop of `forEach`, which assigns each property's value under its name.
unfoldable pub set_members : PropertyMap → List (String × Json) → List (String × Json)
set_members [] members = members
set_members ((key, value) ∷ properties) members =
    set_members properties (set_symbol key (to_json_value value) members)

abbrev pub with_type : Option String → List (String × Json) → List (String × Json)
with_type none members = members
with_type (some name) members = set_symbol "type" (scalar (text name)) members

unfoldable pub serialize_user_properties : String → Thing → Published
serialize_user_properties id t = record {
  thing = id;
  members = with_type t.thing_type (set_members t.properties []);
}

unfoldable pub serialize_site_properties : ℤ → Published
serialize_site_properties interval = record {
  thing = "site";
  members = ("thing_interval", scalar (integer interval)) ∷ [];
}

unfoldable pub site_history : List SiteProperties → Published
site_history history =
    let recent = recent_history history in
    record {
      thing = "site";
      members =
          ("timestamp", array (map (λ e. integer (pos e.ts)) recent))
          ∷ ("pv_power", array (map (λ e. integer e.pv_power) recent))
          ∷ ("grid_power", array (map (λ e. integer e.grid_power) recent))
          ∷ [];
    }

-- The handler of the site's properties.
unfoldable pub site_properties : SiteProperties → Published
site_properties p = record {
  thing = "site";
  members =
      ("timestamp", scalar (integer (pos p.ts)))
      ∷ ("grid_power", scalar (integer p.grid_power))
      ∷ ("pv_power", scalar (integer p.pv_power))
      ∷ ("short_term_grid_power", scalar (integer p.short_term_grid_power))
      ∷ ("long_term_grid_power", scalar (integer p.long_term_grid_power))
      ∷ [];
}

abbrev pub unless_empty : String → List (String × Json) → Option Published
unless_empty id [] = none
unless_empty id (m ∷ members) = some (record { thing = id; members = m ∷ members })

-- The handler of what a thing publishes, which sends nothing where there is nothing to send.
unfoldable pub thing_properties : String → PropertyMap → Option Published
thing_properties id properties = unless_empty id (set_members properties [])

abbrev pub entered :
    String
    → List (String × Json)
    → List (String × List (String × Json))
    → List (String × List (String × Json))
entered id [] things = things
entered id (m ∷ members) things = (id, m ∷ members) ∷ things

-- The answer to `/things`, without the things that have no properties.
unfoldable pub get_things : List (String × Thing) → List (String × List (String × Json))
get_things [] = []
get_things ((id, t) ∷ things) = entered id (set_members t.properties []) (get_things things)
