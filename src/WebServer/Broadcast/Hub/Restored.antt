-- ===== src/WebServer/Broadcast/Hub/Restored.antt =====
-- src/config/ConfigRepository.cpp with src/webserver/WebServer.cpp: a thing that comes back. The
-- configuration subscribes to the things before the web server does, so it sets what it has kept before
-- the clients are told.
use Prim.Native.String.{String}
use package.text.Mathlib.Text.{◌==◌ as str_eq}
use iotic.Prelude.{
  ℕ, ℤ, ◌≡◌, refl, ap, ◌∙◌, Bool, false, Option, none, some, List, [], ◌∷◌, All, All-map,
}
use iotic.Config.ConfigRepository.{ConfigRepository, Kept, set_properties_to, on_properties}
use iotic.Config.ConfigRepository.Restart.{restarted, properties_survive}
use iotic.Config.ConfigRepository.Persistence.{newer}
use iotic.Rules.SymbolRepository.{find_symbol, set_symbol}
use iotic.Things.ThingValue.{ThingPropertyValue, scalar, text, to_json_value}
use iotic.WebServer.Broadcast.{
  PropertyMap, Thing, Published, set_members, serialize_user_properties,
}
use iotic.WebServer.Broadcast.Hub.{Hub, thing_added}
use iotic.WebServer.Broadcast.Hub.Answers.{find_client, All-find_client}
use iotic.WebServer.Broadcast.View.{view, user_properties-IsSeen}

abbrev entry :
    {T : Type 0} → String → (T → ThingPropertyValue) → Option T → PropertyMap → PropertyMap
entry key make none rest = rest
entry key make (some x) rest = (key, make x) ∷ rest

-- The map that is set on the thing.
unfoldable pub property_map : Kept → PropertyMap
property_map kept = entry "name" ThingPropertyValue.name kept.name (
    entry "pinned" ThingPropertyValue.flag kept.pinned
      (entry "offset" ThingPropertyValue.whole kept.offset []))

All_clients : (clients : List (ℕ × List Published)) → All (λ c. Unit {0}) clients
All_clients [] = tt
All_clients (c ∷ clients) = (tt, All_clients clients)

name_member :
    (s : String) (p : Option Bool) (o : Option ℤ)
    → find_symbol "name"
        (set_members (property_map (record { name = some s; pinned = p; offset = o })) [])
      ≡ some (scalar (text s))
unfolding property_map set_members set_symbol find_symbol to_json_value
name_member s none none = refl
name_member s none (some o) = refl
name_member s (some p) none = refl
name_member s (some p) (some o) = refl

module _ {Value : Type 0} (read_string : Value → Option String) (read_bool : Value → Option Bool)
    (read_int : Value → Option ℤ) (store : PropertyMap → PropertyMap → PropertyMap) where
  -- The two handlers of an added thing, in the order of their subscriptions.
  unfoldable pub thing_returned : String → Thing → Hub Value → Hub Value
  thing_returned id t h =
      let kept = set_properties_to read_string read_bool read_int id h.config in
      thing_added id (record t { properties = store t.properties (property_map kept) }) h

  kept_shown :
      (id : String) (t : Thing) (h : Hub Value) (s : String) (n : ℕ) (inbox : List Published)
      → ((old set : PropertyMap) (key : String)
          → find_symbol key (set_members (store old set) [])
            ≡ newer (find_symbol key (set_members set [])) (find_symbol key (set_members old [])))
      → (set_properties_to read_string read_bool read_int id h.config).name ≡ some s
      → find_client n (thing_returned id t h).clients ≡ some inbox
      → view id "name" inbox ≡ some (scalar (text s))
  unfolding thing_returned thing_added
  kept_shown id t h s n inbox law name found =
      let kept = set_properties_to read_string read_bool read_int id h.config in
      let there : Thing = record t { properties = store t.properties (property_map kept) } in
      let member : find_symbol "name" (set_members (property_map kept) [])
          ≡ some (scalar (text s)) =
        ap
          (λ x. find_symbol "name" (
            set_members
              (property_map (record { name = x; pinned = kept.pinned; offset = kept.offset })) []))
          name
        ∙ name_member s kept.pinned kept.offset in
      let has : find_symbol "name" (set_members there.properties []) ≡ some (scalar (text s)) =
        law t.properties (property_map kept) "name"
        ∙ ap (λ o. newer o (find_symbol "name" (set_members t.properties []))) member in
      All-find_client (λ i. view id "name" i ≡ some (scalar (text s))) n inbox
        (thing_added id there h).clients
        (All-map (λ c. view id "name" c.1 ≡ some (scalar (text s)))
          (λ c. (c.0, serialize_user_properties id there ∷ c.1))
          (λ c (u : Unit {0}). user_properties-IsSeen id there c.1 "name" _ refl has) h.clients
          (All_clients h.clients))
        found

-- A thing publishes a name, the daemon is started again, and the thing is added: every client that is open
-- then is shown the name. The values of the file are read as they were written, the thing is not named
-- like the site, and what is set on a thing is put over what it has.
pub name_shown_again :
    {Value : Type 0} (write_string : String → Value) (write_bool : Bool → Value)
    (write_int : ℤ → Value) (read_string : Value → Option String) (read_bool : Value → Option Bool)
    (read_int : Value → Option ℤ) (store : PropertyMap → PropertyMap → PropertyMap)
    (string : (x : String) → read_string (write_string x) ≡ some x)
    (bool : (x : Bool) → read_bool (write_bool x) ≡ some x)
    (int : (x : ℤ) → read_int (write_int x) ≡ some x)
    (law : (old set : PropertyMap) (key : String)
      → find_symbol key (set_members (store old set) [])
        ≡ newer (find_symbol key (set_members set [])) (find_symbol key (set_members old [])))
    (id s : String) (t : Thing) (published : Kept) (c fresh : ConfigRepository Value)
    (h : Hub Value) (n : ℕ) (inbox : List Published)
    → str_eq "site" id ≡ false
    → published.name ≡ some s
    → h.config
      ≡ restarted write_string write_bool write_int read_string read_bool read_int fresh
          (on_properties write_string write_bool write_int id published c)
    → find_client n (thing_returned read_string read_bool read_int store id t h).clients
      ≡ some inbox
    → view id "name" inbox ≡ some (scalar (text s))
name_shown_again write_string write_bool write_int read_string read_bool read_int store string bool
      int law id s t published c fresh h n inbox other named restart found =
    let kept =
      properties_survive write_string write_bool write_int read_string read_bool read_int string
        bool int id s published c fresh other named in
    kept_shown read_string read_bool read_int store id t h s n inbox law
      (ap (λ x. (set_properties_to read_string read_bool read_int id x).name) restart ∙ kept.0)
      found
