-- ===== src/Config/ConfigRepository/Restart.antt =====
-- src/config/ConfigRepository.cpp: the configuration of a process that is started again. What is written to
-- the file is read from it as it was, which is the library's.
use Prim.Native.String.{String}
use text.Mathlib.Text.{◌==◌ as str_eq}
use iotic.Prelude.{
  ℤ, ◌≡◌, refl, sym, ap, ◌∙◌, subst, false, Bool, Option, none, some, List, [], ◌∷◌,
}
use iotic.Config.ConfigRepository.{
  ConfigRepository, Kept, set_properties_to, on_properties, persist_property, persist_some,
  parse_config_file, set_thing_interval, value, read_with,
}
use iotic.Config.ConfigRepository.Persistence.{newer, properties_restored, value-persist_property}

abbrev pub latest : {T : Type 0} → List T → Option T
latest [] = none
latest (file ∷ files) = some file

-- The newest file has what the configuration has.
abbrev IsSaved : {Value : Type 0} → ConfigRepository Value → Type 0
IsSaved c = latest c.files ≡ some c.table

module _ {Value T : Type 0} (write : T → Value) where
  persist_property-IsSaved :
      (id key : String) (v : Value) (c : ConfigRepository Value)
      → IsSaved (persist_property id key v c)
  unfolding persist_property
  persist_property-IsSaved id key v c = refl

  persist_some-IsSaved :
      (id key : String) (o : Option T) (c : ConfigRepository Value)
      → IsSaved c
      → IsSaved (persist_some write id key o c)
  persist_some-IsSaved id key none c h = h
  persist_some-IsSaved id key (some x) c h = persist_property-IsSaved id key (write x) c

module _ {Value : Type 0} (write_string : String → Value) (write_bool : Bool → Value)
    (write_int : ℤ → Value) (read_string : Value → Option String) (read_bool : Value → Option Bool)
    (read_int : Value → Option ℤ) where
  on_properties-IsSaved :
      (id s : String) (map : Kept) (c : ConfigRepository Value)
      → map.name ≡ some s
      → IsSaved (on_properties write_string write_bool write_int id map c)
  unfolding on_properties
  on_properties-IsSaved id s map c h =
      let named : IsSaved (persist_some write_string id "name" map.name c) =
        subst (λ o. IsSaved (persist_some write_string id "name" o c)) (sym h)
          (persist_property-IsSaved write_string id "name" (write_string s) c) in
      persist_some-IsSaved write_int id "offset" map.offset
        (persist_some write_bool id "pinned" map.pinned
          (persist_some write_string id "name" map.name c))
        (persist_some-IsSaved write_bool id "pinned" map.pinned
          (persist_some write_string id "name" map.name c) named)

  -- The configuration of a new process, which reads the file that the old one has written last.
  abbrev pub restarted : ConfigRepository Value → ConfigRepository Value → ConfigRepository Value
  restarted fresh old = parse_config_file write_int read_int (latest old.files) fresh

  value-restarted :
      (id key : String) (fresh old : ConfigRepository Value)
      → str_eq "site" id ≡ false
      → IsSaved old
      → value id key (restarted fresh old) ≡ value id key old
  unfolding parse_config_file set_thing_interval value
  value-restarted id key fresh old h saved =
      rw (value-persist_property "site" id "thing_interval" key _ _, h, saved) refl

  -- What a thing has published, its name among it, is set on it when it is added in a process that was
  -- started again, if the values of the file are read as they were written and the thing is not named
  -- like the site; a property that it has not published stays as it was.
  pub properties_survive :
      (string : (x : String) → read_string (write_string x) ≡ some x)
      (bool : (x : Bool) → read_bool (write_bool x) ≡ some x)
      (int : (x : ℤ) → read_int (write_int x) ≡ some x) (id s : String) (map : Kept)
      (c fresh : ConfigRepository Value)
      → str_eq "site" id ≡ false
      → map.name ≡ some s
      → let again = restarted fresh (on_properties write_string write_bool write_int id map c) in
        let old = set_properties_to read_string read_bool read_int id c in
        let new = set_properties_to read_string read_bool read_int id again in
        (new.name ≡ some s)
        × (new.pinned ≡ newer map.pinned old.pinned)
        × (new.offset ≡ newer map.offset old.offset)
  unfolding set_properties_to
  properties_survive string bool int id s map c fresh h named =
      let now = on_properties write_string write_bool write_int id map c in
      let saved = on_properties-IsSaved id s map c named in
      let before = set_properties_to read_string read_bool read_int id c in
      let (name, pinned, offset) =
        properties_restored write_string write_bool write_int read_string read_bool read_int string
          bool int id map c in
      (
        ap (read_with read_string) (value-restarted id "name" fresh now h saved)
            ∙ name
            ∙ ap (λ o. newer o before.name) named,
        ap (read_with read_bool) (value-restarted id "pinned" fresh now h saved) ∙ pinned,
        ap (read_with read_int) (value-restarted id "offset" fresh now h saved) ∙ offset,
      )
