-- ===== src/Config/ConfigRepository/Persistence.antt =====
-- src/config/ConfigRepository.cpp: what is persisted is found again.
use Prim.Native.String.{String}
use text.Mathlib.Text.{◌==◌ as str_eq}
use text.Mathlib.TextEquality.{eq_iff}
use iotic.Prelude.{
  ℤ, ◌≡◌, refl, ◌∙◌, ap, subst, inl, inr, Bool, false, ◌&&◌, Option, none, some, List, [], ◌∷◌,
  arith, Bool-cases, if◌then◌else◌,
}
use iotic.Rules.SymbolRepository.{find_symbol, set_symbol}
use iotic.Config.ConfigRepository.{
  ConfigRepository, Kept, value, persist_property, persist_some, set_properties_to, on_properties,
  read_with, find_in, section_of,
}

module _ {V : Type 0} where
  pub find-set_self :
      (k : String) (v : V) (m : List (String × V)) → find_symbol k (set_symbol k v m) ≡ some v
  unfolding find_symbol set_symbol
  find-set_self k v [] = rw ((eq_iff k k).1 refl) refl
  find-set_self k v ((j, w) ∷ m) = ground (arith, find-set_self k v m)

  pub find-set_other :
      (k j : String) (v : V) (m : List (String × V))
      → str_eq k j ≡ false
      → find_symbol j (set_symbol k v m) ≡ find_symbol j m
  unfolding find_symbol set_symbol
  find-set_other k j v [] h = rw h refl
  find-set_other k j v ((i, w) ∷ m) h = elim (Bool-cases (str_eq i k)) [
    | inl same ↦ rw (same, (ap (λ y. str_eq y j) ((eq_iff i k).0 same) ∙ h)) refl
    | inr differ ↦ ground (arith, differ, find-set_other k j v m h)
  ]

module _ {Value : Type 0} where
  find-section_of :
      (key : String) (o : Option (List (String × Value)))
      → find_symbol key (section_of o) ≡ find_in key o
  unfolding find_symbol
  find-section_of key none = refl
  find-section_of key (some section) = refl

  value-persist_self :
      (id key : String) (v : Value) (c : ConfigRepository Value)
      → value id key (persist_property id key v c) ≡ some v
  unfolding value persist_property
  value-persist_self id key v c =
      let section = section_of (find_symbol id c.table) in
      rw (find-set_self id (set_symbol key v section) c.table) (find-set_self key v section)

  value-persist_key :
      (id key other : String) (v : Value) (c : ConfigRepository Value)
      → str_eq key other ≡ false
      → value id other (persist_property id key v c) ≡ value id other c
  unfolding value persist_property
  value-persist_key id key other v c h =
      let section = section_of (find_symbol id c.table) in
      rw (find-set_self id (set_symbol key v section) c.table)
        (find-set_other key other v section h ∙ find-section_of other (find_symbol id c.table))

  value-persist_table :
      (id there key other : String) (v : Value) (c : ConfigRepository Value)
      → str_eq id there ≡ false
      → value there other (persist_property id key v c) ≡ value there other c
  unfolding value persist_property
  value-persist_table id there key other v c h =
      let section = section_of (find_symbol id c.table) in
      ap (find_in other) (find-set_other id there (set_symbol key v section) c.table h)

  -- A property that is persisted is found again under its table and key, and under any other table
  -- or any other key the configuration has what it had.
  pub value-persist_property :
      (id there key other : String) (v : Value) (c : ConfigRepository Value)
      → value there other (persist_property id key v c)
        ≡ (if str_eq id there && str_eq key other then some v else value there other c)
  value-persist_property id there key other v c = elim (Bool-cases (str_eq id there)) [
    | inr differ ↦ rw differ (value-persist_table id there key other v c differ)
    | inl same ↦ elim (Bool-cases (str_eq key other)) [
      | inr differ ↦
          rw (same, differ)
            (subst (λ t. value t other (persist_property id key v c) ≡ value t other c)
              ((eq_iff id there).0 same) (value-persist_key id key other v c differ))
      | inl equal ↦
          rw (same, equal)
            (subst (λ t. value t other (persist_property id key v c) ≡ some v)
              ((eq_iff id there).0 same)
              (subst (λ k. value id k (persist_property id key v c) ≡ some v)
                ((eq_iff key other).0 equal) (value-persist_self id key v c)))
    ]
  ]

-- The new value of a property where there is one.
abbrev pub newer : {T : Type 0} → Option T → Option T → Option T
newer none old = old
newer (some x) old = some x

module _ {Value T : Type 0} (write : T → Value) (read : Value → Option T)
    (read-write : (x : T) → read (write x) ≡ some x) where
  persist_some_self :
      (id key : String) (o : Option T) (c : ConfigRepository Value)
      → read_with read (value id key (persist_some write id key o c))
        ≡ newer o (read_with read (value id key c))
  persist_some_self id key none c = refl
  persist_some_self id key (some x) c =
      ap (read_with read) (value-persist_self id key (write x) c) ∙ read-write x

module _ {Value T : Type 0} (write : T → Value) where
  persist_some_key :
      (id key other : String) (o : Option T) (c : ConfigRepository Value)
      → str_eq key other ≡ false
      → value id other (persist_some write id key o c) ≡ value id other c
  persist_some_key id key other none c h = refl
  persist_some_key id key other (some x) c h = value-persist_key id key other (write x) c h

persist_some-interval :
    {Value T : Type 0} (write : T → Value) (id key : String) (o : Option T)
    (c : ConfigRepository Value)
    → (persist_some write id key o c).thing_interval ≡ c.thing_interval
unfolding persist_property
persist_some-interval write id key none c = refl
persist_some-interval write id key (some x) c = refl

-- What a thing publishes leaves the interval as it is.
pub on_properties-interval :
    {Value : Type 0} (write_string : String → Value) (write_bool : Bool → Value)
    (write_int : ℤ → Value) (id : String) (map : Kept) (c : ConfigRepository Value)
    → (on_properties write_string write_bool write_int id map c).thing_interval ≡ c.thing_interval
unfolding on_properties
on_properties-interval write_string write_bool write_int id map c =
    persist_some-interval write_int id "offset" map.offset _
    ∙ persist_some-interval write_bool id "pinned" map.pinned _
    ∙ persist_some-interval write_string id "name" map.name c

module _ {Value : Type 0} (write_string : String → Value) (write_bool : Bool → Value)
    (write_int : ℤ → Value) (read_string : Value → Option String) (read_bool : Value → Option Bool)
    (read_int : Value → Option ℤ) where
  -- What a thing has published is set on it when it is added again, if the values of the file are read
  -- as they were written; a property that it has not published stays as it was.
  pub properties_restored :
      (string : (x : String) → read_string (write_string x) ≡ some x)
      (bool : (x : Bool) → read_bool (write_bool x) ≡ some x)
      (int : (x : ℤ) → read_int (write_int x) ≡ some x) (id : String) (map : Kept)
      (c : ConfigRepository Value)
      → let c' = on_properties write_string write_bool write_int id map c in
        let old = set_properties_to read_string read_bool read_int id c in
        let new = set_properties_to read_string read_bool read_int id c' in
        (new.name ≡ newer map.name old.name)
        × (new.pinned ≡ newer map.pinned old.pinned)
        × (new.offset ≡ newer map.offset old.offset)
  unfolding on_properties set_properties_to
  properties_restored string bool int id map c =
      let c1 = persist_some write_string id "name" map.name c in
      let c2 = persist_some write_bool id "pinned" map.pinned c1 in
      (
        ap (read_with read_string) (
              persist_some_key write_int id "offset" "name" map.offset c2 refl
              ∙ persist_some_key write_bool id "pinned" "name" map.pinned c1 refl)
            ∙ persist_some_self write_string read_string string id "name" map.name c,
        ap (read_with read_bool)
              (persist_some_key write_int id "offset" "pinned" map.offset c2 refl)
            ∙ persist_some_self write_bool read_bool bool id "pinned" map.pinned c1
            ∙ ap (newer map.pinned) (
                ap (read_with read_bool)
                  (persist_some_key write_string id "name" "pinned" map.name c refl)),
        persist_some_self write_int read_int int id "offset" map.offset c2
            ∙ ap (newer map.offset) (
                ap (read_with read_int) (
                  persist_some_key write_bool id "pinned" "offset" map.pinned c1 refl
                  ∙ persist_some_key write_string id "name" "offset" map.name c refl)),
      )
