-- ===== src/Database/Maps.antt =====
-- src/database/Database.cpp and src/appDatabase/AppDatabase.cpp: the names of the maps, and what the
-- application for the database prints.
use Prim.Native.String.{String, ◌++◌ as str_append}
use iotic.Prelude.{ℕ, Option, some, List, [], ◌∷◌}
use iotic.Database.Delta.{◌>>=◌}
use iotic.Rules.SymbolRepository.{set_symbol}

-- The loop of the cursor: each key gets zero.
unfoldable pub enter_keys : List String → List (String × ℕ) → List (String × ℕ)
enter_keys [] result = result
enter_keys (key ∷ keys) result = enter_keys keys (set_symbol key 0 result)

-- The library's `keys` are those of a map, and of the map of all maps for the empty name; `none` is the
-- exception for a map that is not there.
unfoldable pub maps : (String → Option (List String)) → String → Option (List (String × ℕ))
maps keys map_name = do found ← keys map_name; some (enter_keys found [])

abbrev print_maps : (ℕ → String) → List (String × ℕ) → String
print_maps show [] = ""
print_maps show ((key, value) ∷ entries) = str_append "map> " (
    str_append key
      (str_append " size: " (str_append (show value) (str_append "\n" (print_maps show entries)))))

-- The name of the map that the application was started with is not used.
unfoldable pub app_database :
    (String → Option (List String)) → (ℕ → String) → Option String → Option String
app_database keys show map_name = do
  entries ← maps keys "elgris_smart_meter_1900042748.power"
  some (print_maps show entries)
