-- ===== src/WebServer/Routes.antt =====
-- src/webserver/WebServer.cpp: the answers to requests but for those of one day's data and of the
-- things. The embedded files and the text of JSON belong to libraries.
use Prim.Native.String.{String, ◌++◌ as str_append}
use iotic.Prelude.{ℕ, Bool, List, [], ◌∷◌, map, if◌then◌else◌}
use iotic.Rules.SymbolRepository.{set_symbol}
use iotic.Things.ThingValue.{Json}

module _ (exists : String → Bool) (open_file : String → String) where
  unfoldable pub get_index : String
  get_index = open_file "index.html"

  unfoldable pub get_file : String → String
  get_file name = if exists name then open_file name else str_append "file not found: " name

-- A name and a line feed for each map.
unfoldable pub get_maps : List (String × ℕ) → String
get_maps [] = ""
get_maps ((name, size) ∷ maps) = str_append name (str_append "\n" (get_maps maps))

unfoldable pub set_symbols :
    {V : Type 0} → List (String × V) → List (String × V) → List (String × V)
set_symbols [] json = json
set_symbols ((symbol, value) ∷ table) json = set_symbols table (set_symbol symbol value json)

unfoldable pub get_symbols : {V : Type 0} → List (String × V) → List (String × V)
get_symbols table = set_symbols table []

-- The strategies in their order, each by its own description.
unfoldable pub get_strategies :
    {S : Type 0} → (S → List (String × Json)) → List S → List (List (String × Json))
get_strategies to_json strategies = map to_json strategies

-- src/config/ConfigRoute.cpp
unfoldable pub get_config : String
get_config = "config"
