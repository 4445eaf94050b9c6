-- ===== src/Cli.antt =====
-- src/cli/Cli.cpp and src/main.cpp: which application is started. The library's parser accepts one of
-- four words.
use Prim.Native.String.{String}
use text.Mathlib.Text.{◌==◌ as str_eq}
use iotic.Prelude.{Bool, Option, none, some, List, [], ◌∷◌, if◌then◌else◌}

pub data Mode : Type 0 where
  daemon discover database help : Mode

abbrev word : String → Mode
word w =
    if str_eq w "daemon"
    then Mode.daemon
    else if str_eq w "discover"
    then Mode.discover
    else if str_eq w "database"
    then Mode.database
    else Mode.help

-- The words behind the program's name. A line that the library does not accept, `accepts`, gives help.
unfoldable pub parse_command_line : (List String → Bool) → List String → Mode
parse_command_line accepts [] = Mode.daemon
parse_command_line accepts (w ∷ words) = if accepts (w ∷ words) then word w else Mode.help

-- What is started; `ended` is a program that ends at once.
pub data Started : Type 0 where
  backend discovery ended : Started
  database_app : Option String → Started

abbrev started : Mode → List String → Started
started Mode.daemon words = Started.backend
started Mode.discover words = Started.discovery
started Mode.help words = Started.ended
started Mode.database (w ∷ map ∷ words) = Started.database_app (some map)
started Mode.database _ = Started.database_app none

unfoldable pub main : (List String → Bool) → List String → Started
main accepts words = started (parse_command_line accepts words) words
