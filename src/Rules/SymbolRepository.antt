-- ===== src/Rules/SymbolRepository.antt =====
-- src/rules/SymbolRepository.cpp and src/rules/SymbolRepository.h: the table of symbols, over any type
-- of values. A map is the list of its entries; the order of the keys is not modelled.
use Prim.Native.String.{String}
use text.Mathlib.Text.{◌==◌ as str_eq}
use iotic.Prelude.{Bool, false, ◌||◌, Option, none, some, List, [], ◌∷◌, if◌then◌else◌}

module _ {V : Type 0} where
  unfoldable pub contains_symbol : String → List (String × V) → Bool
  contains_symbol symbol [] = false
  contains_symbol symbol ((k, v) ∷ table) = str_eq k symbol || contains_symbol symbol table

  unfoldable pub set_symbol : String → V → List (String × V) → List (String × V)
  set_symbol symbol value [] = (symbol, value) ∷ []
  set_symbol symbol value ((k, v) ∷ table) =
      let rest = set_symbol symbol value table in
      if str_eq k symbol then (k, value) ∷ table else (k, v) ∷ rest

  unfoldable pub find_symbol : String → List (String × V) → Option V
  find_symbol symbol [] = none
  find_symbol symbol ((k, v) ∷ table) = if str_eq k symbol then some v else find_symbol symbol table

  abbrev pub or_insert : String → V → List (String × V) → Option V → V × List (String × V)
  or_insert symbol zero table none = (zero, set_symbol symbol zero table)
  or_insert symbol zero table (some v) = (v, table)

  -- `_symbolTable[symbol]` enters a symbol that is not there yet, with the value `zero`.
  unfoldable pub resolve_symbol : V → String → List (String × V) → V × List (String × V)
  resolve_symbol zero symbol table = or_insert symbol zero table (find_symbol symbol table)
