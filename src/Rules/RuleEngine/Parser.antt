-- ===== src/Rules/RuleEngine/Parser.antt =====
-- src/rules/RuleEngine.cpp: how an expression is compiled. The compiler belongs
-- to a library.
use Prim.Native.String.{String}
use text.Mathlib.Text.{◌==◌ as str_eq}
use text.Mathlib.TextEquality.{eq_iff}
use iotic.Prelude.{
  ℤ, pos, ◌≡◌, refl, sym, ap, ◌∙◌, subst, inl, inr, Bool, true, false, not, Option, none, some,
  List, [], ◌∷◌, map, filter_by, arith, Bool-cases, if◌then◌else◌,
}
use iotic.Config.ConfigRepository.{or_else}
use iotic.Config.ConfigRepository.Persistence.{find-set_self, find-set_other}
use iotic.Rules.RuleEngine.{PropertyValue, contains}
use iotic.Rules.SymbolRepository.{find_symbol, resolve_symbol, or_insert}

-- `toDouble`
unfoldable pub to_double : {V : Type 0} → (ℤ → V) → PropertyValue V → V
to_double of_int (PropertyValue.whole i) = of_int i
to_double of_int (PropertyValue.flag b) = of_int (if b then pos 1 else pos 0)
to_double of_int _ = of_int (pos 0)

-- What a compiled expression reads.
pub record Parser : Type 0 where
  pub expression : String
  pub variables : List String

module _ {V : Type 0} where
  pub contains-find :
      (n : String) (v : V) (table : List (String × V))
      → find_symbol n table ≡ some v
      → contains n (map (λ kv. kv.0) table) ≡ true
  unfolding find_symbol contains
  contains-find n v [] e = cc
  contains-find n v ((k, w) ∷ table) e = ground (arith, contains-find n v table)

module _ {V : Type 0} (zero : V) where
  -- The calls of the resolver, one for each name that it is asked for.
  unfoldable pub resolve_all : List String → List (String × V) → List (String × V)
  resolve_all [] symbols = symbols
  resolve_all (name ∷ names) symbols = resolve_all names (resolve_symbol zero name symbols).1

  -- `compile` is the library's: whether an expression is one, and the names that are asked for where
  -- some variables are known.
  unfoldable pub create_parser :
      (String → List String → Bool × List String)
      → String
      → List (String × V)
      → List (String × V) × Option Parser
  create_parser compile expr symbols =
      let first = compile expr [] in
      let table = resolve_all first.1 symbols in
      let variables = map (λ kv. kv.0) table in
      let second = compile expr variables in
      if first.0
      then (resolve_all second.1 table, some (record { expression = expr; variables = variables }))
      else (table, none)

  abbrev pub resolved : Option V → Option V
  resolved o = some (or_else zero o)

  resolved_self :
      (name : String) (symbols : List (String × V)) (o : Option V)
      → find_symbol name symbols ≡ o
      → find_symbol name (or_insert name zero symbols o).1 ≡ resolved (find_symbol name symbols)
  resolved_self name symbols none e = find-set_self name zero symbols ∙ sym (ap resolved e)
  resolved_self name symbols (some v) e = e ∙ sym (ap resolved e)

  resolved_other :
      (name n : String) (symbols : List (String × V)) (o : Option V)
      → str_eq name n ≡ false
      → find_symbol n (or_insert name zero symbols o).1 ≡ find_symbol n symbols
  resolved_other name n symbols none h = find-set_other name n zero symbols h
  resolved_other name n symbols (some v) h = refl

  resolved_same :
      (name n : String) (symbols : List (String × V)) (o : Option V)
      → find_symbol name symbols ≡ o
      → str_eq name n ≡ true
      → find_symbol n (or_insert name zero symbols o).1 ≡ resolved (find_symbol n symbols)
  resolved_same name n symbols o e same =
      let equal = (eq_iff name n).0 same in
      subst
        (λ k. find_symbol k (or_insert name zero symbols o).1 ≡ resolved (find_symbol k symbols))
        equal (resolved_self name symbols o e)

  find-resolve_symbol :
      (name n : String) (symbols : List (String × V))
      → find_symbol n (resolve_symbol zero name symbols).1
        ≡ (if str_eq name n then resolved (find_symbol n symbols) else find_symbol n symbols)
  unfolding resolve_symbol
  find-resolve_symbol name n symbols = elim (Bool-cases (str_eq name n)) [
    | inl same ↦ rw same (resolved_same name n symbols (find_symbol name symbols) refl same)
    | inr differ ↦ rw differ (resolved_other name n symbols (find_symbol name symbols) differ)
  ]

  -- After all calls of the resolver each name is there, with the value zero where it was not before.
  pub find-resolve_all :
      (names : List String) (n : String) (symbols : List (String × V))
      → find_symbol n (resolve_all names symbols)
        ≡ (if contains n names then resolved (find_symbol n symbols) else find_symbol n symbols)
  unfolding resolve_all contains
  find-resolve_all [] n symbols = refl
  find-resolve_all (name ∷ names) n symbols =
      find-resolve_all names n (resolve_symbol zero name symbols).1
      ∙ (let e = find-resolve_symbol name n symbols in ground (arith, e))

  -- No name is asked for that is known.
  filter_by-known :
      (known names : List String)
      → ((n : String) → contains n names ≡ true → contains n known ≡ true)
      → filter_by (λ n. not (contains n known)) names ≡ []
  unfolding filter_by contains
  filter_by-known known [] f = refl
  filter_by-known known (name ∷ names) f =
      rw (f name (rw ((eq_iff name name).1 refl) refl))
        (filter_by-known known names (λ n h. f n (ground (arith, h))))

  asked-known :
      (names : List String) (symbols : List (String × V)) (n : String)
      → contains n names ≡ true
      → contains n (map (λ kv. kv.0) (resolve_all names symbols)) ≡ true
  asked-known names symbols n h =
      contains-find n (or_else zero (find_symbol n symbols)) (resolve_all names symbols)
        (find-resolve_all names n symbols ∙ rw h refl)

  -- Compiling an expression asks at first for each of its names: afterwards the table has each, with
  -- the value zero where it was new, and every other symbol as it was. An expression that is accepted
  -- gets the whole table as its variables, and one that is not gets no parser. The library accepts the
  -- same expressions whatever is known, and does not ask for what is known.
  pub create_parser_table :
      (compile : String → List String → Bool × List String)
      → ((expr : String) (known : List String)
          → (compile expr known).1 ≡ filter_by (λ n. not (contains n known)) (compile expr []).1)
      → (expr : String) (symbols : List (String × V)) (n : String)
      → let made = create_parser compile expr symbols in
        let variables = map (λ kv. kv.0) made.0 in
        (made.1 ≡ (
          if (compile expr []).0
          then some (record { expression = expr; variables = variables })
          else none))
        × (find_symbol n made.0 ≡ (
            if contains n (compile expr []).1
            then some (or_else zero (find_symbol n symbols))
            else find_symbol n symbols))
  unfolding create_parser resolve_all
  create_parser_table compile law expr symbols n =
      let names = (compile expr []).1 in
      let table = resolve_all names symbols in
      let second =
        law expr (map (λ kv. kv.0) table)
        ∙ filter_by-known (map (λ kv. kv.0) table) names (asked-known names symbols) in
      elim (Bool-cases (compile expr []).0) [
        | inl accepted ↦ rw (accepted, second) (refl, find-resolve_all names n symbols)
        | inr refused ↦ rw refused (refl, find-resolve_all names n symbols)
      ]
