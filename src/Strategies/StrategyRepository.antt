-- ===== src/Strategies/StrategyRepository.antt =====
-- src/strategies/StrategyRepository.cpp: the list of strategies, kept in the order of priority.
pub mod Order
use Prim.Native.String.{String}
use text.Mathlib.Text.{◌==◌ as str_eq}
use iotic.Prelude.{ℤ, ltb_ℤ, Bool, not, List, [], ◌∷◌, ◌++◌, filter_by, if◌then◌else◌}

module _ {A : Type 0} (priority : A → ℤ) where
  -- The comparison that the list is sorted by.
  abbrev pub precedes : A → A → Bool
  precedes a b = ltb_ℤ (priority b) (priority a)

  -- `std::list::sort` is stable; so is this insertion sort.
  unfoldable pub insert : A → List A → List A
  insert a [] = a ∷ []
  insert a (b ∷ bs) = if precedes b a then b ∷ insert a bs else a ∷ b ∷ bs

  unfoldable pub sort : List A → List A
  sort [] = []
  sort (a ∷ as') = insert a (sort as')

  unfoldable pub add_strategy : A → List A → List A
  add_strategy s strategies = sort (strategies ++ s ∷ [])

-- The handler of a removed thing.
unfoldable pub remove_thing : {A : Type 0} → (A → String) → String → List A → List A
remove_thing thing_id id strategies = filter_by (λ s. not (str_eq (thing_id s) id)) strategies
