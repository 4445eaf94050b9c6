-- ===== src/Strategies/StrategyRepository/Order.antt =====
-- src/strategies/StrategyRepository.cpp: the order of the strategies after `addStrategy`.
use mathlib.Core.List.{perm_middle, append-nil}
use mathlib.Core.List.Perm
use iotic.Prelude.{
  ◌≡◌, refl, ap, inl, inr, ℤ, ◌≤ℤ◌, ltb_ℤ, not, List, [], ◌∷◌, ◌++◌, Perm, arith, Bool-cases, All,
  All-append, All-filter_by, true, filter_by,
}
use iotic.Strategies.StrategyRepository.{precedes, insert, sort, add_strategy}

module _ {A : Type 0} (priority : A → ℤ) where
  -- Falling priorities from the front to the back.
  abbrev pub IsSorted : List A → Type 0
  IsSorted [] = Unit {0}
  IsSorted (a ∷ l) = All (λ b. priority b ≤ℤ priority a) l × IsSorted l

  insert-perm : (a : A) (l : List A) → Perm (insert priority a l) (a ∷ l)
  unfolding insert
  insert-perm a [] = Perm.refl _
  insert-perm a (b ∷ l) = elim (Bool-cases (precedes priority b a)) [
    | inl e ↦ rw e (Perm.trans (Perm.cons b (insert-perm a l)) (Perm.swap a b l))
    | inr e ↦ rw e (Perm.refl _)
  ]

  sort-perm : (l : List A) → Perm (sort priority l) l
  unfolding sort
  sort-perm [] = Perm.refl []
  sort-perm (a ∷ l) = Perm.trans (insert-perm a (sort priority l)) (Perm.cons a (sort-perm l))

  -- `addStrategy` loses no strategy and makes none up.
  pub add_strategy-perm : (s : A) (l : List A) → Perm (add_strategy priority s l) (s ∷ l)
  unfolding add_strategy
  add_strategy-perm s l =
      Perm.trans (sort-perm (l ++ s ∷ [])) (rw (append-nil l) at (perm_middle {a = s} l []))

  All-insert :
      (x : ℤ) (a : A) (l : List A)
      → priority a ≤ℤ x
      → All (λ b. priority b ≤ℤ x) l
      → All (λ b. priority b ≤ℤ x) (insert priority a l)
  unfolding insert
  All-insert x a [] h k = (h, tt)
  All-insert x a (b ∷ l) h k = ground (arith, All-insert x a l h k.1)

  All-mono :
      (x y : ℤ) (l : List A) → x ≤ℤ y → All (λ b. priority b ≤ℤ x) l → All (λ b. priority b ≤ℤ y) l
  All-mono x y [] h k = tt
  All-mono x y (b ∷ l) h k = (omega arith, All-mono x y l h k.1)

  insert-IsSorted : (a : A) (l : List A) → IsSorted l → IsSorted (insert priority a l)
  unfolding insert
  insert-IsSorted a [] h = (tt, tt)
  insert-IsSorted a (b ∷ l) h = elim (Bool-cases (precedes priority b a)) [
    | inl e ↦ rw e (All-insert (priority b) a l (ground arith) h.0, insert-IsSorted a l h.1)
    | inr e ↦ rw e ((ground arith, All-mono (priority b) (priority a) l (ground arith) h.0), h)
  ]

  pub sort-IsSorted : (l : List A) → IsSorted (sort priority l)
  unfolding sort
  sort-IsSorted [] = tt
  sort-IsSorted (a ∷ l) = insert-IsSorted a (sort priority l) (sort-IsSorted l)

  -- A list in order stays as it is: the sort is stable.
  sort_sorted : (l : List A) → IsSorted l → sort priority l ≡ l
  unfolding sort insert
  sort_sorted [] h = refl
  sort_sorted (a ∷ []) h = refl
  sort_sorted (a ∷ b ∷ l) h = rw (sort_sorted (b ∷ l) h.1) (ground (arith, h.0.0))

  -- The strategies that stay in front of `s`, and those behind it.
  abbrev pub before : A → List A → List A
  before s = filter_by (λ b. not (precedes priority s b))

  abbrev pub behind : A → List A → List A
  behind s = filter_by (λ b. precedes priority s b)

  insert_front :
      (a : A) (l : List A) → All (λ b. priority b ≤ℤ priority a) l → insert priority a l ≡ a ∷ l
  unfolding insert
  insert_front a [] h = refl
  insert_front a (b ∷ l) h = ground (arith, h.0)

  All-behind :
      (s : A) (l : List A) (x : ℤ)
      → ltb_ℤ x (priority s) ≡ true
      → All (λ b. priority b ≤ℤ x) l
      → (before s l ≡ []) × (behind s l ≡ l)
  unfolding filter_by
  All-behind s [] x h k = (refl, refl)
  All-behind s (b ∷ l) x h k =
      let (front, back) = All-behind s l x h k.1 in
      let low : precedes priority s b ≡ true = ground (arith, k.0) in
      rw low (front, ap (◌∷◌ b) back)

  sort_split :
      (s : A) (l : List A) → IsSorted l → sort priority (l ++ s ∷ []) ≡ before s l ++ s ∷ behind s l
  unfolding sort insert filter_by
  sort_split s [] h = refl
  sort_split s (a ∷ l) h = rw (sort_split s l h.1) (elim (Bool-cases (precedes priority s a)) [
    | inl e ↦
        let (front, back) = All-behind s l (priority a) e h.0 in
        rw (front, back, e) (ap (◌∷◌ s) (insert_front a l h.0))
    | inr e ↦ rw e (
        insert_front a _ (
          All-append _ (before s l) (s ∷ behind s l) (All-filter_by _ _ l h.0)
            (ground arith, All-filter_by _ _ l h.0)))
  ])

  -- Added to a list in order, a strategy comes behind all that have its priority or a higher one
  -- and in front of the rest, and the order of the others stays as it was.
  pub add_strategy_split :
      (s : A) (l : List A) → IsSorted l → add_strategy priority s l ≡ before s l ++ s ∷ behind s l
  unfolding add_strategy
  add_strategy_split s l h = sort_split s l h

  -- After `addStrategy` the list is in order, whatever it was before.
  pub add_strategy-IsSorted : (s : A) (l : List A) → IsSorted (add_strategy priority s l)
  unfolding add_strategy
  add_strategy-IsSorted s l = sort-IsSorted (l ++ s ∷ [])
