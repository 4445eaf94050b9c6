-- ===== src/Things/ThingsManager/Polls.antt =====
-- How often the things are asked for their properties.
use native.Mathlib.Nat.{
  mod-lt, mod-eq_of_lt, mod_self, suc-mod, div-add-mod', mul-add-mod_self_right,
}
use iotic.Prelude.{
  ℕ, zero, suc, ◌+◌, ◌*◌, ◌/◌, ◌%◌, ◌≤◌, ◌<◌, ◌≡◌, refl, ap, ◌∙◌, inl, inr, ℤ, pos, Option, some,
  List, [], ◌∷◌, length, arith, ltb, ◌==◌, ◌||◌, ◌&&◌, Bool-cases, if◌then◌else◌,
}
use iotic.Database.Delta.{◌>>=◌}
use iotic.Things.ThingsManager.{on_timer}

-- How often things are asked at some times of the timer.
unfoldable pub polls : ℤ → List ℕ → Option ℕ
polls interval [] = some 0
polls interval (t ∷ ts) = do
  b ← on_timer interval t
  n ← polls interval ts
  some (if b then suc n else n)

-- The times are those of a timer that is less than 50 ms early or late.
abbrev pub IsOnTime : ℕ → List ℕ → Type 0
IsOnTime s [] = Unit
IsOnTime s (t ∷ ts) = ((t + 50) / 100 ≡ s) × IsOnTime (suc s) ts

-- The multiples of a number among consecutive ones, from the remainder of the first on.
abbrev multiples : ℕ → ℕ → ℕ → ℕ
multiples m r zero = 0
multiples m r (suc n) =
    let rest = multiples m (if suc r == m then 0 else suc r) n in if r == 0 then suc rest else rest

multiples_lem :
    (m r n : ℕ)
    → r < m
    → n ≤ m
    → multiples m r n ≡ (if ltb m (r + n) || (r == 0 && ltb 0 n) then 1 else 0)
multiples_lem m r zero h k = ground arith
multiples_lem m r (suc n) h k = elim (Bool-cases (suc r == m)) [
  | inl last ↦ ground (arith, last, multiples_lem m 0 n (omega arith) (omega arith))
  | inr inside ↦
      let next : suc r < m = ground (arith, inside) in
      ground (arith, inside, multiples_lem m (suc r) n next (omega arith))
]

scaled-mod : (k n : ℕ) → 1 ≤ n → k * 100 % (n * 1000) ≡ k % (n * 10) * 100
scaled-mod k n h =
    let split : k * 100 ≡ k / (n * 10) * (n * 1000) + k % (n * 10) * 100 =
      omega (arith, div-add-mod' k (n * 10)) in
    ap (λ x. x % (n * 1000)) split
    ∙ mul-add-mod_self_right (k / (n * 10)) (n * 1000) (k % (n * 10) * 100)
    ∙ mod-eq_of_lt (omega (arith, mod-lt k {m = n * 10} (omega arith)))

suc-mod_wrap : (k m : ℕ) → 1 ≤ m → suc k % m ≡ (if suc (k % m) == m then 0 else suc (k % m))
suc-mod_wrap k m h = elim (Bool-cases (suc (k % m) == m)) [
  | inl last ↦
      let e : suc (k % m) ≡ m = ground (arith, last) in
      rw last (suc-mod k m ∙ ap (λ x. x % m) e ∙ mod_self m)
  | inr inside ↦
      let below = mod-lt k {m = m} h in
      let next : suc (k % m) < m = ground (arith, inside, below) in
      rw inside (suc-mod k m ∙ mod-eq_of_lt next)
]

on_timer_lem :
    (n s t : ℕ)
    → 1 ≤ n
    → n ≤ 2147483
    → (t + 50) / 100 ≡ s
    → on_timer (pos n) t ≡ some (s % (n * 10) == 0)
unfolding on_timer
on_timer_lem n s t h k e = rw (e, scaled-mod s n h) (ground (arith, h, k))

polls_lem :
    (n s : ℕ) (times : List ℕ)
    → 1 ≤ n
    → n ≤ 2147483
    → IsOnTime s times
    → polls (pos n) times ≡ some (multiples (n * 10) (s % (n * 10)) (length times))
unfolding polls
polls_lem n s [] h k o = refl
polls_lem n s (t ∷ ts) h k o =
    rw
      (
        on_timer_lem n s t h k o.0,
        polls_lem n (suc s) ts h k o.1,
        suc-mod_wrap s (n * 10) (omega arith),
      )
      refl

-- At an interval of `n` seconds, which is not zero and whose milliseconds fit in an int, the `10 n` calls
-- of a timer that is less than 50 ms early or late ask the things exactly once, whenever they begin.
pub polls_once :
    (n s : ℕ) (times : List ℕ)
    → 1 ≤ n
    → n ≤ 2147483
    → IsOnTime s times
    → length times ≡ n * 10
    → polls (pos n) times ≡ some 1
polls_once n s times h k o l =
    let below = mod-lt s {m = n * 10} (omega arith) in
    polls_lem n s times h k o
    ∙ ap some (multiples_lem (n * 10) (s % (n * 10)) (length times) below (omega arith))
    ∙ ground (arith, below, l, h)
