-- ===== src/Database/Downsample/Keys.antt =====
-- src/database/DatabaseUtil.cpp: the keys of the averages of `downsample`.
use native.Mathlib.Nat.{div-lt_iff_lt-mul}
use iotic.Prelude.{
  ℕ, ◌+◌, ◌*◌, ◌/◌, ◌≤◌, ◌<◌, ℤ, to_u32, u32_mod, Option, none, some, List, [], ◌∷◌, length, map,
  arith, All, inl, inr, Bool-cases, ◌==◌,
}
use iotic.Database.Types.{Datapoint, Dataset, put, IsDataset}
use iotic.Database.Cbor.{to_u16}
use iotic.Database.Delta.{◌>>=◌}
use iotic.Database.Delta.Shape.{AreBelow}
use iotic.Database.Downsample.{
  Buckets, push, fill_buckets, sum_points, round_div, aggregate, downsample,
}

module _ (cap : ℕ) where
  abbrev KeysBelow : Buckets → Type 0
  KeysBelow = All (λ e. e.0 < cap)

  -- If there is a result, its keys are below the bound.
  abbrev pub ResultBelow : Option Dataset → Type 0
  ResultBelow none = Unit {0}
  ResultBelow (some a) = AreBelow cap a

  push-KeysBelow :
      (k : ℕ) (p : Datapoint) (m : Buckets) → k < cap → KeysBelow m → KeysBelow (push k p m)
  unfolding push
  push-KeysBelow k p [] h b = (h, tt)
  push-KeysBelow k p ((j, ps) ∷ m) h b = ground (arith, push-KeysBelow k p m)

  put-AreBelow :
      (t : ℕ) (p : Datapoint) (d : Dataset) → t < cap → AreBelow cap d → AreBelow cap (put t p d)
  unfolding put
  put-AreBelow t p [] h b = (h, tt)
  put-AreBelow t p ((u, q) ∷ d) h b = ground (arith, put-AreBelow t p d)

  aggregate-ResultBelow :
      (m : Buckets) (acc : Dataset) → KeysBelow m → AreBelow cap acc → ResultBelow (aggregate m acc)
  unfolding aggregate
  aggregate-ResultBelow [] acc b c = c
  aggregate-ResultBelow ((k, dps) ∷ m) acc b c =
      let next : List ℤ → Dataset =
        λ sums. put k (map (λ s. to_u16 (round_div s (length dps))) sums) acc in
      elim (sum_points [] dps) as (λ o. ResultBelow (o >>= λ sums. aggregate m (next sums))) [
        | none ↦ tt
        | some sums ↦ aggregate-ResultBelow m (next sums) b.1 (put-AreBelow k _ acc b.0 c)
      ]

  fill-KeysBelow :
      (divisor low : ℕ) (d : Dataset) (m : Buckets)
      → 0 < divisor
      → u32_mod ≤ cap * divisor
      → IsDataset low d
      → KeysBelow m
      → KeysBelow (fill_buckets divisor d m)
  unfolding fill_buckets
  fill-KeysBelow divisor low [] m z h s b = b
  fill-KeysBelow divisor low ((t, p) ∷ d) m z h s b =
      fill-KeysBelow divisor (t + 1) d (push (t / divisor) p m) z h s.2
        (push-KeysBelow (t / divisor) p m ((div-lt_iff_lt-mul z).1 (omega (arith, s.1))) b)

  -- The keys of the averages lie below a bound that the divisor brings all times of 32 bits under.
  pub downsample-ResultBelow :
      (low : ℕ) (divisor : ℤ) (d : Dataset)
      → 0 < to_u32 divisor
      → u32_mod ≤ cap * to_u32 divisor
      → IsDataset low d
      → ResultBelow (downsample divisor d)
  unfolding downsample
  downsample-ResultBelow low divisor [] z h s = tt
  downsample-ResultBelow low divisor (x ∷ d) z h s = elim (Bool-cases (to_u32 divisor == 0)) [
    | inl none_left ↦ absurd (ground (arith, none_left))
    | inr left ↦
        rw left
          (aggregate-ResultBelow _ [] (fill-KeysBelow (to_u32 divisor) low (x ∷ d) [] z h s tt) tt)
  ]
