-- ===== src/Database/Downsample.antt =====
-- src/database/DatabaseUtil.cpp: `downsample`, with the default of its last argument. A sum of 16 bit
-- integers is exact in `double`; so is the rounded average, which is a whole number or stands at
-- least half of a part of the divisor away from the next half.
pub mod Average
pub mod Bounds
pub mod Keys
use iotic.Prelude.{
  ℕ, suc, ◌+◌, ◌*◌, ◌/◌, ℤ, pos, negsuc, sub_ℕ, ◌+ℤ◌, to_u32, Bool, true, false, Option, none, some,
  List, [], ◌∷◌, ◌++◌, map, length, replicate, ltb, ◌==◌, if◌then◌else◌,
}
use iotic.Database.Types.{Datapoint, Dataset, put}
use iotic.Database.Delta.{◌>>=◌}
use iotic.Database.Cbor.{signed, to_u16}

abbrev pub Buckets : Type 0
Buckets = List (ℕ × List Datapoint)

-- `buckets[k].push_back(p)` on a map.
unfoldable pub push : ℕ → Datapoint → Buckets → Buckets
push k p [] = (k, p ∷ []) ∷ []
push k p ((j, ps) ∷ m) =
    if ltb k j
    then (k, p ∷ []) ∷ (j, ps) ∷ m
    else if j == k
    then (j, ps ++ p ∷ []) ∷ m
    else (j, ps) ∷ push k p m

unfoldable pub fill_buckets : ℕ → Dataset → Buckets → Buckets
fill_buckets divisor [] m = m
fill_buckets divisor ((t, p) ∷ d) m = fill_buckets divisor d (push (t / divisor) p m)

-- `sum[i] += dp[i]` for each `i` of `dp`; `none` is a read outside the sums.
unfoldable pub add_values : List ℤ → Datapoint → Option (List ℤ)
add_values sums [] = some sums
add_values [] (v ∷ dp) = none
add_values (s ∷ sums) (v ∷ dp) = do rest ← add_values sums dp; some ((s +ℤ signed v) ∷ rest)

abbrev pub resized : List ℤ → Datapoint → List ℤ
resized [] dp = replicate (length dp) (pos 0)
resized (s ∷ sums) dp = s ∷ sums

unfoldable pub sum_points : List ℤ → List Datapoint → Option (List ℤ)
sum_points sums [] = some sums
sum_points sums (dp ∷ dps) = add_values (resized sums dp) dp >>= λ s. sum_points s dps

-- `round(s / n)`, half away from zero.
unfoldable pub round_div : ℤ → ℕ → ℤ
round_div (pos x) n = pos ((2 * x + n) / (2 * n))
round_div (negsuc x) n = sub_ℕ 0 ((2 * suc x + n) / (2 * n))

unfoldable pub aggregate : Buckets → Dataset → Option Dataset
aggregate [] aggregates = some aggregates
aggregate ((k, dps) ∷ m) aggregates = do
  sums ← sum_points [] dps
  aggregate m (put k (map (λ s. to_u16 (round_div s (length dps))) sums) aggregates)

-- The divisor is converted to 32 bits without a sign; `none` is a fault, also the division by zero
-- that comes with the first sample.
unfoldable pub downsample : ℤ → Dataset → Option Dataset
downsample divisor [] = some []
downsample divisor (s ∷ samples) =
    if to_u32 divisor == 0
    then none
    else aggregate (fill_buckets (to_u32 divisor) (s ∷ samples) []) []
