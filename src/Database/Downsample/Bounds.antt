-- ===== src/Database/Downsample/Bounds.antt =====
-- src/database/DatabaseUtil.cpp: `downsample` on samples of one width.
use native.Mathlib.Nat.{div-le_self}
use iotic.Prelude.{
  length-map, ℕ, zero, suc, ◌+◌, ◌/◌, ◌≤◌, ◌<◌, ◌≡◌, ◌≢◌, refl, ◌∙◌, subst, ℤ, pos, negsuc, ◌+ℤ◌,
  ◌*ℤ◌, ◌≤ℤ◌, int_laws, to_u32, u32_mod, false, some, List, [], ◌∷◌, map, length, length-append,
  replicate, length-replicate, All, All-append, arith, ◌==◌,
}
use iotic.Database.Types.{Datapoint, Dataset, u16_mod, put, IsDataset}
use iotic.Database.Cbor.{signed, to_u16}
use iotic.Database.Downsample.{
  Buckets, push, fill_buckets, add_values, resized, sum_points, round_div, aggregate, downsample,
}
use iotic.Database.Downsample.Average.{times_zero, times_suc, round_div-ge, round_div-le}

not_zero : (n : ℕ) → n ≢ 0 → (n == 0) ≡ false
not_zero n h = ground arith

module _ (width : ℕ) (lo hi : ℤ) where
  -- Values between two bounds, each within 16 bits.
  abbrev pub IsBounded : Datapoint → Type 0
  IsBounded p =
      (length p ≡ width) × All (λ v. (v < u16_mod) × (lo ≤ℤ signed v) × (signed v ≤ℤ hi)) p

  abbrev IsBucket : List Datapoint → Type 0
  IsBucket ps = (0 < length ps) × All IsBounded ps

  -- Rising keys with buckets that are not empty.
  abbrev AreBuckets : ℕ → Buckets → Type 0
  AreBuckets low [] = Unit {0}
  AreBuckets low ((k, ps) ∷ m) = (low ≤ k) × (k < u32_mod) × IsBucket ps × AreBuckets (k + 1) m

  push-AreBuckets :
      (low k : ℕ) (p : Datapoint) (m : Buckets)
      → low ≤ k
      → k < u32_mod
      → IsBounded p
      → AreBuckets low m
      → AreBuckets low (push k p m)
  unfolding push
  push-AreBuckets low k p [] h fits b a = (h, fits, (omega arith, (b, tt)), tt)
  push-AreBuckets low k p ((j, ps) ∷ m) h fits b a = ground (
    arith,
    push-AreBuckets (j + 1) k p m,
    length-append ps (p ∷ []),
    All-append IsBounded ps (p ∷ []),
  )

  -- Sums of `n` points lie between the bounds taken `n` times.
  abbrev AreSums : ℕ → List ℤ → Type 0
  AreSums n = All (λ s. (lo *ℤ pos n ≤ℤ s) × (s ≤ℤ hi *ℤ pos n))

  add_values-AreSums :
      (n : ℕ) (sums : List ℤ) (p : Datapoint)
      → length sums ≡ length p
      → All (λ v. (v < u16_mod) × (lo ≤ℤ signed v) × (signed v ≤ℤ hi)) p
      → AreSums n sums
      → (r : List ℤ) × (add_values sums p ≡ some r) × (length r ≡ length sums) × AreSums (suc n) r
  unfolding add_values
  add_values-AreSums n [] [] e b a = ([], refl, refl, tt)
  add_values-AreSums n [] (v ∷ p) e b a = absurd (omega arith)
  add_values-AreSums n (s ∷ sums) [] e b a = absurd (omega arith)
  add_values-AreSums n (s ∷ sums) (v ∷ p) e b a =
      let (r, q, l, c) = add_values-AreSums n sums p (omega arith) b.1 a.1 in
      (
        (s +ℤ signed v) ∷ r,
        rw q refl,
        omega (arith, l),
        ((rw (times_suc lo n) (omega int_laws), rw (times_suc hi n) (omega int_laws)), c),
      )

  resized-eq : (sums : List ℤ) (dp : Datapoint) → length sums ≡ length dp → resized sums dp ≡ sums
  resized-eq [] [] l = refl
  resized-eq [] (v ∷ dp) l = absurd (omega arith)
  resized-eq (s ∷ sums) dp l = refl

  zeros-AreSums : (k : ℕ) → AreSums 0 (replicate k (pos 0))
  zeros-AreSums zero = tt
  zeros-AreSums (suc k) =
      (rw (times_zero lo, times_zero hi) (omega arith, omega arith), zeros-AreSums k)

  sum_later :
      (n : ℕ) (sums : List ℤ) (dps : List Datapoint)
      → length sums ≡ width
      → AreSums n sums
      → All IsBounded dps
      → (r : List ℤ) × (sum_points sums dps ≡ some r)
        × (length r ≡ width)
        × AreSums (n + length dps) r
  unfolding sum_points
  sum_later n sums [] l a b = (sums, refl, l, subst (λ k. AreSums k sums) (omega arith) a)
  sum_later n sums (dp ∷ dps) l a b =
      let width_of : length sums ≡ length dp = omega (arith, b.0.0) in
      let same : resized sums dp ≡ sums = resized-eq sums dp width_of in
      let (s, q, k, c) = add_values-AreSums n sums dp width_of b.0.1 a in
      let (r, e, j, f) = sum_later (suc n) s dps (omega (arith, k)) c b.1 in
      (r, rw (same, q) e, j, subst (λ k. AreSums k r) (omega arith) f)

  sum_first :
      (dps : List Datapoint)
      → IsBucket dps
      → (r : List ℤ) × (sum_points [] dps ≡ some r) × (length r ≡ width) × AreSums (length dps) r
  unfolding sum_points
  sum_first [] b = absurd (omega arith)
  sum_first (dp ∷ dps) b =
      let zeros = replicate (length dp) (pos 0) in
      let (s, q, k, c) =
        add_values-AreSums 0 zeros dp (length-replicate (length dp) (pos 0)) b.1.0.1
          (zeros-AreSums (length dp)) in
      let (r, e, j, f) =
        sum_later 1 s dps (k ∙ length-replicate (length dp) (pos 0) ∙ b.1.0.0) c b.1.1 in
      (r, rw q e, j, subst (λ k. AreSums k r) (omega arith) f)

  value_bounds :
      (v : ℤ)
      → negsuc 32767 ≤ℤ lo
      → hi ≤ℤ pos 32767
      → lo ≤ℤ v
      → v ≤ℤ hi
      → (to_u16 v < u16_mod) × (lo ≤ℤ signed (to_u16 v)) × (signed (to_u16 v) ≤ℤ hi)
  unfolding to_u16 signed
  value_bounds (pos n) x y h k = ground arith
  value_bounds (negsuc n) x y h k = ground arith

  average-IsBounded :
      (n : ℕ) (sums : List ℤ)
      → 0 < n
      → negsuc 32767 ≤ℤ lo
      → hi ≤ℤ pos 32767
      → AreSums n sums
      → All
          (λ v. (v < u16_mod) × (lo ≤ℤ signed v) × (signed v ≤ℤ hi))
          (map (λ s. to_u16 (round_div s n)) sums)
  average-IsBounded n [] h x y a = tt
  average-IsBounded n (s ∷ sums) h x y a = (
    value_bounds (round_div s n) x y (round_div-ge lo s n h a.0.0) (round_div-le hi s n h a.0.1),
    average-IsBounded n sums h x y a.1,
  )

  put-IsDataset :
      (low t : ℕ) (p : Datapoint) (d : Dataset)
      → low ≤ t
      → t < u32_mod
      → IsDataset low d
      → IsDataset low (put t p d)
  unfolding put
  put-IsDataset low t p [] h fits s = (h, fits, tt)
  put-IsDataset low t p ((u, q) ∷ d) h fits s = ground (arith, put-IsDataset (u + 1) t p d)

  put-All :
      (t : ℕ) (p : Datapoint) (d : Dataset)
      → IsBounded p
      → All (λ e. IsBounded e.1) d
      → All (λ e. IsBounded e.1) (put t p d)
  unfolding put
  put-All t p [] b a = (b, tt)
  put-All t p ((u, q) ∷ d) b a = ground (arith, put-All t p d b)

  aggregate_total :
      (low : ℕ) (m : Buckets) (acc : Dataset)
      → negsuc 32767 ≤ℤ lo
      → hi ≤ℤ pos 32767
      → AreBuckets low m
      → IsDataset 0 acc
      → All (λ e. IsBounded e.1) acc
      → (a : Dataset) × (aggregate m acc ≡ some a) × IsDataset 0 a × All (λ e. IsBounded e.1) a
  unfolding aggregate
  aggregate_total low [] acc x y b s a = (acc, refl, s, a)
  aggregate_total low ((k, dps) ∷ m) acc x y b s a =
      let (sums, e, l, f) = sum_first dps b.2 in
      let avg = map (λ s. to_u16 (round_div s (length dps))) sums in
      let good : IsBounded avg = (
        length-map sums (λ s. to_u16 (round_div s (length dps))) ∙ l,
        average-IsBounded (length dps) sums b.2.0 x y f,
      ) in
      let (r, q, c, d) =
        aggregate_total (k + 1) m (put k avg acc) x y b.3
          (put-IsDataset 0 k avg acc (omega arith) b.1 s) (put-All k avg acc good a) in
      (r, rw e q, c, d)

  fill-AreBuckets :
      (divisor low : ℕ) (d : Dataset) (m : Buckets)
      → IsDataset low d
      → All (λ e. IsBounded e.1) d
      → AreBuckets 0 m
      → AreBuckets 0 (fill_buckets divisor d m)
  unfolding fill_buckets
  fill-AreBuckets divisor low [] m s b a = a
  fill-AreBuckets divisor low ((t, p) ∷ d) m s b a =
      let fits : t / divisor < u32_mod = omega (arith, div-le_self t divisor) in
      fill-AreBuckets divisor (t + 1) d (push (t / divisor) p m) s.2 b.1
        (push-AreBuckets 0 (t / divisor) p m (omega arith) fits b.0 a)

  -- Samples of one width are averaged without a fault, if the divisor is not zero: the result has
  -- rising keys of 32 bits and the same width, and each of its values lies between the bounds of the
  -- values of the samples.
  pub downsample_total :
      (low : ℕ) (divisor : ℤ) (d : Dataset)
      → negsuc 32767 ≤ℤ lo
      → hi ≤ℤ pos 32767
      → to_u32 divisor ≢ 0
      → IsDataset low d
      → All (λ e. IsBounded e.1) d
      → (a : Dataset) × (downsample divisor d ≡ some a) × IsDataset 0 a × All (λ e. IsBounded e.1) a
  unfolding downsample
  downsample_total low divisor [] x y z s b = ([], refl, tt, tt)
  downsample_total low divisor ((t, p) ∷ d) x y z s b =
      let m = fill_buckets (to_u32 divisor) ((t, p) ∷ d) [] in
      let (a, e, c, f) =
        aggregate_total 0 m [] x y (fill-AreBuckets (to_u32 divisor) low ((t, p) ∷ d) [] s b tt) tt
          tt in
      (a, rw (not_zero (to_u32 divisor) z) e, c, f)
