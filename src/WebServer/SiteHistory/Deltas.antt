-- ===== src/WebServer/SiteHistory/Deltas.antt =====
-- src/webserver/WebAppRouter.cpp: what a client can get back from the differences.
use iotic.Prelude.{
  ℕ, ◌+◌, ◌-◌, ◌%◌, ◌<◌, ◌≡◌, refl, ap, ℤ, pos, ◌+ℤ◌, ◌-ℤ◌, int_laws, quot, u32_mod, List, [], ◌∷◌,
  map, arith, All,
}
use iotic.Strategies.Strategy.{SiteProperties}
use iotic.WebServer.SiteHistory.{deltas_from, deltas, time_deltas_from, time_deltas, to_series}

-- Running sums, as the web application builds them.
unfoldable pub sums_from : ℤ → List ℤ → List ℤ
sums_from last [] = []
sums_from last (d ∷ ds) = (last +ℤ d) ∷ sums_from (last +ℤ d) ds

unfoldable pub times_from : ℕ → List ℕ → List ℕ
times_from last [] = []
times_from last (d ∷ ds) = ((last + d) % u32_mod) ∷ times_from ((last + d) % u32_mod) ds

sums_from-deltas_from : (last : ℤ) (xs : List ℤ) → sums_from last (deltas_from last xs) ≡ xs
unfolding sums_from deltas_from
sums_from-deltas_from last [] = refl
sums_from-deltas_from last (x ∷ xs) =
    let back : last +ℤ (x -ℤ last) ≡ x = omega int_laws in
    rw back (ap (◌∷◌ x) (sums_from-deltas_from x xs))

sums_from-deltas : (xs : List ℤ) → sums_from (pos 0) (deltas xs) ≡ xs
unfolding sums_from deltas
sums_from-deltas [] = refl
sums_from-deltas (x ∷ xs) =
    let start : pos 0 +ℤ x ≡ x = omega int_laws in
    rw start (ap (◌∷◌ x) (sums_from-deltas_from x xs))

times_from-deltas_from :
    (last : ℕ) (ts : List ℕ)
    → last < u32_mod
    → All (λ t. t < u32_mod) ts
    → times_from last (time_deltas_from last ts) ≡ ts
unfolding times_from time_deltas_from
times_from-deltas_from last [] h k = refl
times_from-deltas_from last (t ∷ ts) h k =
    let back : (last + (t + u32_mod - last) % u32_mod) % u32_mod ≡ t = omega (arith, k.0) in
    rw back (ap (◌∷◌ t) (times_from-deltas_from t ts k.0 k.1))

times_from-deltas : (ts : List ℕ) → All (λ t. t < u32_mod) ts → times_from 0 (time_deltas ts) ≡ ts
unfolding times_from time_deltas
times_from-deltas [] k = refl
times_from-deltas (t ∷ ts) k =
    let back : (0 + t) % u32_mod ≡ t = omega (arith, k.0) in
    rw back (ap (◌∷◌ t) (times_from-deltas_from t ts k.0 k.1))

-- The running sums of a reply are the times of the selected entries, and their powers in units of
-- ten watts, cut off towards zero.
pub sums-to_series :
    (entries : List SiteProperties)
    → All (λ t. t < u32_mod) (map (λ e. e.ts) entries)
    → let s = to_series entries in
      (times_from 0 s.timestamps ≡ map (λ e. e.ts) entries)
      × (sums_from (pos 0) s.pv_powers ≡ map (λ e. quot e.pv_power 10) entries)
      × (sums_from (pos 0) s.grid_powers ≡ map (λ e. quot e.grid_power 10) entries)
unfolding to_series
sums-to_series entries k = (times_from-deltas _ k, sums_from-deltas _, sums_from-deltas _)
