-- ===== src/Database/Delta/RoundTrip.antt =====
-- src/database/DatabaseUtil.cpp: decompressing what was compressed.
use mathlib.Core.List.{append_assoc, append-nil}
use iotic.Prelude.{
  ℕ, u32_mod, ◌+◌, ◌-◌, ◌%◌, ◌<◌, ◌≡◌, refl, ap, ◌∙◌, some, [], ◌∷◌, ◌++◌, length, arith, ◌==◌,
  Bool-cases, inl, inr, All,
}
use iotic.Database.Types.{Datapoint, Dataset, DeltaDataset, u16_mod, put, IsDataset, HasWidth}
use iotic.Database.Delta.{
  delta_point, add_point, all_zero, compress_from, delta_compress, decompress_from,
  delta_decompress,
}
use iotic.Database.Delta.Thin.{same_point, thin_from, thin, value_at, value_at-thin}

abbrev IsPoint : ℕ → Datapoint → Type 0
IsPoint width p = (length p ≡ width) × All (λ v. v < u16_mod) p

-- Points of one width have a difference; it is zero exactly if they are the same, and added to the
-- older one it gives the newer one.
delta_point_total :
    (width : ℕ) (p last : Datapoint)
    → IsPoint width p
    → IsPoint width last
    → (d : Datapoint) × (delta_point p last ≡ some d)
      × (all_zero d ≡ same_point p last)
      × (add_point d last ≡ some p)
unfolding delta_point all_zero same_point add_point
delta_point_total width [] [] h k = ([], refl, refl, refl)
delta_point_total width [] (l ∷ last) h k = absurd (omega (arith, h.0, k.0))
delta_point_total width (v ∷ p) [] h k = absurd (omega (arith, h.0, k.0))
delta_point_total width (v ∷ p) (l ∷ last) h k =
    let (d, e, z, a) =
      delta_point_total (length p) p last (refl, h.1.1) (omega (arith, h.0, k.0), k.1.1) in
    let hv : v < u16_mod = h.1.0 in
    let hl : l < u16_mod = k.1.0 in
    let back : (l + (v + u16_mod - l) % u16_mod) % u16_mod ≡ v = omega arith in
    let zero_iff : ((v + u16_mod - l) % u16_mod == 0) ≡ (v == l) = ground arith in
    ((v + u16_mod - l) % u16_mod ∷ d, rw e refl, rw (z, zero_iff) refl, rw (a, back) refl)

pub put_last :
    (t : ℕ) (p : Datapoint) (d : Dataset) → All (λ e. e.0 < t) d → put t p d ≡ d ++ (t, p) ∷ []
unfolding put
put_last t p [] h = refl
put_last t p ((u, q) ∷ d) h = ground (arith, put_last t p d h.1)

pub All-snoc :
    (t u : ℕ) (p : Datapoint) (d : Dataset)
    → t < u
    → All (λ e. e.0 < t + 1) d
    → All (λ e. e.0 < u + 1) (d ++ (u, p) ∷ [])
All-snoc t u p [] h k = (omega arith, tt)
All-snoc t u p ((s, q) ∷ d) h k = (omega arith, All-snoc t u p d h k.1)

pub All-below : (t u : ℕ) (d : Dataset) → t < u → All (λ e. e.0 < t + 1) d → All (λ e. e.0 < u) d
All-below t u [] h k = tt
All-below t u ((s, q) ∷ d) h k = (omega arith, All-below t u d h k.1)

compress_loop :
    (width last_t low : ℕ) (last : Datapoint) (d acc : Dataset)
    → last_t < low
    → last_t < u32_mod
    → IsPoint width last
    → IsDataset low d
    → HasWidth width d
    → All (λ e. e.0 < last_t + 1) acc
    → (c : DeltaDataset) × (compress_from last_t last d ≡ some c)
      × (decompress_from last_t last c acc ≡ some (acc ++ thin_from last d))
unfolding compress_from decompress_from thin_from
compress_loop width last_t low last [] acc lt fits point s w below = ([], refl, rw append-nil)
compress_loop width last_t low last ((t, p) ∷ d) acc lt fits point s w below =
    let (delta, diff, zero, back) = delta_point_total width p last w.0 point in
    let (c1, skip, skip_back) =
      compress_loop width last_t (t + 1) last d acc (omega arith) fits point s.2 w.1 below in
    let (c2, keep, keep_back) =
      compress_loop width t (t + 1) p d (acc ++ (t, p) ∷ []) (omega arith) s.1 w.0 s.2 w.1
        (All-snoc last_t t p acc (omega arith) below) in
    elim (Bool-cases (same_point p last)) [
      | inl e ↦ (c1, rw (diff, zero, e) skip, rw e skip_back)
      | inr e ↦
          let time : (last_t + (t + u32_mod - last_t) % u32_mod) % u32_mod ≡ t = omega arith in
          (
            ((t + u32_mod - last_t) % u32_mod, delta) ∷ c2,
            rw (diff, zero, e) (rw keep refl),
            rw (back, e)
                (rw (time, put_last t p acc (All-below last_t t acc (omega arith) below))
                  (keep_back ∙ ap some (append_assoc acc ((t, p) ∷ []) (thin_from p d)))),
          )
    ]

-- A day's samples of one width go through the compression and back without a fault, and come back
-- without those that only repeat the last value kept.
pub decompress-compress :
    (width low : ℕ) (d : Dataset)
    → IsDataset low d
    → HasWidth width d
    → (c : DeltaDataset) × (delta_compress d ≡ some c) × (delta_decompress c ≡ some (thin d))
unfolding delta_compress delta_decompress thin
decompress-compress width low [] s w = ([], refl, refl)
decompress-compress width low ((t, p) ∷ d) s w =
    let (c, e, back) =
      compress_loop width t (t + 1) p d ((t, p) ∷ []) (omega arith) s.1 w.0 s.2 w.1 (omega arith) in
    let first : (0 + t) % u32_mod ≡ t = omega arith in
    ((t, p) ∷ c, rw e refl, rw first (unfold put in back))

-- So nothing is lost to one who reads the samples as a step function: at every time the samples that
-- come back hold the value that the original ones hold.
pub archive_values :
    (width low : ℕ) (d : Dataset)
    → IsDataset low d
    → HasWidth width d
    → (c : DeltaDataset) × (d' : Dataset) × (delta_compress d ≡ some c)
      × (delta_decompress c ≡ some d')
      × ((now : ℕ) → value_at now d' ≡ value_at now d)
archive_values width low d s w =
    let (c, e, back) = decompress-compress width low d s w in
    (c, thin d, e, back, λ now. value_at-thin now low d s)
