-- ===== src/Database/Delta/Shape.antt =====
-- src/database/DatabaseUtil.cpp: the shape of what `deltaCompress` gives.
use iotic.Prelude.{
  ℕ, ◌+◌, ◌-◌, ◌%◌, ◌<◌, ◌≡◌, refl, u32_mod, some, [], ◌∷◌, length, arith, Bool-cases, inl, inr,
  All,
}
use iotic.Database.Types.{Datapoint, Dataset, DeltaDataset, u16_mod, IsDataset, HasWidth}
use iotic.Database.Delta.{delta_point, all_zero, compress_from, delta_compress}

abbrev IsPoint : ℕ → Datapoint → Type 0
IsPoint width p = (length p ≡ width) × All (λ v. v < u16_mod) p

-- The times of entries lie below a bound.
abbrev pub AreBelow : ℕ → DeltaDataset → Type 0
AreBelow cap = All (λ e. e.0 < cap)

delta_point-IsPoint :
    (width : ℕ) (p last : Datapoint)
    → length p ≡ width
    → length last ≡ width
    → (d : Datapoint) × (delta_point p last ≡ some d) × IsPoint width d
unfolding delta_point
delta_point-IsPoint width [] last h k = ([], refl, (h, tt))
delta_point-IsPoint width (v ∷ p) [] h k = absurd (omega (arith, h, k))
delta_point-IsPoint width (v ∷ p) (l ∷ last) h k =
    let (d, e, (len, w)) = delta_point-IsPoint (length p) p last refl (omega (arith, h, k)) in
    ((v + u16_mod - l) % u16_mod ∷ d, rw e refl, (omega (arith, h, len), (omega arith, w)))

compress_from-HasWidth :
    (width cap last_t low : ℕ) (last : Datapoint) (d : Dataset)
    → last_t < low
    → AreBelow cap d
    → IsDataset low d
    → HasWidth width d
    → length last ≡ width
    → (c : DeltaDataset) × (compress_from last_t last d ≡ some c)
      × HasWidth width c
      × AreBelow cap c
unfolding compress_from
compress_from-HasWidth width cap last_t low last [] r b s w h = ([], refl, tt, tt)
compress_from-HasWidth width cap last_t low last ((t, p) ∷ d) r b s w h =
    let (delta, diff, point) = delta_point-IsPoint width p last w.0.0 h in
    let (skipped, e, f, g) =
      compress_from-HasWidth width cap last_t (t + 1) last d (omega arith) b.1 s.2 w.1 h in
    let (written, x, y, z) =
      compress_from-HasWidth width cap t (t + 1) p d (omega arith) b.1 s.2 w.1 w.0.0 in
    elim (Bool-cases (all_zero delta)) [
      | inl same ↦ (skipped, rw (diff, same) e, f, g)
      | inr differ ↦ (
        ((t + u32_mod - last_t) % u32_mod, delta) ∷ written,
        rw (diff, differ, x) refl,
        (point, y),
        (omega (arith, b.0, s.0, s.1), z),
      )
    ]

pub delta_compress-HasWidth :
    (width cap low : ℕ) (d : Dataset)
    → AreBelow cap d
    → IsDataset low d
    → HasWidth width d
    → (c : DeltaDataset) × (delta_compress d ≡ some c) × HasWidth width c × AreBelow cap c
unfolding delta_compress
delta_compress-HasWidth width cap low [] b s w = ([], refl, tt, tt)
delta_compress-HasWidth width cap low ((t, p) ∷ d) b s w =
    let (c, e, f, g) =
      compress_from-HasWidth width cap t (t + 1) p d (omega arith) b.1 s.2 w.1 w.0.0 in
    ((t, p) ∷ c, rw e refl, (w.0, f), (b.0, g))
