-- ===== src/Database/Store/Shape.antt =====
-- The shape of a recorded map: rising 32 bit keys, and points of 16 bit patterns.
use iotic.Prelude.{
  ℕ, ◌+◌, ◌≤◌, ◌<◌, u32_mod, ◌&&◌, [], ◌∷◌, inl, inr, arith, ltb, leb, Bool-cases, All,
}
use iotic.Database.Types.{Datapoint, Dataset, IsDataset, HasWidth, put}
use iotic.Database.Store.Bytes.{AreWords}
use iotic.Database.Store.Table.{within, outside}

abbrev pub IsRecorded : Dataset → Type 0
IsRecorded d = IsDataset 0 d × All (λ e. AreWords e.1) d

put-IsDataset :
    (low t : ℕ) (p : Datapoint) (d : Dataset)
    → low ≤ t
    → t < u32_mod
    → IsDataset low d
    → IsDataset low (put t p d)
unfolding put
put-IsDataset low t p [] h k s = (h, k, tt)
put-IsDataset low t p ((u, q) ∷ d) h k s = ground (arith, put-IsDataset (u + 1) t p d)

put-AreWords :
    (t : ℕ) (p : Datapoint) (d : Dataset)
    → AreWords p
    → All (λ e. AreWords e.1) d
    → All (λ e. AreWords e.1) (put t p d)
unfolding put
put-AreWords t p [] w a = (w, tt)
put-AreWords t p ((u, q) ∷ d) w a = ground (arith, put-AreWords t p d)

IsDataset-lower : (low high : ℕ) (d : Dataset) → low ≤ high → IsDataset high d → IsDataset low d
IsDataset-lower low high [] h s = tt
IsDataset-lower low high ((t, p) ∷ d) h s = (omega (arith, s.0), s.1, s.2)

outside-IsDataset :
    (start stop low : ℕ) (d : Dataset) → IsDataset low d → IsDataset low (outside start stop d)
unfolding outside
outside-IsDataset start stop low [] s = tt
outside-IsDataset start stop low ((t, p) ∷ d) s =
    let rest = outside-IsDataset start stop (t + 1) d s.2 in
    elim (Bool-cases (leb start t && ltb t stop)) [
      | inl inside ↦
          rw inside (IsDataset-lower low (t + 1) (outside start stop d) (omega (arith, s.0)) rest)
      | inr differ ↦ rw differ (s.0, s.1, rest)
    ]

outside-AreWords :
    (start stop : ℕ) (d : Dataset)
    → All (λ e. AreWords e.1) d
    → All (λ e. AreWords e.1) (outside start stop d)
unfolding outside
outside-AreWords start stop [] a = tt
outside-AreWords start stop ((t, p) ∷ d) a = ground (arith, outside-AreWords start stop d)

pub put-IsRecorded :
    (t : ℕ) (p : Datapoint) (d : Dataset)
    → t < u32_mod
    → AreWords p
    → IsRecorded d
    → IsRecorded (put t p d)
put-IsRecorded t p d k w r = (put-IsDataset 0 t p d (omega arith) k r.0, put-AreWords t p d w r.1)

pub outside-IsRecorded :
    (start stop : ℕ) (d : Dataset) → IsRecorded d → IsRecorded (outside start stop d)
outside-IsRecorded start stop d r =
    (outside-IsDataset start stop 0 d r.0, outside-AreWords start stop d r.1)

pub within-IsDataset :
    (start stop low : ℕ) (d : Dataset) → IsDataset low d → IsDataset low (within start stop d)
unfolding within
within-IsDataset start stop low [] s = tt
within-IsDataset start stop low ((t, p) ∷ d) s =
    let rest = within-IsDataset start stop (t + 1) d s.2 in
    elim (Bool-cases (leb start t && ltb t stop)) [
      | inl inside ↦ rw inside (s.0, s.1, rest)
      | inr differ ↦
          rw differ (IsDataset-lower low (t + 1) (within start stop d) (omega (arith, s.0)) rest)
    ]

pub within-HasWidth :
    (start stop width : ℕ) (d : Dataset) → HasWidth width d → HasWidth width (within start stop d)
unfolding within
within-HasWidth start stop width [] w = tt
within-HasWidth start stop width ((t, p) ∷ d) w =
    ground (arith, within-HasWidth start stop width d w.1)

pub width-IsRecorded : (width : ℕ) (d : Dataset) → IsDataset 0 d → HasWidth width d → IsRecorded d
width-IsRecorded width d s w = (s, go d w)
  where
    go : (c : Dataset) → HasWidth width c → All (λ e. AreWords e.1) c
    go [] w = tt
    go ((t, p) ∷ c) w = (w.0.1, go c w.1)
