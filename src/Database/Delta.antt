-- ===== src/Database/Delta.antt =====
-- src/database/DatabaseUtil.cpp: `deltaCompress` and `deltaDecompress`. `none` is a read outside a
-- vector, which happens where a point is longer than the one before it.
pub mod Thin
pub mod RoundTrip
pub mod Shape
use iotic.Prelude.{
  ℕ, u32_mod, ◌+◌, ◌-◌, ◌%◌, Bool, true, false, ◌&&◌, Option, none, some, List, [], ◌∷◌, ◌==◌,
  if◌then◌else◌,
}
use iotic.Database.Types.{Datapoint, Dataset, DeltaDataset, u16_mod, put}

infixl 5 ◌>>=◌
abbrev pub ◌>>=◌ {ℓ κ} : {A : Type ℓ} {B : Type κ} → Option A → (A → Option B) → Option B
none >>= f = none
some a >>= f = f a

-- `datapoint[i] - lastDatapoint[i]` for each `i`, cut down to 16 bits.
unfoldable pub delta_point : Datapoint → Datapoint → Option Datapoint
delta_point [] last = some []
delta_point (v ∷ point) [] = none
delta_point (v ∷ point) (l ∷ last) = do
  deltas ← delta_point point last
  some ((v + u16_mod - l) % u16_mod ∷ deltas)

unfoldable pub add_point : Datapoint → Datapoint → Option Datapoint
add_point [] current = some []
add_point (d ∷ delta) [] = none
add_point (d ∷ delta) (c ∷ current) = do
  values ← add_point delta current
  some ((c + d) % u16_mod ∷ values)

unfoldable pub all_zero : Datapoint → Bool
all_zero [] = true
all_zero (v ∷ point) = v == 0 && all_zero point

-- The loop behind the first entry, with the last entry that was written.
unfoldable pub compress_from : ℕ → Datapoint → Dataset → Option DeltaDataset
compress_from last_timestamp last [] = some []
compress_from last_timestamp last ((t, point) ∷ dataset) =
    let skipped = compress_from last_timestamp last dataset in
    let written = compress_from t point dataset in
    delta_point point last >>= λ delta.
    if all_zero delta
    then skipped
    else (written >>= λ rest. some (((t + u32_mod - last_timestamp) % u32_mod, delta) ∷ rest))

unfoldable pub delta_compress : Dataset → Option DeltaDataset
delta_compress [] = some []
delta_compress ((t, point) ∷ dataset) =
    compress_from t point dataset >>= λ rest. some ((t, point) ∷ rest)

-- The loop behind the first entry, with the time and the point that were reached.
unfoldable pub decompress_from : ℕ → Datapoint → DeltaDataset → Dataset → Option Dataset
decompress_from current_timestamp current [] samples = some samples
decompress_from current_timestamp current ((dt, delta) ∷ deltas) samples =
    add_point delta current >>= λ value.
    let t = (current_timestamp + dt) % u32_mod in
    decompress_from t value deltas (put t value samples)

unfoldable pub delta_decompress : DeltaDataset → Option Dataset
delta_decompress [] = some []
delta_decompress ((t, value) ∷ deltas) =
    let first = (0 + t) % u32_mod in decompress_from first value deltas (put first value [])
