-- ===== src/Runs/Storage.antt =====
-- Runs of src/database/DatabaseUtil.cpp.
use iotic.Prelude.{ℕ, ◌≡◌, refl, some, List, [], ◌∷◌, arith}
use iotic.Database.Types.{Dataset, DeltaDataset, IsDataset, HasWidth}
use iotic.Database.Delta
use iotic.Database.Delta.{delta_compress, delta_decompress}
use iotic.Database.Delta.Thin.{value_at}
use iotic.Database.Delta.RoundTrip.{archive_values}
use iotic.Database.Cbor.{Item, cbor_encode, cbor_decode}
use iotic.Database.Cbor.RoundTrip.{cbor_decode-encode}

-- Three samples of two values; the second one repeats the first one, the third has a negative value.
abbrev day : Dataset
day = (1000, 5 ∷ 65535 ∷ []) ∷ (1300, 5 ∷ 65535 ∷ []) ∷ (1600, 7 ∷ 65000 ∷ []) ∷ []

day-IsDataset : IsDataset 0 day
day-IsDataset = ground arith

day-HasWidth : HasWidth 2 day
day-HasWidth = ground arith

delta_compress_run : delta_compress day ≡ some ((1000, 5 ∷ 65535 ∷ []) ∷ (600, 2 ∷ 65001 ∷ []) ∷ [])
unfolding delta_compress Delta.compress_from Delta.delta_point Delta.all_zero
delta_compress_run = refl

archive_values_example :
    (c : DeltaDataset) × (d' : Dataset) × (delta_compress day ≡ some c)
    × (delta_decompress c ≡ some d')
    × ((now : ℕ) → value_at now d' ≡ value_at now day)
archive_values_example = archive_values 2 0 day day-IsDataset day-HasWidth

cbor_decode-encode_example :
    (items : List Item) × (cbor_encode day ≡ some items) × (cbor_decode items ≡ some day)
cbor_decode-encode_example = cbor_decode-encode 2 day day-HasWidth (ground arith)
