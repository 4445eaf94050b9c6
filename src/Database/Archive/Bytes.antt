-- ===== src/Database/Archive/Bytes.antt =====
-- A day's samples on their way into the archive and back.
use iotic.Prelude.{
  to_u32-to_i32, subst, u32_mod, ◌*◌, ◌≤◌, ◌%◌, to_i32, ℕ, ◌<◌, ◌≡◌, ◌≢◌, refl, ap, sym, ◌∙◌, ℤ,
  pos, negsuc, ◌≤ℤ◌, ◌*ℤ◌, to_u32, some, List, [], ◌∷◌, arith, All,
}
use iotic.Database.Types.{Datapoint, Dataset, DeltaDataset, u16_mod, IsDataset, HasWidth}
use iotic.Database.Delta.{delta_decompress}
use iotic.Database.Delta.Thin.{thin}
use iotic.Database.Delta.RoundTrip.{decompress-compress}
use iotic.Database.Downsample.Keys.{ResultBelow, downsample-ResultBelow}
use iotic.Database.Delta.Shape.{AreBelow, delta_compress-HasWidth}
use iotic.Database.Cbor.{Item, cbor_decode, signed}
use iotic.Database.Cbor.RoundTrip.{cbor_decode-encode}
use iotic.Database.Downsample.{downsample}
use iotic.Database.Downsample.Bounds.{downsample_total, IsBounded}
use iotic.Database.Archive.{archive_bytes}

signed_range : (v : ℕ) → v < u16_mod → (negsuc 32767 ≤ℤ signed v) × (signed v ≤ℤ pos 32767)
unfolding signed
signed_range v h = ground arith

words_bounded :
    (p : Datapoint)
    → All (λ v. v < u16_mod) p
    → All (λ v. (v < u16_mod) × (negsuc 32767 ≤ℤ signed v) × (signed v ≤ℤ pos 32767)) p
words_bounded [] a = tt
words_bounded (v ∷ p) a = let (lo, hi) = signed_range v a.0 in ((a.0, lo, hi), words_bounded p a.1)

points-IsBounded :
    (width : ℕ) (d : Dataset)
    → HasWidth width d
    → All (λ e. IsBounded width (negsuc 32767) (pos 32767) e.1) d
points-IsBounded width [] w = tt
points-IsBounded width ((t, p) ∷ d) w =
    ((w.0.0, words_bounded p w.0.1), points-IsBounded width d w.1)

bounded_words :
    (p : Datapoint)
    → All (λ v. (v < u16_mod) × (negsuc 32767 ≤ℤ signed v) × (signed v ≤ℤ pos 32767)) p
    → All (λ v. v < u16_mod) p
bounded_words [] a = tt
bounded_words (v ∷ p) a = (a.0.0, bounded_words p a.1)

bounded-HasWidth :
    (width : ℕ) (d : Dataset)
    → All (λ e. IsBounded width (negsuc 32767) (pos 32767) e.1) d
    → HasWidth width d
bounded-HasWidth width [] a = tt
bounded-HasWidth width ((t, p) ∷ d) a =
    ((a.0.0, bounded_words p a.0.1), bounded-HasWidth width d a.1)

some_injective {ℓ} : {A : Type ℓ} (x y : A) → some x ≡ some y → x ≡ y
some_injective x y e = cc

-- The items whose bytes are archived can be read back: they stand for the day's averages, without
-- those that repeat the one before.
abbrev pub IsArchive : ℤ → Dataset → List Item → Type 0
IsArchive resolution d items =
    (a : Dataset) × (c : DeltaDataset) × (downsample (to_i32 (resolution *ℤ pos 60)) d ≡ some a)
    × (cbor_decode items ≡ some c)
    × (delta_decompress c ≡ some (thin a))

times_four : (r : ℤ) → to_u32 (r *ℤ pos 60) % 4 ≡ 0
unfolding to_u32 ◌*ℤ◌
times_four (pos n) = ground arith
times_four (negsuc n) = ground arith

-- A resolution of some minutes brings all times of 32 bits below those of an `int`.
minutes_fit :
    (r : ℤ)
    → to_u32 (to_i32 (r *ℤ pos 60)) ≢ 0
    → u32_mod ≤ 2147483648 * to_u32 (to_i32 (r *ℤ pos 60))
minutes_fit r h = omega (arith, to_u32-to_i32 (r *ℤ pos 60), times_four r, ne_pos _ h)
  where
    ne_pos : (n : ℕ) → n ≢ 0 → 0 < n
    ne_pos n k = ground arith

pub archive_bytes-IsArchive :
    (bytes_of : List Item → List ℕ) (width low : ℕ) (resolution : ℤ) (d : Dataset)
    → to_u32 (to_i32 (resolution *ℤ pos 60)) ≢ 0
    → IsDataset low d
    → HasWidth width d
    → (items : List Item) × (archive_bytes bytes_of resolution d ≡ some (bytes_of items))
      × IsArchive resolution d items
unfolding archive_bytes
archive_bytes-IsArchive bytes_of width low resolution d z s w =
    let (a, e, rising, bounded) =
      downsample_total width (negsuc 32767) (pos 32767) low (to_i32 (resolution *ℤ pos 60)) d
        (omega arith) (omega arith) z s (points-IsBounded width d w) in
    let wide = bounded-HasWidth width a bounded in
    let (c, f, back) = decompress-compress width 0 a rising wide in
    let z' : 0 < to_u32 (to_i32 (resolution *ℤ pos 60)) = ground arith in
    let below : AreBelow 2147483648 a = subst (ResultBelow 2147483648) e (
      downsample-ResultBelow 2147483648 low (to_i32 (resolution *ℤ pos 60)) d z'
        (minutes_fit resolution z) s) in
    let (c', f', cw, ct) = delta_compress-HasWidth width 2147483648 0 a below rising wide in
    let same : c' ≡ c = some_injective c' c (sym f' ∙ f) in
    let (items, g, read) = cbor_decode-encode width c' cw ct in
    (items, rw (e, f', g) refl, (a, c, e, read ∙ ap some same, back))
