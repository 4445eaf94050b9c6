-- ===== src/Database/Archive.antt =====
-- src/database/ArchiveDayUseCase.cpp, and the archived days of src/database/Database.cpp. A resolution
-- is a number of minutes; a view of bytes is the bytes.
pub mod Names
pub mod Distinct
pub mod Bytes
pub mod Days
pub mod Requests
use Prim.Native.String.{String, ◌++◌ as str_append}
use iotic.Prelude.{
  to_i32, ℕ, zero, suc, ◌-◌, ◌/◌, ◌%◌, ◌+◌, ℤ, pos, negsuc, ◌*ℤ◌, quot, to_u32, u32_mod, Bool, true,
  false, Option, none, some, List, [], ◌∷◌, ltb, not, ltb_ℤ, ◌==◌, if◌then◌else◌, get_or,
}
use iotic.Database.Types.{Dataset}
use iotic.Database.Delta.{◌>>=◌, delta_compress}
use iotic.Database.Cbor.{Item, cbor_encode}
use iotic.Database.Downsample.{downsample}
use iotic.Database.Environment.{Environment}
use iotic.Database.Store.{
  Store, Outcome, raw_name, day_since_epoch, create_map, map_for, raw_data, upsert_in,
}

abbrev pub digit : ℕ → String
digit n = get_or ("0" ∷ "1" ∷ "2" ∷ "3" ∷ "4" ∷ "5" ∷ "6" ∷ "7" ∷ "8" ∷ "9" ∷ []) n ""

unfoldable pub digits : ℕ → ℕ → String
digits zero n = ""
digits (suc fuel) n =
    let rest = digits fuel (n / 10) in
    if ltb n 10 then digit n else str_append rest (digit (n % 10))

-- `std::to_string`; a number has no more digits than its value and one.
unfoldable pub to_string : ℤ → String
to_string (pos n) = digits (suc n) n
to_string (negsuc n) = str_append "-" (digits (suc (suc n)) (suc n))

unfoldable pub is_zero : ℤ → Bool
is_zero (pos n) = n == 0
is_zero (negsuc n) = false

unfoldable pub map_name : String → String → ℤ → String
map_name thing property resolution =
    let name = raw_name thing property in
    if is_zero resolution
    then name
    else str_append name (str_append (str_append "." (to_string resolution)) "min")

abbrev or_no_bytes : Option (List ℕ) → List ℕ
or_no_bytes none = []
or_no_bytes (some bytes) = bytes

-- The bytes that an encoder makes of what is written to it are the library's.
unfoldable pub archive_bytes : (List Item → List ℕ) → ℤ → Dataset → Option (List ℕ)
archive_bytes bytes_of resolution raw = do
  samples ← downsample (to_i32 (resolution *ℤ pos 60)) raw
  deltas ← delta_compress samples
  items ← cbor_encode deltas
  some (bytes_of items)

module _ {Env : Type 0} ⦃M : Environment Env⦄ where
  abbrev pub view_of : String → ℤ → Store Env → Option (Store Env) → List ℕ × Store Env
  view_of name day s none = ([], s)
  view_of name day s (some r) = (or_no_bytes (M.to_key_exact r.env name (day_since_epoch day)), r)

  -- `DatabasePrivate::archivedData`
  unfoldable pub find_archived : String → String → ℤ → ℤ → Store Env → List ℕ × Store Env
  find_archived thing property day resolution s =
      let name = map_name thing property resolution in view_of name day s (map_for name s)

  unfoldable pub put_archived_data : String → String → ℤ → ℤ → List ℕ → Store Env → Outcome Env
  put_archived_data thing property day resolution [] s = Outcome.returned s
  put_archived_data thing property day resolution (b ∷ bytes) s =
      let name = map_name thing property resolution in
      upsert_in name (day_since_epoch day) (b ∷ bytes) (create_map name s)

  abbrev pub find_again : String → String → ℤ → ℤ → Outcome Env → List ℕ × Outcome Env
  find_again thing property day resolution (Outcome.thrown s) = ([], Outcome.thrown s)
  find_again thing property day resolution (Outcome.returned s) =
      let (bytes, r) = find_archived thing property day resolution s in (bytes, Outcome.returned r)

  -- `today` is the day of the clock.
  module _ (bytes_of : List Item → List ℕ) (today : ℤ) where
    abbrev pub archive_raw : String → String → ℤ → ℤ → Dataset × Store Env → Option (Outcome Env)
    archive_raw thing property day resolution (raw, s) = do
      bytes ← archive_bytes bytes_of resolution raw
      some (put_archived_data thing property day resolution bytes s)

    -- `none` is a fault.
    unfoldable pub archive_day : String → String → ℤ → ℤ → Store Env → Option (Outcome Env)
    archive_day thing property day resolution s =
        if not (ltb_ℤ day today)
        then some (Outcome.returned s)
        else (raw_data thing property day s >>= archive_raw thing property day resolution)

    abbrev pub or_archive :
        String → String → ℤ → ℤ → List ℕ × Store Env → Option (List ℕ × Outcome Env)
    or_archive thing property day resolution ([], s) = do
      o ← archive_day thing property day resolution s
      some (find_again thing property day resolution o)
    or_archive thing property day resolution (b ∷ bytes, s) = some (b ∷ bytes, Outcome.returned s)

    -- The bytes, and how the call ended; there are no bytes when it throws.
    unfoldable pub archived_data :
        String → String → ℤ → ℤ → Store Env → Option (List ℕ × Outcome Env)
    archived_data thing property day resolution s =
        or_archive thing property day resolution (find_archived thing property day resolution s)
