-- ===== src/Database/Archive/Requests.antt =====
-- `Database::archivedData` for days that are archived, past, or not over.
use Prim.Native.String.{String}
use text.Mathlib.Text.{◌==◌ as str_eq}
use iotic.Prelude.{
  to_i32, ℕ, suc, ◌≤◌, ◌≡◌, refl, ap, ◌∙◌, ℤ, pos, ltb_ℤ, ◌*ℤ◌, to_u32, true, false, none, some,
  List, [], ◌∷◌,
}
use iotic.Database.Types.{Datapoint, Dataset}
use iotic.Database.Downsample.{downsample}
use iotic.Database.Cbor.{Item}
use iotic.Database.Environment.{Entries, Environment, or_empty, find_key}
use iotic.Database.Store.{Store, Outcome, raw_name, day_start, day_end, day_since_epoch}
use iotic.Database.Store.Shape.{IsRecorded}
use iotic.Database.Store.Day.{encode}
use iotic.Database.Store.Handles.{IsCached}
use iotic.Database.Store.Table.{within}
use iotic.Database.Archive.{map_name, is_zero, archive_bytes, archive_day, archived_data}
use iotic.Database.Archive.Days.{Same, find_archived-none, find_archived-some, raw_data-within}

abbrev pub day_of : ℤ → Dataset → Dataset
day_of day d = within (day_start day) (day_end day) d

module _ {Env : Type 0} ⦃M : Environment Env⦄ (bytes_of : List Item → List ℕ) (today : ℤ) where
  -- A day that is archived is not looked at again: the bytes are those that are stored, whatever
  -- the clock says, and no map changes.
  pub archived_data_again :
      (k : ℕ) (thing property : String) (day resolution : ℤ) (s : Store Env) (es : Entries) (b : ℕ)
      (bytes : List ℕ)
      → IsCached s
      → suc k ≤ M.room s.env
      → M.entries s.env (map_name thing property resolution) ≡ some es
      → find_key (day_since_epoch day) es ≡ some (b ∷ bytes)
      → (r : Store Env) × (archived_data bytes_of today thing property day resolution s
          ≡ some (b ∷ bytes, Outcome.returned r))
        × Same k s r
  unfolding archived_data
  archived_data_again k thing property day resolution s es b bytes c h e there =
      let (r, found, same) =
        find_archived-some k thing property day resolution s es (b ∷ bytes) c h e there in
      (r, rw found refl, same)

  -- A day that is not over and not archived gives no bytes, and no map changes.
  pub archived_data_open :
      (k : ℕ) (thing property : String) (day resolution : ℤ) (s : Store Env)
      → ltb_ℤ day today ≡ false
      → IsCached s
      → suc (suc k) ≤ M.room s.env
      → find_key
          (day_since_epoch day)
          (or_empty (M.entries s.env (map_name thing property resolution)))
        ≡ none
      → (r : Store Env) × (archived_data bytes_of today thing property day resolution s
          ≡ some ([], Outcome.returned r))
        × Same k s r
  unfolding archived_data archive_day
  archived_data_open k thing property day resolution s over c h absent =
      let name = map_name thing property resolution in
      let (r, first, (room, cached, same)) =
        find_archived-none (suc k) thing property day resolution s c h absent in
      let (z, second, (left, known, equal)) =
        find_archived-none k thing property day resolution r cached room
          (ap (λ o. find_key (day_since_epoch day) (or_empty o)) (same name) ∙ absent) in
      (z, rw (first, over, second) refl, (left, known, λ m. equal m ∙ same m))

  -- At a resolution of no minutes the first request for a past day with samples is a fault.
  pub archived_data_zero :
      (thing property : String) (day : ℤ) (s : Store Env) (d : Dataset) (t : ℕ) (p : Datapoint)
      (rest : Dataset)
      → ltb_ℤ day today ≡ true
      → IsCached s
      → 2 ≤ M.room s.env
      → M.entries s.env (raw_name thing property) ≡ some (encode d)
      → IsRecorded d
      → day_of day d ≡ (t, p) ∷ rest
      → find_key (day_since_epoch day) (encode d) ≡ none
      → archived_data bytes_of today thing property day (pos 0) s ≡ none
  unfolding archived_data archive_day archive_bytes downsample to_i32 to_u32 map_name is_zero
      or_empty ◌*ℤ◌
  archived_data_zero thing property day s d t p rest past c h raw recorded some_samples absent =
      let (r, first, (room, cached, same)) =
        find_archived-none 1 thing property day (pos 0) s c h
          (ap (λ o. find_key (day_since_epoch day) (or_empty o)) raw ∙ absent) in
      let (q, read, (left, known, equal)) =
        raw_data-within 0 thing property day r d cached room (same (raw_name thing property) ∙ raw)
          recorded in
      rw (first, past, read, some_samples) refl
