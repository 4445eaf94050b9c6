-- ===== src/Runs/Requests.antt =====
-- Runs of the date route, of dates, of a relay and of the averages.
use Prim.Native.String.{String}
use iotic.Prelude.{
  ℕ, ◌<◌, ◌≡◌, refl, pos, negsuc, to_u32, Bool, true, false, none, some, List, [], ◌∷◌, arith,
  get_elem?, All,
}
use iotic.Common.Date.{YearMonthDay, parse_ymd, ok, sys_days, is_leap, last_day, days_from_zero}
use iotic.Database.Types.{Dataset, IsDataset}
use iotic.Database.Downsample.{downsample}
use iotic.Database.Downsample.Bounds.{downsample_total, IsBounded}
use iotic.Database.Cbor.{signed}
use iotic.Things.Shelly.{ShellyGen2Thing, switch_path, on_set_properties}
use iotic.Things.Shelly.Rotation.{set_times, set_times_all, on_set_properties_shrunk}
use iotic.Runs.Database.{samples, samples-IsDataset}

-- "1970-01-02", and a date that is none.
abbrev second_day : List ℕ
second_day = 49 ∷ 57 ∷ 55 ∷ 48 ∷ 45 ∷ 48 ∷ 49 ∷ 45 ∷ 48 ∷ 50 ∷ []

abbrev leap_day : YearMonthDay
leap_day = record { year = 2024; month = 2; day = 29 }

dates :
    (sys_days (parse_ymd second_day) ≡ pos 1)
    × (ok leap_day ≡ true)
    × (sys_days leap_day ≡ pos 19782)
    × (ok (record { year = 2023; month = 2; day = 29 }) ≡ false)
unfolding sys_days parse_ymd days_from_zero ok last_day is_leap
dates = (refl, refl, refl, refl)

abbrev is_power : String → Bool
is_power name = true

abbrev relay : ShellyGen2Thing
relay = record { host = "relay"; port = 80; phase_to_set = 1 }

abbrev states : List Bool
states = true ∷ false ∷ true ∷ []

set_times_all_example :
    (paths : List String) × (i : ℕ) × (state : Bool) × (set_times 3 states relay
      ≡ some (paths, relay))
    × (i < 3)
    × (get_elem? states 0 ≡ some state)
    × (get_elem? paths i ≡ some (switch_path 0 state))
set_times_all_example = set_times_all states relay 0 (omega arith) (omega arith)

no_states : on_set_properties [] relay ≡ none
no_states = on_set_properties_shrunk [] relay (omega arith)

samples-IsBounded : All (λ e. IsBounded 1 (negsuc 9) (pos 9) e.1) samples
unfolding signed
samples-IsBounded = ground arith

downsample_total_example :
    (a : Dataset) × (downsample (pos 300) samples ≡ some a)
    × IsDataset 0 a
    × All (λ e. IsBounded 1 (negsuc 9) (pos 9) e.1) a
unfolding to_u32
downsample_total_example =
    downsample_total 1 (negsuc 9) (pos 9) 0 (pos 300) samples (omega arith) (omega arith)
      (ground arith) samples-IsDataset samples-IsBounded
