-- ===== src/Runs/Archive.antt =====
-- Runs of the archive of src/database/Database.cpp, with an encoding that keeps the low bytes.
use Prim.Native.String.{String}
use iotic.Prelude.{ℕ, ◌%◌, ◌≡◌, refl, pos, List, [], ◌∷◌}
use iotic.Rules.SymbolRepository.{find_symbol}
use iotic.Database.Cbor.{Item, to_u16}
use iotic.Database.Delta.Thin.{same_point}
use iotic.Database.Environment.{or_empty}
use iotic.Database.Store.{Store, Outcome, raw_name, contains, last_value, put_datapoint}
use iotic.Database.Store.Day.{encode}
use iotic.Database.Store.Errors.{put_datapoint_lost, put_again, last_found}
use iotic.Database.Store.Handles.{IsCached}
use iotic.Database.Archive.{map_name, to_string, digits, is_zero}
use iotic.Database.Archive.Distinct.{map_name_injective}
use iotic.Runs.Database.{Memory, memory, samples}

abbrev pub low_bytes : List Item → List ℕ
low_bytes [] = []
low_bytes (Item.array n ∷ items) = n % 256 ∷ low_bytes items
low_bytes (Item.integer x ∷ items) = to_u16 x % 256 ∷ low_bytes items

abbrev pub recorded : Store Memory
recorded = record {
  env = record { maps = ("pv.power", encode samples) ∷ []; free = 32 };
  map_cache = [];
  last_values = [];
}

abbrev archived : Store Memory
archived = record {
  env = record { maps = ("pv.power.5min", (1, 130 ∷ 24 ∷ []) ∷ []) ∷ []; free = 32 };
  map_cache = [];
  last_values = [];
}

names : (raw_name "pv" "power" ≡ "pv.power") × (map_name "pv" "power" (pos 15) ≡ "pv.power.15min")
unfolding raw_name map_name to_string digits is_zero
names = (refl, refl)

pub recorded-IsCached : IsCached recorded
unfolding contains
recorded-IsCached m c = cc

archived-IsCached : IsCached archived
unfolding contains
archived-IsCached m c = cc

abbrev full : Store Memory
full = record { env = record { maps = []; free = 0 }; map_cache = []; last_values = [] }

put_datapoint_lost_example :
    (r : Store Memory) × (put_datapoint "pv" "power" 86500 (7 ∷ []) full ≡ Outcome.thrown r)
    × (r.env ≡ full.env)
    × ((puts : List (Memory × ℕ))
        → put_again "pv" "power" (7 ∷ []) puts r
          ≡ Outcome.returned (record r { env = last_found r.env puts }))
unfolding memory last_value same_point contains find_symbol or_empty
put_datapoint_lost_example = put_datapoint_lost "pv" "power" 86500 (7 ∷ []) full refl refl refl

abbrev inverter : String
inverter = "pv"

abbrev watts : String
watts = "power"

map_name_injective_example : (inverter ≡ inverter) × (watts ≡ watts) × (pos 15 ≡ pos 15)
map_name_injective_example =
    map_name_injective inverter watts inverter watts (pos 15) (pos 15) (refl, (refl, tt))
      (refl, (refl, tt)) (refl, (refl, (refl, (refl, (refl, tt)))))
      (refl, (refl, (refl, (refl, (refl, tt))))) refl
