-- ===== src/Stats/StatsDaily.antt =====
-- src/stats/StatsDaily.cpp: the energy of a day for each input of an inverter.
pub mod Energy
use Prim.Native.String.{String}
use iotic.Prelude.{
  ℕ, ◌*◌, ◌/◌, ℤ, pos, to_i32, ◌-ℤ◌, ◌+ℤ◌, ◌*ℤ◌, quot, Option, none, some, List, [], ◌∷◌, length,
  replicate, ◌==◌, if◌then◌else◌,
}
use iotic.Rules.SymbolRepository.{find_symbol, set_symbol}

pub record ThingStats : Type 0 where
  pub current_day : ℕ
  pub timestamp : ℤ
  pub energy_delivered : List ℤ

abbrev no_stats : ThingStats
no_stats = record { current_day = 0; timestamp = pos 0; energy_delivered = [] }

abbrev pub stats_or_new : Option ThingStats → ThingStats
stats_or_new none = no_stats
stats_or_new (some stats) = stats

unfoldable pub roll_day : ℕ → List ℤ → ThingStats → ThingStats
roll_day seconds value stats =
    if seconds / (24 * 3600) == stats.current_day then stats else record {
      current_day = seconds / (24 * 3600);
      timestamp = to_i32 (pos seconds);
      energy_delivered = replicate (length value) (pos 0);
    }

-- `energyDelivered[i] += value[i] * elapsed` for each `i` of `value`: the product and the sum are of 64
-- bits, and what is stored of them is an `int`. `none` is a write outside the vector, where more inputs
-- are published than at the first time of the day.
unfoldable pub add_energy : ℤ → List ℤ → List ℤ → Option (List ℤ)
add_energy elapsed [] energies = some energies
add_energy elapsed (v ∷ value) [] = none
add_energy elapsed (v ∷ value) (e ∷ energies) = elim (add_energy elapsed value energies) [
  | none ↦ none
  | some rest ↦ some (to_i32 (e +ℤ v *ℤ elapsed) ∷ rest)
]

-- What is set on the thing, in units of 60000 watt seconds, as many as were published.
unfoldable pub published_energy : List ℤ → List ℤ → List ℤ
published_energy [] energies = []
published_energy (v ∷ value) [] = []
published_energy (v ∷ value) (e ∷ energies) = quot e 60000 ∷ published_energy value energies

unfoldable pub on_dc_power :
    String → ℕ → List ℤ → List (String × ThingStats) → Option (List (String × ThingStats) × List ℤ)
on_dc_power id seconds value table =
    let stats = roll_day seconds value (stats_or_new (find_symbol id table)) in
    elim (add_energy (pos seconds -ℤ stats.timestamp) value stats.energy_delivered) [
      | none ↦ none
      | some energies ↦ some (
        set_symbol id
            (record stats { timestamp = to_i32 (pos seconds); energy_delivered = energies }) table,
        published_energy value energies,
      )
    ]
