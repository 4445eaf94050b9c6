-- ===== src/Database/Types.antt =====
-- src/database/DatabaseTypes.h. An `int16_t` is its bit pattern, a number below 65536; a map is the
-- list of its entries with rising keys.
use iotic.Prelude.{
  ℕ, ◌+◌, ◌≤◌, ◌<◌, length, ◌≡◌, u32_mod, List, [], ◌∷◌, ltb, ◌==◌, if◌then◌else◌, All,
}

abbrev pub Datapoint : Type 0
Datapoint = List ℕ

abbrev pub Dataset : Type 0
Dataset = List (ℕ × Datapoint)

abbrev pub DeltaDataset : Type 0
DeltaDataset = List (ℕ × Datapoint)

abbrev pub u16_mod : ℕ
u16_mod = 65536

-- `samples[timestamp] = value` on a map.
unfoldable pub put : ℕ → Datapoint → Dataset → Dataset
put t p [] = (t, p) ∷ []
put t p ((u, q) ∷ m) =
    if ltb t u then (t, p) ∷ (u, q) ∷ m else if u == t then (t, p) ∷ m else (u, q) ∷ put t p m

-- The entries of a map have rising keys, all above `low` and each a 32 bit number.
abbrev pub IsDataset : ℕ → Dataset → Type 0
IsDataset low [] = Unit {0}
IsDataset low ((t, p) ∷ m) = (low ≤ t) × (t < u32_mod) × IsDataset (t + 1) m

-- Each point is a list of `width` 16 bit patterns.
abbrev pub HasWidth : ℕ → Dataset → Type 0
HasWidth width = All (λ e. (length e.1 ≡ width) × All (λ v. v < u16_mod) e.1)
