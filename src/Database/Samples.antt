-- ===== src/Database/Samples.antt =====
-- src/database/Database.cpp: what the properties of a thing leave in the database. Powers are in watts,
-- and recorded in tens of watts.
pub mod Recorded
use Prim.Native.String.{String}
use iotic.Prelude.{
  ℕ, ℤ, pos, negsuc, quot, ◌+ℤ◌, ◌*ℤ◌, ◌≤ℤ◌, Option, none, some, List, [], ◌∷◌, map, arith, length,
}
use iotic.Database.Cbor.{to_u16}
use iotic.Database.Environment.{Environment, or_empty}
use iotic.Database.Store.{Store, Outcome, raw_name, map_for, put_datapoint}

-- `(v + 5) / 10`
unfoldable pub to_tens : ℤ → ℤ
to_tens v = quot (v +ℤ pos 5) 10

module _ {Env : Type 0} ⦃M : Environment Env⦄ where
  abbrev on_power : String → ℕ → Option ℤ → Store Env → Outcome Env
  on_power thing last_seen none s = Outcome.returned s
  on_power thing last_seen (some value) s =
      put_datapoint thing "power" last_seen (to_u16 (to_tens value) ∷ []) s

  abbrev on_dc_power : String → ℕ → Option (List ℤ) → Outcome Env → Outcome Env
  on_dc_power thing last_seen none o = o
  on_dc_power thing last_seen (some values) (Outcome.thrown s) = Outcome.thrown s
  on_dc_power thing last_seen (some values) (Outcome.returned s) =
      put_datapoint thing "dcPower" last_seen (map (λ v. to_u16 (to_tens v)) values) s

  -- The subscriber to a thing's properties.
  unfoldable pub on_properties : String → ℕ → Option ℤ → Option (List ℤ) → Store Env → Outcome Env
  on_properties thing last_seen power dc_power s =
      on_dc_power thing last_seen dc_power (on_power thing last_seen power s)

  abbrev entries_of : String → Option (Store Env) → ℕ
  entries_of name none = 0
  entries_of name (some r) = length (or_empty (M.entries r.env name))

  unfoldable pub map_size : String → String → Store Env → ℕ
  map_size thing property s = let name = raw_name thing property in entries_of name (map_for name s)

-- From -5 W on, the tens are the nearest to the power.
pub to_tens_nearest :
    (v : ℤ)
    → negsuc 4 ≤ℤ v
    → (to_tens v *ℤ pos 10 ≤ℤ v +ℤ pos 5) × (v +ℤ pos 5 ≤ℤ to_tens v *ℤ pos 10 +ℤ pos 9)
unfolding to_tens ◌+ℤ◌ ◌*ℤ◌ quot
to_tens_nearest (pos n) h = ground arith
to_tens_nearest (negsuc n) h = ground arith

-- Below -5 W, the tens are above the power, by at least 5 W and at most 14 W.
pub to_tens_above :
    (v : ℤ)
    → v ≤ℤ negsuc 5
    → (v +ℤ pos 5 ≤ℤ to_tens v *ℤ pos 10) × (to_tens v *ℤ pos 10 ≤ℤ v +ℤ pos 14)
unfolding to_tens ◌+ℤ◌ ◌*ℤ◌ quot
to_tens_above (pos n) h = absurd (omega (arith, h))
to_tens_above (negsuc n) h = ground arith
