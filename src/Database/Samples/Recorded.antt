-- ===== src/Database/Samples/Recorded.antt =====
-- What a thing's properties record.
use Prim.Native.String.{String}
use mathlib.Core.Path.{fun_ext}
use iotic.Prelude.{
  ℕ, suc, ◌+◌, ◌-◌, ◌/◌, ◌%◌, ◌≤◌, ◌<◌, ◌≡◌, refl, subst, ℤ, pos, negsuc, quot, ◌+ℤ◌, u32_mod, ltb,
  if◌then◌else◌, Option, none, some, List, [], ◌∷◌, map, arith,
}
use iotic.Database.Types.{u16_mod}
use iotic.Database.Cbor.{to_u16}
use iotic.Database.Environment.{Environment}
use iotic.Database.Store.{Store}
use iotic.Database.Store.Bytes.{AreWords}
use iotic.Database.Store.Table.{Table, record_point}
use iotic.Database.Store.Refinement.{Represents, Recorded, put_datapoint-Recorded}
use iotic.Database.Samples.{to_tens, on_properties}

-- A power in tens of watts, rounded half up from 0 W on. Below, 5 W are added and the rest is cut off
-- towards zero. The result is cut to 16 bits, negative ones in two's complement.
unfoldable pub rounded : ℤ → ℕ
rounded (pos n) = (n / 10 + (if ltb (n % 10) 5 then 0 else 1)) % u16_mod
rounded (negsuc n) = if ltb n 5 then 0 else (u16_mod - (n - 4) / 10 % u16_mod) % u16_mod

rounded_lem : (v : ℤ) → to_u16 (to_tens v) ≡ rounded v
unfolding to_u16 to_tens rounded quot ◌+ℤ◌
rounded_lem (pos n) = ground arith
rounded_lem (negsuc n) = ground arith

to_u16-lt : (v : ℤ) → to_u16 v < u16_mod
unfolding to_u16
to_u16-lt (pos n) = ground arith
to_u16-lt (negsuc n) = ground arith

map-AreWords : (vs : List ℤ) → AreWords (map (λ v. to_u16 (to_tens v)) vs)
map-AreWords [] = tt
map-AreWords (v ∷ vs) = (to_u16-lt (to_tens v), map-AreWords vs)

-- What the two properties add to the table, each power turned into a word of 16 bits.
module _ (word : ℤ → ℕ) where
  abbrev pub with_power : String → ℕ → Option ℤ → Table → Table
  with_power thing last_seen none table = table
  with_power thing last_seen (some v) table =
      record_point thing "power" last_seen (word v ∷ []) table

  abbrev pub with_dc_power : String → ℕ → Option (List ℤ) → Table → Table
  with_dc_power thing last_seen none table = table
  with_dc_power thing last_seen (some vs) table =
      record_point thing "dcPower" last_seen (map word vs) table

module _ {Env : Type 0} ⦃M : Environment Env⦄ where
  on_properties_words :
      (k : ℕ) (thing : String) (last_seen : ℕ) (power : Option ℤ) (dc_power : Option (List ℤ))
      (s : Store Env) (table : Table)
      → Represents s table
      → suc (suc k) ≤ M.room s.env
      → last_seen < u32_mod
      → Recorded k (on_properties thing last_seen power dc_power s) (
          with_dc_power
            (λ v. to_u16 (to_tens v))
            thing
            last_seen
            dc_power
            (with_power (λ v. to_u16 (to_tens v)) thing last_seen power table))
  unfolding on_properties
  on_properties_words k thing last_seen none none s table r h b = (s, refl, omega arith, r)
  on_properties_words k thing last_seen (some v) none s table r h b =
      let (t, e, room, q) =
        put_datapoint-Recorded (suc k) thing "power" last_seen (to_u16 (to_tens v) ∷ []) s table r h
          b (map-AreWords (v ∷ [])) in
      (t, rw e refl, omega arith, q)
  on_properties_words k thing last_seen none (some vs) s table r h b =
      put_datapoint-Recorded k thing "dcPower" last_seen (map (λ v. to_u16 (to_tens v)) vs) s table
        r (omega arith) b (map-AreWords vs)
  on_properties_words k thing last_seen (some v) (some vs) s table r h b =
      let (t, e, room, q) =
        put_datapoint-Recorded (suc k) thing "power" last_seen (to_u16 (to_tens v) ∷ []) s table r h
          b (map-AreWords (v ∷ [])) in
      let (u, f, left, final) =
        put_datapoint-Recorded k thing "dcPower" last_seen (map (λ v. to_u16 (to_tens v)) vs) t
          (with_power (λ v. to_u16 (to_tens v)) thing last_seen (some v) table) q room b
          (map-AreWords vs) in
      (u, rw (e, f) refl, left, final)

  -- The subscriber to a thing's properties, on a store that stands for a table and has two handles to
  -- spare, returns, and records in the table the power and then the powers of the inputs, as far as
  -- they are among the properties: each in tens of watts, rounded half up from 0 W on, and below with
  -- 5 W added and the rest cut off towards zero, in 16 bits.
  pub on_properties-Recorded :
      (k : ℕ) (thing : String) (last_seen : ℕ) (power : Option ℤ) (dc_power : Option (List ℤ))
      (s : Store Env) (table : Table)
      → Represents s table
      → suc (suc k) ≤ M.room s.env
      → last_seen < u32_mod
      → Recorded k (on_properties thing last_seen power dc_power s) (
          with_dc_power rounded thing last_seen dc_power
            (with_power rounded thing last_seen power table))
  on_properties-Recorded k thing last_seen power dc_power s table r h b =
      subst
        (λ word. Recorded k (on_properties thing last_seen power dc_power s) (
          with_dc_power word thing last_seen dc_power
            (with_power word thing last_seen power table)))
        (fun_ext rounded_lem) (on_properties_words k thing last_seen power dc_power s table r h b)
