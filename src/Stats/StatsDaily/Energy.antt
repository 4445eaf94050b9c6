-- ===== src/Stats/StatsDaily/Energy.antt =====
-- src/stats/StatsDaily.cpp: the energies after the powers of a day.
use Prim.Native.String.{String}
use iotic.Prelude.{
  to_u32-to_i32, ℕ, zero, suc, ◌+◌, ◌-◌, ◌*◌, ◌/◌, ◌%◌, ◌≤◌, ltb, if◌then◌else◌, to_u32, u32_mod,
  to_i32, to_i32_same, negsuc, ◌-ℤ◌, ◌≡◌, refl, sym, ap, ◌∙◌, subst, length-replicate, ℤ, pos, ◌+ℤ◌,
  ◌*ℤ◌, quot, false, Option, some, List, [], ◌∷◌, length, replicate, get_or, All, arith, ◌==◌,
  int_laws,
}
use iotic.Config.ConfigRepository.Persistence.{find-set_self}
use iotic.Database.Delta.{◌>>=◌}
use iotic.Rules.SymbolRepository.{find_symbol, set_symbol}
use iotic.Stats.StatsDaily.{
  ThingStats, stats_or_new, roll_day, add_energy, published_energy, on_dc_power,
}

-- What is published at some times, with the powers.
abbrev pub Readings : Type 0
Readings = List (ℕ × List ℤ)

-- The table after some readings of a thing, and what was set last.
unfoldable pub run :
    String
    → Readings
    → List (String × ThingStats) × List ℤ
    → Option (List (String × ThingStats) × List ℤ)
run id [] state = some state
run id ((seconds, value) ∷ readings) (table, published) = do
  next ← on_dc_power id seconds value table
  run id readings next

-- The energy of one input: each power over the time since the reading before.
abbrev pub energy : ℕ → ℕ → Readings → ℤ
energy i t [] = pos 0
energy i t ((s, value) ∷ readings) =
    get_or value i (pos 0) *ℤ (pos s -ℤ pos t) +ℤ energy i s readings

-- The days whose seconds fit in an `int`, the last of them 18 January 2038.
abbrev pub last_day : ℕ
last_day = 24854

fits : (s : ℕ) → s / (24 * 3600) ≤ last_day → to_i32 (pos s) ≡ pos s
fits s h = to_i32_same (pos s) (ground arith)

-- The cut to an `int` can wait until the sum is taken.
to_u32-plus : (x y : ℤ) → to_u32 (x +ℤ y) ≡ (to_u32 x + to_u32 y) % u32_mod
unfolding to_u32 ◌+ℤ◌
to_u32-plus (pos m) (pos n) = ground arith
to_u32-plus (pos m) (negsuc n) = ground arith
to_u32-plus (negsuc m) (pos n) = ground arith
to_u32-plus (negsuc m) (negsuc n) = ground arith

to_i32-plus : (x y : ℤ) → to_i32 (to_i32 x +ℤ y) ≡ to_i32 (x +ℤ y)
unfolding to_i32
to_i32-plus x y =
    let same : to_u32 (to_i32 x +ℤ y) ≡ to_u32 (x +ℤ y) =
      to_u32-plus (to_i32 x) y
      ∙ ap (λ u. (u + to_u32 y) % u32_mod) (to_u32-to_i32 x)
      ∙ sym (to_u32-plus x y) in
    ap (λ u. if ltb u 2147483648 then pos u else negsuc (u32_mod - u - 1)) same

-- The readings of one day and one number of inputs.
abbrev pub AreOfDay : ℕ → ℕ → Readings → Type 0
AreOfDay day inputs = All (λ r. (r.0 / (24 * 3600) ≡ day) × (length r.1 ≡ inputs))

zero_times : (x : ℤ) → pos 0 +ℤ pos 0 *ℤ x ≡ pos 0
unfolding ◌+ℤ◌ ◌*ℤ◌
zero_times x = ground arith

times_zero : (x : ℤ) (s : ℕ) → pos 0 +ℤ x *ℤ (pos s -ℤ pos s) ≡ pos 0
unfolding ◌+ℤ◌ ◌*ℤ◌ ◌-ℤ◌
times_zero x s = ground arith

+ℤ-zero : (x : ℤ) → x +ℤ pos 0 ≡ x
unfolding ◌+ℤ◌
+ℤ-zero x = ground arith

zero_plus : (x : ℤ) → pos 0 +ℤ x ≡ x
unfolding ◌+ℤ◌
zero_plus x = ground arith

+ℤ_assoc : (a b c : ℤ) → a +ℤ b +ℤ c ≡ a +ℤ (b +ℤ c)
+ℤ_assoc a b c = omega int_laws

get_or-zeros : (n i : ℕ) → get_or (replicate n (pos 0)) i (pos 0) ≡ pos 0
get_or-zeros zero i = refl
get_or-zeros (suc n) zero = refl
get_or-zeros (suc n) (suc i) = get_or-zeros n i

add_energy_lem :
    (i : ℕ) (elapsed : ℤ) (value energies : List ℤ)
    → length value ≡ length energies
    → (r : List ℤ) × (add_energy elapsed value energies ≡ some r)
      × (length r ≡ length energies)
      × (get_or r i (pos 0)
          ≡ to_i32 (get_or energies i (pos 0) +ℤ get_or value i (pos 0) *ℤ elapsed))
unfolding add_energy
add_energy_lem i elapsed [] [] h =
    ([], refl, refl, sym (ap to_i32 (zero_times elapsed) ∙ to_i32_same (pos 0) refl))
add_energy_lem i elapsed [] (e ∷ energies) h = absurd (omega arith)
add_energy_lem i elapsed (v ∷ value) [] h = absurd (omega arith)
add_energy_lem zero elapsed (v ∷ value) (e ∷ energies) h =
    let (r, added, size, each) = add_energy_lem zero elapsed value energies (omega arith) in
    (to_i32 (e +ℤ v *ℤ elapsed) ∷ r, rw added refl, omega arith, refl)
add_energy_lem (suc i) elapsed (v ∷ value) (e ∷ energies) h =
    let (r, added, size, each) = add_energy_lem i elapsed value energies (omega arith) in
    (to_i32 (e +ℤ v *ℤ elapsed) ∷ r, rw added refl, omega arith, each)

published_lem :
    (value energies : List ℤ) (i : ℕ)
    → length value ≡ length energies
    → get_or (published_energy value energies) i (pos 0) ≡ quot (get_or energies i (pos 0)) 60000
unfolding published_energy quot
published_lem [] [] i h = refl
published_lem [] (e ∷ energies) i h = absurd (omega arith)
published_lem (v ∷ value) [] i h = absurd (omega arith)
published_lem (v ∷ value) (e ∷ energies) zero h = refl
published_lem (v ∷ value) (e ∷ energies) (suc i) h = published_lem value energies i (omega arith)

-- The entry of a thing that has been read on a day, up to one input.
abbrev IsRead : String → ℕ → ℕ → ℕ → ℕ → ℤ → List (String × ThingStats) → Type 0
IsRead id day inputs t i e table =
    (stats : ThingStats) × (find_symbol id table ≡ some stats)
    × (stats.current_day ≡ day)
    × (stats.timestamp ≡ pos t)
    × (length stats.energy_delivered ≡ inputs)
    × (get_or stats.energy_delivered i (pos 0) ≡ to_i32 e)

-- One reading, of which the entry is known after the turn of the day.
on_dc_power_lem :
    (id : String) (day s t i : ℕ) (e : ℤ) (value : List ℤ) (table : List (String × ThingStats))
    → (roll_day s value (stats_or_new (find_symbol id table))).current_day ≡ day
    → (roll_day s value (stats_or_new (find_symbol id table))).timestamp ≡ pos t
    → length (roll_day s value (stats_or_new (find_symbol id table))).energy_delivered
      ≡ length value
    → get_or (roll_day s value (stats_or_new (find_symbol id table))).energy_delivered i (pos 0)
      ≡ to_i32 e
    → to_i32 (pos s) ≡ pos s
    → (table' : List (String × ThingStats)) × (published : List ℤ) × (on_dc_power id s value table
        ≡ some (table', published))
      × IsRead id day (length value) s i (e +ℤ get_or value i (pos 0) *ℤ (pos s -ℤ pos t)) table'
      × (get_or published i (pos 0)
          ≡ quot (to_i32 (e +ℤ get_or value i (pos 0) *ℤ (pos s -ℤ pos t))) 60000)
unfolding on_dc_power
on_dc_power_lem id day s t i e value table d stamp size each fit =
    let stats = roll_day s value (stats_or_new (find_symbol id table)) in
    let v = get_or value i (pos 0) in
    let (r, added, sized, one) =
      add_energy_lem i (pos s -ℤ stats.timestamp) value stats.energy_delivered (sym size) in
    let now : ThingStats = record stats { timestamp = to_i32 (pos s); energy_delivered = r } in
    let total : get_or r i (pos 0) ≡ to_i32 (e +ℤ v *ℤ (pos s -ℤ pos t)) =
      one
      ∙ ap (λ x. to_i32 (x +ℤ v *ℤ (pos s -ℤ stats.timestamp))) each
      ∙ ap (λ x. to_i32 (to_i32 e +ℤ v *ℤ (pos s -ℤ x))) stamp
      ∙ to_i32-plus e (v *ℤ (pos s -ℤ pos t)) in
    (
      set_symbol id now table,
      published_energy value r,
      rw (on_dc_power, added) refl,
      (now, find-set_self id now table, d, fit, sized ∙ size, total),
      published_lem value r i (sym size ∙ sym sized) ∙ ap (λ x. quot x 60000) total,
    )

roll_same :
    (day s : ℕ) (value : List ℤ) (stats : ThingStats)
    → s / (24 * 3600) ≡ day
    → stats.current_day ≡ day
    → roll_day s value stats ≡ stats
unfolding roll_day
roll_same day s value stats h k = ground (arith, h, k)

roll_new :
    (s : ℕ) (value : List ℤ) (stats : ThingStats)
    → (s / (24 * 3600) == stats.current_day) ≡ false
    → roll_day s value stats ≡ record {
      current_day = s / (24 * 3600);
      timestamp = to_i32 (pos s);
      energy_delivered = replicate (length value) (pos 0);
    }
unfolding roll_day
roll_new s value stats h = rw h refl

abbrev IsPublished : ℕ → ℤ → List ℤ → Type 0
IsPublished i e published = get_or published i (pos 0) ≡ quot (to_i32 e) 60000

-- A reading later on a day.
later_reading :
    (id : String) (day inputs s t i : ℕ) (e : ℤ) (value : List ℤ)
    (table : List (String × ThingStats))
    → IsRead id day inputs t i e table
    → s / (24 * 3600) ≡ day
    → day ≤ last_day
    → length value ≡ inputs
    → (table' : List (String × ThingStats)) × (published : List ℤ) × (on_dc_power id s value table
        ≡ some (table', published))
      × IsRead id day inputs s i (e +ℤ get_or value i (pos 0) *ℤ (pos s -ℤ pos t)) table'
      × IsPublished i (e +ℤ get_or value i (pos 0) *ℤ (pos s -ℤ pos t)) published
later_reading id day inputs s t i e value table (stats, found, d, stamp, size, each) h l w =
    let same =
      ap (λ o. roll_day s value (stats_or_new o)) found ∙ roll_same day s value stats h d in
    let (table', published, called, read, shown) =
      on_dc_power_lem id day s t i e value table (ap (λ x. x.current_day) same ∙ d)
        (ap (λ x. x.timestamp) same ∙ stamp)
        (ap (λ x. length x.energy_delivered) same ∙ size ∙ sym w)
        (ap (λ x. get_or x.energy_delivered i (pos 0)) same ∙ each) (fits s (omega arith)) in
    (
      table',
      published,
      called,
      subst (λ n. IsRead id day n s i (e +ℤ get_or value i (pos 0) *ℤ (pos s -ℤ pos t)) table') w
          read,
      shown,
    )

run_later :
    (id : String) (day inputs t i : ℕ) (e : ℤ) (readings : Readings)
    (table : List (String × ThingStats)) (published : List ℤ)
    → IsRead id day inputs t i e table
    → IsPublished i e published
    → day ≤ last_day
    → AreOfDay day inputs readings
    → (table' : List (String × ThingStats)) × (last : List ℤ) × (run id readings (table, published)
        ≡ some (table', last))
      × ((stats : ThingStats) × (find_symbol id table' ≡ some stats)
          × (get_or stats.energy_delivered i (pos 0) ≡ to_i32 (e +ℤ energy i t readings)))
      × IsPublished i (e +ℤ energy i t readings) last
unfolding run
run_later id day inputs t i e [] table published (stats, found, d, stamp, size, each) shown l h = (
  table,
  published,
  refl,
  (stats, found, each ∙ ap to_i32 (sym (+ℤ-zero e))),
  shown ∙ ap (λ x. quot (to_i32 x) 60000) (sym (+ℤ-zero e)),
)
run_later id day inputs t i e ((s, value) ∷ readings) table published read shown l h =
    let step = get_or value i (pos 0) *ℤ (pos s -ℤ pos t) in
    let (next, now, called, seen, told) =
      later_reading id day inputs s t i e value table read h.0.0 l h.0.1 in
    let (table', last, rest, (stats, found, total), final) =
      run_later id day inputs s i (e +ℤ step) readings next now seen told l h.1 in
    (
      table',
      last,
      rw called rest,
      (stats, found, total ∙ ap to_i32 (+ℤ_assoc e step (energy i s readings))),
      final ∙ ap (λ x. quot (to_i32 x) 60000) (+ℤ_assoc e step (energy i s readings)),
    )

-- After the readings of a day up to 18 January 2038, all of one number of inputs and the first of them on
-- a new day, the energy that is stored of each input is the sum of its powers, each over the time since
-- the reading before, cut to an `int`; the first reading counts nothing. What was set on the thing is what
-- is stored, in units of 60000 watt seconds.
pub energies_of_day :
    (id : String) (s i : ℕ) (value : List ℤ) (readings : Readings)
    (table : List (String × ThingStats)) (published : List ℤ)
    → (s / (24 * 3600) == (stats_or_new (find_symbol id table)).current_day) ≡ false
    → s / (24 * 3600) ≤ last_day
    → AreOfDay (s / (24 * 3600)) (length value) readings
    → (table' : List (String × ThingStats)) × (last : List ℤ) × (run id
          ((s, value) ∷ readings)
          (table, published)
        ≡ some (table', last))
      × ((stats : ThingStats) × (find_symbol id table' ≡ some stats)
          × (get_or stats.energy_delivered i (pos 0) ≡ to_i32 (energy i s readings)))
      × (get_or last i (pos 0) ≡ quot (to_i32 (energy i s readings)) 60000)
unfolding run
energies_of_day id s i value readings table published new l h =
    let day = s / (24 * 3600) in
    let fresh = roll_new s value (stats_or_new (find_symbol id table)) new in
    let (next, now, called, seen, told) =
      on_dc_power_lem id day s s i (pos 0) value table (ap (λ x. x.current_day) fresh)
        (ap (λ x. x.timestamp) fresh ∙ fits s l)
        (ap (λ x. length x.energy_delivered) fresh ∙ length-replicate (length value) (pos 0))
        (ap (λ x. get_or x.energy_delivered i (pos 0)) fresh
          ∙ get_or-zeros (length value) i
          ∙ sym (to_i32_same (pos 0) refl))
        (fits s l) in
    let zero_energy = times_zero (get_or value i (pos 0)) s in
    let (table', last, rest, (stats, found, total), final) =
      run_later id day (length value) s i (pos 0) readings next now
        (subst (λ e. IsRead id day (length value) s i e next) zero_energy seen)
        (subst (λ e. IsPublished i e now) zero_energy told) l h in
    let plain = zero_plus (energy i s readings) in
    (
      table',
      last,
      rw called rest,
      (stats, found, total ∙ ap to_i32 plain),
      final ∙ ap (λ x. quot (to_i32 x) 60000) plain,
    )
