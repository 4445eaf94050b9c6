-- ===== src/Runs/Database.antt =====
-- Runs of src/database/Database.cpp on an environment in memory.
use Prim.Native.String.{String}
use text.Mathlib.Text.{◌==◌ as str_eq}
use text.Mathlib.TextEquality.{eq_iff}
use iotic.Prelude.{
  map, negsuc, ℕ, suc, ◌-◌, ◌≤◌, ◌≡◌, refl, sym, pos, Option, none, some, List, [], ◌∷◌, to_u32,
  ◌*ℤ◌, inl, inr, arith, ◌==◌, if◌then◌else◌, Bool-cases,
}
use iotic.Rules.SymbolRepository.{find_symbol, set_symbol}
use iotic.Config.ConfigRepository.Persistence.{find-set_self, find-set_other}
use iotic.Database.Types.{put}
use iotic.Database.Types.{Dataset, IsDataset, HasWidth}
use iotic.Database.Delta.Thin.{same_point}
use iotic.Database.Store.{Store, day_start, day_end, raw_name}
use iotic.Database.Store.Table.{within, outside, record_point, with_point, samples_of, forget_day}
use iotic.Database.Samples.{on_properties}
use iotic.Database.Samples.Recorded.{on_properties-Recorded, rounded, with_power, with_dc_power}
use iotic.Database.Store.Refinement.{Represents, Recorded}
use iotic.Database.Store.Commands.{Command, run, run_table, run-Represents}
use iotic.Database.Store.Series.{fresh, empty_table, fresh-Represents}
use iotic.Database.Environment.{Entries, Environment, or_empty, from_key, without_key, find_key}

pub record Memory : Type 0 where
  pub maps : List (String × Entries)
  pub free : ℕ

abbrev pub create_in : String → Memory → Option Memory
create_in name e =
    if e.free == 0
    then none
    else some (record {
      maps = set_symbol name (or_empty (find_symbol name e.maps)) e.maps;
      free = e.free - 1;
    })

abbrev pub open_in : Option Entries → Memory → Option Memory
open_in none e = none
open_in (some es) e = if e.free == 0 then none else some (record e { free = e.free - 1 })

abbrev pub write : String → Entries → Memory → Memory
write name es e = record e { maps = set_symbol name es e.maps }

pub find-set :
    {V : Type 0} (k j : String) (v : V) (m : List (String × V))
    → find_symbol j (set_symbol k v m) ≡ (if str_eq k j then some v else find_symbol j m)
find-set k j v m = elim (Bool-cases (str_eq k j)) [
  | inl same ↦ rw (same, sym ((eq_iff k j).0 same)) (find-set_self k v m)
  | inr differ ↦ rw differ (find-set_other k j v m differ)
]

pub take_room :
    {A : Type 0} (k n : ℕ) (x : A) → suc k ≤ n → (if n == 0 then none else some x) ≡ some x
take_room k n x h = ground arith

instance unfoldable pub memory : Environment Memory
unfolding or_empty
memory = record {
  entries = λ e n. find_symbol n e.maps;
  room = λ e. e.free;
  create_map = create_in;
  open_map = λ n e. open_in (find_symbol n e.maps) e;
  upsert = λ n k v e. write n (put k v (or_empty (find_symbol n e.maps))) e;
  erase = λ n k e. write n (without_key k (or_empty (find_symbol n e.maps))) e;
  scan_from = λ e n k. from_key k (or_empty (find_symbol n e.maps));
  to_key_exact = λ e n k. find_key k (or_empty (find_symbol n e.maps));
  create-room = λ name k e h. (
    record {
      maps = set_symbol name (or_empty (find_symbol name e.maps)) e.maps;
      free = e.free - 1;
    },
    take_room k e.free _ h,
    omega arith,
    λ m. find-set name m (or_empty (find_symbol name e.maps)) e.maps,
  );
  open-room = λ name k e es h q.
      (record e { free = e.free - 1 }, rw q (take_room k e.free _ h), omega arith, λ m. refl);
  open-absent = λ name e q. rw q refl;
  entries-upsert = λ name k v e es q m. rw q (find-set name m (put k v es) e.maps);
  room-upsert = λ name k v e. refl;
  entries-erase = λ name k e es q m. rw q (find-set name m (without_key k es) e.maps);
  room-erase = λ name k e. refl;
  scan-entries = λ e name k es q. rw q refl;
  exact-entries = λ e name k es q. rw q refl;
}

-- An environment with no maps, and one with two days of a thing's power.
abbrev new : Memory
new = record { maps = []; free = 32 }

abbrev pub samples : Dataset
samples =
    (86500, 7 ∷ [])
    ∷ (86600, 7 ∷ [])
    ∷ (90000, 9 ∷ [])
    ∷ (172700, 65530 ∷ [])
    ∷ (172900, 3 ∷ [])
    ∷ []

abbrev commands : List Command
commands =
    Command.put_command "pv" "power" 86500 (7 ∷ [])
    ∷ Command.put_command "pv" "power" 86600 (7 ∷ [])
    ∷ Command.put_command "meter" "power" 172900 (65530 ∷ [])
    ∷ Command.read_command "pv" "power" (pos 1)
    ∷ Command.erase_command "pv" "power" (pos 1)
    ∷ Command.read_command "pv" "power" (pos 1)
    ∷ []

new_empty : (m : String) → memory.entries new m ≡ none
unfolding find_symbol memory
new_empty m = refl

pub samples-IsDataset : IsDataset 0 samples
samples-IsDataset = ground arith

pub samples-HasWidth : HasWidth 1 samples
samples-HasWidth = ground arith

run-Represents_example :
    (r : Store Memory) × (run commands (fresh new) ≡ some ((run_table commands empty_table).0, r))
    × (0 ≤ r.env.free)
    × Represents r (run_table commands empty_table).1
unfolding memory
run-Represents_example =
    run-Represents commands 0 (fresh new) empty_table (ground arith)
      (fresh-Represents new new_empty) (omega arith)

replies : (run_table commands empty_table).0 ≡ ((86500, 7 ∷ []) ∷ []) ∷ [] ∷ []
unfolding run_table record_point with_point samples_of forget_day within outside or_empty same_point
    put day_start day_end to_u32 ◌*ℤ◌ raw_name
replies = refl

on_properties-Recorded_example :
    Recorded 0
      (on_properties "pv" 86500 (some (pos 1234)) (some (pos 600 ∷ pos 634 ∷ [])) (fresh new))
      (with_dc_power rounded "pv" 86500
        (some (pos 600 ∷ pos 634 ∷ []))
        (with_power rounded "pv" 86500 (some (pos 1234)) empty_table))
unfolding memory
on_properties-Recorded_example =
    on_properties-Recorded 0 "pv" 86500 (some (pos 1234)) (some (pos 600 ∷ pos 634 ∷ []))
      (fresh new) empty_table (fresh-Represents new new_empty) (omega arith) (omega arith)

-- 1234 W, 1235 W and 16 W that are fed in.
tens_run : map rounded (pos 1234 ∷ pos 1235 ∷ negsuc 15 ∷ []) ≡ 123 ∷ 124 ∷ 65535 ∷ []
unfolding rounded
tens_run = refl
