-- ===== src/Database/Store/Commands.antt =====
-- Sequences of calls of `DatabasePrivate`, and what they do to the table.
use Prim.Native.String.{String}
use text.Mathlib.Text.{◌==◌ as str_eq}
use text.Mathlib.TextEquality.{eq_iff}
use iotic.Prelude.{
  ℕ, suc, ◌+◌, ◌≤◌, ◌<◌, ◌≡◌, refl, ap, subst, ◌∙◌, ℤ, u32_mod, Option, none, some, List, [], ◌∷◌,
  inl, inr, arith, if◌then◌else◌, Bool-cases, All, length,
}
use iotic.Database.Types.{Datapoint, Dataset}
use iotic.Database.Delta.{◌>>=◌}
use iotic.Database.Environment.{Environment, or_empty, from_key}
use iotic.Database.Store.{
  Store, Outcome, contains, raw_name, day_start, day_end, put_datapoint, raw_data, erase_raw_data,
  erase_until,
}
use iotic.Database.Store.Bytes.{AreWords}
use iotic.Database.Store.Shape.{IsRecorded, outside-IsRecorded}
use iotic.Database.Store.Day.{encode, if-same, read-from_key, erase-from_key, room-erase_until}
use iotic.Database.Store.Table.{
  Table, within, outside, outside_of, record_point, samples_of, forget_day,
}
use iotic.Database.Store.Refinement.{
  Represents, encoded, entries-at, map_for-absent, map_for-present, put_datapoint-Recorded,
}

pub data Command : Type 0 where
  put_command : String → String → ℕ → Datapoint → Command
  read_command : String → String → ℤ → Command
  erase_command : String → String → ℤ → Command

abbrev pub IsCommand : Command → Type 0
IsCommand (Command.put_command thing property t p) = (t < u32_mod) × AreWords p
IsCommand _ = Unit {0}

-- What the commands do to the table, and what the reads give.
unfoldable pub run_table : List Command → Table → List Dataset × Table
run_table [] table = ([], table)
run_table (Command.put_command thing property t p ∷ cs) table =
    run_table cs (record_point thing property t p table)
run_table (Command.read_command thing property day ∷ cs) table =
    let (replies, r) = run_table cs table in (samples_of thing property day table ∷ replies, r)
run_table (Command.erase_command thing property day ∷ cs) table =
    run_table cs (forget_day thing property day table)

outside_of-IsRecorded :
    (day : ℤ) (o : Option Dataset) (d : Dataset)
    → ((x : Dataset) → o ≡ some x → IsRecorded x)
    → outside_of day o ≡ some d
    → IsRecorded d
unfolding or_empty
outside_of-IsRecorded day none d f q = cc
outside_of-IsRecorded day (some x) d f q =
    subst IsRecorded (ap or_empty q) (outside-IsRecorded (day_start day) (day_end day) x (f x refl))

module _ {Env : Type 0} ⦃M : Environment Env⦄ where
  abbrev pub store_of : Outcome Env → Option (Store Env)
  store_of (Outcome.returned s) = some s
  store_of (Outcome.thrown s) = none

  -- The same with the store; `none` when a call throws or faults.
  unfoldable pub run : List Command → Store Env → Option (List Dataset × Store Env)
  run [] s = some ([], s)
  run (Command.put_command thing property t p ∷ cs) s =
      store_of (put_datapoint thing property t p s) >>= run cs
  run (Command.read_command thing property day ∷ cs) s =
      raw_data thing property day s >>= λ a. run cs a.1 >>= λ b. some (a.0 ∷ b.0, b.1)
  run (Command.erase_command thing property day ∷ cs) s =
      run cs (erase_raw_data thing property day s)

  -- A read gives the day's samples of the table.
  pub raw_data-samples_of :
      (k : ℕ) (thing property : String) (day : ℤ) (s : Store Env) (table : Table)
      → Represents s table
      → suc k ≤ M.room s.env
      → (r : Store Env) × (raw_data thing property day s
          ≡ some (samples_of thing property day table, r))
        × (k ≤ M.room r.env)
        × Represents r table
  unfolding raw_data samples_of or_empty within
  raw_data-samples_of k thing property day s table h left =
      go (table.samples (raw_name thing property)) refl
    where
      go :
          (o : Option Dataset)
          → table.samples (raw_name thing property) ≡ o
          → (r : Store Env) × (raw_data thing property day s
              ≡ some (within (day_start day) (day_end day) (or_empty o), r))
            × (k ≤ M.room r.env)
            × Represents r table
      go none e =
          (s, rw (map_for-absent (raw_name thing property) s table h e) refl, omega arith, h)
      go (some d) e =
          let name = raw_name thing property in
          let (r, found, room, same) = map_for-present k name d s table h left e in
          let stored = entries-at r table same name d e in
          let (rising, words) = same.recorded name d e in
          let start = day_start day in
          let stop = day_end day in
          (
            r,
            rw
                (
                  found,
                  M.scan-entries r.env name start (encode d) stored,
                  read-from_key start stop 0 d rising words,
                )
                refl,
            room,
            same,
          )

  forget_day-Represents :
      (thing property : String) (day : ℤ) (s : Store Env) (table : Table) (e : Env)
      → Represents s table
      → ((m : String)
          → M.entries e m ≡ (
              if str_eq (raw_name thing property) m
              then encoded (outside_of day (table.samples (raw_name thing property)))
              else M.entries s.env m))
      → Represents (record s { env = e }) (forget_day thing property day table)
  unfolding forget_day
  forget_day-Represents thing property day s table e h entries =
      let name = raw_name thing property in
      record {
        maps = λ m. entries m ∙ elim (Bool-cases (str_eq name m)) [
          | inl same ↦ rw same refl
          | inr differ ↦ rw differ (h.maps m)
        ];
        lasts = h.lasts;
        cached = λ m c. elim (Bool-cases (str_eq name m)) [
          | inl same ↦
              let (d, f) = h.cached name (ap (contains s.map_cache) ((eq_iff name m).0 same) ∙ c) in
              (outside (day_start day) (day_end day) d, rw (same, f) refl)
          | inr differ ↦ rw differ (h.cached m c)
        ];
        recorded = λ m d q. elim (Bool-cases (str_eq name m)) [
          | inl same ↦
              outside_of-IsRecorded day (table.samples name) d (h.recorded name) (rw same at q)
          | inr differ ↦ h.recorded m d (rw differ at q)
        ];
      }

  -- An erasure leaves the samples of the other days and of the other maps.
  pub erase_raw_data-forget_day :
      (k : ℕ) (thing property : String) (day : ℤ) (s : Store Env) (table : Table)
      → Represents s table
      → suc k ≤ M.room s.env
      → (k ≤ M.room (erase_raw_data thing property day s).env)
        × Represents (erase_raw_data thing property day s) (forget_day thing property day table)
  unfolding erase_raw_data
  erase_raw_data-forget_day k thing property day s table h left =
      go (table.samples (raw_name thing property)) refl
    where
      go :
          (o : Option Dataset)
          → table.samples (raw_name thing property) ≡ o
          → (k ≤ M.room (erase_raw_data thing property day s).env)
            × Represents (erase_raw_data thing property day s) (forget_day thing property day table)
      go none e =
          let name = raw_name thing property in
          rw (map_for-absent name s table h e) (
            omega arith,
            forget_day-Represents thing property day s table s.env h (
                if-same name s.env (encoded (outside_of day (table.samples name)))
                  (h.maps name ∙ rw e refl)),
          )
      go (some d) e =
          let name = raw_name thing property in
          let (r, found, room, same) = map_for-present k name d s table h left e in
          let stored = entries-at r table same name d e in
          let start = day_start day in
          let stop = day_end day in
          let visited = M.scan-entries r.env name start (encode d) stored in
          let erased = erase-from_key name start stop d r.env (same.recorded name d e).0 stored in
          rw (found, visited)
            (
              rw (room-erase_until name stop (from_key start (encode d)) r.env) room,
              forget_day-Represents thing property day r table
                  (erase_until name stop (from_key start (encode d)) r.env) same (rw e erased),
            )

  -- The replies of a run, and the table it leads to, are those of the commands on the table.
  pub run-Represents :
      (cs : List Command) (k : ℕ) (s : Store Env) (table : Table)
      → All IsCommand cs
      → Represents s table
      → length cs + k ≤ M.room s.env
      → (r : Store Env) × (run cs s ≡ some ((run_table cs table).0, r))
        × (k ≤ M.room r.env)
        × Represents r (run_table cs table).1
  unfolding run run_table
  run-Represents [] k s table c h room = (s, refl, omega arith, h)
  run-Represents (Command.put_command thing property t p ∷ cs) k s table c h room =
      let (r, done, left, now) =
        put_datapoint-Recorded (length cs + k) thing property t p s table h (omega arith) c.0.0
          c.0.1 in
      let (z, rest, over, final) =
        run-Represents cs k r (record_point thing property t p table) c.1 now left in
      (z, rw (done, rest) refl, over, final)
  run-Represents (Command.read_command thing property day ∷ cs) k s table c h room =
      let (r, done, left, now) =
        raw_data-samples_of (length cs + k) thing property day s table h (omega arith) in
      let (z, rest, over, final) = run-Represents cs k r table c.1 now left in
      (z, rw (done, rest) refl, over, final)
  run-Represents (Command.erase_command thing property day ∷ cs) k s table c h room =
      let (left, now) =
        erase_raw_data-forget_day (length cs + k) thing property day s table h (omega arith) in
      run-Represents cs k (erase_raw_data thing property day s)
        (forget_day thing property day table) c.1 now left
