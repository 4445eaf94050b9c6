-- ===== src/Database/Store/Refinement.antt =====
-- `DatabasePrivate` against the table it stands for.
use Prim.Native.String.{String}
use text.Mathlib.Text.{◌==◌ as str_eq}
use text.Mathlib.TextEquality.{eq_iff}
use iotic.Prelude.{
  ℕ, suc, ◌≤◌, ◌<◌, ◌≡◌, refl, sym, ap, subst, ◌∙◌, u32_mod, true, ◌&&◌, Option, none, some, inl,
  inr, arith, if◌then◌else◌, Bool-cases,
}
use iotic.Rules.SymbolRepository.{find_symbol, set_symbol}
use iotic.Config.ConfigRepository.Persistence.{find-set_self, find-set_other}
use iotic.Database.Types.{Datapoint, Dataset, put}
use iotic.Database.Delta.Thin.{same_point}
use iotic.Database.Environment.{Entries, Environment, or_empty}
use iotic.Database.Store.{
  Store, Outcome, LastValues, contains, last_value, set_last_value, to_bytes, raw_name, map_for,
  put_datapoint,
}
use iotic.Database.Store.Bytes.{AreWords}
use iotic.Database.Store.Shape.{IsRecorded, put-IsRecorded}
use iotic.Database.Store.Day.{encode, encode-put}
use iotic.Database.Store.Handles.{Ready, create_map-Ready, IsCached, map_for-Found, map_for-missing}
use iotic.Database.Store.Table.{Table, record_point, with_point}

abbrev pub encoded : Option Dataset → Option Entries
encoded none = none
encoded (some d) = some (encode d)

pub last_value-set_thing :
    (thing property : String) (p : Datapoint) (lasts : LastValues) (q : String)
    → last_value thing q (set_last_value thing property p lasts)
      ≡ (if str_eq property q then p else last_value thing q lasts)
unfolding last_value set_last_value or_empty
last_value-set_thing thing property p lasts q =
    let values = or_empty (find_symbol thing lasts) in
    rw (find-set_self thing (set_symbol property p values) lasts)
      (elim (Bool-cases (str_eq property q)) [
        | inl same ↦
            rw (same, sym ((eq_iff property q).0 same), find-set_self property p values) refl
        | inr differ ↦ rw (differ, find-set_other property q p values differ) refl
      ])

last_value-set :
    (thing property : String) (p : Datapoint) (lasts : LastValues) (u q : String)
    → last_value u q (set_last_value thing property p lasts)
      ≡ (if str_eq thing u && str_eq property q then p else last_value u q lasts)
unfolding last_value set_last_value or_empty
last_value-set thing property p lasts u q = elim (Bool-cases (str_eq thing u)) [
  | inr differ ↦
      rw
        (
          differ,
          find-set_other thing u (set_symbol property p (or_empty (find_symbol thing lasts))) lasts
              differ,
        )
        refl
  | inl same ↦ rw same (
      subst
        (λ v.
          last_value v q (set_last_value thing property p lasts)
          ≡ (if str_eq property q then p else last_value v q lasts))
        ((eq_iff thing u).0 same) (last_value-set_thing thing property p lasts q))
]

or_empty-encoded : (o : Option Dataset) → or_empty (encoded o) ≡ encode (or_empty o)
unfolding or_empty encode
or_empty-encoded none = refl
or_empty-encoded (some d) = refl

pub or_empty-IsRecorded :
    (o : Option Dataset) → ((d : Dataset) → o ≡ some d → IsRecorded d) → IsRecorded (or_empty o)
unfolding or_empty
or_empty-IsRecorded none f = (tt, tt)
or_empty-IsRecorded (some d) f = f d refl

module _ {Env : Type 0} ⦃M : Environment Env⦄ where
  -- A store stands for a table.
  pub record Represents (s : Store Env) (table : Table) : Type 0 where
    pub maps : (m : String) → M.entries s.env m ≡ encoded (table.samples m)
    pub lasts : (u q : String) → last_value u q s.last_values ≡ table.last u q
    pub cached :
        (m : String) → contains s.map_cache m ≡ true → (d : Dataset) × (table.samples m ≡ some d)
    pub recorded : (m : String) (d : Dataset) → table.samples m ≡ some d → IsRecorded d

  pub entries-at :
      (s : Store Env) (table : Table)
      → Represents s table
      → (m : String) (d : Dataset) → table.samples m ≡ some d
      → M.entries s.env m ≡ some (encode d)
  entries-at s table r m d e = r.maps m ∙ ap encoded e

  abbrev pub Recorded : ℕ → Outcome Env → Table → Type 0
  Recorded k o table =
      (r : Store Env) × (o ≡ Outcome.returned r) × (k ≤ M.room r.env) × Represents r table

  with_point-Represents :
      (k : ℕ) (thing property : String) (t : ℕ) (p : Datapoint) (s : Store Env) (table : Table)
      → Represents s table
      → t < u32_mod
      → AreWords p
      → (x : Ready k
          (raw_name thing property)
          (record s { last_values = set_last_value thing property p s.last_values }))
      → Represents
          (record x.0 { env = M.upsert (raw_name thing property) t (to_bytes p) x.0.env })
          (with_point thing property t p table)
  unfolding with_point or_empty
  with_point-Represents k thing property t p s table h b w (r, made, left, values, entries, cache) =
      let name = raw_name thing property in
      let samples = or_empty (table.samples name) in
      let there : M.entries r.env name ≡ some (encode samples) =
        entries name
        ∙ rw ((eq_iff name name).1 refl, h.maps name, or_empty-encoded (table.samples name)) refl in
      let upserted = M.entries-upsert name t (to_bytes p) r.env (encode samples) there in
      record {
        maps = λ m. upserted m ∙ elim (Bool-cases (str_eq name m)) [
          | inl same ↦ rw same (ap some (sym (encode-put t p samples)))
          | inr differ ↦ rw differ (entries m ∙ rw differ (h.maps m))
        ];
        lasts = λ u q.
            ap (last_value u q) values
            ∙ last_value-set thing property p s.last_values u q
            ∙ ap (λ v. if str_eq thing u && str_eq property q then p else v) (h.lasts u q);
        cached = λ m c. elim (Bool-cases (str_eq name m)) [
          | inl same ↦ (put t p samples, rw same refl)
          | inr differ ↦
              let found = cache m in rw differ (h.cached m (sym (rw differ at found) ∙ c))
        ];
        recorded = λ m d e. elim (Bool-cases (str_eq name m)) [
          | inl same ↦ subst IsRecorded (ap or_empty (rw same at e)) (
              put-IsRecorded t p samples b w
                (or_empty-IsRecorded (table.samples name) (h.recorded name)))
          | inr differ ↦ h.recorded m d (rw differ at e)
        ];
      }

  -- A sample that is put is recorded in the table.
  pub put_datapoint-Recorded :
      (k : ℕ) (thing property : String) (t : ℕ) (p : Datapoint) (s : Store Env) (table : Table)
      → Represents s table
      → suc k ≤ M.room s.env
      → t < u32_mod
      → AreWords p
      → Recorded k (put_datapoint thing property t p s) (record_point thing property t p table)
  unfolding put_datapoint record_point
  put_datapoint-Recorded k thing property t p s table r h b w =
      elim (Bool-cases (same_point (table.last thing property) p)) [
        | inl same ↦ (s, rw (r.lasts thing property, same) refl, omega arith, rw same r)
        | inr differ ↦
            let x =
              create_map-Ready k (raw_name thing property)
                (record s { last_values = set_last_value thing property p s.last_values }) h
                (λ c.
                  let (d, e) = r.cached (raw_name thing property) c in
                  (encode d, entries-at s table r (raw_name thing property) d e)) in
            (
              record x.0 { env = M.upsert (raw_name thing property) t (to_bytes p) x.0.env },
              rw (r.lasts thing property, differ, x.1) refl,
              rw (M.room-upsert (raw_name thing property) t (to_bytes p) x.0.env) x.2,
              rw differ (with_point-Represents k thing property t p s table r b w x),
            )
      ]

  Represents-IsCached : (s : Store Env) (table : Table) → Represents s table → IsCached s
  Represents-IsCached s table h m c =
      let (d, e) = h.cached m c in (encode d, entries-at s table h m d e)

  pub map_for-absent :
      (name : String) (s : Store Env) (table : Table)
      → Represents s table
      → table.samples name ≡ none
      → map_for name s ≡ none
  map_for-absent name s table r e =
      map_for-missing name s (Represents-IsCached s table r) (r.maps name ∙ ap encoded e)

  -- The handle of a map that is there.
  pub map_for-present :
      (k : ℕ) (name : String) (d : Dataset) (s : Store Env) (table : Table)
      → Represents s table
      → suc k ≤ M.room s.env
      → table.samples name ≡ some d
      → (r : Store Env) × (map_for name s ≡ some r) × (k ≤ M.room r.env) × Represents r table
  map_for-present k name d s table h left e =
      let (r, found, room, values, same, cache) =
        map_for-Found k name (encode d) s left (entries-at s table h name d e) in
      (
        r,
        found,
        room,
        record {
          maps = λ m. same m ∙ h.maps m;
          lasts = λ u q. ap (last_value u q) values ∙ h.lasts u q;
          cached = λ m c. elim (Bool-cases (str_eq name m)) [
            | inl equal ↦ (d, ap table.samples (sym ((eq_iff name m).0 equal)) ∙ e)
            | inr differ ↦ let found_in = cache m in h.cached m (sym (rw differ at found_in) ∙ c)
          ];
          recorded = h.recorded;
        },
      )
