-- ===== src/Database/Store/Handles.antt =====
-- The handles of `DatabasePrivate`: what `createMap` and `mapFor` leave.
use Prim.Native.String.{String}
use text.Mathlib.Text.{◌==◌ as str_eq}
use text.Mathlib.TextEquality.{eq_iff}
use iotic.Prelude.{
  ℕ, suc, ◌≤◌, ◌≡◌, refl, sym, ap, ◌∙◌, true, ◌||◌, none, some, List, ◌∷◌, inl, inr, arith,
  if◌then◌else◌, Bool-cases,
}
use iotic.Database.Environment.{Entries, Environment, or_empty}
use iotic.Database.Store.{Store, Outcome, contains, create_map, map_for}
use iotic.Database.Store.Day.{if-same}

contains_same :
    (name : String) (names : List String)
    → contains names name ≡ true
    → (m : String) → contains names m ≡ (str_eq name m || contains names m)
contains_same name names h m = elim (Bool-cases (str_eq name m)) [
  | inl same ↦ rw same (ap (contains names) (sym ((eq_iff name m).0 same)) ∙ h)
  | inr differ ↦ rw differ refl
]

module _ {Env : Type 0} ⦃M : Environment Env⦄ where
  -- A map to write to, there or created: the entries are those of before, or none.
  abbrev pub Ready : ℕ → String → Store Env → Type 0
  Ready k name s =
      (r : Store Env) × (create_map name s ≡ Outcome.returned r)
      × (k ≤ M.room r.env)
      × (r.last_values ≡ s.last_values)
      × ((m : String)
          → M.entries r.env m
            ≡ (if str_eq name m then some (or_empty (M.entries s.env name)) else M.entries s.env m))
      × ((m : String) → contains r.map_cache m ≡ (str_eq name m || contains s.map_cache m))

  pub create_map-Ready :
      (k : ℕ) (name : String) (s : Store Env)
      → suc k ≤ M.room s.env
      → (contains s.map_cache name ≡ true → (es : Entries) × (M.entries s.env name ≡ some es))
      → Ready k name s
  unfolding create_map contains or_empty
  create_map-Ready k name s h c = elim (Bool-cases (contains s.map_cache name)) [
    | inl old ↦
        let (es, e) = c old in
        (
          s,
          rw old refl,
          omega arith,
          refl,
          if-same name s.env (some (or_empty (M.entries s.env name))) (rw e refl),
          contains_same name s.map_cache old,
        )
    | inr new ↦
        let (r, made, left, entries) = M.create-room name k s.env h in
        (
          record s { env = r; map_cache = name ∷ s.map_cache },
          rw (new, made) refl,
          left,
          refl,
          entries,
          λ m. refl,
        )
  ]

  -- Every cached handle is that of a map that is there.
  abbrev pub IsCached : Store Env → Type 0
  IsCached s =
      (m : String) → contains s.map_cache m ≡ true → (es : Entries) × (M.entries s.env m ≡ some es)

  abbrev pub Found : ℕ → String → Store Env → Type 0
  Found k name s =
      (r : Store Env) × (map_for name s ≡ some r)
      × (k ≤ M.room r.env)
      × (r.last_values ≡ s.last_values)
      × ((m : String) → M.entries r.env m ≡ M.entries s.env m)
      × ((m : String) → contains r.map_cache m ≡ (str_eq name m || contains s.map_cache m))

  pub map_for-Found :
      (k : ℕ) (name : String) (es : Entries) (s : Store Env)
      → suc k ≤ M.room s.env
      → M.entries s.env name ≡ some es
      → Found k name s
  unfolding map_for contains
  map_for-Found k name es s left e = elim (Bool-cases (contains s.map_cache name)) [
    | inl old ↦ (s, rw old refl, omega arith, refl, λ m. refl, contains_same name s.map_cache old)
    | inr new ↦
        let (r, opened, room, same) = M.open-room name k s.env es left e in
        (
          record s { env = r; map_cache = name ∷ s.map_cache },
          rw (new, opened) refl,
          room,
          refl,
          same,
          λ m. refl,
        )
  ]

  pub map_for-missing :
      (name : String) (s : Store Env)
      → IsCached s
      → M.entries s.env name ≡ none
      → map_for name s ≡ none
  unfolding map_for
  map_for-missing name s c e = elim (Bool-cases (contains s.map_cache name)) [
    | inl old ↦ let (es, f) = c name old in cc
    | inr new ↦ rw (new, M.open-absent name s.env e) refl
  ]

  -- A store with the entries of another, and one handle more.
  pub found-IsCached :
      (name : String) (es : Entries) (s r : Store Env)
      → IsCached s
      → M.entries s.env name ≡ some es
      → ((m : String) → M.entries r.env m ≡ M.entries s.env m)
      → ((m : String) → contains r.map_cache m ≡ (str_eq name m || contains s.map_cache m))
      → IsCached r
  found-IsCached name es s r c e same cache m q = elim (Bool-cases (str_eq name m)) [
    | inl equal ↦ (es, same m ∙ ap (M.entries s.env) (sym ((eq_iff name m).0 equal)) ∙ e)
    | inr differ ↦
        let found_in = cache m in
        let (fs, f) = c m (sym (rw differ at found_in) ∙ q) in (fs, same m ∙ f)
  ]
