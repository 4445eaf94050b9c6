-- ===== src/Database/Archive/Days.antt =====
-- `Database::archivedData` on every branch.
use Prim.Native.String.{String}
use text.Mathlib.Text.{◌==◌ as str_eq}
use text.Mathlib.TextEquality.{eq_iff}
use iotic.Prelude.{
  ℕ, suc, ◌≤◌, ◌≡◌, refl, sym, ◌∙◌, ℤ, false, Option, none, some, List, [], ◌∷◌, inl, inr, arith,
  Bool-cases,
}
use iotic.Database.Types.{Dataset, put}
use iotic.Database.Environment.{Entries, Environment, or_empty, find_key}
use iotic.Database.Store.{Store, Outcome, raw_name, day_start, day_end, day_since_epoch, raw_data}
use iotic.Database.Store.Shape.{IsRecorded}
use iotic.Database.Store.Day.{encode, read-from_key}
use iotic.Database.Store.Handles.{
  IsCached, map_for-Found, map_for-missing, found-IsCached, create_map-Ready,
}
use iotic.Database.Store.Table.{within}
use iotic.Database.Archive.{map_name, find_archived, put_archived_data, find_again}

find_key-put : (k : ℕ) (v : List ℕ) (es : Entries) → find_key k (put k v es) ≡ some v
unfolding find_key put
find_key-put k v [] = ground arith
find_key-put k v ((j, w) ∷ es) = ground (arith, find_key-put k v es)

module _ {Env : Type 0} ⦃M : Environment Env⦄ where
  -- A store with the entries of another and at least `k` handles left.
  abbrev pub Same : ℕ → Store Env → Store Env → Type 0
  Same k s r =
      (k ≤ M.room r.env) × IsCached r × ((m : String) → M.entries r.env m ≡ M.entries s.env m)

  pub find_archived-none :
      (k : ℕ) (thing property : String) (day resolution : ℤ) (s : Store Env)
      → IsCached s
      → suc k ≤ M.room s.env
      → find_key
          (day_since_epoch day)
          (or_empty (M.entries s.env (map_name thing property resolution)))
        ≡ none
      → (r : Store Env) × (find_archived thing property day resolution s ≡ ([], r)) × Same k s r
  unfolding find_archived or_empty find_key
  find_archived-none k thing property day resolution s c h absent =
      go (M.entries s.env (map_name thing property resolution)) refl
    where
      go :
          (o : Option Entries)
          → M.entries s.env (map_name thing property resolution) ≡ o
          → (r : Store Env) × (find_archived thing property day resolution s ≡ ([], r)) × Same k s r
      go none e = (
        s,
        rw (map_for-missing (map_name thing property resolution) s c e) refl,
        (omega arith, c, λ m. refl),
      )
      go (some es) e =
          let name = map_name thing property resolution in
          let (r, found, room, values, same, cache) = map_for-Found k name es s h e in
          let exact = M.exact-entries r.env name (day_since_epoch day) es (same name ∙ e) in
          let missing = rw e at absent in
          (
            r,
            rw (found, exact, missing) refl,
            (room, found-IsCached name es s r c e same cache, same),
          )

  pub find_archived-some :
      (k : ℕ) (thing property : String) (day resolution : ℤ) (s : Store Env) (es : Entries)
      (bytes : List ℕ)
      → IsCached s
      → suc k ≤ M.room s.env
      → M.entries s.env (map_name thing property resolution) ≡ some es
      → find_key (day_since_epoch day) es ≡ some bytes
      → (r : Store Env) × (find_archived thing property day resolution s ≡ (bytes, r)) × Same k s r
  unfolding find_archived
  find_archived-some k thing property day resolution s es bytes c h e there =
      let name = map_name thing property resolution in
      let (r, found, room, values, same, cache) = map_for-Found k name es s h e in
      let exact = M.exact-entries r.env name (day_since_epoch day) es (same name ∙ e) in
      (r, rw (found, exact, there) refl, (room, found-IsCached name es s r c e same cache, same))

  pub raw_data-within :
      (k : ℕ) (thing property : String) (day : ℤ) (s : Store Env) (d : Dataset)
      → IsCached s
      → suc k ≤ M.room s.env
      → M.entries s.env (raw_name thing property) ≡ some (encode d)
      → IsRecorded d
      → (r : Store Env) × (raw_data thing property day s
          ≡ some (within (day_start day) (day_end day) d, r))
        × Same k s r
  unfolding raw_data
  raw_data-within k thing property day s d c h e w =
      let name = raw_name thing property in
      let (r, found, room, values, same, cache) = map_for-Found k name (encode d) s h e in
      let start = day_start day in
      let stop = day_end day in
      (
        r,
        rw
            (
              found,
              M.scan-entries r.env name start (encode d) (same name ∙ e),
              read-from_key start stop 0 d w.0 w.1,
            )
            refl,
        (room, found-IsCached name (encode d) s r c e same cache, same),
      )

  put_archived_data-find :
      (k : ℕ) (thing property : String) (day resolution : ℤ) (b : ℕ) (bytes : List ℕ)
      (s : Store Env)
      → IsCached s
      → suc (suc k) ≤ M.room s.env
      → (r : Store Env) × (z : Store Env) × (put_archived_data thing property day resolution
            (b ∷ bytes)
            s
          ≡ Outcome.returned r)
        × (find_archived thing property day resolution r ≡ (b ∷ bytes, z))
        × (k ≤ M.room z.env)
        × ((m : String)
            → str_eq (map_name thing property resolution) m ≡ false
            → M.entries z.env m ≡ M.entries s.env m)
  unfolding put_archived_data
  put_archived_data-find k thing property day resolution b bytes s c h =
      let name = map_name thing property resolution in
      let key = day_since_epoch day in
      let (r, made, room, values, entries, cache) = create_map-Ready (suc k) name s h (c name) in
      let before = or_empty (M.entries s.env name) in
      let there : M.entries r.env name ≡ some before =
        entries name ∙ rw ((eq_iff name name).1 refl) refl in
      let after = M.entries-upsert name key (b ∷ bytes) r.env before there in
      let stored : M.entries (M.upsert name key (b ∷ bytes) r.env) name
          ≡ some (put key (b ∷ bytes) before) =
        after name ∙ rw ((eq_iff name name).1 refl) refl in
      let written : Store Env = record r { env = M.upsert name key (b ∷ bytes) r.env } in
      let known : IsCached written = λ m q. elim (Bool-cases (str_eq name m)) [
        | inl same ↦ (put key (b ∷ bytes) before, after m ∙ rw same refl)
        | inr differ ↦
            let found_in = cache m in
            let (es, e) = c m (sym (rw differ at found_in) ∙ q) in
            (es, after m ∙ rw differ (entries m ∙ rw differ e))
      ] in
      let (z, found, (left, cached, same)) =
        find_archived-some k thing property day resolution written (put key (b ∷ bytes) before)
          (b ∷ bytes) known (rw (M.room-upsert name key (b ∷ bytes) r.env) room) stored
          (find_key-put key (b ∷ bytes) before) in
      (
        written,
        z,
        rw made refl,
        found,
        left,
        λ m differ. same m ∙ after m ∙ rw differ (entries m ∙ rw differ refl),
      )

  -- What is put is found again, and the other maps stay as they were.
  pub find_again-put :
      (k : ℕ) (thing property : String) (day resolution : ℤ) (bytes : List ℕ) (s : Store Env)
      → IsCached s
      → suc (suc k) ≤ M.room s.env
      → find_key
          (day_since_epoch day)
          (or_empty (M.entries s.env (map_name thing property resolution)))
        ≡ none
      → (z : Store Env) × (find_again thing property day resolution
            (put_archived_data thing property day resolution bytes s)
          ≡ (bytes, Outcome.returned z))
        × (k ≤ M.room z.env)
        × ((m : String)
            → str_eq (map_name thing property resolution) m ≡ false
            → M.entries z.env m ≡ M.entries s.env m)
  unfolding put_archived_data
  find_again-put k thing property day resolution [] s c h absent =
      let (z, found, (left, cached, same)) =
        find_archived-none (suc k) thing property day resolution s c h absent in
      (z, rw found refl, omega arith, λ m differ. same m)
  find_again-put k thing property day resolution (b ∷ bytes) s c h absent =
      let (r, z, made, found, left, same) =
        put_archived_data-find k thing property day resolution b bytes s c h in
      (z, unfold put_archived_data in rw (made, found) refl, left, same)
