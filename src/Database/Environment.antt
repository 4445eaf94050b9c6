-- ===== src/Database/Environment.antt =====
-- The parts of libmdbx that src/database/Database.cpp calls, a parameter of its model: an environment
-- is known by the maps it has, and a map by its entries in the order of their keys.
use Prim.Native.String.{String}
use text.Mathlib.Text.{◌==◌ as str_eq}
use iotic.Prelude.{ℕ, suc, ◌≤◌, ◌≡◌, Option, none, some, List, [], ◌∷◌, leb, ◌==◌, if◌then◌else◌}
use iotic.Database.Types.{put}

-- Each key with the bytes of its value.
abbrev pub Entries : Type 0
Entries = List (ℕ × List ℕ)

unfoldable pub or_empty {ℓ} : {A : Type ℓ} → Option (List A) → List A
or_empty none = []
or_empty (some xs) = xs

-- What a cursor visits that starts at a key, and a map without a key.
unfoldable pub from_key : ℕ → Entries → Entries
from_key k [] = []
from_key k ((j, v) ∷ es) = if leb k j then (j, v) ∷ es else from_key k es

unfoldable pub without_key : ℕ → Entries → Entries
without_key k [] = []
without_key k ((j, v) ∷ es) = if j == k then es else (j, v) ∷ without_key k es

unfoldable pub find_key : ℕ → Entries → Option (List ℕ)
find_key k [] = none
find_key k ((j, v) ∷ es) = if j == k then some v else find_key k es

-- `create_map` and `open_map` take a handle and throw, here `none`, when no handle is left; `open_map`
-- throws also for a map that does not exist.
pub record Environment (Env : Type 0) : Type 0 where
  pub entries : Env → String → Option Entries
  pub room : Env → ℕ
  pub create_map : String → Env → Option Env
  pub open_map : String → Env → Option Env
  pub upsert : String → ℕ → List ℕ → Env → Env
  pub erase : String → ℕ → Env → Env
  pub scan_from : Env → String → ℕ → Entries
  pub to_key_exact : Env → String → ℕ → Option (List ℕ)
  pub create-room :
      (name : String) (k : ℕ) (e : Env)
      → suc k ≤ room e
      → (r : Env) × (create_map name e ≡ some r)
        × (k ≤ room r)
        × ((m : String)
            → entries r m
              ≡ (if str_eq name m then some (or_empty (entries e name)) else entries e m))
  pub open-room :
      (name : String) (k : ℕ) (e : Env) (es : Entries)
      → suc k ≤ room e
      → entries e name ≡ some es
      → (r : Env) × (open_map name e ≡ some r)
        × (k ≤ room r)
        × ((m : String) → entries r m ≡ entries e m)
  pub open-absent : (name : String) (e : Env) → entries e name ≡ none → open_map name e ≡ none
  pub entries-upsert :
      (name : String) (k : ℕ) (v : List ℕ) (e : Env) (es : Entries)
      → entries e name ≡ some es
      → (m : String)
      → entries (upsert name k v e) m ≡ (if str_eq name m then some (put k v es) else entries e m)
  pub room-upsert :
      (name : String) (k : ℕ) (v : List ℕ) (e : Env) → room (upsert name k v e) ≡ room e
  pub entries-erase :
      (name : String) (k : ℕ) (e : Env) (es : Entries)
      → entries e name ≡ some es
      → (m : String)
      → entries (erase name k e) m
        ≡ (if str_eq name m then some (without_key k es) else entries e m)
  pub room-erase : (name : String) (k : ℕ) (e : Env) → room (erase name k e) ≡ room e
  pub scan-entries :
      (e : Env) (name : String) (k : ℕ) (es : Entries)
      → entries e name ≡ some es
      → scan_from e name k ≡ from_key k es
  pub exact-entries :
      (e : Env) (name : String) (k : ℕ) (es : Entries)
      → entries e name ≡ some es
      → to_key_exact e name k ≡ find_key k es
