-- ===== src/WebServer/SiteHistory.antt =====
-- src/webserver/WebAppRouter.cpp: `serializeSiteHistory`, up to the JSON and CBOR of a library.
pub mod Window
pub mod Deltas
use iotic.Prelude.{
  ℕ, zero, suc, ◌+◌, ◌-◌, ◌%◌, ℤ, pos, ◌-ℤ◌, quot, to_u32, u32_mod, Bool, ◌||◌, List, [], ◌∷◌, map,
  length, take, drop, ltb, leb, ◌==◌, if◌then◌else◌,
}
use iotic.Strategies.Strategy.{SiteProperties}

-- `std::lower_bound` and `std::upper_bound`: the position of the first entry that does not come
-- before the value, on a history in the order of time.
unfoldable pub lower : ℕ → List SiteProperties → ℕ
lower from [] = 0
lower from (e ∷ l) = if leb e.ts from then suc (lower from l) else 0

unfoldable pub upper : ℕ → List SiteProperties → ℕ
upper to [] = 0
upper to (e ∷ l) = if leb to e.ts then 0 else suc (upper to l)

-- Each entry but the first is replaced by its difference to the one before it. The loops run from
-- the back, so that they subtract what has not been replaced yet.
unfoldable pub deltas_from : ℤ → List ℤ → List ℤ
deltas_from last [] = []
deltas_from last (x ∷ xs) = (x -ℤ last) ∷ deltas_from x xs

unfoldable pub deltas : List ℤ → List ℤ
deltas [] = []
deltas (x ∷ xs) = x ∷ deltas_from x xs

unfoldable pub time_deltas_from : ℕ → List ℕ → List ℕ
time_deltas_from last [] = []
time_deltas_from last (t ∷ ts) = ((t + u32_mod - last) % u32_mod) ∷ time_deltas_from t ts

unfoldable pub time_deltas : List ℕ → List ℕ
time_deltas [] = []
time_deltas (t ∷ ts) = t ∷ time_deltas_from t ts

pub record Series : Type 0 where
  pub timestamps : List ℕ
  pub pv_powers : List ℤ
  pub grid_powers : List ℤ

-- `fault` is undefined behaviour; `nothing` is the empty buffer.
pub data Reply : Type 0 where
  fault nothing : Reply
  series : Series → Reply

unfoldable pub to_series : List SiteProperties → Series
to_series entries = record {
  timestamps = time_deltas (map (λ e. e.ts) entries);
  pv_powers = deltas (map (λ e. quot e.pv_power 10) entries);
  grid_powers = deltas (map (λ e. quot e.grid_power 10) entries);
}

-- `if (itl != itb) --itl`
abbrev pub one_before : ℕ → ℕ
one_before zero = zero
one_before (suc i) = i

-- A distance to an earlier position of the list is undefined, and so is the first entry of an empty
-- history, which the warning about an invalid range reads.
unfoldable pub serialize_site_history : List SiteProperties → ℤ → ℤ → Reply
serialize_site_history [] from to = fault
serialize_site_history (e ∷ l) from to =
    let first = one_before (lower (to_u32 from) (e ∷ l)) in
    let last = upper (to_u32 to) (e ∷ l) in
    if ltb last first
    then fault
    else if last == first
    then nothing
    else series (to_series (take (last - first) (drop first (e ∷ l))))
