-- ===== src/Database/Cbor/Columns.antt =====
-- src/database/DatabaseUtil.cpp: the columns of the values that `cborEncode` writes.
use mathlib.Core.List.{append_assoc}
use native.Mathlib.Numerals.{add-one}
use iotic.Prelude.{
  ℕ, zero, suc, ◌+◌, ◌≤◌, ◌<◌, ◌≡◌, refl, ap, sym, some, List, [], ◌∷◌, ◌++◌, length, length-append,
  get_elem?, get_or, drop, arith, All,
}
use iotic.Database.Types.{Datapoint, DeltaDataset, u16_mod, HasWidth}
use iotic.Database.Cbor.{Item, array, column, write_values, write_columns, row, rows}

abbrev pub times : DeltaDataset → List ℕ
times [] = []
times ((t, p) ∷ d) = t ∷ times d

unfoldable pub col : ℕ → DeltaDataset → List ℕ
col i [] = []
col i ((t, p) ∷ d) = get_or p i 0 ∷ col i d

unfoldable pub cols : ℕ → ℕ → DeltaDataset → List (List ℕ)
cols zero i d = []
cols (suc left) i d = col i d ∷ cols left (i + 1) d

unfoldable pub column_items : ℕ → ℕ → DeltaDataset → List Item
column_items zero i d = []
column_items (suc left) i d =
    array (length d) ∷ write_values (col i d) (column_items left (i + 1) d)

get_elem?-get_or : (p : List ℕ) (i : ℕ) → i < length p → get_elem? p i ≡ some (get_or p i 0)
get_elem?-get_or [] i h = elim h [ ]
get_elem?-get_or (v ∷ p) zero h = refl
get_elem?-get_or (v ∷ p) (suc i) h = get_elem?-get_or p i (omega arith)

column_total :
    (width i : ℕ) (d : DeltaDataset) → i < width → HasWidth width d → column i d ≡ some (col i d)
unfolding column col
column_total width i [] h w = refl
column_total width i ((t, p) ∷ d) h w =
    rw (get_elem?-get_or p i (omega (arith, w.0.0)), column_total width i d h w.1) refl

pub write_columns_total :
    (width left i : ℕ) (d : DeltaDataset)
    → i + left ≤ width
    → HasWidth width d
    → write_columns left i d ≡ some (column_items left i d)
unfolding write_columns column_items
write_columns_total width zero i d h w = refl
write_columns_total width (suc left) i d h w =
    rw
      (
        column_total width i d (omega arith) w,
        write_columns_total width left (i + 1) d (omega arith) w,
      )
      refl

get_or_small : (p : List ℕ) (i : ℕ) → All (λ v. v < u16_mod) p → get_or p i 0 < u16_mod
get_or_small [] i h = omega arith
get_or_small (v ∷ p) zero h = h.0
get_or_small (v ∷ p) (suc i) h = get_or_small p i h.1

pub col_small :
    (width i : ℕ) (d : DeltaDataset) → HasWidth width d → All (λ v. v < u16_mod) (col i d)
unfolding col
col_small width i [] w = tt
col_small width i ((t, p) ∷ d) w = (get_or_small p i w.0.1, col_small width i d w.1)

get_elem?-col :
    (i t : ℕ) (p : Datapoint) (front back : DeltaDataset)
    → get_elem? (col i (front ++ (t, p) ∷ back)) (length front) ≡ some (get_or p i 0)
unfolding col
get_elem?-col i t p [] back = refl
get_elem?-col i t p ((u, q) ∷ front) back = get_elem?-col i t p front back

drop_step : (p : List ℕ) (i : ℕ) → i < length p → drop i p ≡ get_or p i 0 ∷ drop (suc i) p
drop_step [] i h = elim h [ ]
drop_step (v ∷ p) zero h = refl
drop_step (v ∷ p) (suc i) h = drop_step p i (omega arith)

drop_all : (p : List ℕ) → drop (length p) p ≡ []
drop_all [] = refl
drop_all (v ∷ p) = drop_all p

row-cols :
    (left i t : ℕ) (p : Datapoint) (front back : DeltaDataset)
    → i + left ≡ length p
    → row (length front) (cols left i (front ++ (t, p) ∷ back)) ≡ some (drop i p)
unfolding row cols
row-cols zero i t p front back h =
    let e : i ≡ length p = omega arith in rw e (ap some (sym (drop_all p)))
row-cols (suc left) i t p front back h =
    rw
      (
        get_elem?-col i t p front back,
        row-cols left (i + 1) t p front back (omega arith),
        add-one i,
      )
      (ap some (sym (drop_step p i (omega arith))))

pub rows-cols :
    (width : ℕ) (front back : DeltaDataset)
    → HasWidth width back
    → rows (length front) (times back) (cols width 0 (front ++ back)) ≡ some back
unfolding rows
rows-cols width front [] w = refl
rows-cols width front ((t, p) ∷ back) w =
    let entry : DeltaDataset = (t, p) ∷ [] in
    let rest : rows (length front + 1) (times back) (cols width 0 (front ++ (t, p) ∷ back))
        ≡ some back =
      rw (length-append front entry, append_assoc front entry back) at
        (rows-cols width (front ++ entry) back w.1) in
    rw (row-cols width 0 t p front back (omega (arith, w.0.0))) (rw rest refl)
