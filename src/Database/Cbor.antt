-- ===== src/Database/Cbor.antt =====
-- src/database/DatabaseUtil.cpp: `cborEncode` and `cborDecode`. The bytes are the library's work; an
-- encoder is a list of what is written, and a decoder calls the listener for the same items, as
-- far as they fit its functions. `none` is a read outside a vector, or an integer that does not fit.
pub mod Columns
pub mod RoundTrip
use iotic.Prelude.{
  ℕ, zero, suc, ◌+◌, ◌-◌, ◌%◌, ℤ, pos, negsuc, to_u32, is_int, Bool, Option, none, some, List, [],
  ◌∷◌, ◌++◌, length, get_elem?, map, ltb, if◌then◌else◌,
}
use iotic.Database.Types.{Datapoint, DeltaDataset, u16_mod}
use iotic.Database.Delta.{◌>>=◌}

pub data Item : Type 0 where
  array : ℕ → Item
  integer : ℤ → Item

-- The integer that a bit pattern of 16 bits stands for, and the pattern that an integer is cut to.
unfoldable pub signed : ℕ → ℤ
signed v = if ltb v 32768 then pos v else negsuc (u16_mod - v - 1)

unfoldable pub to_u16 : ℤ → ℕ
to_u16 (pos n) = n % u16_mod
to_u16 (negsuc n) = u16_mod - 1 - n % u16_mod

unfoldable pub write_timestamps : DeltaDataset → List Item → List Item
write_timestamps [] rest = rest
write_timestamps ((t, p) ∷ d) rest = integer (pos t) ∷ write_timestamps d rest

-- `dataPoint[i]` of every entry.
unfoldable pub column : ℕ → DeltaDataset → Option (List ℕ)
column i [] = some []
column i ((t, p) ∷ d) = do v ← get_elem? p i; vs ← column i d; some (v ∷ vs)

unfoldable pub write_values : List ℕ → List Item → List Item
write_values [] rest = rest
write_values (v ∷ vs) rest = integer (signed v) ∷ write_values vs rest

-- The columns `i`, `i + 1` and so on, as many as are left.
unfoldable pub write_columns : ℕ → ℕ → DeltaDataset → Option (List Item)
write_columns zero i d = some []
write_columns (suc left) i d = do
  vs ← column i d
  rest ← write_columns left (i + 1) d
  some (array (length d) ∷ write_values vs rest)

unfoldable pub cbor_encode : DeltaDataset → Option (List Item)
cbor_encode [] = some []
cbor_encode ((t, p) ∷ d) = do
  columns ← write_columns (length p) 0 ((t, p) ∷ d)
  some (array (length ((t, p) ∷ d)) ∷ write_timestamps ((t, p) ∷ d) columns)

pub data State : Type 0 where
  initial timestamp value : State

pub record Listener : Type 0 where
  pub state : State
  pub timestamps : List ℕ
  pub values : List (List ℕ)

-- `_values.back().push_back(value)`
unfoldable pub push_last : ℕ → List (List ℕ) → List (List ℕ)
push_last v [] = []
push_last v (c ∷ []) = (c ++ v ∷ []) ∷ []
push_last v (c ∷ e ∷ cs) = c ∷ push_last v (e ∷ cs)

-- The argument is an `int`.
unfoldable pub on_integer : ℤ → State → Listener → Listener
on_integer x initial l = l
on_integer x timestamp l = record l { timestamps = l.timestamps ++ to_u32 x ∷ [] }
on_integer x value l = record l { values = push_last (to_u16 x) l.values }

unfoldable pub on_array : State → Listener → Listener
on_array initial l = record l { state = timestamp }
on_array timestamp l = record l { values = l.values ++ [] ∷ []; state = value }
on_array value l = record l { values = l.values ++ [] ∷ [] }

-- The decoder calls `on_integer` with the integers of an `int`. What the library does with any other,
-- which the listener has no function for, is not modelled: `none`.
unfoldable pub run : List Item → Listener → Option Listener
run [] l = some l
run (array n ∷ items) l = run items (on_array l.state l)
run (integer x ∷ items) l = if is_int x then run items (on_integer x l.state l) else none

-- `values[j][i]` for each `j`.
unfoldable pub row : ℕ → List (List ℕ) → Option Datapoint
row i [] = some []
row i (c ∷ cs) = do v ← get_elem? c i; vs ← row i cs; some (v ∷ vs)

unfoldable pub rows : ℕ → List ℕ → List (List ℕ) → Option DeltaDataset
rows i [] cs = some []
rows i (t ∷ ts) cs = do p ← row i cs; d ← rows (i + 1) ts cs; some ((t, p) ∷ d)

unfoldable pub cbor_decode : List Item → Option DeltaDataset
cbor_decode items = run items (record { state = initial; timestamps = []; values = [] }) >>= λ l.
    rows 0 l.timestamps l.values
