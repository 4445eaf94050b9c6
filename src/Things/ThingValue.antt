-- ===== src/Things/ThingValue.antt =====
-- src/things/ThingValue.cpp: a property's value from JSON and back. The library's integers have 64 bits; its
-- number that is not an integer is known by the `int` that it is cut to.
pub mod RoundTrip
use Prim.Native.String.{String}
use iotic.Prelude.{
  ℕ, ℤ, pos, to_i32, Bool, true, false, Option, none, some, List, [], ◌∷◌, if◌then◌else◌,
}
use iotic.Database.Delta.{◌>>=◌}

-- A value that is no array; `opaque` is null, an object or an array within an array.
pub data Scalar : Type 0 where
  boolean : Bool → Scalar
  integer : ℤ → Scalar
  floating : ℤ → Scalar
  text : String → Scalar
  opaque : Scalar

pub data Json : Type 0 where
  scalar : Scalar → Json
  array : List Scalar → Json

pub data ThingPropertyValue : Type 0 where
  flag : Bool → ThingPropertyValue
  whole : ℤ → ThingPropertyValue
  name : String → ThingPropertyValue
  triple : ℤ → ℤ → ℤ → ThingPropertyValue
  flags : List Bool → ThingPropertyValue

-- `get<int>` and `get<bool>`; `none` is the exception for a value of another type.
unfoldable pub get_int : Scalar → Option ℤ
get_int (boolean b) = some (if b then pos 1 else pos 0)
get_int (integer i) = some (to_i32 i)
get_int (floating i) = some i
get_int (text s) = none
get_int opaque = none

unfoldable pub get_bool : Scalar → Option Bool
get_bool (boolean b) = some b
get_bool _ = none

unfoldable pub get_bools : List Scalar → Option (List Bool)
get_bools [] = some []
get_bools (x ∷ xs) = do b ← get_bool x; bs ← get_bools xs; some (b ∷ bs)

abbrev as_flags : List Scalar → Option ThingPropertyValue
as_flags xs = do bs ← get_bools xs; some (flags bs)

unfoldable pub from_array : List Scalar → Option ThingPropertyValue
from_array (integer i ∷ b ∷ c ∷ []) = do y ← get_int b; z ← get_int c; some (triple (to_i32 i) y z)
from_array xs = as_flags xs

unfoldable pub from_json_value : Json → Option ThingPropertyValue
from_json_value (scalar (boolean b)) = some (flag b)
from_json_value (scalar (integer i)) = some (whole (to_i32 i))
from_json_value (scalar (text s)) = some (name s)
from_json_value (scalar x) = do i ← get_int x; some (whole i)
from_json_value (array xs) = from_array xs

unfoldable pub booleans : List Bool → List Scalar
booleans [] = []
booleans (b ∷ bs) = boolean b ∷ booleans bs

unfoldable pub to_json_value : ThingPropertyValue → Json
to_json_value (flag b) = scalar (boolean b)
to_json_value (whole i) = scalar (integer i)
to_json_value (name s) = scalar (text s)
to_json_value (triple x y z) = array (integer x ∷ integer y ∷ integer z ∷ [])
to_json_value (flags bs) = array (booleans bs)
