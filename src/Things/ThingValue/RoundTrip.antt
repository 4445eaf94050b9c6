-- ===== src/Things/ThingValue/RoundTrip.antt =====
-- A value that is written as JSON is read again.
use iotic.Prelude.{◌≡◌, refl, is_int, to_i32_same, true, Bool, some, List, [], ◌∷◌}
use iotic.Things.ThingValue.{
  ThingPropertyValue, get_int, get_bool, get_bools, from_array, from_json_value, booleans,
  to_json_value,
}

get_bools-booleans : (bs : List Bool) → get_bools (booleans bs) ≡ some bs
unfolding get_bools booleans get_bool
get_bools-booleans [] = refl
get_bools-booleans (b ∷ bs) = rw (get_bools-booleans bs) refl

from_array-booleans :
    (bs : List Bool) → from_array (booleans bs) ≡ some (ThingPropertyValue.flags bs)
unfolding from_array booleans
from_array-booleans [] = unfold get_bools in refl
from_array-booleans (a ∷ bs) = rw (get_bools-booleans (a ∷ bs)) refl

-- The numbers of a value are those of an `int`.
abbrev pub HasInts : ThingPropertyValue → Type 0
HasInts (ThingPropertyValue.whole i) = is_int i ≡ true
HasInts (ThingPropertyValue.triple x y z) =
    (is_int x ≡ true) × (is_int y ≡ true) × (is_int z ≡ true)
HasInts _ = Unit {0}

-- A value of each of the five types that are read from JSON, with numbers of an `int`, written as JSON,
-- is read as it was.
pub from-to_json_value :
    (v : ThingPropertyValue) → HasInts v → from_json_value (to_json_value v) ≡ some v
unfolding from_json_value to_json_value from_array get_int
from-to_json_value (ThingPropertyValue.flag b) h = refl
from-to_json_value (ThingPropertyValue.whole i) h = rw (to_i32_same i h) refl
from-to_json_value (ThingPropertyValue.name s) h = refl
from-to_json_value (ThingPropertyValue.triple x y z) h =
    rw (to_i32_same x h.0, to_i32_same y h.1, to_i32_same z h.2) refl
from-to_json_value (ThingPropertyValue.flags bs) h = from_array-booleans bs
