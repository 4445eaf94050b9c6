-- ===== src/Things/Shelly.antt =====
-- src/shelly/ShellyGen2Thing.cpp. A path is sent to the device by the library; the JSON of a body is
-- what the library has parsed.
pub mod Rotation
use Prim.Native.String.{String, ◌++◌ as str_append}
use text.Mathlib.Text.{◌==◌ as str_eq}
use iotic.Prelude.{
  ℕ, ◌+◌, ◌%◌, ℤ, pos, Bool, true, false, Option, none, some, List, [], ◌∷◌, ◌++◌, length,
  get_elem?, if◌then◌else◌,
}
use iotic.Database.Delta.{◌>>=◌}
use iotic.Database.Archive.{to_string}

-- The service record of a response, when it has one.
pub record SrvData : Type 0 where
  pub target : String
  pub port : ℕ

pub record ShellyGen2Thing : Type 0 where
  pub host : String
  pub port : ℕ
  pub phase_to_set : ℕ

-- `up_to_dot` is the text before the first dot.
unfoldable pub from_response : (String → String) → Option SrvData → Option ShellyGen2Thing
from_response up_to_dot none = none
from_response up_to_dot (some srv) =
    some (record { host = up_to_dot srv.target; port = srv.port; phase_to_set = 0 })

unfoldable pub switch_path : ℕ → Bool → String
switch_path phase state =
    str_append (str_append (str_append "/rpc/Switch.Set?id=" (to_string (pos phase))) "&on=")
      (if state then "true" else "false")

-- The path that is set, and the thing with the next phase; `none` is a read outside the states.
unfoldable pub on_set_properties : List Bool → ShellyGen2Thing → Option (String × ShellyGen2Thing)
on_set_properties states thing = do
  state ← get_elem? states thing.phase_to_set
  some (
    switch_path thing.phase_to_set state,
    record thing { phase_to_set = (thing.phase_to_set + 1) % length states },
  )

pub data Member : Type 0 where
  boolean : Bool → Member
  other_member : Member

-- A member of the body: an object with its members, or another value.
pub data Value : Type 0 where
  object : List (String × Member) → Value
  other_value : Value

pub record Published : Type 0 where
  pub multistate_selector : List Bool
  pub digital_input : List Bool

-- `none` where the member is not there, whose value is read all the same.
unfoldable pub member : String → List (String × Member) → Option Member
member name [] = none
member name ((k, m) ∷ ms) = if str_eq k name then some m else member name ms

abbrev push_bool : List Bool → Member → List Bool
push_bool values (boolean b) = values ++ b ∷ []
push_bool values other_member = values

abbrev push_member : String → List Bool → Value → Option (List Bool)
push_member name values other_value = some values
push_member name values (object ms) = do m ← member name ms; some (push_bool values m)

-- The loop over the members of the body; `has_prefix` is `starts_with`.
unfoldable pub read_members :
    (String → String → Bool) → List (String × Value) → Published → Option Published
read_members has_prefix [] p = some p
read_members has_prefix ((key, value) ∷ members) p =
    if has_prefix "input:" key
    then (do
      inputs ← push_member "state" p.digital_input value
      read_members has_prefix members (record p { digital_input = inputs }))
    else if has_prefix "switch:" key
    then (do
      switches ← push_member "output" p.multistate_selector value
      read_members has_prefix members (record p { multistate_selector = switches }))
    else read_members has_prefix members p

-- What is published for a body; `none` for the body stands for one that is not a JSON object.
unfoldable pub on_body :
    (String → String → Bool) → Option (List (String × Value)) → Option Published
on_body has_prefix none = some (record { multistate_selector = []; digital_input = [] })
on_body has_prefix (some members) =
    read_members has_prefix members (record { multistate_selector = []; digital_input = [] })
