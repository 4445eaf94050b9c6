-- ===== src/WebServer/DateRoute.antt =====
-- src/webserver/WebServer.cpp: the route of a day's archived samples. A text of the request is the list
-- of its bytes where it is parsed; whether a name is that of a property is the enum library's answer.
pub mod Requests
use Prim.Native.String.{String}
use iotic.Prelude.{
  ℕ, ◌+◌, ◌-◌, ◌*◌, ℤ, pos, sub_ℕ, Bool, true, false, ◌&&◌, not, Option, none, some, List, [], ◌∷◌,
  ltb, leb, ◌==◌, if◌then◌else◌,
}
use iotic.Common.Date.{YearMonthDay, is_digit, parse_ymd, ok, sys_days}
use iotic.Database.Delta.{◌>>=◌}
use iotic.Database.Cbor.{Item}
use iotic.Database.Environment.{Environment}
use iotic.Database.Store.{Store, Outcome}
use iotic.Database.Archive.{archived_data}

pub data DayReply : Type 0 where
  invalid_key : String → DayReply
  invalid_date : List ℕ → DayReply
  cbor : List ℕ → DayReply

-- The digits at the front of a text, on top of the value before them.
unfoldable pub take_digits : ℕ → List ℕ → ℕ
take_digits value [] = value
take_digits value (c ∷ cs) =
    let rest = take_digits (value * 10 + (c - 48)) cs in if is_digit c then rest else value

abbrev pub starts_digit : List ℕ → Bool
starts_digit [] = false
starts_digit (c ∷ cs) = is_digit c

-- `std::from_chars` into an `int`, which keeps its value when no number stands in front, or none that
-- fits.
unfoldable pub from_chars : ℤ → List ℕ → ℤ
from_chars value [] = value
from_chars value (c ∷ cs) =
    if c == 45 && starts_digit cs
    then (if leb (take_digits 0 cs) 2147483648 then sub_ℕ 0 (take_digits 0 cs) else value)
    else if is_digit c && ltb (take_digits 0 (c ∷ cs)) 2147483648
    then pos (take_digits 0 (c ∷ cs))
    else value

module _ {Env : Type 0} ⦃M : Environment Env⦄ where
  abbrev answer : List ℕ × Outcome Env → DayReply × Outcome Env
  answer (bytes, o) = (DayReply.cbor bytes, o)

  -- What is sent, and what it leaves of the database; `none` is a fault.
  unfoldable pub get_day :
      (List Item → List ℕ)
      → ℤ
      → (String → Bool)
      → String
      → String
      → List ℕ
      → List ℕ
      → Store Env
      → Option (DayReply × Outcome Env)
  get_day bytes_of today is_property thing property date min s =
      let ymd = parse_ymd date in
      if not (is_property property)
      then some (DayReply.invalid_key property, Outcome.returned s)
      else if not (ok ymd)
      then some (DayReply.invalid_date date, Outcome.returned s)
      else (do
        a ← archived_data bytes_of today thing property (sys_days ymd) (from_chars (pos 5) min) s
        some (answer a))
