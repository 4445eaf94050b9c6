-- ===== src/Coap/CoreLink.antt =====
-- src/coap/CoreLinkDocument.cpp: the sensors and actuators of a link document. Text is a list of
-- bytes.
pub mod Split
use Prim.Native.Char.{code}
use Prim.Native.String.{String}
use iotic.Prelude.{
  ℕ, zero, suc, ◌+◌, ◌≡◌, Bool, true, false, ◌&&◌, ◌||◌, not, Option, none, some, List, [], ◌∷◌,
  ◌++◌, ltb, ◌==◌, if◌then◌else◌,
}

abbrev pub codes : String → List ℕ
codes String.[] = []
codes (String.◌∷◌ c s) = code c ∷ codes s

unfoldable pub list_eq : List ℕ → List ℕ → Bool
list_eq [] [] = true
list_eq (a ∷ as') (b ∷ bs) = a == b && list_eq as' bs
list_eq _ _ = false

pub data ResourceType : Type 0 where
  temperature humidity light switch_ percentage voltage current power : ResourceType

-- `magic_enum::enum_cast`: the enumerator of that name.
unfoldable pub resource_type : List ℕ → Option ResourceType
resource_type t =
    if list_eq t (codes "temperature")
    then some temperature
    else if list_eq t (codes "humidity")
    then some humidity
    else if list_eq t (codes "light")
    then some light
    else if list_eq t (codes "switch_")
    then some switch_
    else if list_eq t (codes "percentage")
    then some percentage
    else if list_eq t (codes "voltage")
    then some voltage
    else if list_eq t (codes "current")
    then some current
    else if list_eq t (codes "power")
    then some power
    else none

-- A multimap keeps the entries in the order of the keys, equal keys in the order of insertion.
abbrev pub rank : ResourceType → ℕ
rank temperature = 0
rank humidity = 1
rank light = 2
rank switch_ = 3
rank percentage = 4
rank voltage = 5
rank current = 6
rank power = 7

unfoldable pub emplace :
    ResourceType → List ℕ → List (ResourceType × List ℕ) → List (ResourceType × List ℕ)
emplace k v [] = (k, v) ∷ []
emplace k v ((j, w) ∷ m) =
    if ltb (rank k) (rank j) then (k, v) ∷ (j, w) ∷ m else (j, w) ∷ emplace k v m

pub record CoreLinkDocument : Type 0 where
  pub sensors : List (ResourceType × List ℕ)
  pub actuators : List (ResourceType × List ℕ)

-- `forEach` calls its function on these pieces, in order; their positions are the indices.
abbrev pub push_piece : ℕ → List (List ℕ) → List (List ℕ)
push_piece b [] = (b ∷ []) ∷ []
push_piece b (p ∷ ps) = (b ∷ p) ∷ ps

unfoldable pub pieces : ℕ → List ℕ → List (List ℕ)
pieces c [] = [] ∷ []
pieces c (b ∷ s) = let rest = pieces c s in if b == c then [] ∷ rest else push_piece b rest

-- `remove_prefix(1)` and `remove_suffix(1)`. On an empty view they are undefined: `none`.
abbrev pub drop_last : List ℕ → Option (List ℕ)
drop_last [] = none
drop_last (b ∷ []) = some []
drop_last (b ∷ c ∷ s) = elim (drop_last (c ∷ s)) [ none ↦ none | some t ↦ some (b ∷ t) ]

unfoldable pub unwrap : List ℕ → Option (List ℕ)
unwrap [] = none
unwrap (b ∷ s) = drop_last s

-- `subElement.find('=')` with the parts before and behind it.
unfoldable pub split_at : ℕ → List ℕ → Option (List ℕ × List ℕ)
split_at c [] = none
split_at c (b ∷ s) = elim (split_at c s) [
  | none ↦ if b == c then some ([], s) else none
  | some (k, v) ↦ if b == c then some ([], s) else some (b ∷ k, v)
]

abbrev pub Attributes : Type 0
Attributes = List (List ℕ × List ℕ)

unfoldable pub set_attribute : List ℕ → List ℕ → Attributes → Attributes
set_attribute k v [] = (k, v) ∷ []
set_attribute k v ((j, w) ∷ m) = if list_eq j k then (k, v) ∷ m else (j, w) ∷ set_attribute k v m

unfoldable pub attribute : List ℕ → Attributes → Option (List ℕ)
attribute k [] = none
attribute k ((j, w) ∷ m) = if list_eq j k then some w else attribute k m

abbrev is_empty : List ℕ → Bool
is_empty [] = true
is_empty (b ∷ s) = false

-- The sub-elements behind the first one. They are skipped where the reference is empty.
unfoldable pub read_attributes : List (List ℕ) → Attributes → Option Attributes
read_attributes [] m = some m
read_attributes (s ∷ ss) m = elim (split_at b'=' s) [
  | none ↦ read_attributes ss m
  | some (key, quoted) ↦ elim (unwrap quoted) [
    | none ↦ none
    | some value ↦ read_attributes ss (set_attribute key value m)
  ]
]

unfoldable pub add_link : List ℕ → List ℕ → List ℕ → CoreLinkDocument → CoreLinkDocument
add_link ref iface rtype doc = elim (resource_type rtype) [
  | none ↦ doc
  | some t ↦
      if list_eq iface (codes "sensor")
      then record doc { sensors = emplace t ref doc.sensors }
      else if list_eq iface (codes "actuator")
      then record doc { actuators = emplace t ref doc.actuators }
      else doc
]

unfoldable pub finish_element : List ℕ → Attributes → CoreLinkDocument → CoreLinkDocument
finish_element ref m doc = elim (attribute (codes "if") m) [
  | none ↦ doc
  | some iface ↦ elim (attribute (codes "rt") m) [
    | none ↦ doc
    | some rtype ↦ add_link ref iface rtype doc
  ]
]

abbrev attributes_of : List ℕ → List (List ℕ) → Option Attributes
attributes_of [] rest = some []
attributes_of (b ∷ ref) rest = read_attributes rest []

unfoldable pub read_element : List (List ℕ) → CoreLinkDocument → Option CoreLinkDocument
read_element [] doc = some doc
read_element (first ∷ rest) doc = elim (unwrap first) [
  | none ↦ none
  | some ref ↦ elim (attributes_of ref rest) [
    | none ↦ none
    | some m ↦ some (if is_empty ref then doc else finish_element ref m doc)
  ]
]

unfoldable pub read_elements : List (List ℕ) → CoreLinkDocument → Option CoreLinkDocument
read_elements [] doc = some doc
read_elements (e ∷ es) doc = elim (read_element (pieces b';' e) doc) [
  | none ↦ none
  | some doc' ↦ read_elements es doc'
]

-- `fault` is undefined behaviour; `nothing` is `nullopt`.
pub data Decoded : Type 0 where
  fault nothing : Decoded
  document : CoreLinkDocument → Decoded

abbrev pub decide_empty :
    CoreLinkDocument → List (ResourceType × List ℕ) → List (ResourceType × List ℕ) → Decoded
decide_empty doc [] [] = nothing
decide_empty doc (x ∷ xs) _ = document doc
decide_empty doc [] (y ∷ ys) = document doc

abbrev pub non_empty : CoreLinkDocument → Decoded
non_empty doc = decide_empty doc doc.sensors doc.actuators

unfoldable pub decode : List ℕ → Decoded
decode [] = nothing
decode (b ∷ s) =
    elim (read_elements (pieces b',' (b ∷ s)) (record { sensors = []; actuators = [] })) [
      | none ↦ fault
      | some doc ↦ non_empty doc
    ]
