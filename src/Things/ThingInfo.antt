-- ===== src/Things/ThingInfo.antt =====
-- src/things/ThingInfo.cpp. A text is the list of its bytes.
use Prim.Native.String.{String}
use iotic.Prelude.{
  ℕ, ◌+◌, ◌≡◌, refl, Bool, true, false, ◌&&◌, ◌||◌, not, List, [], ◌∷◌, map, leb, arith,
  if◌then◌else◌,
}

pub data DiscoveryType : Type 0 where
  invalid sun_spec http : DiscoveryType

pub record ThingInfo : Type 0 where
  pub discovery_type : DiscoveryType
  pub id : List ℕ
  pub host : String

unfoldable pub to_lower : ℕ → ℕ
to_lower c = if leb 65 c && leb c 90 then c + 32 else c

-- `[^a-z0-9]` is replaced by `_`.
unfoldable pub replaced : ℕ → ℕ
replaced c = if (leb 97 c && leb c 122) || (leb 48 c && leb c 57) then c else 95

unfoldable pub normal_id : List ℕ → List ℕ
normal_id id = map replaced (map to_lower id)

unfoldable pub thing_info : DiscoveryType → List ℕ → String → ThingInfo
thing_info type id host = record { discovery_type = type; id = normal_id id; host = host }

abbrev is_discovered : DiscoveryType → Bool
is_discovered DiscoveryType.invalid = false
is_discovered _ = true

abbrev is_empty : List ℕ → Bool
is_empty [] = true
is_empty _ = false

unfoldable pub is_valid : ThingInfo → Bool
is_valid t = is_discovered t.discovery_type && not (is_empty t.id)

-- An identifier that was made before stays as it is.
pub normal_id_again : (id : List ℕ) → normal_id (normal_id id) ≡ normal_id id
unfolding normal_id to_lower replaced
normal_id_again [] = refl
normal_id_again (c ∷ id) = ground (arith, normal_id_again id)
