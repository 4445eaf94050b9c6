-- ===== src/Database/Store/Bytes.antt =====
-- The bytes that a datapoint is stored as.
use iotic.Prelude.{◌<◌, ◌≡◌, refl, some, [], ◌∷◌, arith, All}
use iotic.Database.Types.{Datapoint, u16_mod}
use iotic.Database.Store.{to_bytes, from_bytes}

abbrev pub AreWords : Datapoint → Type 0
AreWords = All (λ v. v < u16_mod)

-- The bytes of a datapoint are below 256, and reading them back gives the datapoint.
pub from-to_bytes :
    (p : Datapoint)
    → AreWords p
    → (from_bytes (to_bytes p) ≡ some p) × All (λ b. b < 256) (to_bytes p)
unfolding from_bytes to_bytes
from-to_bytes [] w = (refl, tt)
from-to_bytes (v ∷ p) w = ground (arith, from-to_bytes p w.1)
