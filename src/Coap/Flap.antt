-- ===== src/Coap/Flap.antt =====
-- src/things/ThingDiscovery.cpp and src/appDiscover/AppDiscover.cpp: the values of two flaps in a message.
-- The arithmetic of `float` and the parser of CBOR are parameters.
use iotic.Prelude.{ℕ, ℤ, pos, Option, none, some, List, [], ◌∷◌, ◌==◌, if◌then◌else◌}
use iotic.Coap.Message.{CoapMessage, code_content}

-- `ratio n d` is the `float` that is nearest to the quotient.
pub record FloatOps : Type 1 where
  pub Float : Type 0
  pub of_int : ℤ → Float
  pub ratio : ℕ → ℕ → Float
  pub mul : Float → Float → Float
  pub div : Float → Float → Float
  pub sub : Float → Float → Float
  pub round : Float → ℤ

module _ (ops : FloatOps) where
  open ops use {Float, of_int, ratio, mul, div, sub, round}

  abbrev volts : ℤ → Float
  volts flap = mul (div (mul (of_int flap) (ratio 33 10)) (ratio 4095 1)) (ratio 32 10)

  -- The reading of a converter of 12 bits, scaled to percent of the range from 2 V to 10 V.
  unfoldable pub flap_percent : ℤ → ℤ
  flap_percent flap = round (mul (div (sub (volts flap) (ratio 2 1)) (ratio 8 1)) (ratio 100 1))

  abbrev two_flaps : Option (List ℤ) → Option (List ℤ)
  two_flaps (some (a ∷ b ∷ [])) = some (flap_percent a ∷ flap_percent b ∷ pos 0 ∷ [])
  two_flaps _ = none

  -- What the application for discovery prints of a message: nothing unless it has a content, with an
  -- array `flap` of two numbers.
  unfoldable pub printed_flaps : (List ℕ → Option (List ℤ)) → CoapMessage → Option (List ℤ)
  printed_flaps flap message =
      if message.code == code_content then two_flaps (flap message.payload) else none
