-- ===== src/Things/ThingDiscovery.antt =====
-- src/things/ThingDiscovery.cpp: what discovered devices do to the repository of things, which is a
-- library's and is known by the identifiers of its things; what is called of it is a list. The
-- arithmetic of `float`, and the things that a factory makes of a host name, are parameters.
use Prim.Native.String.{String}
use iotic.Prelude.{
  ℕ, ℤ, pos, Bool, true, false, Option, none, some, List, [], ◌∷◌, ◌++◌, ◌==◌, ◌&&◌, ◌||◌,
  if◌then◌else◌,
}
use iotic.Coap.Message.{CoapMessage}
use iotic.Coap.Discovery.{CoapThing, from}
use iotic.Things.Shelly.{SrvData, ShellyGen2Thing, from_response}

pub data Call (Thing : Type 0) : Type 0 where
  add_coap_thing : CoapThing → Call Thing
  add_thing : Thing → Call Thing
  add_relay : ShellyGen2Thing → Call Thing
  set_voltages : List ℕ → ℤ → ℤ → ℤ → Call Thing

-- "PicoW" at the front of a token.
unfoldable pub starts_with_pico : List ℕ → Bool
starts_with_pico (a ∷ b ∷ c ∷ d ∷ e ∷ token) = a == 80 && b == 105 && c == 99 && d == 111 && e == 87
starts_with_pico _ = false

unfoldable pub same_id : List ℕ → List ℕ → Bool
same_id [] [] = true
same_id (c ∷ id) (d ∷ other) = c == d && same_id id other
same_id _ _ = false

unfoldable pub contains_id : List (List ℕ) → List ℕ → Bool
contains_id [] id = false
contains_id (i ∷ ids) id = same_id i id || contains_id ids id

module _ {Thing : Type 0} where
  abbrev added_coap_thing : Option CoapThing → List (Call Thing)
  added_coap_thing none = []
  added_coap_thing (some thing) = Call.add_coap_thing thing ∷ []

  -- `percent` is the scaling of a flap's value, which Coap/Flap.antt models.
  abbrev set_flaps : (ℤ → ℤ) → List (List ℕ) → CoapMessage → Option (List ℤ) → List (Call Thing)
  set_flaps percent ids message (some (a ∷ b ∷ [])) =
      (if contains_id ids message.token then [] else added_coap_thing (from message))
      ++ Call.set_voltages message.token (percent a) (percent b) (pos 0) ∷ []
  set_flaps percent ids message _ = []

  -- `flap` is the array of that name in the CBOR of a payload, of whole numbers.
  unfoldable pub on_coap_message :
      (ℤ → ℤ) → (List ℕ → Option (List ℤ)) → List (List ℕ) → CoapMessage → List (Call Thing)
  on_coap_message percent flap ids message =
      if starts_with_pico message.token
      then set_flaps percent ids message (flap message.payload)
      else []

  abbrev added_thing : Option Thing → List (Call Thing)
  added_thing none = []
  added_thing (some thing) = Call.add_thing thing ∷ []

  -- An HTTP service is a thing when the factory knows its host.
  unfoldable pub on_http_service :
      (String → String) → (String → Option Thing) → Option SrvData → List (Call Thing)
  on_http_service up_to_dot factory none = []
  on_http_service up_to_dot factory (some data_srv) =
      added_thing (factory (up_to_dot data_srv.target))

  abbrev added_relay : Option ShellyGen2Thing → List (Call Thing)
  added_relay none = []
  added_relay (some thing) = Call.add_relay thing ∷ []

  unfoldable pub on_shelly_service : (String → String) → Option SrvData → List (Call Thing)
  on_shelly_service up_to_dot srv = added_relay (from_response up_to_dot srv)

  -- A device that speaks SunSpec is a thing, which `make` makes of its client.
  unfoldable pub on_sunspec_client :
      {Client : Type 0} → (Client → Thing) → Client → List (Call Thing)
  on_sunspec_client make client = Call.add_thing (make client) ∷ []
