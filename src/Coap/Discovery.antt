-- ===== src/Coap/Discovery.antt =====
-- src/coap/CoapDiscovery.cpp and src/coap/CoapThing.cpp: packets in and out. The socket belongs to a
-- library; a packet is what it delivers.
use Prim.Native.String.{String}
use iotic.Prelude.{ℕ, Bool, Option, none, some, List, [], ◌∷◌, if◌then◌else◌}
use iotic.Coap.Message.{
  CoapMessage, Result, ok, malformed, stuck, decode, encode, build_discovery_request, empty_message,
  code_get,
}

pub record Packet : Type 0 where
  pub partial : Bool
  pub bytes : List ℕ
  pub ip : String
  pub port : ℕ

abbrev published : Result CoapMessage → Option CoapMessage
published (ok m) = some m
published malformed = none
published stuck = none

-- What the handler publishes: no partial packet and no invalid one.
unfoldable pub on_udp_data : Packet → Option CoapMessage
on_udp_data p = if p.partial then none else published (decode p.bytes p.ip p.port)

-- The packet that `discover` sends to the group.
unfoldable pub discover : Packet
discover = record {
  partial = Bool.false;
  bytes = encode build_discovery_request;
  ip = "224.0.1.187";
  port = 5683;
}

-- The identifier is the bytes of the token.
pub record CoapThing : Type 0 where
  pub id : List ℕ

abbrev thing_of : List ℕ → Option CoapThing
thing_of [] = none
thing_of (b ∷ token) = some (record { id = b ∷ token })

unfoldable pub from : CoapMessage → Option CoapThing
from message = thing_of message.token

-- The message that `fetchProperties` builds and does not send.
unfoldable pub fetch_properties : CoapMessage
fetch_properties = record empty_message { code = code_get }
