-- ===== src/Runs/Coap.antt =====
-- Runs of src/coap/CoapMessage.cpp and src/coap/CoreLinkDocument.cpp.
use iotic.Prelude.{◌≡◌, ◌≢◌, refl, [], ◌∷◌, ◌++◌, arith}
use iotic.Coap.CoreLink
use iotic.Coap.CoreLink.{Decoded, ResourceType, codes, pieces}
use iotic.Coap.CoreLink.Split.{decode_leading_comma}
use iotic.Coap.Message
use iotic.Coap.Message.{
  CoapMessage, CoapOption, encode, decode, build_discovery_request, find, ok, empty_message,
  encode_options,
}
use iotic.Coap.Message.RoundTrip.{IsMessage, options_into, decode-encode}
use iotic.Coap.Message.Total.{Decodes, decode-Decodes}
use iotic.Coap.Message.Order.{encode_unsorted}

-- A request for `core` with the content format of links, in the order in which it was built.
abbrev path : CoapOption
path = record { key = 11; value = codes "core" }

abbrev format : CoapOption
format = record { key = 12; value = 40 ∷ [] }

abbrev distant : CoapOption
distant = record { key = 2053; value = codes "a value of fourteen" }

abbrev request : CoapMessage
request = record empty_message {
  code = 1;
  message_id = 4660;
  token = 7 ∷ 8 ∷ [];
  options = distant ∷ path ∷ format ∷ [];
  payload = 1 ∷ 2 ∷ [];
}

request-IsMessage : IsMessage request
request-IsMessage = record {
  version_bits = omega arith;
  id_bits = omega arith;
  token_short = omega arith;
  options_fit =
      ((omega arith, omega arith), ((omega arith, omega arith), ((omega arith, omega arith), tt)));
}

decode-encode_example :
    decode (encode request) "10.0.0.7" 5683
    ≡ ok (record request {
      sender_address = "10.0.0.7";
      sender_port = 5683;
      options = [];
      options_map = options_into (distant ∷ path ∷ format ∷ []) [];
    })
decode-encode_example = decode-encode request "10.0.0.7" 5683 request-IsMessage

decode-Decodes_example :
    Decodes (0x50 ∷ 1 ∷ 0 ∷ 9 ∷ 0xdd ∷ []) (decode (0x50 ∷ 1 ∷ 0 ∷ 9 ∷ 0xdd ∷ []) "" 0)
decode-Decodes_example = decode-Decodes (0x50 ∷ 1 ∷ 0 ∷ 9 ∷ 0xdd ∷ []) "" 0

encode_unsorted_example :
    encode (record request { options = distant ∷ path ∷ format ∷ [] })
    ≢ encode (record request { options = path ∷ distant ∷ format ∷ [] })
encode_unsorted_example =
    encode_unsorted request distant path (format ∷ []) (omega arith) (omega arith, omega arith)
      (omega arith, omega arith) (λ e. omega arith)

decode_leading_comma_example : CoreLink.decode (codes ",</a>") ≡ Decoded.fault
decode_leading_comma_example = decode_leading_comma (codes "</a>")

-- A sensor of temperature.
decode_link :
    CoreLink.decode (codes "</t>;rt=\"temperature\";if=\"sensor\"")
    ≡ Decoded.document
        (record { sensors = (ResourceType.temperature, codes "/t") ∷ []; actuators = [] })
unfolding CoreLink.decode CoreLink.read_elements pieces CoreLink.read_element CoreLink.unwrap
    CoreLink.read_attributes CoreLink.split_at CoreLink.finish_element CoreLink.attribute
    CoreLink.set_attribute CoreLink.list_eq CoreLink.add_link CoreLink.resource_type
    CoreLink.emplace
decode_link = refl

discovery_bytes :
    encode build_discovery_request
    ≡ 0x50 ∷ 1 ∷ 0 ∷ 0 ∷ 0xbb ∷ codes ".well-known" ++ 0x04 ∷ codes "core"
unfolding encode build_discovery_request encode_options Message.encode_option
    Message.encode_extended Message.encode_payload
discovery_bytes = refl
