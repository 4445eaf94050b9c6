-- ===== src/Coap/Message.antt =====
-- src/coap/CoapMessage.cpp: the encoder and the decoder of CoAP messages. Bytes are numbers; the
-- bitwise or of separate bit fields is written as a sum.
pub mod RoundTrip
pub mod Total
pub mod Order
use Prim.Native.String.{String}
use iotic.Prelude.{
  ℕ, zero, suc, ◌+◌, ◌-◌, ◌*◌, ◌/◌, ◌%◌, Bool, true, false, Option, none, some, List, [], ◌∷◌, ◌++◌,
  length, take, drop, ltb, ◌==◌, if◌then◌else◌,
}
use iotic.Coap.CoreLink.{CoreLinkDocument, Decoded, codes}
use iotic.Coap.CoreLink

-- `CoapMessage::Type`, two bits wide.
pub data MessageType : Type 0 where
  confirmable non_confirmable acknowledgement reset : MessageType

abbrev pub type_bits : MessageType → ℕ
type_bits confirmable = 0
type_bits non_confirmable = 1
type_bits acknowledgement = 2
type_bits reset = 3

abbrev pub type_of : ℕ → MessageType
type_of n =
    if n == 0
    then confirmable
    else if n == 1
    then non_confirmable
    else if n == 2
    then acknowledgement
    else reset

-- `CoapMessage::Code`, any byte; those that the code tests.
abbrev pub code_get : ℕ
code_get = 0x01

abbrev pub code_content : ℕ
code_content = 0x45

-- `CoapMessage::OptionKey` and `CoapMessage::ContentFormat`, 16 bits wide.
abbrev pub key_uri_path : ℕ
key_uri_path = 11

abbrev pub key_content_format : ℕ
key_content_format = 12

abbrev pub application_link_format : ℕ
application_link_format = 40

pub record CoapOption : Type 0 where
  pub key : ℕ
  pub value : List ℕ

pub record CoapMessage : Type 0 where
  pub sender_address : String
  pub sender_port : ℕ
  pub version : ℕ
  pub type : MessageType
  pub code : ℕ
  pub message_id : ℕ
  pub token : List ℕ
  pub options : List CoapOption
  pub options_map : List (ℕ × List ℕ)
  pub payload : List ℕ
  pub core_link_document : Option CoreLinkDocument

-- The default values of the members.
abbrev pub empty_message : CoapMessage
empty_message = record {
  sender_address = "";
  sender_port = 0;
  version = 1;
  type = non_confirmable;
  code = 0;
  message_id = 0;
  token = [];
  options = [];
  options_map = [];
  payload = [];
  core_link_document = none;
}

-- `std::multimap::emplace`: behind the entries of the same key.
unfoldable pub emplace : ℕ → List ℕ → List (ℕ × List ℕ) → List (ℕ × List ℕ)
emplace k v [] = (k, v) ∷ []
emplace k v ((j, w) ∷ m) = if ltb k j then (k, v) ∷ (j, w) ∷ m else (j, w) ∷ emplace k v m

unfoldable pub find : ℕ → List (ℕ × List ℕ) → Option (List ℕ)
find k [] = none
find k ((j, w) ∷ m) = if j == k then some w else find k m

-- `ok`, `malformed` for `nullopt`; `stuck` is no value of the source: the loop ran out of fuel.
pub data Result {ℓ} (A : Type ℓ) : Type ℓ where
  ok : A → Result A
  malformed stuck : Result A

infixl 5 ◌>>=◌
abbrev pub ◌>>=◌ {ℓ κ} : {A : Type ℓ} {B : Type κ} → Result A → (A → Result B) → Result B
ok a >>= f = f a
malformed >>= f = malformed
stuck >>= f = stuck

-- The value of a nibble and of the bytes that extend it, and the bytes that follow.
unfoldable pub extended : ℕ → List ℕ → Result (ℕ × List ℕ)
extended nibble bytes =
    if ltb nibble 13
    then ok (nibble, bytes)
    else if nibble == 13
    then elim bytes [ [] ↦ malformed | a ∷ rest ↦ ok (13 + a, rest) ]
    else if nibble == 14
    then elim bytes [
      | [] ↦ malformed
      | a ∷ more ↦ elim more [ [] ↦ malformed | b ∷ rest ↦ ok ((269 + a * 256 + b) % 65536, rest) ]
    ]
    else malformed

-- The loop over the options with the bytes that remain, the number of the last option and the map;
-- its result has the payload.
unfoldable pub decode_options :
    ℕ → ℕ → List ℕ → List (ℕ × List ℕ) → Result (List (ℕ × List ℕ) × List ℕ)
decode_options fuel number [] m = ok (m, [])
decode_options zero number (b ∷ bytes) m = stuck
decode_options (suc fuel) number (b ∷ bytes) m = if b == 0xff then ok (m, bytes) else do
  (delta, bytes') ← extended (b / 16) bytes
  (size, rest) ← extended (b % 16) bytes'
  let number' = (number + delta) % 65536
  let m' = emplace number' (take size rest) m
  if ltb (length rest) size then malformed else decode_options fuel number' (drop size rest) m'

unfoldable pub decode : List ℕ → String → ℕ → Result CoapMessage
decode (hdr ∷ code ∷ id_high ∷ id_low ∷ bytes) address port =
    let token_length = hdr % 16 in
    if ltb 12 token_length
    then malformed
    else if ltb (length bytes) token_length
    then malformed
    else do
      (options, payload) ← decode_options (length bytes) 0 (drop token_length bytes) []
      ok (record empty_message {
        version = hdr / 64 % 4;
        type = type_of (hdr / 16 % 4);
        code = code;
        message_id = id_high * 256 + id_low;
        token = take token_length bytes;
        options_map = options;
        payload = payload;
        sender_address = address;
        sender_port = port;
      })
decode _ address port = malformed

-- `encode_extended`: the nibble and the bytes that extend it.
unfoldable pub encode_extended : ℕ → ℕ × List ℕ
encode_extended x =
    if ltb x 13
    then (x, [])
    else if ltb x 269
    then (13, (x - 13) ∷ [])
    else (14, ((x - 269) / 256 % 256) ∷ ((x - 269) % 256) ∷ [])

-- One round of the loop over the options: the number as a difference to the last one, the length
-- and the value, in front of the `rest` of the message. Numbers and lengths are 16 bits wide.
unfoldable pub encode_option : ℕ → CoapOption → List ℕ → List ℕ
encode_option number opt rest =
    let (base_delta, ext_delta) = encode_extended ((opt.key + 65536 - number) % 65536) in
    let (base_length, ext_length) = encode_extended (length opt.value % 65536) in
    (base_delta * 16 + base_length) ∷ ext_delta ++ (ext_length ++ (opt.value ++ rest))

-- The loop goes through the options in the order of the list: the sorted copy that the source makes
-- is not the one that it loops over.
unfoldable pub encode_options : ℕ → List CoapOption → List ℕ → List ℕ
encode_options number [] rest = rest
encode_options number (opt ∷ options) rest =
    encode_option number opt (encode_options opt.key options rest)

unfoldable pub encode_payload : List ℕ → List ℕ
encode_payload [] = []
encode_payload (b ∷ bytes) = 0xff ∷ b ∷ bytes

-- The length of the token is kept in a byte.
unfoldable pub encode : CoapMessage → List ℕ
encode m =
    let token_len = length m.token % 256 in
    if ltb 12 token_len
    then []
    else ((m.version % 4) * 64 + type_bits m.type * 16 + token_len)
        ∷ m.code
        ∷ (m.message_id / 256)
        ∷ (m.message_id % 256)
        ∷ take token_len m.token
      ++ encode_options 0 m.options (encode_payload m.payload)

unfoldable pub build_discovery_request : CoapMessage
build_discovery_request = record empty_message {
  code = code_get;
  options =
      record { key = key_uri_path; value = codes ".well-known" }
      ∷ record { key = key_uri_path; value = codes "core" }
      ∷ [];
}

-- The answer and the message with the document that `isDiscoveryResponse` stores in it. `none` is a
-- fault of the document's decoder.
abbrev pub document_of : Decoded → Option (Option CoreLinkDocument)
document_of Decoded.fault = none
document_of Decoded.nothing = some none
document_of (Decoded.document doc) = some (some doc)

abbrev pub is_link_format : Option (List ℕ) → Bool
is_link_format (some (b ∷ [])) = b == application_link_format
is_link_format _ = false

abbrev pub has_document : Option CoreLinkDocument → Bool
has_document none = false
has_document (some doc) = true

unfoldable pub is_discovery_response : CoapMessage → Option (CoapMessage × Bool)
is_discovery_response m =
    if m.code == code_content
    then if is_link_format (find key_content_format m.options_map)
      then elim (document_of (CoreLink.decode m.payload)) [
        | none ↦ none
        | some d ↦ some (record m { core_link_document = d }, has_document d)
      ]
      else some (m, false)
    else some (m, false)
