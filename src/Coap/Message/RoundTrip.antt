-- ===== src/Coap/Message/RoundTrip.antt =====
-- src/coap/CoapMessage.cpp: what `encode` writes, `decode` reads back.
use Prim.Native.String.{String}
use iotic.Prelude.{
  ℕ, zero, suc, ◌+◌, ◌-◌, ◌*◌, ◌/◌, ◌%◌, ◌≤◌, ◌<◌, ◌≡◌, refl, ◌∙◌, ap, false, none, List, [], ◌∷◌,
  ◌++◌, length, length-append, take, drop, ltb, ◌==◌, arith, All,
}
use iotic.Coap.Message.{
  CoapMessage, CoapOption, ok, emplace, extended, decode_options, decode, encode_extended,
  encode_option, encode_options, encode_payload, encode, type_bits, type_of, MessageType,
}

-- The map that the options of a message make, on top of the map `m`.
unfoldable pub options_into : List CoapOption → List (ℕ × List ℕ) → List (ℕ × List ℕ)
options_into [] m = m
options_into (o ∷ os) m = options_into os (emplace o.key o.value m)

-- Keys are 16 bits wide, and so are the lengths of the values.
abbrev pub Fits : CoapOption → Type 0
Fits o = (o.key < 65536) × (length o.value < 65536)

pub extended-encode_extended :
    (x : ℕ) (rest : List ℕ)
    → x < 65536
    → ((encode_extended x).0 < 15)
      × (extended (encode_extended x).0 ((encode_extended x).1 ++ rest) ≡ ok (x, rest))
unfolding extended encode_extended
extended-encode_extended x rest h = ground arith

take-length-append {ℓ} : {A : Type ℓ} (xs ys : List A) → take (length xs) (xs ++ ys) ≡ xs
take-length-append [] ys = refl
take-length-append (x ∷ xs) ys = ap (◌∷◌ x) (take-length-append xs ys)

pub drop-length-append {ℓ} : {A : Type ℓ} (xs ys : List A) → drop (length xs) (xs ++ ys) ≡ ys
drop-length-append [] ys = refl
drop-length-append (x ∷ xs) ys = drop-length-append xs ys

decode_payload :
    (fuel number : ℕ) (payload : List ℕ) (m : List (ℕ × List ℕ))
    → length (encode_payload payload) ≤ fuel
    → decode_options fuel number (encode_payload payload) m ≡ ok (m, payload)
unfolding decode_options encode_payload
decode_payload zero number [] m h = refl
decode_payload (suc fuel) number [] m h = refl
decode_payload zero number (b ∷ bytes) m h = absurd (omega arith)
decode_payload (suc fuel) number (b ∷ bytes) m h = refl

-- One round of the loop.
decode_step :
    (fuel number b delta size number' : ℕ) (bytes bytes' value rest : List ℕ)
    (m : List (ℕ × List ℕ))
    → (b == 0xff) ≡ false
    → extended (b / 16) bytes ≡ ok (delta, bytes')
    → extended (b % 16) bytes' ≡ ok (size, value ++ rest)
    → size ≡ length value
    → (number + delta) % 65536 ≡ number'
    → decode_options (suc fuel) number (b ∷ bytes) m
      ≡ decode_options fuel number' rest (emplace number' value m)
unfolding decode_options
decode_step fuel number b delta size number' bytes bytes' value rest m plain d l e n =
    rw (plain, d)
      (rw (l, e, n, take-length-append value rest, drop-length-append value rest)
        (rw (room (length (value ++ rest)) (length value) (omega (arith, length-append value rest)))
          refl))
  where
    room : (x y : ℕ) → y ≤ x → ltb x y ≡ false
    room x y h = ground arith

-- One round on one encoded option.
decode_option :
    (fuel number : ℕ) (o : CoapOption) (rest : List ℕ) (m : List (ℕ × List ℕ))
    → number < 65536
    → Fits o
    → decode_options (suc fuel) number (encode_option number o rest) m
      ≡ decode_options fuel o.key rest (emplace o.key o.value m)
unfolding encode_option
decode_option fuel number o rest m h (hk, hv) =
    let x = (o.key + 65536 - number) % 65536 in
    let y = length o.value % 65536 in
    let d = encode_extended x in
    let l = encode_extended y in
    let ed = extended-encode_extended x (l.1 ++ (o.value ++ rest)) (omega arith) in
    let el = extended-encode_extended y (o.value ++ rest) (omega arith) in
    let high : (d.0 * 16 + l.0) / 16 ≡ d.0 = omega (arith, el.0) in
    let low : (d.0 * 16 + l.0) % 16 ≡ l.0 = omega (arith, el.0) in
    let plain : (d.0 * 16 + l.0 == 0xff) ≡ false = ground (arith, ed.0, el.0) in
    let ed' : extended ((d.0 * 16 + l.0) / 16) (d.1 ++ (l.1 ++ (o.value ++ rest)))
        ≡ ok (x, l.1 ++ (o.value ++ rest)) =
      rw high ed.1 in
    let el' : extended ((d.0 * 16 + l.0) % 16) (l.1 ++ (o.value ++ rest))
        ≡ ok (y, o.value ++ rest) =
      rw low el.1 in
    decode_step fuel number (d.0 * 16 + l.0) x y o.key (d.1 ++ (l.1 ++ (o.value ++ rest)))
      (l.1 ++ (o.value ++ rest)) o.value rest m plain ed' el' (omega arith) (omega arith)

encode_options_longer :
    (number : ℕ) (o : CoapOption) (rest : List ℕ)
    → length rest < length (encode_option number o rest)
unfolding encode_option
encode_options_longer number o rest = omega (
  arith,
  length-append (encode_extended ((o.key + 65536 - number) % 65536)).1
      ((encode_extended (length o.value % 65536)).1 ++ (o.value ++ rest)),
  length-append (encode_extended (length o.value % 65536)).1 (o.value ++ rest),
  length-append o.value rest,
)

decode-encode_options :
    (fuel number : ℕ) (os : List CoapOption) (payload : List ℕ) (m : List (ℕ × List ℕ))
    → number < 65536
    → All Fits os
    → length (encode_options number os (encode_payload payload)) ≤ fuel
    → decode_options fuel number (encode_options number os (encode_payload payload)) m
      ≡ ok (options_into os m, payload)
unfolding encode_options options_into
decode-encode_options fuel number [] payload m h fits enough =
    decode_payload fuel number payload m enough
decode-encode_options zero number (o ∷ os) payload m h fits enough = absurd (
    omega
      (arith, encode_options_longer number o (encode_options o.key os (encode_payload payload))))
decode-encode_options (suc fuel) number (o ∷ os) payload m h fits enough =
    decode_option fuel number o (encode_options o.key os (encode_payload payload)) m h fits.0
    ∙ decode-encode_options fuel o.key os payload (emplace o.key o.value m) fits.0.0 fits.1 (
        omega (
          arith,
          encode_options_longer number o (encode_options o.key os (encode_payload payload)),
        ))

pub take-length {ℓ} : {A : Type ℓ} (xs : List A) → take (length xs) xs ≡ xs
take-length [] = refl
take-length (x ∷ xs) = ap (◌∷◌ x) (take-length xs)

pub not_below : (x y : ℕ) → y ≤ x → ltb x y ≡ false
not_below x y h = ground arith

type_of-type_bits : (t : MessageType) → type_of (type_bits t) ≡ t
type_of-type_bits t = ground arith

type_bits-lt : (t : MessageType) → type_bits t < 4
type_bits-lt t = ground arith

-- The three fields of the first byte.
header :
    (version : ℕ) (t : MessageType) (n : ℕ)
    → version < 4
    → n < 16
    → ((version % 4 * 64 + type_bits t * 16 + n) % 16 ≡ n)
      × ((version % 4 * 64 + type_bits t * 16 + n) / 16 % 4 ≡ type_bits t)
      × ((version % 4 * 64 + type_bits t * 16 + n) / 64 % 4 ≡ version)
header version t n h k =
    (omega (arith, type_bits-lt t), omega (arith, type_bits-lt t), omega (arith, type_bits-lt t))

-- A message whose fields have the widths that the source gives them.
pub record IsMessage (m : CoapMessage) : Type 0 where
  pub version_bits : m.version < 4
  pub id_bits : m.message_id < 65536
  pub token_short : length m.token ≤ 12
  pub options_fit : All Fits m.options

-- A decoder that is given what `encode` wrote finds the header, the token and the payload again, and
-- in its map the options, whatever their order in the message.
pub decode-encode :
    (m : CoapMessage) (address : String) (port : ℕ)
    → IsMessage m
    → decode (encode m) address port
      ≡ ok (record m {
        sender_address = address;
        sender_port = port;
        options = [];
        options_map = options_into m.options [];
        core_link_document = none;
      })
unfolding decode encode
decode-encode m address port v =
    let n = length m.token in
    let h = m.version % 4 * 64 + type_bits m.type * 16 + n in
    let (low, mid, high) =
      header m.version m.type n v.version_bits (omega (arith, v.token_short)) in
    let bytes = encode_options 0 m.options (encode_payload m.payload) in
    let here : n % 256 ≡ n = omega (arith, v.token_short) in
    let short : ltb 12 n ≡ false = not_below 12 n v.token_short in
    let room : ltb (length (m.token ++ bytes)) n ≡ false =
      not_below _ n (omega (arith, length-append m.token bytes)) in
    rw (here, short, take-length m.token, low)
      (rw (short, room, take-length-append m.token bytes, drop-length-append m.token bytes)
        (rw
          (decode-encode_options (length (m.token ++ bytes)) 0 m.options m.payload [] (omega arith)
            v.options_fit (omega (arith, length-append m.token bytes)))
          (rw (high, mid) (ground (arith, type_of-type_bits m.type, v.id_bits)))))
