-- ===== src/Coap/Message/Order.antt =====
-- src/coap/CoapMessage.cpp: the options are written in the order of the list.
use iotic.Prelude.{
  ℕ, ◌+◌, ◌-◌, ◌*◌, ◌/◌, ◌%◌, ◌≤◌, ◌≡◌, ◌≢◌, drop, ltb, false, sym, ap, ◌∙◌, List, [], ◌∷◌, ◌++◌,
  length, arith,
}
use iotic.Coap.Message.{
  CoapMessage, CoapOption, encode, encode_payload, Result, ok, malformed, extended, encode_extended,
  encode_option, encode_options,
}
use iotic.Coap.Message.RoundTrip.{
  Fits, extended-encode_extended, not_below, take-length, drop-length-append,
}

-- The number that a receiver reads off the first option.
first_number : List ℕ → Result (ℕ × List ℕ)
first_number [] = malformed
first_number (b ∷ bytes) = extended (b / 16) bytes

number_of : Result (ℕ × List ℕ) → ℕ
number_of (ok (n, bytes)) = n
number_of _ = 0

first_number-encode_option :
    (o : CoapOption) (rest : List ℕ)
    → Fits o
    → number_of (first_number (encode_option 0 o rest)) ≡ o.key
unfolding first_number encode_option number_of
first_number-encode_option o rest (hk, hv) =
    let x = (o.key + 65536 - 0) % 65536 in
    let l = encode_extended (length o.value % 65536) in
    let d = encode_extended x in
    let ed = extended-encode_extended x (l.1 ++ (o.value ++ rest)) (omega arith) in
    let el = extended-encode_extended (length o.value % 65536) [] (omega arith) in
    let high : (d.0 * 16 + l.0) / 16 ≡ d.0 = omega (arith, el.0) in rw high (rw ed.1 (omega arith))

-- Behind the header and the token of an encoded message are its options, the first one first.
drop-encode :
    (m : CoapMessage) (o : CoapOption) (os : List CoapOption)
    → length m.token ≤ 12
    → drop (length m.token) (drop 4 (encode (record m { options = o ∷ os })))
      ≡ encode_option 0 o (encode_options o.key os (encode_payload m.payload))
unfolding encode encode_options
drop-encode m o os h =
    let n = length m.token in
    let here : n % 256 ≡ n = omega (arith, h) in
    let short : ltb 12 n ≡ false = not_below 12 n h in
    rw (here, short, take-length m.token) (drop-length-append m.token _)

-- Two messages with a token of at most 12 bytes that differ only in the order of the first two options,
-- whose keys are different, are encoded to different bytes: `encode` does not sort them.
pub encode_unsorted :
    (m : CoapMessage) (a b : CoapOption) (os : List CoapOption)
    → length m.token ≤ 12
    → Fits a
    → Fits b
    → a.key ≢ b.key
    → encode (record m { options = a ∷ b ∷ os }) ≢ encode (record m { options = b ∷ a ∷ os })
encode_unsorted m a b os short fa fb h e =
    let pay = encode_payload m.payload in
    let left = encode_options a.key (b ∷ os) pay in
    let right = encode_options b.key (a ∷ os) pay in
    let options : encode_option 0 a left ≡ encode_option 0 b right =
      sym (drop-encode m a (b ∷ os) short)
      ∙ ap (λ bytes. drop (length m.token) (drop 4 bytes)) e
      ∙ drop-encode m b (a ∷ os) short in
    h (
      sym (first_number-encode_option a left fa)
      ∙ ap (λ bytes. number_of (first_number bytes)) options
      ∙ first_number-encode_option b right fb)
