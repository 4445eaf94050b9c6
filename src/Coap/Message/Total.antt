-- ===== src/Coap/Message/Total.antt =====
-- src/coap/CoapMessage.cpp: `decode` on any input, and the map that it builds.
use Prim.Native.String.{String}
use iotic.Prelude.{
  ℕ, zero, suc, ◌+◌, ◌/◌, ◌%◌, ◌≤◌, ◌<◌, ◌≡◌, ◌≢◌, refl, ◌∙◌, ◌⊎◌, inl, inr, Bool, true, false,
  Option, none, some, List, [], ◌∷◌, length, take, drop, length-take, length-drop, ltb, ◌==◌, arith,
  All, Bool-cases, if◌then◌else◌,
}
use iotic.Coap.Message.{
  CoapMessage, CoapOption, Result, ok, malformed, stuck, emplace, find, extended, decode_options,
  decode,
}
use iotic.Coap.Message.RoundTrip.{options_into}

-- The keys of a map rise, and equal ones stay together.
abbrev pub IsSorted : List (ℕ × List ℕ) → Type 0
IsSorted [] = Unit {0}
IsSorted ((k, v) ∷ m) = All (λ e. k ≤ e.0) m × IsSorted m

-- Keys are 16 bits wide.
abbrev pub HasKeys : List (ℕ × List ℕ) → Type 0
HasKeys m = All (λ e. e.0 < 65536) m

All-emplace :
    (P : ℕ × List ℕ → Type 0) (k : ℕ) (v : List ℕ) (m : List (ℕ × List ℕ))
    → P (k, v)
    → All P m
    → All P (emplace k v m)
unfolding emplace
All-emplace P k v [] h a = (h, tt)
All-emplace P k v ((j, w) ∷ m) h a = elim (Bool-cases (ltb k j)) [
  | inl e ↦ rw e (h, a)
  | inr e ↦ rw e (a.0, All-emplace P k v m h a.1)
]

All-le : (j k : ℕ) (m : List (ℕ × List ℕ)) → j ≤ k → All (λ e. k ≤ e.0) m → All (λ e. j ≤ e.0) m
All-le j k [] h a = tt
All-le j k ((i, v) ∷ m) h a = (omega arith, All-le j k m h a.1)

emplace-IsSorted :
    (k : ℕ) (v : List ℕ) (m : List (ℕ × List ℕ)) → IsSorted m → IsSorted (emplace k v m)
unfolding emplace
emplace-IsSorted k v [] h = (tt, tt)
emplace-IsSorted k v ((j, w) ∷ m) h = elim (Bool-cases (ltb k j)) [
  | inl e ↦ rw e ((ground arith, All-le k j m (ground arith) h.0), h)
  | inr e ↦ rw e (All-emplace _ k v m (ground arith) h.0, emplace-IsSorted k v m h.1)
]

-- A key is found at its oldest entry.
abbrev or_new : Option (List ℕ) → Bool → List ℕ → Option (List ℕ)
or_new none true v = some v
or_new none false v = none
or_new (some w) b v = some w

find_above : (i j : ℕ) (m : List (ℕ × List ℕ)) → i < j → All (λ e. j ≤ e.0) m → find i m ≡ none
unfolding find
find_above i j [] h a = refl
find_above i j ((k, v) ∷ m) h a = ground (arith, a.0, find_above i j m h a.1)

find-emplace :
    (i k : ℕ) (v : List ℕ) (m : List (ℕ × List ℕ))
    → IsSorted m
    → find i (emplace k v m) ≡ or_new (find i m) (k == i) v
unfolding find emplace
find-emplace i k v [] h = ground arith
find-emplace i k v ((j, w) ∷ m) h = ground (arith, find-emplace i k v m h.1, find_above i j m)

-- The value of the first option with a key.
unfoldable pub first_value : ℕ → List CoapOption → Option (List ℕ)
first_value i [] = none
first_value i (o ∷ os) = if o.key == i then some o.value else first_value i os

abbrev or_else : Option (List ℕ) → Option (List ℕ) → Option (List ℕ)
or_else none y = y
or_else (some x) y = some x

find-options_into_from :
    (i : ℕ) (os : List CoapOption) (m : List (ℕ × List ℕ))
    → IsSorted m
    → find i (options_into os m) ≡ or_else (find i m) (first_value i os)
unfolding options_into first_value
find-options_into_from i [] m h = ground arith
find-options_into_from i (o ∷ os) m h =
    find-options_into_from i os (emplace o.key o.value m) (emplace-IsSorted o.key o.value m h)
    ∙ ground (arith, find-emplace i o.key o.value m h)

-- In the map that a message's options make, a key is looked up as the first option that has it.
pub find-options_into :
    (i : ℕ) (os : List CoapOption) → find i (options_into os []) ≡ first_value i os
find-options_into i os = find-options_into_from i os [] tt ∙ unfold find in refl

extended_shrinks :
    (nibble : ℕ) (bytes : List ℕ) (v : ℕ) (rest : List ℕ)
    → extended nibble bytes ≡ ok (v, rest)
    → length rest ≤ length bytes
unfolding extended
extended_shrinks nibble [] v rest e = ground arith
extended_shrinks nibble (a ∷ []) v rest e = ground arith
extended_shrinks nibble (a ∷ b ∷ bytes) v rest e = ground arith

extended-ne-stuck : (nibble : ℕ) (bytes : List ℕ) → extended nibble bytes ≢ stuck
unfolding extended
extended-ne-stuck nibble [] e = ground arith
extended-ne-stuck nibble (a ∷ []) e = ground arith
extended-ne-stuck nibble (a ∷ b ∷ bytes) e = ground arith

Result-cases {ℓ} :
    {A : Type ℓ} (r : Result A) → r ≢ stuck → ((a : A) × (r ≡ ok a)) ⊎ (r ≡ malformed)
Result-cases (ok a) h = inl (a, refl)
Result-cases malformed h = inr refl
Result-cases stuck h = absurd (h refl)

-- What the loop answers on enough fuel.
abbrev Loops : List (ℕ × List ℕ) → List ℕ → Result (List (ℕ × List ℕ) × List ℕ) → Type 0
Loops m bytes (ok (m', payload)) = IsSorted m' × HasKeys m' × (length payload ≤ length bytes)
Loops m bytes malformed = Unit {0}
Loops m bytes stuck = ⊥

Loops-longer :
    (m : List (ℕ × List ℕ)) (x y : List ℕ) (r : Result (List (ℕ × List ℕ) × List ℕ))
    → length x ≤ length y
    → Loops m x r
    → Loops m y r
Loops-longer m x y (ok (m', payload)) h (s, k, l) = (s, k, omega arith)
Loops-longer m x y malformed h l = tt
Loops-longer m x y stuck h l = l

Loops-cases :
    (m : List (ℕ × List ℕ)) (bytes : List ℕ) (r : Result (List (ℕ × List ℕ) × List ℕ))
    → Loops m bytes r
    → ((m' : List (ℕ × List ℕ)) × (payload : List ℕ) × (r ≡ ok (m', payload))
        × IsSorted m'
        × HasKeys m'
        × (length payload ≤ length bytes))
      ⊎ (r ≡ malformed)
Loops-cases m bytes (ok (m', payload)) l = inl (m', payload, refl, l.0, l.1, l.2)
Loops-cases m bytes malformed l = inr refl
Loops-cases m bytes stuck l = absurd l

decode_options-Loops :
    (fuel number : ℕ) (bytes : List ℕ) (m : List (ℕ × List ℕ))
    → length bytes ≤ fuel
    → IsSorted m
    → HasKeys m
    → Loops m bytes (decode_options fuel number bytes m)
unfolding decode_options
decode_options-Loops zero number [] m h s k = (s, k, omega arith)
decode_options-Loops (suc fuel) number [] m h s k = (s, k, omega arith)
decode_options-Loops zero number (b ∷ bytes) m h s k = absurd (omega arith)
decode_options-Loops (suc fuel) number (b ∷ bytes) m h s k = elim (Bool-cases (b == 0xff)) [
  | inl e ↦ rw e (s, k, omega arith)
  | inr e ↦ elim (Result-cases (extended (b / 16) bytes) (extended-ne-stuck (b / 16) bytes)) [
    | inr d ↦ rw (e, d) tt
    | inl ((delta, bytes'), d) ↦
        elim (Result-cases (extended (b % 16) bytes') (extended-ne-stuck (b % 16) bytes')) [
          | inr l ↦ rw (e, d) (rw l tt)
          | inl ((size, rest), l) ↦ elim (Bool-cases (ltb (length rest) size)) [
            | inl f ↦ rw (e, d) (rw l (rw f tt))
            | inr f ↦
                let n = (number + delta) % 65536 in
                let shorter : length (drop size rest) ≤ length bytes = omega (
                  arith,
                  length-drop size rest,
                  extended_shrinks _ bytes delta bytes' d,
                  extended_shrinks _ bytes' size rest l,
                ) in
                rw (e, d)
                  (rw l (
                    rw f (
                      Loops-longer m (drop size rest) (b ∷ bytes) _ (omega arith) (
                        decode_options-Loops fuel n (drop size rest) (emplace n (take size rest) m)
                          (omega arith) (emplace-IsSorted n (take size rest) m s)
                          (All-emplace _ n (take size rest) m (omega arith) k)))))
          ]
        ]
  ]
]

-- What a decoded message guarantees.
pub record IsDecoded (bytes : List ℕ) (m : CoapMessage) : Type 0 where
  pub version_bits : m.version < 4
  pub token_short : length m.token ≤ 12
  pub sorted : IsSorted m.options_map
  pub keys : HasKeys m.options_map
  pub payload_fits : length m.payload + length m.token + 4 ≤ length bytes

abbrev pub Decodes : List ℕ → Result CoapMessage → Type 0
Decodes bytes (ok m) = IsDecoded bytes m
Decodes bytes malformed = Unit {0}
Decodes bytes stuck = ⊥

-- On every input `decode` ends, with `nullopt` or with a message that has a version of two bits, a
-- token of at most twelve bytes, a map with rising keys of 16 bits and a payload that fits into the
-- input behind the header and the token.
pub decode-Decodes :
    (bytes : List ℕ) (address : String) (port : ℕ) → Decodes bytes (decode bytes address port)
unfolding decode
decode-Decodes [] address port = tt
decode-Decodes (a ∷ []) address port = tt
decode-Decodes (a ∷ b ∷ []) address port = tt
decode-Decodes (a ∷ b ∷ c ∷ []) address port = tt
decode-Decodes (hdr ∷ code ∷ high ∷ low ∷ bytes) address port =
    elim (Bool-cases (ltb 12 (hdr % 16))) [
      | inl e ↦ rw e tt
      | inr e ↦ elim (Bool-cases (ltb (length bytes) (hdr % 16))) [
        | inl f ↦ rw (e, f) tt
        | inr f ↦
            let rest = drop (hdr % 16) bytes in
            let n = length-drop (hdr % 16) bytes in
            let loops = decode_options-Loops (length bytes) 0 rest [] (omega arith) tt tt in
            elim (Loops-cases [] rest (decode_options (length bytes) 0 rest []) loops) [
              | inl (m, payload, o, sorted, keys, fits) ↦
                  rw (e, f)
                    (rw o (record {
                      version_bits = omega arith;
                      token_short = ground (arith, length-take (hdr % 16) bytes);
                      sorted = sorted;
                      keys = keys;
                      payload_fits = ground (arith, length-take (hdr % 16) bytes);
                    }))
              | inr o ↦ rw (e, f) (rw o tt)
            ]
      ]
    ]
