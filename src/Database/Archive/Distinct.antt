-- ===== src/Database/Archive/Distinct.antt =====
-- src/database/Database.cpp: which names the maps of samples have.
use Prim.Native.Char.{code}
use Prim.Native.String.{String, ◌++◌ as str_append}
use text.Mathlib.TextLemmas.{
  append_cancel_left, append_cancel_right, append_assoc, append-nil, cons-append, nil-append,
  nil≢cons,
}
use iotic.Prelude.{
  ℕ, zero, suc, ◌+◌, ◌-◌, ◌*◌, ◌/◌, ◌%◌, ◌<◌, ◌≡◌, refl, sym, ap, ◌∙◌, inl, inr, ℤ, pos, negsuc,
  Bool, true, false, ◌==◌, arith, ltb, Bool-cases, if◌then◌else◌,
}
use iotic.Database.Archive.{digit, digits, to_string, is_zero, map_name}
use iotic.Database.Store.{raw_name}
use iotic.Rules.RuleEngine.{before_dot}

-- The number that decimal digits stand for, behind a number.
value : String → ℕ → ℕ
value String.[] n = n
value (String.◌∷◌ c s) n = value s (n * 10 + (code c - 48))

value-append : (s t : String) (n : ℕ) → value (str_append s t) n ≡ value t (value s n)
unfolding value
value-append String.[] t n = ap (λ x. value x n) (nil-append t)
value-append (String.◌∷◌ c s) t n =
    ap (λ x. value x n) (cons-append c s t) ∙ value-append s t (n * 10 + (code c - 48))

value-digit : (d n : ℕ) → d < 10 → value (digit d) n ≡ n * 10 + d
unfolding value
value-digit zero n h = omega arith
value-digit (suc zero) n h = omega arith
value-digit (suc (suc zero)) n h = omega arith
value-digit (suc (suc (suc zero))) n h = omega arith
value-digit (suc (suc (suc (suc zero)))) n h = omega arith
value-digit (suc (suc (suc (suc (suc zero))))) n h = omega arith
value-digit (suc (suc (suc (suc (suc (suc zero)))))) n h = omega arith
value-digit (suc (suc (suc (suc (suc (suc (suc zero))))))) n h = omega arith
value-digit (suc (suc (suc (suc (suc (suc (suc (suc zero)))))))) n h = omega arith
value-digit (suc (suc (suc (suc (suc (suc (suc (suc (suc zero))))))))) n h = omega arith
value-digit (suc (suc (suc (suc (suc (suc (suc (suc (suc (suc d)))))))))) n h = absurd (omega arith)

value-digits : (fuel n : ℕ) → n < fuel → value (digits fuel n) 0 ≡ n
unfolding digits
value-digits zero n h = absurd (omega arith)
value-digits (suc fuel) n h = elim (Bool-cases (ltb n 10)) [
  | inl one ↦ rw one (value-digit n 0 (ground (arith, one)) ∙ omega arith)
  | inr further ↦
      let large : 9 < n = ground (arith, further) in
      rw further (
        value-append (digits fuel (n / 10)) (digit (n % 10)) 0
        ∙ value-digit (n % 10) (value (digits fuel (n / 10)) 0) (omega arith)
        ∙ ap (λ x. x * 10 + n % 10) (value-digits fuel (n / 10) (omega arith))
        ∙ omega arith)
]

starts_minus : String → Bool
starts_minus String.[] = false
starts_minus (String.◌∷◌ c s) = code c == 45

starts_minus-append :
    (s t : String)
    → starts_minus s ≡ false
    → starts_minus t ≡ false
    → starts_minus (str_append s t) ≡ false
unfolding starts_minus
starts_minus-append String.[] t h k = ap starts_minus (nil-append t) ∙ k
starts_minus-append (String.◌∷◌ c s) t h k = ap starts_minus (cons-append c s t) ∙ h

starts_minus-digit : (d : ℕ) → d < 10 → starts_minus (digit d) ≡ false
unfolding starts_minus
starts_minus-digit zero h = refl
starts_minus-digit (suc zero) h = refl
starts_minus-digit (suc (suc zero)) h = refl
starts_minus-digit (suc (suc (suc zero))) h = refl
starts_minus-digit (suc (suc (suc (suc zero)))) h = refl
starts_minus-digit (suc (suc (suc (suc (suc zero))))) h = refl
starts_minus-digit (suc (suc (suc (suc (suc (suc zero)))))) h = refl
starts_minus-digit (suc (suc (suc (suc (suc (suc (suc zero))))))) h = refl
starts_minus-digit (suc (suc (suc (suc (suc (suc (suc (suc zero)))))))) h = refl
starts_minus-digit (suc (suc (suc (suc (suc (suc (suc (suc (suc zero))))))))) h = refl
starts_minus-digit (suc (suc (suc (suc (suc (suc (suc (suc (suc (suc d)))))))))) h =
    absurd (omega arith)

starts_minus-digits : (fuel n : ℕ) → starts_minus (digits fuel n) ≡ false
unfolding digits starts_minus
starts_minus-digits zero n = refl
starts_minus-digits (suc fuel) n = elim (Bool-cases (ltb n 10)) [
  | inl one ↦ rw one (starts_minus-digit n (ground (arith, one)))
  | inr further ↦ rw further (
      starts_minus-append (digits fuel (n / 10)) (digit (n % 10))
        (starts_minus-digits fuel (n / 10)) (starts_minus-digit (n % 10) (omega arith)))
]

starts_minus-minus : (s : String) → starts_minus (str_append "-" s) ≡ true
unfolding starts_minus
starts_minus-minus s = ap starts_minus (cons-append "-" String.[] s)

digits_injective : (m n : ℕ) → digits (suc m) m ≡ digits (suc n) n → m ≡ n
digits_injective m n e =
    sym (value-digits (suc m) m (omega arith))
    ∙ ap (λ s. value s 0) e
    ∙ value-digits (suc n) n (omega arith)

-- Two numbers are not written alike.
pub to_string_injective : (a b : ℤ) → to_string a ≡ to_string b → a ≡ b
unfolding to_string
to_string_injective (pos m) (pos n) e = ap pos (digits_injective m n e)
to_string_injective (pos m) (negsuc n) e =
    let plain = starts_minus-digits (suc m) m in
    let minus = starts_minus-minus (digits (suc (suc n)) (suc n)) in
    let same = ap starts_minus e in cc
to_string_injective (negsuc m) (pos n) e =
    let plain = starts_minus-digits (suc n) n in
    let minus = starts_minus-minus (digits (suc (suc m)) (suc m)) in
    let same = ap starts_minus e in cc
to_string_injective (negsuc m) (negsuc n) e =
    let same =
      digits_injective (suc m) (suc n)
        (append_cancel_left "-" (digits (suc (suc m)) (suc m)) (digits (suc (suc n)) (suc n)) e) in
    ap negsuc (omega arith)

-- A name without a dot, as the identifiers of things and the names of properties are.
abbrev pub HasNoDot : String → Type 0
HasNoDot String.[] = Unit
HasNoDot (String.◌∷◌ c s) = ((code c == 46) ≡ false) × HasNoDot s

before_dot-append : (s t : String) → HasNoDot s → before_dot (str_append s (str_append "." t)) ≡ s
unfolding before_dot
before_dot-append String.[] t h =
    ap before_dot (nil-append (str_append "." t) ∙ cons-append "." String.[] t)
before_dot-append (String.◌∷◌ c s) t h =
    ap before_dot (cons-append c s (str_append "." t))
    ∙ rw h.0 (ap (String.◌∷◌ c) (before_dot-append s t h.1))

before_dot-HasNoDot : (s : String) → HasNoDot s → before_dot s ≡ s
unfolding before_dot
before_dot-HasNoDot String.[] h = refl
before_dot-HasNoDot (String.◌∷◌ c s) h = rw h.0 (ap (String.◌∷◌ c) (before_dot-HasNoDot s h.1))

-- What follows the names of the thing and of the property.
abbrev suffix : ℤ → String
suffix r = if is_zero r then "" else str_append (str_append "." (to_string r)) "min"

map_name_lem :
    (thing property : String) (r : ℤ)
    → map_name thing property r ≡ str_append thing (str_append "." (str_append property (suffix r)))
unfolding map_name raw_name
map_name_lem thing property r = elim (Bool-cases (is_zero r)) [
  | inl whole ↦ rw whole (
      append_assoc thing "." property
      ∙ ap (λ p. str_append thing (str_append "." p)) (sym (append-nil property)))
  | inr minutes ↦
      let x = str_append (str_append "." (to_string r)) "min" in
      rw minutes (
        append_assoc (str_append thing ".") property x
        ∙ append_assoc thing "." (str_append property x))
]

before_dot-suffix : (p : String) (r : ℤ) → HasNoDot p → before_dot (str_append p (suffix r)) ≡ p
before_dot-suffix p r h = elim (Bool-cases (is_zero r)) [
  | inl whole ↦ rw whole (ap before_dot (append-nil p) ∙ before_dot-HasNoDot p h)
  | inr minutes ↦ rw minutes (
      ap (λ x. before_dot (str_append p x)) (append_assoc "." (to_string r) "min")
      ∙ before_dot-append p (str_append (to_string r) "min") h)
]

zero_resolution : (r : ℤ) → is_zero r ≡ true → r ≡ pos 0
unfolding is_zero
zero_resolution (pos n) h = ap pos (ground (arith, h))
zero_resolution (negsuc n) h = cc

dot-ne-nil : (x y : String) → "" ≡ str_append (str_append "." x) y → ⊥
dot-ne-nil x y e = nil≢cons (
    e
    ∙ ap (λ z. str_append z y) (cons-append "." String.[] x)
    ∙ cons-append "." (str_append String.[] x) y)

suffix_injective : (q r : ℤ) → suffix q ≡ suffix r → q ≡ r
suffix_injective q r e = elim (Bool-cases (is_zero q)) [
  | inl whole ↦ elim (Bool-cases (is_zero r)) [
    | inl other ↦ zero_resolution q whole ∙ sym (zero_resolution r other)
    | inr minutes ↦ absurd (dot-ne-nil (to_string r) "min" (rw (whole, minutes) at e))
  ]
  | inr minutes ↦ elim (Bool-cases (is_zero r)) [
    | inl whole ↦ absurd (dot-ne-nil (to_string q) "min" (sym (rw (minutes, whole) at e)))
    | inr other ↦ to_string_injective q r (
        append_cancel_left "." (to_string q) (to_string r) (
          append_cancel_right (str_append "." (to_string q)) (str_append "." (to_string r)) "min"
            (rw (minutes, other) at e)))
  ]
]

split_dot :
    (s t x y : String)
    → HasNoDot s
    → HasNoDot t
    → str_append s (str_append "." x) ≡ str_append t (str_append "." y)
    → (s ≡ t) × (x ≡ y)
split_dot s t x y h k e =
    let same : s ≡ t = sym (before_dot-append s x h) ∙ ap before_dot e ∙ before_dot-append t y k in
    (
      same,
      append_cancel_left "." x y (
          append_cancel_left t (str_append "." x) (str_append "." y)
            (ap (λ z. str_append z (str_append "." x)) (sym same) ∙ e)),
    )

-- Samples of two things, of two properties or of two resolutions are never in one map, if the names of
-- the things and of the properties have no dot.
pub map_name_injective :
    (thing property other key : String) (q r : ℤ)
    → HasNoDot thing
    → HasNoDot other
    → HasNoDot property
    → HasNoDot key
    → map_name thing property q ≡ map_name other key r
    → (thing ≡ other) × (property ≡ key) × (q ≡ r)
map_name_injective thing property other key q r h k f g e =
    let split =
      split_dot thing other (str_append property (suffix q)) (str_append key (suffix r)) h k
        (sym (map_name_lem thing property q) ∙ e ∙ map_name_lem other key r) in
    let same : property ≡ key =
      sym (before_dot-suffix property q f) ∙ ap before_dot split.1 ∙ before_dot-suffix key r g in
    (
      split.0,
      same,
      suffix_injective q r (
          append_cancel_left key (suffix q) (suffix r)
            (ap (λ z. str_append z (suffix q)) (sym same) ∙ split.1)),
    )
