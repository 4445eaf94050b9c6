-- ===== src/Coap/CoreLink/Split.antt =====
-- src/coap/CoreLinkDocument.cpp: how a text is taken apart, and what a document holds.
use iotic.Prelude.{
  ℕ, ◌≡◌, ◌≢◌, refl, ◌∙◌, ap, sym, subst, List, [], ◌∷◌, ◌++◌, arith, All, ◌==◌, Bool-cases, inl,
  inr, ==_iff,
}
use iotic.Coap.CoreLink.{pieces, unwrap, read_element, read_elements, decode, fault}

-- The pieces with the separator between them.
unfoldable pub join : ℕ → List (List ℕ) → List ℕ
join c [] = []
join c (p ∷ []) = p
join c (p ∷ q ∷ ps) = p ++ c ∷ join c (q ∷ ps)

pieces_cons : (c : ℕ) (s : List ℕ) → (p : List ℕ) × (ps : List (List ℕ)) × (pieces c s ≡ p ∷ ps)
unfolding pieces
pieces_cons c [] = ([], [], refl)
pieces_cons c (b ∷ s) =
    let (p, ps, e) = pieces_cons c s in
    elim (Bool-cases (b == c)) [
      | inl f ↦ ([], p ∷ ps, rw (f, e) refl)
      | inr f ↦ (b ∷ p, ps, rw (f, e) refl)
    ]

join_push :
    (c b : ℕ) (p : List ℕ) (ps : List (List ℕ)) → join c ((b ∷ p) ∷ ps) ≡ b ∷ join c (p ∷ ps)
unfolding join
join_push c b p [] = refl
join_push c b p (q ∷ ps) = refl

join_comma : (c : ℕ) (p : List ℕ) (ps : List (List ℕ)) → join c ([] ∷ p ∷ ps) ≡ c ∷ join c (p ∷ ps)
unfolding join
join_comma c p ps = refl

-- `forEach` loses nothing: the pieces with the separator between them are the text.
pub join-pieces : (c : ℕ) (s : List ℕ) → join c (pieces c s) ≡ s
unfolding pieces
join-pieces c [] = unfold join in refl
join-pieces c (b ∷ s) =
    let (p, ps, e) = pieces_cons c s in
    let same : join c (p ∷ ps) ≡ s = ap (join c) (sym e) ∙ join-pieces c s in
    elim (Bool-cases (b == c)) [
      | inl f ↦ rw (f, e) (rw ((==_iff b c).0 f) (join_comma c p ps ∙ ap (◌∷◌ c) same))
      | inr f ↦ rw (f, e) (join_push c b p ps ∙ ap (◌∷◌ b) same)
    ]

-- No piece holds the separator.
pub pieces_free : (c : ℕ) (s : List ℕ) → All (λ p. All (λ b. b ≢ c) p) (pieces c s)
unfolding pieces
pieces_free c [] = (tt, tt)
pieces_free c (b ∷ s) =
    let (p, ps, e) = pieces_cons c s in
    let free : All (λ q. All (λ x. x ≢ c) q) (p ∷ ps) =
      subst (All (λ q. All (λ x. x ≢ c) q)) e (pieces_free c s) in
    elim (Bool-cases (b == c)) [
      | inl f ↦ rw (f, e) (tt, free)
      | inr f ↦ rw (f, e) ((ground arith, free.0), free.1)
    ]

-- Every text that begins with a comma makes the decoder take the first byte off an empty view, which
-- is undefined behaviour.
pub decode_leading_comma : (s : List ℕ) → decode (b',' ∷ s) ≡ fault
unfolding decode pieces read_elements read_element unwrap
decode_leading_comma s = refl
