-- ===== src/Database/Delta/Thin.antt =====
-- What the delta compression keeps of a day's samples.
use iotic.Prelude.{
  ℕ, ◌+◌, ◌<◌, ◌≡◌, refl, Bool, true, false, ◌&&◌, Option, none, some, [], ◌∷◌, arith, ltb, ◌==◌,
  if◌then◌else◌, Bool-cases, inl, inr,
}
use iotic.Database.Types.{Datapoint, Dataset, IsDataset}

unfoldable pub same_point : Datapoint → Datapoint → Bool
same_point [] [] = true
same_point (v ∷ p) (w ∷ q) = v == w && same_point p q
same_point _ _ = false

-- The samples without those that repeat the value of the last one kept.
unfoldable pub thin_from : Datapoint → Dataset → Dataset
thin_from last [] = []
thin_from last ((t, p) ∷ d) = if same_point p last then thin_from last d else (t, p) ∷ thin_from p d

unfoldable pub thin : Dataset → Dataset
thin [] = []
thin ((t, p) ∷ d) = (t, p) ∷ thin_from p d

-- The value that holds at a time: that of the last sample not after it.
unfoldable pub value_from : Option Datapoint → ℕ → Dataset → Option Datapoint
value_from held now [] = held
value_from held now ((t, p) ∷ d) = if ltb now t then held else value_from (some p) now d

unfoldable pub value_at : ℕ → Dataset → Option Datapoint
value_at now d = value_from none now d

pub same_point→eq : (p q : Datapoint) → same_point p q ≡ true → p ≡ q
unfolding same_point
same_point→eq [] [] e = refl
same_point→eq [] (w ∷ q) e = cc
same_point→eq (v ∷ p) [] e = cc
same_point→eq (v ∷ p) (w ∷ q) e = ground (arith, same_point→eq p q)

-- Before the first sample the value held is the one from before.
value_before :
    (held : Option Datapoint) (now low : ℕ) (d : Dataset)
    → now < low
    → IsDataset low d
    → value_from held now d ≡ held
unfolding value_from
value_before held now low [] h s = refl
value_before held now low ((t, p) ∷ d) h s = ground arith

value_thin_from :
    (last : Datapoint) (now low : ℕ) (d : Dataset)
    → IsDataset low d
    → value_from (some last) now (thin_from last d) ≡ value_from (some last) now d
unfolding thin_from value_from
value_thin_from last now low [] s = refl
value_thin_from last now low ((t, p) ∷ d) s = elim (Bool-cases (same_point p last)) [
  | inl e ↦ rw e (
      ground (
        arith,
        value_thin_from last now (t + 1) d s.2,
        value_before (some last) now (t + 1) d,
        same_point→eq p last e,
      ))
  | inr e ↦ rw e (ground (arith, value_thin_from p now (t + 1) d s.2))
]

-- Left out samples change no value: at every time the kept samples hold what all of them hold.
pub value_at-thin :
    (now low : ℕ) (d : Dataset) → IsDataset low d → value_at now (thin d) ≡ value_at now d
unfolding value_at thin value_from
value_at-thin now low [] s = refl
value_at-thin now low ((t, p) ∷ d) s = ground (arith, value_thin_from p now (t + 1) d s.2)
