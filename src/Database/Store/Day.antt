-- ===== src/Database/Store/Day.antt =====
-- What the cursors of `rawData` and `eraseRawData` visit of a map whose keys rise.
use Prim.Native.String.{String}
use mathlib.Core.List.{append_assoc, append-nil}
use text.Mathlib.Text.{◌==◌ as str_eq}
use text.Mathlib.TextEquality.{eq_iff}
use iotic.Prelude.{
  ℕ, ◌+◌, ◌≤◌, ◌<◌, ◌≡◌, refl, sym, ap, ◌∙◌, Option, some, List, [], ◌∷◌, ◌++◌, inl, inr, arith,
  leb, if◌then◌else◌, Bool-cases, All, leb→le,
}
use iotic.Database.Types.{Datapoint, Dataset, IsDataset, put}
use iotic.Database.Delta.RoundTrip.{put_last}
use iotic.Database.Environment.{Entries, Environment, from_key, without_key}
use iotic.Database.Store.{to_bytes, read_until, erase_until}
use iotic.Database.Store.Bytes.{AreWords, from-to_bytes}
use iotic.Database.Store.Table.{within, outside}

-- A map's samples as the environment has them.
unfoldable pub encode : Dataset → Entries
encode [] = []
encode ((t, p) ∷ d) = (t, to_bytes p) ∷ encode d

pub encode-put :
    (t : ℕ) (p : Datapoint) (d : Dataset) → encode (put t p d) ≡ put t (to_bytes p) (encode d)
unfolding encode put
encode-put t p [] = refl
encode-put t p ((u, q) ∷ d) = ground (arith, encode-put t p d)

encode-snoc :
    (t : ℕ) (p : Datapoint) (c : Dataset) (es : Entries)
    → encode (c ++ (t, p) ∷ []) ++ es ≡ encode c ++ (t, to_bytes p) ∷ es
unfolding encode
encode-snoc t p [] es = refl
encode-snoc t p ((u, q) ∷ c) es = ap (λ r. (u, to_bytes q) ∷ r) (encode-snoc t p c es)

-- Nothing of a map whose keys are past the end stands inside.
within_above :
    (start stop low : ℕ) (d : Dataset) → stop ≤ low → IsDataset low d → within start stop d ≡ []
unfolding within
within_above start stop low [] h s = refl
within_above start stop low ((t, p) ∷ d) h s = ground (arith, within_above start stop (t + 1) d)

outside_above :
    (start stop low : ℕ) (d : Dataset) → stop ≤ low → IsDataset low d → outside start stop d ≡ d
unfolding outside
outside_above start stop low [] h s = refl
outside_above start stop low ((t, p) ∷ d) h s = ground (arith, outside_above start stop (t + 1) d)

pub All-later :
    (low t : ℕ) (p : Datapoint) (d : Dataset)
    → low ≤ t
    → All (λ e. e.0 < low) d
    → All (λ e. e.0 < t) d × All (λ e. e.0 < t + 1) (d ++ (t, p) ∷ [])
All-later low t p [] h a = (tt, (omega arith, tt))
All-later low t p ((u, q) ∷ d) h a =
    let (b, c) = All-later low t p d h a.1 in ((omega (arith, a.0), b), (omega (arith, a.0), c))

read_in :
    (start stop low : ℕ) (d acc : Dataset)
    → start ≤ low
    → IsDataset low d
    → All (λ e. AreWords e.1) d
    → All (λ e. e.0 < low) acc
    → read_until stop (encode d) acc ≡ some (acc ++ within start stop d)
unfolding read_until encode within
read_in start stop low [] acc h s w a = ap some (sym (append-nil acc))
read_in start stop low ((t, p) ∷ d) acc h s w a =
    let (before, after) = All-later low t p acc s.0 a in
    let rest =
      read_in start stop (t + 1) d (acc ++ (t, p) ∷ []) (omega (arith, s.0)) s.2 w.1 after in
    let past = within_above start stop (t + 1) d in
    elim (Bool-cases (leb stop t)) [
      | inl e ↦ ground (arith, past, append-nil acc)
      | inr e ↦
          rw
            (
              (from-to_bytes p w.0).0,
              put_last t p acc before,
              rest,
              append_assoc acc ((t, p) ∷ []) (within start stop d),
            )
            (ground arith)
    ]

-- A read from the first key not before the start gives the samples inside.
pub read-from_key :
    (start stop low : ℕ) (d : Dataset)
    → IsDataset low d
    → All (λ e. AreWords e.1) d
    → read_until stop (from_key start (encode d)) [] ≡ some (within start stop d)
unfolding encode from_key within
read-from_key start stop low [] s w = read_in start stop start [] [] (omega arith) tt tt tt
read-from_key start stop low ((t, p) ∷ d) s w = elim (Bool-cases (leb start t)) [
  | inl e ↦
      let all =
        read_in start stop t ((t, p) ∷ d) [] (leb→le start t e) (omega arith, s.1, s.2) w tt in
      rw e (rw e at all)
  | inr e ↦ ground (arith, read-from_key start stop (t + 1) d s.2 w.1)
]

without_key-append :
    (t : ℕ) (v : List ℕ) (c : Dataset) (es : Entries)
    → All (λ e. e.0 < t) c
    → without_key t (encode c ++ (t, v) ∷ es) ≡ encode c ++ es
unfolding encode without_key
without_key-append t v [] es a = ground arith
without_key-append t v ((u, q) ∷ c) es a = ground (arith, without_key-append t v c es a.1)

outside-in :
    (start stop t : ℕ) (p : Datapoint) (d : Dataset)
    → start ≤ t
    → t < stop
    → outside start stop ((t, p) ∷ d) ≡ outside start stop d
unfolding outside
outside-in start stop t p d h k = ground arith

module _ {Env : Type 0} ⦃M : Environment Env⦄ where
  pub if-same :
      (name : String) (e : Env) (o : Option Entries)
      → M.entries e name ≡ o
      → (m : String) → M.entries e m ≡ (if str_eq name m then o else M.entries e m)
  if-same name e o h m = elim (Bool-cases (str_eq name m)) [
    | inl same ↦ rw same (ap (M.entries e) (sym ((eq_iff name m).0 same)) ∙ h)
    | inr differ ↦ rw differ refl
  ]

  erase_in :
      (name : String) (start stop low : ℕ) (c d : Dataset) (e : Env)
      → start ≤ low
      → IsDataset low d
      → All (λ x. x.0 < low) c
      → M.entries e name ≡ some (encode c ++ encode d)
      → (m : String)
      → M.entries (erase_until name stop (encode d) e) m ≡ (
          if str_eq name m then some (encode c ++ encode (outside start stop d)) else M.entries e m)
  unfolding erase_until encode outside
  erase_in name start stop low c [] e h s a q m = if-same name e (some (encode c ++ [])) q m
  erase_in name start stop low c ((t, p) ∷ d) e h s a q m =
      let (before, after) = All-later low t p c s.0 a in
      let erased = M.entries-erase name t e (encode c ++ (t, to_bytes p) ∷ encode d) q in
      let here : M.entries (M.erase name t e) name ≡ some (encode c ++ encode d) =
        erased name
        ∙ rw ((eq_iff name name).1 refl, without_key-append t (to_bytes p) c (encode d) before)
            refl in
      let rest =
        erase_in name start stop (t + 1) c d (M.erase name t e) (omega (arith, s.0)) s.2
          (All-later low (t + 1) p c (omega (arith, s.0)) a).0 here m in
      elim (Bool-cases (leb stop t)) [
        | inl stopped ↦
            rw
              (
                stopped,
                outside_above start stop t ((t, p) ∷ d) (leb→le stop t stopped)
                    (omega arith, s.1, s.2),
              )
              (if-same name e (some (encode c ++ (t, to_bytes p) ∷ encode d)) q m)
        | inr going ↦
            rw (going, outside-in start stop t p d (omega (arith, s.0)) (ground arith))
              (rest ∙ elim (Bool-cases (str_eq name m)) [
                | inl same ↦ rw same refl
                | inr differ ↦ rw (differ, erased m, differ) refl
              ])
      ]

  erase_onward :
      (name : String) (start stop low : ℕ) (c d : Dataset) (e : Env)
      → IsDataset low d
      → All (λ x. x.0 < low) c
      → M.entries e name ≡ some (encode c ++ encode d)
      → (m : String)
      → M.entries (erase_until name stop (from_key start (encode d)) e) m ≡ (
          if str_eq name m then some (encode c ++ encode (outside start stop d)) else M.entries e m)
  unfolding encode from_key outside erase_until
  erase_onward name start stop low c [] e s a q m = if-same name e (some (encode c ++ [])) q m
  erase_onward name start stop low c ((t, p) ∷ d) e s a q m = elim (Bool-cases (leb start t)) [
    | inl here ↦
        let visited =
          erase_in name start stop t c ((t, p) ∷ d) e (leb→le start t here) (omega arith, s.1, s.2)
            (All-later low t p c s.0 a).0 q m in
        rw here (rw here at visited)
    | inr differ ↦
        let rest =
          erase_onward name start stop (t + 1) (c ++ (t, p) ∷ []) d e s.2
            (All-later low t p c s.0 a).1 (q ∙ ap some (sym (encode-snoc t p c (encode d)))) m in
        rw differ (rw (encode-snoc t p c (encode (outside start stop d))) at rest)
  ]

  -- An erasure from the first key not before the start leaves the samples outside, and the other maps.
  pub erase-from_key :
      (name : String) (start stop : ℕ) (d : Dataset) (e : Env)
      → IsDataset 0 d
      → M.entries e name ≡ some (encode d)
      → (m : String)
      → M.entries (erase_until name stop (from_key start (encode d)) e) m
        ≡ (if str_eq name m then some (encode (outside start stop d)) else M.entries e m)
  unfolding encode
  erase-from_key name start stop d e s q m = erase_onward name start stop 0 [] d e s tt q m

  pub room-erase_until :
      (name : String) (stop : ℕ) (es : Entries) (e : Env)
      → M.room (erase_until name stop es e) ≡ M.room e
  unfolding erase_until
  room-erase_until name stop [] e = refl
  room-erase_until name stop ((t, v) ∷ es) e = elim (Bool-cases (leb stop t)) [
    | inl stopped ↦ rw stopped refl
    | inr going ↦
        rw going (room-erase_until name stop es (M.erase name t e) ∙ M.room-erase name t e)
  ]
