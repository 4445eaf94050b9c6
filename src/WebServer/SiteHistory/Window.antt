-- ===== src/WebServer/SiteHistory/Window.antt =====
-- src/webserver/WebAppRouter.cpp: which entries of the history a range selects.
use iotic.Prelude.{
  ℕ, zero, suc, ◌+◌, ◌-◌, ◌≤◌, ◌<◌, ◌≡◌, refl, ap, ◌∙◌, ℤ, to_u32, true, List, [], ◌∷◌, ◌++◌,
  length, take, drop, length-take, length-drop, ltb, leb, ◌==◌, arith, if◌then◌else◌, Bool-cases,
  inl, inr,
}
use iotic.Strategies.Strategy.{SiteProperties}
use iotic.WebServer.SiteHistory.{
  lower, upper, one_before, Reply, fault, nothing, series, to_series, serialize_site_history,
}

-- Later entries have later times, all at least `low`.
abbrev pub IsHistory : ℕ → List SiteProperties → Type 0
IsHistory low [] = Unit {0}
IsHistory low (e ∷ l) = (low ≤ e.ts) × IsHistory (e.ts + 1) l

-- The history without the entries that are followed by another one not after `from`.
unfoldable pub since : ℕ → List SiteProperties → List SiteProperties
since from [] = []
since from (e ∷ []) = e ∷ []
since from (e ∷ f ∷ l) = if leb f.ts from then since from (f ∷ l) else e ∷ f ∷ l

-- The entries before `to`.
unfoldable pub until : ℕ → List SiteProperties → List SiteProperties
until to [] = []
until to (e ∷ l) = if leb to e.ts then [] else e ∷ until to l

abbrev pub reply_of : List SiteProperties → Reply
reply_of [] = nothing
reply_of (e ∷ l) = series (to_series (e ∷ l))

lower_after :
    (from low : ℕ) (l : List SiteProperties) → from < low → IsHistory low l → lower from l ≡ 0
unfolding lower
lower_after from low [] h s = refl
lower_after from low (e ∷ l) h s = ground arith

lower-le-upper :
    (from to low : ℕ) (l : List SiteProperties)
    → from ≤ to
    → IsHistory low l
    → lower from l ≤ upper to l + 1
unfolding lower upper
lower-le-upper from to low [] h s = omega arith
lower-le-upper from to low (e ∷ l) h s =
    ground (arith, lower-le-upper from to (e.ts + 1) l h s.1, lower_after from (e.ts + 1) l)

take-upper : (to : ℕ) (l : List SiteProperties) → take (upper to l) l ≡ until to l
unfolding upper until
take-upper to [] = refl
take-upper to (e ∷ l) = elim (Bool-cases (leb to e.ts)) [
  | inl h ↦ rw h refl
  | inr h ↦ rw h (ap (◌∷◌ e) (take-upper to l))
]

take-until :
    (to first : ℕ) (l : List SiteProperties)
    → first ≤ upper to l
    → take (upper to l - first) (drop first l) ≡ until to (drop first l)
take-until to zero l h = let n : upper to l - 0 ≡ upper to l = omega arith in rw n (take-upper to l)
take-until to (suc first) [] h = unfold upper in absurd (omega arith)
take-until to (suc first) (e ∷ l) h = elim (Bool-cases (leb to e.ts)) [
  | inl k ↦ absurd (at_most_zero k)
  | inr k ↦
      let n : upper to (e ∷ l) - suc first ≡ upper to l - first =
        unfold upper in ground (arith, k) in
      rw n (take-until to first l (unfold upper in ground (arith, k)))
]
  where
    at_most_zero : leb to e.ts ≡ true → ⊥
    at_most_zero k = unfold upper in ground (arith, k)

drop-since :
    (from low : ℕ) (l : List SiteProperties)
    → IsHistory low l
    → drop (one_before (lower from l)) l ≡ since from l
unfolding lower since
drop-since from low [] s = refl
drop-since from low (e ∷ []) s = ground arith
drop-since from low (e ∷ f ∷ l) s = elim (Bool-cases (leb f.ts from)) [
  | inl k ↦
      let before : leb e.ts from ≡ true = ground (arith, s.1.0) in
      rw (k, before) (rw k at (drop-since from (e.ts + 1) (f ∷ l) s.1))
  | inr k ↦ ground (arith, k)
]

upper_le : (to : ℕ) (l : List SiteProperties) → upper to l ≤ length l
unfolding upper
upper_le to [] = omega arith
upper_le to (e ∷ l) = ground (arith, upper_le to l)

reply_select :
    (first last : ℕ) (l w : List SiteProperties)
    → first ≤ last
    → last ≤ length l
    → take (last - first) (drop first l) ≡ w
    → (if ltb last first
        then fault
        else if last == first
        then nothing
        else series (to_series (take (last - first) (drop first l))))
      ≡ reply_of w
reply_select first last l [] h k e =
    let n = length-take (last - first) (drop first l) in
    let m = length-drop first l in
    let z : length (take (last - first) (drop first l)) ≡ 0 = ap length e in
    let same : last ≡ first = omega arith in ground arith
reply_select first last l (x ∷ w) h k e =
    let n = length-take (last - first) (drop first l) in
    let z : length (take (last - first) (drop first l)) ≡ suc (length w) = ap length e in
    let more : first < last = omega arith in ground arith

-- On a history in the order of time that is not empty, and a range whose begin is not after its end
-- once both are converted to 32 bits without a sign: of the last entry not after the begin, if there
-- is one, and all later entries, the reply has those before the end, and is empty when there is
-- none. It is never a fault.
pub serialize_window :
    (low : ℕ) (e : SiteProperties) (l : List SiteProperties) (from to : ℤ)
    → IsHistory low (e ∷ l)
    → to_u32 from ≤ to_u32 to
    → serialize_site_history (e ∷ l) from to
      ≡ reply_of (until (to_u32 to) (since (to_u32 from) (e ∷ l)))
unfolding serialize_site_history
serialize_window low e l from to s h =
    let a = to_u32 from in
    let b = to_u32 to in
    let first = one_before (lower a (e ∷ l)) in
    let last = upper b (e ∷ l) in
    let order : first ≤ last = ground (arith, lower-le-upper a b low (e ∷ l) h s) in
    let window : take (last - first) (drop first (e ∷ l)) ≡ until b (since a (e ∷ l)) =
      take-until b first (e ∷ l) order ∙ ap (until b) (drop-since a low (e ∷ l) s) in
    reply_select first last (e ∷ l) _ order (upper_le b (e ∷ l)) window

-- The begin lies behind two entries in the middle of a history, and the end before both.
lower-append :
    (low from : ℕ) (before : List SiteProperties) (e f : SiteProperties) (l : List SiteProperties)
    → IsHistory low (before ++ e ∷ f ∷ l)
    → f.ts ≤ from
    → (low ≤ e.ts) × (e.ts < f.ts) × (suc (suc (length before)) ≤ lower from (before ++ e ∷ f ∷ l))
unfolding lower
lower-append low from [] e f l s h = ground arith
lower-append low from (b ∷ before) e f l s h =
    let (later, rising, count) = lower-append (b.ts + 1) from before e f l s.1 h in ground arith

upper-append :
    (to : ℕ) (before : List SiteProperties) (e f : SiteProperties) (l : List SiteProperties)
    → to ≤ e.ts
    → upper to (before ++ e ∷ f ∷ l) ≤ length before
unfolding upper
upper-append to [] e f l h = ground arith
upper-append to (b ∷ before) e f l h = ground (arith, upper-append to before e f l h)

select_reversed :
    (l : List SiteProperties) (from to : ℤ)
    → upper (to_u32 to) l < one_before (lower (to_u32 from) l)
    → serialize_site_history l from to ≡ fault
unfolding serialize_site_history
select_reversed [] from to h = refl
select_reversed (e ∷ l) from to h = ground arith

-- On a history in the order of time, a range whose end is not after an entry, while the next entry is
-- not after its begin, both converted to 32 bits without a sign, is a fault: the source walks the
-- list from a later entry to an earlier one.
pub serialize_reversed :
    (low : ℕ) (before : List SiteProperties) (e f : SiteProperties) (l : List SiteProperties)
    (from to : ℤ)
    → IsHistory low (before ++ e ∷ f ∷ l)
    → f.ts ≤ to_u32 from
    → to_u32 to ≤ e.ts
    → serialize_site_history (before ++ e ∷ f ∷ l) from to ≡ fault
serialize_reversed low before e f l from to s hf ht =
    let count = (lower-append low (to_u32 from) before e f l s hf).2 in
    let walked = upper-append (to_u32 to) before e f l ht in
    select_reversed (before ++ e ∷ f ∷ l) from to (ground arith)
