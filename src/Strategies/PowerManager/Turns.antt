-- ===== src/Strategies/PowerManager/Turns.antt =====
-- src/strategies/PowerManager.cpp: which calls of `adjust` one cycle makes, and when.
use mathlib.Core.List.{Mem, mem-cons, mem-cons_self, mem-cons_of_mem, mem-reverse, not-mem-nil}
use mathlib.Core.List.{Perm-prop, perm_middle, append-nil}
use mathlib.Core.List.Perm
use mathlib.Core.Logic.Or
use iotic.Prelude.{
  ℕ, ◌&&◌, ◌+◌, ◌≤◌, ◌≡◌, refl, sym, ap, ◌∙◌, subst, ◌⊎◌, inl, inr, Bool, Option, none, some, List,
  [], ◌∷◌, ◌++◌, map, reverse, Perm, arith, leb, ◌==◌, ==_iff, Bool-cases, Option-cases, get_elem?,
}
use iotic.Strategies.Strategy.{Step, keep, down, up, SiteProperties, World, StrategyOps}
use iotic.Strategies.PowerManager.{
  Manager, erase, erase_stepped, adjust_at, ask, visit, keep_all, step_down, step_up, evaluate,
  step_up_debounce_seconds, step_down_debounce_seconds,
}

erase-perm : (p : ℕ) (ps : List ℕ) → Mem p ps → Perm (p ∷ erase p ps) ps
unfolding erase
erase-perm p [] h = absurd (not-mem-nil h)
erase-perm p (q ∷ qs) h = elim (Bool-cases (q == p)) [
  | inl e ↦ rw e (rw ((==_iff q p).0 e) (Perm.refl (p ∷ qs)))
  | inr e ↦ rw e (
      Or.elim Perm-prop (mem-cons.0 h) (λ same. cc ((==_iff q p).1 (sym same)))
        (λ later. Perm.trans (Perm.swap q p (erase p qs)) (Perm.cons q (erase-perm p qs later))))
]

-- The calls other than `adjust(Step::Keep)`.
abbrev pub steps : List (ℕ × Step) → List (ℕ × Step)
steps [] = []
steps ((p, keep) ∷ l) = steps l
steps ((p, down) ∷ l) = (p, down) ∷ steps l
steps ((p, up) ∷ l) = (p, up) ∷ steps l

module _ {S : Type 0} (ops : StrategyOps S) (world : World) (site : SiteProperties) where
  ask-keeps :
      (wants : S → S × Bool) (p : ℕ) (m : Manager S)
      → ((ask ops world site wants p m).0.log ≡ m.log)
        × ((ask ops world site wants p m).0.last_step_ts ≡ m.last_step_ts)
  unfolding ask
  ask-keeps wants p m = elim (Option-cases (get_elem? m.store p)) [
    | inl e ↦ rw (e, ask) (refl, refl)
    | inr (s, e) ↦ rw (e, ask) (refl, refl)
  ]

  -- What a loop does to the log and the time: nothing, or one step whose turn has come.
  abbrev pub Turn : ℕ → Step → List ℕ → Manager S → Manager S × Option ℕ → Type 0
  Turn debounce step ps m r =
      ((r.1 ≡ none) × (r.0.log ≡ m.log) × (r.0.last_step_ts ≡ m.last_step_ts))
      ⊎ ((p : ℕ) × (r.1 ≡ some p)
          × (r.0.log ≡ (p, step) ∷ m.log)
          × (r.0.last_step_ts ≡ site.ts)
          × (m.last_step_ts + debounce ≤ site.ts)
          × Mem p ps)

  Turn-later :
      (debounce : ℕ) (step : Step) (p : ℕ) (ps : List ℕ) (m m' : Manager S)
      (r : Manager S × Option ℕ)
      → (m'.log ≡ m.log) × (m'.last_step_ts ≡ m.last_step_ts)
      → Turn debounce step ps m' r
      → Turn debounce step (p ∷ ps) m r
  Turn-later debounce step p ps m m' r (l, t) (inl (e, l', t')) = inl (e, l' ∙ l, t' ∙ t)
  Turn-later debounce step p ps m m' r (l, t) (inr (q, e, l', t', h, k)) =
      inr (q, e, l' ∙ ap (◌∷◌ (q, step)) l, t', omega arith, mem-cons_of_mem p k)

  visit-Turn :
      (wants : S → S × Bool) (debounce : ℕ) (step : Step) (ps : List ℕ) (m : Manager S)
      → Turn debounce step ps m (visit ops world site wants debounce step ps m)
  unfolding visit adjust_at
  visit-Turn wants debounce step [] m = inl (refl, refl, refl)
  visit-Turn wants debounce step (p ∷ ps) m =
      let (m', w) = ask ops world site wants p m in
      elim (Bool-cases (w && leb (m'.last_step_ts + debounce) site.ts)) [
        | inl e ↦ rw e (
            inr (
              p,
              refl,
              ap (◌∷◌ (p, step)) (ask-keeps wants p m).0,
              refl,
              ground (arith, ask-keeps wants p m),
              mem-cons_self,
            ))
        | inr e ↦ rw e (
            Turn-later debounce step p ps m m' (visit ops world site wants debounce step ps m')
              (ask-keeps wants p m) (visit-Turn wants debounce step ps m'))
      ]

  -- The calls that one cycle makes through `adjust`, by pointer.
  abbrev pub adjusted : Manager S → List ℕ
  adjusted m = map (λ e. e.0) m.log

  keep_all_log :
      (ps : List ℕ) (m : Manager S)
      → Perm (adjusted (keep_all ops world site ps m)) (ps ++ adjusted m)
        × (steps (keep_all ops world site ps m).log ≡ steps m.log)
        × ((keep_all ops world site ps m).last_step_ts ≡ m.last_step_ts)
  unfolding keep_all adjust_at
  keep_all_log [] m = (Perm.refl _, refl, refl)
  keep_all_log (p ∷ ps) m =
      let (calls, turns, time) = keep_all_log ps (adjust_at ops world site keep p m) in
      (Perm.trans calls (perm_middle ps (adjusted m)), turns, time)

  step_down-Turn :
      (ps : List ℕ) (m : Manager S)
      → Turn step_down_debounce_seconds down (reverse ps) m (step_down ops world site ps m)
  unfolding step_down
  step_down-Turn ps m = visit-Turn _ _ down (reverse ps) m

  step_up-Turn :
      (ps : List ℕ) (m : Manager S)
      → Turn step_up_debounce_seconds up ps m (step_up ops world site ps m)
  unfolding step_up
  step_up-Turn ps m = visit-Turn _ _ up ps m

  -- A strategy leaves the local list exactly when it has been called.
  taken-perm :
      (debounce : ℕ) (step : Step) (ps qs : List ℕ) (m : Manager S) (r : Manager S × Option ℕ)
      → ((p : ℕ) → Mem p qs → Mem p ps)
      → Turn debounce step qs m r
      → Perm (erase_stepped r.1 ps ++ adjusted r.0) (ps ++ adjusted m)
  taken-perm debounce step ps qs m r inside (inl (e, l, _)) = rw (e, l) (Perm.refl _)
  taken-perm debounce step ps qs m r inside (inr (p, e, l, _, _, h)) =
      rw (e, l)
        (Perm.trans (perm_middle (erase p ps) (adjusted m))
          (Perm.append_right (adjusted m) (erase-perm p ps (inside p h))))

  -- In one cycle that begins with an empty log, every strategy of the list is called through `adjust`
  -- exactly once.
  pub evaluate-adjusted :
      (ps : List ℕ) (m : Manager S) → m.log ≡ [] → Perm (adjusted (evaluate ops world site ps m)) ps
  unfolding evaluate
  evaluate-adjusted ps m fresh =
      let (m1, d) = step_down ops world site ps m in
      let ps1 = erase_stepped d ps in
      let downs =
        taken-perm _ down ps (reverse ps) m (step_down ops world site ps m) (λ p. mem-reverse.0)
          (step_down-Turn ps m) in
      let ups =
        taken-perm _ up ps1 ps1 m1 (step_up ops world site ps1 m1) (λ p h. h)
          (step_up-Turn ps1 m1) in
      let kept : Perm (adjusted (evaluate ops world site ps m)) (ps ++ adjusted m) =
        Perm.trans (keep_all_log _ _).0 (Perm.trans ups downs) in
      subst (λ xs. Perm (adjusted (evaluate ops world site ps m)) xs)
        (ap (λ l. ps ++ map (λ (e : ℕ × Step). e.0) l) fresh ∙ append-nil ps) kept

  -- No step, or one whose debounce has passed since the last one and whose time is remembered.
  abbrev pub AtMostOneStep : Manager S → Manager S → Type 0
  AtMostOneStep m m' =
      ((steps m'.log ≡ []) × (m'.last_step_ts ≡ m.last_step_ts))
      ⊎ ((p : ℕ) × (steps m'.log ≡ (p, down) ∷ [])
          × (m'.last_step_ts ≡ site.ts)
          × (m.last_step_ts + step_down_debounce_seconds ≤ site.ts))
      ⊎ ((p : ℕ) × (steps m'.log ≡ (p, up) ∷ [])
          × (m'.last_step_ts ≡ site.ts)
          × (m.last_step_ts + step_up_debounce_seconds ≤ site.ts))

  one_step :
      (ps ps1 : List ℕ) (m m3 : Manager S) (r1 r2 : Manager S × Option ℕ)
      → m.log ≡ []
      → Turn step_down_debounce_seconds down (reverse ps) m r1
      → Turn step_up_debounce_seconds up ps1 r1.0 r2
      → steps m3.log ≡ steps r2.0.log
      → m3.last_step_ts ≡ r2.0.last_step_ts
      → AtMostOneStep m m3
  one_step ps ps1 m m3 r1 r2 fresh (inl (_, l1, t1)) (inl (_, l2, t2)) l3 t3 =
      inl (l3 ∙ ap steps (l2 ∙ l1 ∙ fresh), t3 ∙ t2 ∙ t1)
  one_step ps ps1 m m3 r1 r2 fresh (inl (_, l1, t1)) (inr (p, _, l2, t2, h, _)) l3 t3 =
      inr (inr (p, l3 ∙ ap steps (l2 ∙ ap (◌∷◌ (p, up)) (l1 ∙ fresh)), t3 ∙ t2, omega arith))
  one_step ps ps1 m m3 r1 r2 fresh (inr (p, _, l1, t1, h, _)) (inl (_, l2, t2)) l3 t3 =
      inr (inl (p, l3 ∙ ap steps (l2 ∙ l1 ∙ ap (◌∷◌ (p, down)) fresh), t3 ∙ t2 ∙ t1, h))
  one_step ps ps1 m m3 r1 r2 fresh (inr (p, _, l1, t1, h, _)) (inr (q, _, l2, t2, k, _)) l3 t3 =
      absurd (omega arith)

  -- One cycle that begins with an empty log makes at most one step, and none before its debounce has
  -- passed since the remembered last one; the time of the step is remembered.
  pub evaluate_one_step :
      (ps : List ℕ) (m : Manager S) → m.log ≡ [] → AtMostOneStep m (evaluate ops world site ps m)
  unfolding evaluate
  evaluate_one_step ps m fresh =
      let (m1, d) = step_down ops world site ps m in
      let ps1 = erase_stepped d ps in
      let (m2, u) = step_up ops world site ps1 m1 in
      let (_, turns, time) = keep_all_log (erase_stepped u ps1) m2 in
      one_step ps ps1 m (keep_all ops world site (erase_stepped u ps1) m2)
        (step_down ops world site ps m) (step_up ops world site ps1 m1) fresh (step_down-Turn ps m)
        (step_up-Turn ps1 m1) turns time
