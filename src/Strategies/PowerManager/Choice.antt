-- ===== src/Strategies/PowerManager/Choice.antt =====
-- src/strategies/PowerManager.cpp: which strategy takes the step.
use mathlib.Core.List.{Mem, Nodup, Nodup-cons, mem-cons_self, mem-cons_of_mem, reverse_perm}
use mathlib.Core.List.Perm
use iotic.Prelude.{
  ℕ, ◌+◌, ◌≡◌, refl, inl, inr, Bool, false, Option, none, some, List, [], ◌∷◌, reverse, arith, leb,
  Option-cases, if◌then◌else◌, get_elem?, set, get_elem?-set_ne, subst,
}
use iotic.Strategies.Strategy.{Step, SiteProperties, World, StrategyOps}
use iotic.Strategies.PowerManager.{
  Manager, ask, visit, step_down, step_up, step_up_debounce_seconds, step_down_debounce_seconds,
}

module _ {S : Type 0} (wants : S → S × Bool) where
  abbrev wanted_object : Option S → Bool
  wanted_object none = false
  wanted_object (some s) = (wants s).1

  -- What the object behind a pointer answers.
  abbrev pub wanted : List S → ℕ → Bool
  wanted store p = wanted_object (get_elem? store p)

  -- The first pointer whose object wants the step.
  unfoldable pub first_wanting : List S → List ℕ → Option ℕ
  first_wanting store [] = none
  first_wanting store (p ∷ ps) = if wanted store p then some p else first_wanting store ps

  -- A write behind another pointer changes no answer.
  first_wanting-set :
      (store : List S) (p : ℕ) (s : S) (ps : List ℕ)
      → ¬ Mem p ps
      → first_wanting (set store p s) ps ≡ first_wanting store ps
  unfolding first_wanting
  first_wanting-set store p s [] h = refl
  first_wanting-set store p s (q ∷ ps) h =
      rw (get_elem?-set_ne store s (λ (e : p ≡ q). h (subst (λ x. Mem p (x ∷ ps)) e mem-cons_self)))
        (rw (first_wanting-set store p s ps (λ k. h (mem-cons_of_mem q k))) refl)

module _ {S : Type 0} (ops : StrategyOps S) (world : World) (site : SiteProperties) where
  -- One request answers what the object says, and moves no other object.
  ask_answer :
      (wants : S → S × Bool) (p : ℕ) (ps : List ℕ) (m : Manager S)
      → ¬ Mem p ps
      → ((ask ops world site wants p m).1 ≡ wanted wants m.store p)
        × (first_wanting wants (ask ops world site wants p m).0.store ps
            ≡ first_wanting wants m.store ps)
        × ((ask ops world site wants p m).0.last_step_ts ≡ m.last_step_ts)
  unfolding ask
  ask_answer wants p ps m h = elim (Option-cases (get_elem? m.store p)) [
    | inl e ↦ rw (e, ask) (refl, refl, refl)
    | inr (s, e) ↦ rw (e, ask) (refl, first_wanting-set wants m.store p _ ps h, refl)
  ]

  visit_choice :
      (wants : S → S × Bool) (debounce : ℕ) (step : Step) (ps : List ℕ) (m : Manager S)
      → Nodup ps
      → (visit ops world site wants debounce step ps m).1
        ≡ (if leb (m.last_step_ts + debounce) site.ts then first_wanting wants m.store ps else none)
  unfolding visit first_wanting
  visit_choice wants debounce step [] m h = ground arith
  visit_choice wants debounce step (p ∷ ps) m h =
      let (out, rest) = Nodup-cons.0 h in
      let m' = (ask ops world site wants p m).0 in
      ground (arith, ask_answer wants p ps m out, visit_choice wants debounce step ps m' rest)

  -- Over distinct strategies the step down, if its debounce has passed, goes to the last one of the
  -- list that wants it as the cycle begins, and to none if none wants it or the debounce runs.
  pub step_down_choice :
      (ps : List ℕ) (m : Manager S)
      → Nodup ps
      → (step_down ops world site ps m).1 ≡ (
          if leb (m.last_step_ts + step_down_debounce_seconds) site.ts
          then first_wanting (ops.wants_to_step_down world site) m.store (reverse ps)
          else none)
  unfolding step_down
  step_down_choice ps m h =
      visit_choice _ _ _ (reverse ps) m (Perm.nodup (Perm.symm (reverse_perm ps)) h)

  -- Over distinct strategies the step up, if its debounce has passed, goes to the first one of the
  -- list that wants it as the loop begins, and to none if none wants it or the debounce runs.
  pub step_up_choice :
      (ps : List ℕ) (m : Manager S)
      → Nodup ps
      → (step_up ops world site ps m).1 ≡ (
          if leb (m.last_step_ts + step_up_debounce_seconds) site.ts
          then first_wanting (ops.wants_to_step_up world site) m.store ps
          else none)
  unfolding step_up
  step_up_choice ps m h = visit_choice _ _ _ ps m h
