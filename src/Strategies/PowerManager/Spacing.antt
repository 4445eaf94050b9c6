-- ===== src/Strategies/PowerManager/Spacing.antt =====
-- src/strategies/PowerManager.cpp over many cycles: how far apart the steps are.
use iotic.Prelude.{
  ℕ, ◌+◌, ◌≤◌, refl, subst, inl, inr, List, [], ◌∷◌, arith, if◌then◌else◌, Bool, true, false,
}
use iotic.Strategies.Strategy.{Step, StrategyOps}
use iotic.Strategies.PowerManager.{
  Manager, SiteEvent, begin, seen, cycle, step_down_debounce_seconds,
}
use iotic.Strategies.PowerManager.Turns.{steps, AtMostOneStep, evaluate_one_step}

abbrev has_step : List (ℕ × Step) → Bool
has_step [] = false
has_step (e ∷ l) = true

module _ {S : Type 0} (ops : StrategyOps S) where
  -- The times of the cycles in which some strategy made a step.
  unfoldable pub step_times : List SiteEvent → Manager S → List ℕ
  step_times [] m = []
  step_times (e ∷ es) m =
      let m' = cycle ops e m in
      let rest = step_times es m' in if has_step (steps m'.log) then e.site.ts ∷ rest else rest

-- Each time is at least the shorter debounce behind the one before it.
abbrev pub Spaced : ℕ → List ℕ → Type 0
Spaced last [] = Unit {0}
Spaced last (t ∷ ts) = (last + step_down_debounce_seconds ≤ t) × Spaced t ts

module _ {S : Type 0} (ops : StrategyOps S) where
  step_times_step :
      (e : SiteEvent) (es : List SiteEvent) (m m' : Manager S)
      → AtMostOneStep ops (seen e) e.site m m'
      → Spaced m'.last_step_ts (step_times ops es m')
      → Spaced m.last_step_ts (
          if has_step (steps m'.log)
          then e.site.ts ∷ step_times ops es m'
          else step_times ops es m')
  step_times_step e es m m' (inl (l, t)) h = rw l (subst (λ x. Spaced x (step_times ops es m')) t h)
  step_times_step e es m m' (inr (inl (p, l, t, k))) h =
      rw l (k, subst (λ x. Spaced x (step_times ops es m')) t h)
  step_times_step e es m m' (inr (inr (p, l, t, k))) h =
      rw l (omega arith, subst (λ x. Spaced x (step_times ops es m')) t h)

  -- Whatever the strategies do and whenever the events come, two steps are never less than the
  -- shorter debounce time apart, and neither is the first from the time that the manager remembers.
  pub step_times-Spaced :
      (es : List SiteEvent) (m : Manager S) → Spaced m.last_step_ts (step_times ops es m)
  unfolding step_times cycle
  step_times-Spaced [] m = tt
  step_times-Spaced (e ∷ es) m =
      let m' = cycle ops e m in
      step_times_step e es m m' (evaluate_one_step ops (seen e) e.site e.strategies (begin m) refl)
        (step_times-Spaced es m')
