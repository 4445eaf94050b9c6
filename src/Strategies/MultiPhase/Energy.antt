-- ===== src/Strategies/MultiPhase/Energy.antt =====
-- src/strategies/MultiPhaseStrategy.cpp: the energy that `adjust` reports.
use iotic.Prelude.{
  ℕ, zero, suc, ◌+◌, ◌-◌, ◌*◌, ◌/◌, ◌≤◌, ◌<◌, ◌≡◌, refl, ◌∙◌, ap, ℤ, pos, sub_ℕ, pos_part, neg_part,
  ◌+ℤ◌, ◌*ℤ◌, int_laws, +ℤ_parts, Bool, true, false, List, [], ◌∷◌, length, arith, get_or, set, All,
  ==_iff,
}
use iotic.Strategies.Strategy.{Step, keep, down, up, SiteProperties}
use iotic.Strategies.MultiPhase.{
  MultiPhase, phase_energy, current_power, current_energy, take_step, roll_day, adjust,
}
use iotic.Strategies.MultiPhase.Valid.{IsValid}

-- Watt seconds since the day began: those of phases switched off and those of phases still on.
unfoldable pub total_energy : ℕ → MultiPhase → ℤ
total_energy ts s =
    s.delivered_energy +ℤ current_energy ts s.current_states s.timestamps s.power_thresholds

phase_energy_now : (ts : ℕ) (t : ℤ) → phase_energy ts ts t ≡ pos 0
unfolding ◌*ℤ◌
phase_energy_now ts t = ground arith

-- Switching phase `i` off takes its energy out of the sum.
energy_off :
    (ts i : ℕ) (bs : List Bool) (is : List ℕ) (thresholds : List ℤ)
    → i < length thresholds
    → length bs ≡ length thresholds
    → length is ≡ length thresholds
    → get_or bs i false ≡ true
    → current_energy ts bs is thresholds
      ≡ phase_energy ts (get_or is i 0) (get_or thresholds i (pos 0))
        +ℤ current_energy ts (set bs i false) is thresholds
unfolding current_energy
energy_off ts i bs is [] h hb hi e = elim h [ ]
energy_off ts i [] is (t ∷ thresholds) h hb hi e = absurd (omega arith)
energy_off ts i (b ∷ bs) [] (t ∷ thresholds) h hb hi e = absurd (omega arith)
energy_off ts zero (b ∷ bs) (i ∷ is) (t ∷ thresholds) h hb hi e = rw e (omega int_laws)
energy_off ts (suc n) (b ∷ bs) (i ∷ is) (t ∷ thresholds) h hb hi e =
    rw (energy_off ts n bs is thresholds (omega arith) (omega arith) (omega arith) e)
      (omega int_laws)

-- A phase that is just switched on adds nothing yet.
energy_on :
    (ts i : ℕ) (bs : List Bool) (is : List ℕ) (thresholds : List ℤ)
    → i < length thresholds
    → length bs ≡ length thresholds
    → length is ≡ length thresholds
    → get_or bs i false ≡ false
    → current_energy ts (set bs i true) (set is i ts) thresholds
      ≡ current_energy ts bs is thresholds
unfolding current_energy
energy_on ts i bs is [] h hb hi e = elim h [ ]
energy_on ts i [] is (t ∷ thresholds) h hb hi e = absurd (omega arith)
energy_on ts i (b ∷ bs) [] (t ∷ thresholds) h hb hi e = absurd (omega arith)
energy_on ts zero (b ∷ bs) (i ∷ is) (t ∷ thresholds) h hb hi e = rw (e, phase_energy_now ts t) refl
energy_on ts (suc n) (b ∷ bs) (i ∷ is) (t ∷ thresholds) h hb hi e =
    rw (energy_on ts n bs is thresholds (omega arith) (omega arith) (omega arith) e) refl

-- What a step needs: the phase that goes off is on, the phase that goes on is off.
abbrev pub InTurn : Step → MultiPhase → Type 0
InTurn keep s = Unit {0}
InTurn down s = get_or s.current_states s.next_step_down_phase false ≡ true
InTurn up s = get_or s.current_states s.next_step_up_phase false ≡ false

take_step_energy :
    (step : Step) (ts : ℕ) (s : MultiPhase)
    → IsValid s
    → InTurn step s
    → total_energy ts (take_step step ts s) ≡ total_energy ts s
unfolding total_energy take_step
take_step_energy keep ts s v h = refl
take_step_energy down ts s v h =
    rw
      (energy_off ts s.next_step_down_phase s.current_states s.timestamps s.power_thresholds
        v.down_phase v.state_each v.timestamp_each h)
      (omega int_laws)
take_step_energy up ts s v h =
    rw
      (energy_on ts s.next_step_up_phase s.current_states s.timestamps s.power_thresholds v.up_phase
        v.state_each v.timestamp_each h)
      refl

-- Within a day a step moves no energy: just after it the strategy has counted what it had counted
-- just before it.
pub adjust_energy :
    (step : Step) (site : SiteProperties) (s : MultiPhase)
    → IsValid s
    → InTurn step s
    → site.ts / (24 * 3600) ≡ s.current_day
    → total_energy site.ts (adjust step site s) ≡ total_energy site.ts s
unfolding adjust roll_day
adjust_energy step site s v turn day =
    rw ((==_iff (site.ts / (24 * 3600)) s.current_day).1 day)
      (unfold total_energy in take_step_energy step site.ts s v turn)

mul_split : (a b : ℕ) (t : ℤ) → pos (a + b) *ℤ t ≡ pos a *ℤ t +ℤ pos b *ℤ t
unfolding ◌*ℤ◌ ◌+ℤ◌
mul_split a b t = ground arith

mul_parts :
    (d : ℕ) (x : ℤ)
    → pos_part (pos d *ℤ x) + d * neg_part x ≡ neg_part (pos d *ℤ x) + d * pos_part x
unfolding ◌*ℤ◌
mul_parts d x = ground arith

mul_sum : (d : ℕ) (a b : ℤ) → pos d *ℤ (a +ℤ b) ≡ pos d *ℤ a +ℤ pos d *ℤ b
mul_sum d a b = omega (
  int_laws,
  mul_parts d (a +ℤ b),
  mul_parts d a,
  mul_parts d b,
  ap (λ (t : ℕ). d * t) (+ℤ_parts a b),
)

mul_zero : (d : ℕ) → pos d *ℤ pos 0 ≡ pos 0
unfolding ◌*ℤ◌
mul_zero d = ground arith

phase_energy_later :
    (i ts later : ℕ) (t : ℤ)
    → i ≤ ts
    → ts ≤ later
    → phase_energy later i t ≡ phase_energy ts i t +ℤ pos (later - ts) *ℤ t
phase_energy_later i ts later t h k =
    let whole : sub_ℕ later i ≡ pos (ts - i + (later - ts)) = ground arith in
    let part : pos (ts - i) ≡ sub_ℕ ts i = ground arith in
    ap (λ x. x *ℤ t) whole
    ∙ mul_split (ts - i) (later - ts) t
    ∙ ap (λ x. x *ℤ t +ℤ pos (later - ts) *ℤ t) part

energy_later :
    (ts later : ℕ) (bs : List Bool) (is : List ℕ) (thresholds : List ℤ)
    → length bs ≡ length thresholds
    → length is ≡ length thresholds
    → All (λ i. i ≤ ts) is
    → ts ≤ later
    → current_energy later bs is thresholds
      ≡ current_energy ts bs is thresholds +ℤ pos (later - ts) *ℤ current_power bs thresholds
unfolding current_energy current_power
energy_later ts later [] is thresholds hb hi h k = rw (mul_zero (later - ts)) (omega int_laws)
energy_later ts later (b ∷ bs) is [] hb hi h k = absurd (omega arith)
energy_later ts later (b ∷ bs) [] (t ∷ thresholds) hb hi h k = absurd (omega arith)
energy_later ts later (true ∷ bs) (i ∷ is) (t ∷ thresholds) hb hi h k =
    rw
      (
        energy_later ts later bs is thresholds (omega arith) (omega arith) h.1 k,
        phase_energy_later i ts later t h.0 k,
        mul_sum (later - ts) t (current_power bs thresholds),
      )
      (omega int_laws)
energy_later ts later (false ∷ bs) (i ∷ is) (t ∷ thresholds) hb hi h k =
    rw
      (
        energy_later ts later bs is thresholds (omega arith) (omega arith) h.1 k,
        mul_sum (later - ts) (pos 0) (current_power bs thresholds),
        mul_zero (later - ts),
      )
      (omega int_laws)

-- Between two steps the count grows by the power of the phases that are on times the seconds that
-- pass, the power that `adjust` reports.
pub total_energy_later :
    (ts later : ℕ) (s : MultiPhase)
    → IsValid s
    → All (λ i. i ≤ ts) s.timestamps
    → ts ≤ later
    → total_energy later s
      ≡ total_energy ts s +ℤ pos (later - ts) *ℤ current_power s.current_states s.power_thresholds
unfolding total_energy
total_energy_later ts later s v h k =
    rw
      (energy_later ts later s.current_states s.timestamps s.power_thresholds v.state_each
        v.timestamp_each h k)
      (omega int_laws)
