-- ===== src/Strategies/MultiPhase/Limit.antt =====
-- src/strategies/MultiPhaseStrategy.cpp: what a request for a step implies, and the phase limit.
use iotic.Prelude.{
  ℕ, zero, suc, ◌+◌, ◌-◌, ◌≤◌, ◌<◌, ◌≡◌, pos, ◌+ℤ◌, ◌≤ℤ◌, ltb_ℤ, int_laws, ◌⊎◌, Bool, true, false,
  List, [], ◌∷◌, length, arith, get_or, set, ltb_ℤ→lt, le→ltb_ℤ,
}
use iotic.Strategies.Strategy.{up, SiteProperties, World}
use iotic.Strategies.MultiPhase.{
  MultiPhase, decrement_phase_limit, increment_phase_limit, on_digital_input, wants_to_step_down,
  wants_to_step_up, step_up_bound, take_step, roll_day, adjust, all_true, count_true,
}
use iotic.Strategies.MultiPhase.Valid.{IsValid}

increment_keeps :
    (now : ℕ) (s : MultiPhase)
    → ((increment_phase_limit now s).power_thresholds ≡ s.power_thresholds)
      × ((increment_phase_limit now s).hystereses ≡ s.hystereses)
      × ((increment_phase_limit now s).next_step_up_phase ≡ s.next_step_up_phase)
      × ((increment_phase_limit now s).current_states ≡ s.current_states)
      × ((increment_phase_limit now s).multistate_selector ≡ s.multistate_selector)
unfolding increment_phase_limit
increment_keeps now s = ground arith

bound_kept :
    (now : ℕ) (s : MultiPhase) → step_up_bound (increment_phase_limit now s) ≡ step_up_bound s
bound_kept now s = let (a, b, c, _, _) = increment_keeps now s in rw (a, b, c)

-- What holds whenever a strategy wants to step up.
wants_to_step_up_needs :
    (world : World) (site : SiteProperties) (s s' : MultiPhase)
    → wants_to_step_up world site s ≡ (s', true)
    → (s' ≡ increment_phase_limit world.now s)
      × (get_or s.multistate_selector s.next_step_up_phase false ≡ false)
      × (length s.multistate_selector ≡ length s.power_thresholds)
      × (count_true s.multistate_selector < s'.phase_limit)
      × (ltb_ℤ site.long_term_grid_power (step_up_bound s) ≡ true)
unfolding wants_to_step_up
wants_to_step_up_needs world site s s' e =
    ground (arith, bound_kept world.now s, increment_keeps world.now s)

-- A step up does not provoke a step down: if all inputs are active and the grid power has risen by
-- no more than what the new phase draws, then no step down is wanted.
pub step_up_no_flapping :
    (world : World) (site later : SiteProperties) (s s' t : MultiPhase)
    → wants_to_step_up world site s ≡ (s', true)
    → pos 0 ≤ℤ get_or s.hystereses s.next_step_up_phase (pos 0)
    → later.long_term_grid_power
      ≤ℤ site.long_term_grid_power +ℤ get_or s.power_thresholds s.next_step_up_phase (pos 0)
    → t.is_input_active ≡ true
    → wants_to_step_down later t ≡ false
unfolding wants_to_step_down
step_up_no_flapping world site later s s' t e hyst power active =
    let (_, _, _, _, bound) = wants_to_step_up_needs world site s s' e in
    let calm : ltb_ℤ (pos 0) later.long_term_grid_power ≡ false =
      le→ltb_ℤ later.long_term_grid_power (pos 0)
        (omega (int_laws, ltb_ℤ→lt site.long_term_grid_power (step_up_bound s) bound)) in
    ground (arith, calm)

count_true-set :
    (bs : List Bool) (i : ℕ)
    → i < length bs
    → get_or bs i false ≡ false
    → count_true (set bs i true) ≡ suc (count_true bs)
count_true-set [] i h e = elim h [ ]
count_true-set (b ∷ bs) zero h e = ground arith
count_true-set (b ∷ bs) (suc i) h e = ground (arith, count_true-set bs i (omega arith) e)

-- A step up that was asked for keeps within the limit: if the thing is in the state that the
-- strategy has set, then no more phases are on after the step than the limit allows.
pub step_up_within_limit :
    (world : World) (site : SiteProperties) (s s' : MultiPhase)
    → IsValid s
    → s.current_states ≡ s.multistate_selector
    → wants_to_step_up world site s ≡ (s', true)
    → count_true (adjust up site s').current_states ≤ (adjust up site s').phase_limit
unfolding adjust take_step roll_day
step_up_within_limit world site s s' v shown e =
    let (same, off, len, room, _) = wants_to_step_up_needs world site s s' e in
    let (_, _, phase, states, _) = increment_keeps world.now s in
    let i = s.next_step_up_phase in
    let one = count_true-set s.multistate_selector i (omega (arith, len, v.up_phase)) off in
    ground (arith, one, same, phase, states, shown, room)

-- When the active inputs fall, the limit is lowered by one phase, and no request for a step up
-- raises it again before the configured time has passed.
pub limit_after_fall :
    (now : ℕ) (value : List Bool) (world : World) (site : SiteProperties) (s : MultiPhase)
    → s.is_input_active ≡ true
    → all_true value ≡ false
    → 0 < s.phase_limit
    → world.now < now + s.phase_limit_duration
    → (wants_to_step_up world site (on_digital_input now value s)).0.phase_limit ≡ s.phase_limit - 1
unfolding wants_to_step_up on_digital_input decrement_phase_limit increment_phase_limit
limit_after_fall now value world site s active fall some early = ground arith

-- No request changes the limit but by raising it by one, at most to the number of phases, and then
-- the configured time has passed since it was last changed, and the time starts anew.
pub limit_after_request :
    (world : World) (site : SiteProperties) (s : MultiPhase)
    → let s' = (wants_to_step_up world site s).0 in
      ((s'.phase_limit ≡ s.phase_limit) × (s'.phase_limit_timepoint ≡ s.phase_limit_timepoint))
      ⊎ ((s'.phase_limit ≡ s.phase_limit + 1)
          × (s'.phase_limit ≤ length s.power_thresholds)
          × (s.phase_limit_timepoint + s.phase_limit_duration ≤ world.now)
          × (s'.phase_limit_timepoint ≡ world.now))
unfolding wants_to_step_up increment_phase_limit
limit_after_request world site s = ground arith
