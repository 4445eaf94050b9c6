-- ===== src/Strategies/Wallbox/Flapping.antt =====
-- src/strategies/WallboxStrategy.cpp: steps change the number of phases as they say, and a step up
-- is not taken back at once.
use iotic.Prelude.{
  ℕ, ◌<◌, ◌≤◌, ◌≡◌, ◌⊎◌, ltb, ℤ, pos, ◌≤ℤ◌, ◌*ℤ◌, max_ℤ, true, false, arith, inl, inr, Bool-cases,
}
use iotic.Strategies.Strategy.{down, up, SiteProperties}
use iotic.Strategies.Wallbox.{
  DoubleOps, Wallbox, compute_phases, wants_to_step_down, wants_to_step_up, adjust, is_off,
  can_charge, available_power, voltage_sum,
}

abbrev pub IsPhases : ℕ → Type 0
IsPhases n = (n ≡ 0) ⊎ (n ≡ 1) ⊎ (n ≡ 3)

not_below : (x y : ℕ) → y ≤ x → ltb x y ≡ false
not_below x y h = ground arith

le_max : (a : ℤ) → a ≤ℤ max_ℤ (pos 0) a
le_max a = ground arith

module _ (ops : DoubleOps) where
  -- An available power that passes a test with hysteresis passes it without, at a larger offset.
  passes :
      (s : Wallbox ops) (x : ops.Double) (a b g h : ℤ)
      → pos 0 ≤ℤ h
      → a ≤ℤ b
      → ops.less x (ops.sub (available_power ops a g s) (ops.of_int h)) ≡ true
      → ops.less x (ops.sub (available_power ops b g s) (ops.of_int (pos 0))) ≡ true
  passes s x a b g h h0 ab p =
      ops.less-sub x _ (pos 0) h h0 (ops.less-add x s.power_measured a b g h ab p)

  phases_mono :
      (s : Wallbox ops) (a b g : ℤ)
      → pos 0 ≤ℤ s.one_phase_hysteresis
      → pos 0 ≤ℤ s.three_phase_hysteresis
      → a ≤ℤ b
      → compute_phases ops (available_power ops a g s) true s
        ≤ compute_phases ops (available_power ops b g s) false s
  unfolding compute_phases
  phases_mono s a b g h1 h3 ab = ground (
    arith,
    passes s (ops.of_int (pos 6 *ℤ voltage_sum ops s)) a b g s.three_phase_hysteresis h3 ab,
    passes s (ops.of_int (pos 6 *ℤ s.voltage_1)) a b g s.one_phase_hysteresis h1 ab,
  )

  -- A step up is not taken back: when the strategy has just stepped up, it does not want to step
  -- down at the same grid and charging power, unless its offset is the one for switching off.
  pub phases_no_flapping :
      (site : SiteProperties) (s : Wallbox ops)
      → pos 0 ≤ℤ s.one_phase_hysteresis
      → pos 0 ≤ℤ s.three_phase_hysteresis
      → is_off s.power_offset ≡ false
      → (wants_to_step_up ops site s).1 ≡ true
      → (wants_to_step_down ops site (adjust ops up site (wants_to_step_up ops site s).0)).1 ≡ false
  unfolding wants_to_step_up wants_to_step_down adjust
  phases_no_flapping site s h1 h3 on e = elim (Bool-cases (can_charge s.status)) [
    | inl c ↦
        rw (c, on)
          (unfold compute_phases in
            not_below _ _ (
              phases_mono s s.power_offset (max_ℤ (pos 0) s.power_offset) site.long_term_grid_power
                h1 h3 (le_max s.power_offset)))
    | inr c ↦ cc (rw c at e)
  ]

  -- A step that was wanted changes the number of phases in its direction, to 0, 1 or 3.
  pub phases_step_direction :
      (site : SiteProperties) (s : Wallbox ops)
      → ((wants_to_step_down ops site s).1 ≡ true
          → let t = adjust ops down site (wants_to_step_down ops site s).0 in
            (t.phases < s.phases) × IsPhases t.phases)
        × ((wants_to_step_up ops site s).1 ≡ true
            → let t = adjust ops up site (wants_to_step_up ops site s).0 in
              (s.phases < t.phases) × IsPhases t.phases)
  unfolding wants_to_step_up wants_to_step_down adjust compute_phases
  phases_step_direction site s = ground arith
