-- ===== src/Strategies/MultiPhase/Ring.antt =====
-- src/strategies/MultiPhaseStrategy.cpp: the phases are switched in turn, like a queue.
use native.Mathlib.Nat.{mod-eq_of_lt, mod-eq-sub-mod}
use native.Mathlib.Numerals.{add-one, sub-one}
use iotic.Prelude.{
  ℕ, zero, suc, ◌+◌, ◌-◌, ◌%◌, ◌≤◌, ◌<◌, ◌≡◌, refl, ◌∙◌, true, false, length, arith, get_or,
  get_or-set, ltb, leb, if◌then◌else◌,
}
use iotic.Strategies.Strategy.{Step, keep, down, up, SiteProperties}
use iotic.Strategies.MultiPhase.{MultiPhase, take_step, roll_day, adjust}
use iotic.Strategies.MultiPhase.Valid.{IsValid, roll_day-IsValid}

-- How many places phase `i` stands behind phase `d` in the circle of `n` phases.
abbrev pub offset : ℕ → ℕ → ℕ → ℕ
offset n d i = if leb d i then i - d else i + n - d

abbrev pub wrap : ℕ → ℕ → ℕ
wrap n i = if ltb i n then i else i - n

-- How many phases are switched off before phase `i`.
abbrev pub place : MultiPhase → ℕ → ℕ
place s = offset (length s.power_thresholds) s.next_step_down_phase

module _ (k last : ℕ) (s : MultiPhase) where
  -- Exactly `k` phases are on: those from the next one to step down, in the order of the circle, up
  -- to the next one to step up. They were switched on in that order, the last one not after `last`.
  pub record IsRing : Type 0 where
    pub count_le : k ≤ length s.power_thresholds
    pub front : s.next_step_up_phase ≡ wrap (length s.power_thresholds) (s.next_step_down_phase + k)
    pub on :
        (i : ℕ)
        → i < length s.power_thresholds
        → get_or s.current_states i false ≡ ltb (place s i) k
    pub past :
        (i : ℕ) → i < length s.power_thresholds → place s i < k → get_or s.timestamps i 0 ≤ last
    pub oldest_first :
        (i j : ℕ)
        → i < length s.power_thresholds
        → j < length s.power_thresholds
        → place s i ≤ place s j
        → place s j < k
        → get_or s.timestamps i 0 ≤ get_or s.timestamps j 0

next_wrap : (n i m : ℕ) → i < n → m ≡ n → (i + 1) % m ≡ wrap n (i + 1)
next_wrap n i m h e = rw e (grind (arith, mod-eq_of_lt, mod-eq-sub-mod))

module _ (k last ts : ℕ) (s : MultiPhase) (v : IsValid s) where
  up-IsRing :
      last ≤ ts
      → k < length s.power_thresholds
      → IsRing k last s
      → IsRing (k + 1) ts (take_step up ts s)
  unfolding take_step
  up-IsRing late room r = record {
    count_le = omega (arith);
    front =
        next_wrap (length s.power_thresholds) s.next_step_up_phase (length s.current_states)
          v.up_phase v.state_each
        ∙ ground (arith, r.front, v.down_phase);
    on = λ i h.
        get_or-set s.current_states s.next_step_up_phase i true false
          (omega (arith, v.up_phase, v.state_each))
        ∙ ground (arith, r.on i h, r.front, v.down_phase);
    past = λ i h p. ground (
      arith,
      get_or-set s.timestamps s.next_step_up_phase i ts 0
          (omega (arith, v.up_phase, v.timestamp_each)),
      r.past i h,
      r.front,
      v.down_phase,
    );
    oldest_first = λ i j hi hj p q. ground (
      arith,
      get_or-set s.timestamps s.next_step_up_phase i ts 0
          (omega (arith, v.up_phase, v.timestamp_each)),
      get_or-set s.timestamps s.next_step_up_phase j ts 0
          (omega (arith, v.up_phase, v.timestamp_each)),
      r.past i hi,
      r.oldest_first i j hi hj,
      r.front,
      v.down_phase,
    );
  }

module _ (k last ts : ℕ) (s : MultiPhase) (v : IsValid s) where
  down-IsRing : IsRing (suc k) last s → IsRing k last (take_step down ts s)
  unfolding take_step
  down-IsRing r =
      let next =
        next_wrap (length s.power_thresholds) s.next_step_down_phase (length s.current_states)
          v.down_phase v.state_each in
      record {
        count_le = omega (arith, r.count_le);
        front = ground (arith, next, r.front, v.down_phase);
        on = λ i h.
            get_or-set s.current_states s.next_step_down_phase i false false
              (omega (arith, v.down_phase, v.state_each))
            ∙ ground (arith, r.on i h, next, r.count_le, v.down_phase);
        past = λ i h p. ground (arith, next, r.past i h, v.down_phase, r.count_le);
        oldest_first = λ i j hi hj p q.
            ground (arith, next, r.oldest_first i j hi hj, v.down_phase, r.count_le);
      }

-- The same strategy for the ring: `roll_day` and `sent` do not touch what it is about.
ring_of :
    (k last : ℕ) (s t : MultiPhase)
    → t.power_thresholds ≡ s.power_thresholds
    → t.next_step_up_phase ≡ s.next_step_up_phase
    → t.next_step_down_phase ≡ s.next_step_down_phase
    → t.current_states ≡ s.current_states
    → t.timestamps ≡ s.timestamps
    → IsRing k last s
    → IsRing k last t
ring_of k last s t p u d c i r = record {
  count_le = rw p r.count_le;
  front = rw (p, u, d) r.front;
  on = rw (p, d, c) r.on;
  past = rw (p, d, i) r.past;
  oldest_first = rw (p, d, i) r.oldest_first;
}

roll_day-IsRing : (k last ts : ℕ) (s : MultiPhase) → IsRing k last s → IsRing k last (roll_day ts s)
unfolding roll_day
roll_day-IsRing k last ts s r =
    ring_of k last s (roll_day ts s) (ground arith) (ground arith) (ground arith) (ground arith)
      (ground arith) r

-- A step up needs a phase that is off, a step down one that is on.
abbrev pub HasRoom : Step → ℕ → MultiPhase → Type 0
HasRoom keep k s = Unit {0}
HasRoom down k s = 0 < k
HasRoom up k s = k < length s.power_thresholds

abbrev pub count_after : Step → ℕ → ℕ
count_after keep k = k
count_after down k = k - 1
count_after up k = suc k

IsRing-later : (k last ts : ℕ) (s : MultiPhase) → last ≤ ts → IsRing k last s → IsRing k ts s
IsRing-later k last ts s h r = record {
  count_le = r.count_le;
  front = r.front;
  on = r.on;
  past = λ i hi p. omega (arith, r.past i hi p);
  oldest_first = r.oldest_first;
}

take_step-IsRing :
    (step : Step) (k last ts : ℕ) (s : MultiPhase)
    → IsValid s
    → last ≤ ts
    → HasRoom step k s
    → IsRing k last s
    → IsRing (count_after step k) ts (take_step step ts s)
take_step-IsRing keep k last ts s v h room r = unfold take_step in IsRing-later k last ts s h r
take_step-IsRing up k last ts s v h room r = rw (← add-one) (up-IsRing k last ts s v h room r)
take_step-IsRing down zero last ts s v h room r = absurd (omega arith)
take_step-IsRing down (suc k) last ts s v h room r =
    rw sub-one (IsRing-later k last ts (take_step down ts s) h (down-IsRing k last ts s v r))

room_of :
    (step : Step) (k ts : ℕ) (s : MultiPhase) → HasRoom step k s → HasRoom step k (roll_day ts s)
unfolding roll_day
room_of keep k ts s h = tt
room_of down k ts s h = h
room_of up k ts s h = ground arith

-- `adjust` switches the phases in turn: a step up switches on the phase behind the last one that is
-- on, a step down switches off the first one, and so the order of switching on is kept. The strategy
-- is in order, no phase was switched on later than now, and the step has room.
pub adjust-IsRing :
    (step : Step) (site : SiteProperties) (k last : ℕ) (s : MultiPhase)
    → IsValid s
    → last ≤ site.ts
    → HasRoom step k s
    → IsRing k last s
    → IsRing (count_after step k) site.ts (adjust step site s)
unfolding adjust
adjust-IsRing step site k last s v h room r =
    let s' = roll_day site.ts s in
    ring_of (count_after step k) site.ts (take_step step site.ts s') (adjust step site s) refl refl
      refl refl refl
      (take_step-IsRing step k last site.ts s' (roll_day-IsValid site.ts s v) h
        (room_of step k site.ts s room) (roll_day-IsRing k last site.ts s r))

-- A step down switches off a phase that is on and that has been on for the longest time.
pub adjust_down_oldest :
    (site : SiteProperties) (k last : ℕ) (s : MultiPhase)
    → IsValid s
    → IsRing (suc k) last s
    → (get_or s.current_states s.next_step_down_phase false ≡ true)
      × (get_or (adjust down site s).current_states s.next_step_down_phase false ≡ false)
      × ((j : ℕ)
          → j < length s.power_thresholds
          → get_or s.current_states j false ≡ true
          → get_or s.timestamps s.next_step_down_phase 0 ≤ get_or s.timestamps j 0)
unfolding adjust take_step roll_day
adjust_down_oldest site k last s v r =
    let d = s.next_step_down_phase in
    (
      r.on d v.down_phase ∙ ground arith,
      ground (
        arith,
        get_or-set s.current_states d d false false (omega (arith, v.down_phase, v.state_each)),
      ),
      λ j hj on. r.oldest_first d j v.down_phase hj (ground arith) (ground (arith, r.on j hj)),
    )
