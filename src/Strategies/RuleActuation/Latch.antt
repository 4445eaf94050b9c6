-- ===== src/Strategies/RuleActuation/Latch.antt =====
-- src/rules/RuleActuationStrategy.cpp: a request is kept until it is served, and served once.
use Prim.Native.String.{String}
use iotic.Prelude.{ℤ, ◌≡◌, Bool, true, false, List, arith}
use iotic.Strategies.Strategy.{keep, down, up, World}
use iotic.Strategies.RuleActuation.{RuleActuation, wants_to_step_down, wants_to_step_up, adjust}

module _ {Expression : Type 0} (evaluate : Expression → List (String × ℤ) → Bool) where
  -- In the state that a step down leaves no step down is wanted, whatever the expressions say, and in
  -- the state that a step up leaves no step up.
  pub step_not_repeated :
      (world : World) (s : RuleActuation Expression)
      → ((wants_to_step_down evaluate world (adjust down s)).1 ≡ false)
        × ((wants_to_step_up evaluate world (adjust up s)).1 ≡ false)
  unfolding wants_to_step_down wants_to_step_up adjust
  step_not_repeated world s = ground arith

  -- A step down that is wanted and not served is wanted again in the next cycle, if the other
  -- expression did not hold when it was asked for a step up in between.
  pub request_kept :
      (first later : World) (s : RuleActuation Expression)
      → (wants_to_step_down evaluate first s).1 ≡ true
      → evaluate s.on_expression first.symbols ≡ false
      → let waiting =
          adjust keep (wants_to_step_up evaluate first (wants_to_step_down evaluate first s).0).0 in
        (wants_to_step_down evaluate later waiting).1 ≡ true
  unfolding wants_to_step_down wants_to_step_up adjust
  request_kept first later s asked quiet = ground arith
