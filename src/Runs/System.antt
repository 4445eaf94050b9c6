-- ===== src/Runs/System.antt =====
-- Runs of the daemon's parts with strategies that take every step.
use Prim.Native.String.{String}
use iotic.Prelude.{ℕ, ℤ, pos, ◌≡◌, refl, true, Option, some, List, [], ◌∷◌, ◌==◌, if◌then◌else◌}
use iotic.Rules.RuleEngine.{contains}
use iotic.Strategies.Strategy.{SiteProperties, World, StrategyOps}
use iotic.System.{System, thing_added, thing_removed, Event, Reach}
use iotic.System.Presence.{IsSystem, Reach-IsSystem}

abbrev pub eager : StrategyOps ℕ
eager = record {
  thing_id = λ s. "";
  priority = λ s. pos 0;
  wants_to_step_down = λ w p s. (s, true);
  wants_to_step_up = λ w p s. (s, true);
  adjust = λ step p s. s;
}

abbrev pub things : ℕ → String
things p = if p == 0 then "wallbox" else "boiler"

abbrev pub priorities : ℕ → ℤ
priorities p = pos p

abbrev pub makes : ℕ → List (String × ℤ) → List (String × ℤ) × Option ℕ
makes p symbols = (symbols, some p)

abbrev start : System ℤ ℕ
start = record {
  things = [];
  rules = record {
    engine = record { dependent = []; subscribed = []; subscriptions = [] };
    symbols = [];
    strategies = [];
  };
  manager = record { store = 7 ∷ 8 ∷ []; last_step_ts = 0; log = [] };
}

abbrev with_wallbox : System ℤ ℕ
with_wallbox = thing_added priorities (makes 0) "wallbox" start

abbrev with_both : System ℤ ℕ
with_both = thing_added priorities (makes 1) "boiler" with_wallbox

abbrev with_boiler : System ℤ ℕ
with_boiler = thing_removed things "wallbox" with_both

pub own :
    (p : ℕ) (symbols : List (String × ℤ)) (q : ℕ)
    → (makes p symbols).1 ≡ some q
    → things q ≡ things p
own p symbols q h = cc

events : Reach eager things priorities start with_boiler
events =
    Reach.next
      (Reach.next (Reach.next Reach.here (Event.added (makes 0) "wallbox" start (own 0)))
        (Event.added (makes 1) "boiler" with_wallbox (own 1)))
      (Event.removed "wallbox" with_both)

start-IsSystem : IsSystem things priorities start
unfolding contains
start-IsSystem = record { sorted = tt; present = tt; apart = λ x h. refl }

Reach-IsSystem_example : IsSystem things priorities with_boiler
Reach-IsSystem_example = Reach-IsSystem eager things priorities start-IsSystem events

abbrev pub surplus : SiteProperties
surplus = record {
  ts = 1000;
  pv_power = pos 3000;
  grid_power = pos 0;
  short_term_grid_power = pos 0;
  long_term_grid_power = pos 0;
}

abbrev pub world : World
world = record { symbols = []; now = 1000 }
