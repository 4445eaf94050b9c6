-- ===== src/Runs/Daemon.antt =====
-- A run of the daemon: a client that is open, a thing with a strategy, and a cycle that adjusts it.
use Prim.Native.String.{String}
use mathlib.Core.List.{Mem, mem-cons_self}
use iotic.Prelude.{
  ℕ, ℤ, pos, ◌≡◌, refl, ◌⊎◌, Bool, Option, none, some, List, [], ◌∷◌, map, filter_by,
}
use iotic.Config.ConfigRepository.{set_properties_to}
use iotic.Rules.RuleEngine.{added, on_thing_added}
use iotic.Rules.SymbolRepository.{find_symbol}
use iotic.Runs.System.{eager, things, priorities, makes, own, surplus, world}
use iotic.Runs.Web
use iotic.Runs.Web.{store, emit, update, readable, known}
use iotic.Strategies.PowerManager.{
  cycle, evaluate, step_down, step_up, visit, ask, keep_all, adjust_at, erase,
}
use iotic.Strategies.StrategyRepository.{add_strategy, sort, insert}
use iotic.System
use iotic.System.Daemon
use iotic.System.Daemon.{Daemon, with_hub, Event, Reach}
use iotic.System.Daemon.Together.{start, adjusted_seen}
use iotic.WebServer.Broadcast.{
  Thing, Published, set_members, serialize_user_properties, serialize_site_properties, site_history,
}
use iotic.WebServer.Broadcast.Hub
use iotic.WebServer.Broadcast.Hub.{client_opened, send_things}
use iotic.WebServer.Broadcast.Hub.Restored.{property_map}
use iotic.WebServer.Broadcast.View.{view}

abbrev no_text : ℤ → Option String
no_text v = none

abbrev no_flag : ℤ → Option Bool
no_flag v = none

abbrev stopped : Daemon ℤ ℕ ℤ
stopped = start [] (record { store = 7 ∷ 8 ∷ []; last_step_ts = 0; log = [] }) [] Web.config

abbrev with_client : Daemon ℤ ℕ ℤ
with_client = with_hub (client_opened 1 stopped.hub) stopped

abbrev with_boiler : Daemon ℤ ℕ ℤ
with_boiler =
    Daemon.thing_added no_text no_flag readable store priorities (makes 1) "boiler" Web.meter []
      with_client

abbrev boiler : Thing
boiler = record Web.meter {
  properties =
      store
        (store Web.meter.properties
          (property_map (set_properties_to no_text no_flag readable "boiler" Web.config)))
        [];
}

abbrev inbox : List Published
inbox =
    serialize_user_properties "boiler" boiler
    ∷ site_history []
    ∷ serialize_site_properties (pos 10)
    ∷ []

events :
    Reach eager things priorities
      (λ s. pos 0)
      (λ b. pos 0)
      (λ i. i)
      no_text
      no_flag
      readable
      known
      store
      emit
      stopped
      with_boiler
events =
    Reach.next (Reach.next Reach.here (Event.opened 1 stopped))
      (Event.added (makes 1) "boiler" Web.meter [] with_client (own 1) refl)

boiler_adjusted :
    Mem 1 (map (λ e. e.0) (System.site_changed eager world surplus with_boiler.system).manager.log)
unfolding Daemon.thing_added System.site_changed System.thing_added cycle evaluate step_down step_up
    visit ask keep_all adjust_at erase on_thing_added added add_strategy sort insert filter_by
boiler_adjusted = mem-cons_self

adjusted_seen_example :
    (t : Thing) × (find_symbol "boiler" with_boiler.hub.things ≡ some t)
    × ((find_symbol "power" (set_members t.properties []) ≡ none)
        ⊎ (view "boiler" "power" inbox ≡ find_symbol "power" (set_members t.properties [])))
unfolding Daemon.thing_added client_opened Hub.thing_added send_things
adjusted_seen_example =
    adjusted_seen eager things priorities (λ s. pos 0) (λ b. pos 0) (λ i. i) no_text no_flag
      readable known store emit [] (record { store = 7 ∷ 8 ∷ []; last_step_ts = 0; log = [] }) []
      Web.config with_boiler world surplus 1 1 inbox "power" update events boiler_adjusted refl refl
