-- ===== src/Runs/History.antt =====
-- Runs of src/webserver/WebAppRouter.cpp.
use iotic.Prelude.{ℕ, ◌≡◌, ℤ, pos, negsuc, List, [], ◌∷◌, arith, to_u32}
use iotic.Strategies.Strategy.{SiteProperties}
use iotic.WebServer.SiteHistory.{Reply, serialize_site_history}
use iotic.WebServer.SiteHistory.Window.{
  IsHistory, since, until, reply_of, serialize_window, serialize_reversed,
}

abbrev entry : ℕ → ℤ → SiteProperties
entry ts pv = record {
  ts = ts;
  pv_power = pv;
  grid_power = negsuc 254;
  short_term_grid_power = pos 0;
  long_term_grid_power = pos 0;
}

abbrev history : List SiteProperties
history = entry 100 (pos 1234) ∷ entry 160 (pos 999) ∷ entry 220 (pos 2000) ∷ entry 280 (pos 0) ∷ []

abbrev tail : List SiteProperties
tail = entry 160 (pos 999) ∷ entry 220 (pos 2000) ∷ entry 280 (pos 0) ∷ []

history-IsHistory : IsHistory 0 history
history-IsHistory = ground arith

serialize_window_example :
    serialize_site_history history (pos 170) (pos 280)
    ≡ reply_of (until (to_u32 (pos 280)) (since (to_u32 (pos 170)) history))
unfolding to_u32
serialize_window_example =
    serialize_window 0 (entry 100 (pos 1234)) tail (pos 170) (pos 280) history-IsHistory
      (omega arith)

serialize_reversed_example : serialize_site_history history (pos 230) (pos 130) ≡ Reply.fault
unfolding to_u32
serialize_reversed_example =
    serialize_reversed 0 (entry 100 (pos 1234) ∷ []) (entry 160 (pos 999)) (entry 220 (pos 2000))
      (entry 280 (pos 0) ∷ []) (pos 230) (pos 130) history-IsHistory (omega arith) (omega arith)
