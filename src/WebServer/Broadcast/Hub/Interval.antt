-- ===== src/WebServer/Broadcast/Hub/Interval.antt =====
-- From a message of a client to the timer of the things.
use Prim.Native.String.{String}
use iotic.Prelude.{
  ℕ, ℤ, pos, arith, to_i32_same, ◌≤◌, ◌*◌, ◌≡◌, refl, Bool, true, Option, none, some, List, ◌∷◌,
  length,
}
use iotic.Things.ThingValue.{scalar, integer, from_json_value}
use iotic.Things.ThingsManager.{on_timer}
use iotic.Things.ThingsManager.Polls.{polls, polls_once, IsOnTime}
use iotic.WebServer.Broadcast.Hub.{Hub, client_sent, configured}
use iotic.WebServer.Messages.{Message, Document, on_message}
use iotic.WebServer.Router.{route}
use iotic.Config.ConfigRepository.{persist_property, set_thing_interval, value}
use iotic.Config.ConfigRepository.Persistence.{value-persist_property}

-- A client's message that sets the interval.
abbrev pub interval_message : ℤ → Message
interval_message i = Message.text (Document.member "site" "thing_interval" (scalar (integer i)))

module _ {Value : Type 0} (write_int : ℤ → Value) (read_int : Value → Option ℤ)
    (is_property : String → Bool) where
  -- A client that sets the interval to some seconds, from one on and as far as their milliseconds fit in
  -- an int, makes the timer ask the things exactly once in that time, if it is less than 50 ms early or
  -- late; and the configuration has the interval under its name.
  pub interval_set :
      (c n s : ℕ) (times : List ℕ) (h : Hub Value)
      → is_property "thing_interval" ≡ true
      → 1 ≤ n
      → n ≤ 2147483
      → IsOnTime s times
      → length times ≡ n * 10
      → (k : Hub Value) × (client_sent write_int read_int is_property c (interval_message (pos n)) h
          ≡ some k)
        × (polls k.config.thing_interval times ≡ some 1)
        × (value "site" "thing_interval" k.config ≡ some (write_int (pos n)))
  unfolding client_sent on_message from_json_value route set_thing_interval configured
      persist_property
  interval_set c n s times h p a b o l = (
    configured (set_thing_interval write_int read_int (pos n) h.config) h,
    rw (p, to_i32_same (pos n) (ground arith)) refl,
    polls_once n s times a b o l,
    value-persist_property "site" "site" "thing_interval" "thing_interval" (write_int (pos n))
        (record h.config { thing_interval = pos n; intervals = pos n ∷ h.config.intervals }),
  )

  -- A client that sets the interval to zero makes the next call of the timer divide by zero.
  pub interval_zero :
      (c now : ℕ) (h : Hub Value)
      → is_property "thing_interval" ≡ true
      → (k : Hub Value) × (client_sent write_int read_int is_property c (interval_message (pos 0)) h
          ≡ some k)
        × (on_timer k.config.thing_interval now ≡ none)
  unfolding client_sent on_message from_json_value route set_thing_interval configured
      persist_property on_timer
  interval_zero c now h p = (
    configured (set_thing_interval write_int read_int (pos 0) h.config) h,
    rw (p, to_i32_same (pos 0) refl) refl,
    refl,
  )
