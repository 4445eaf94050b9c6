-- ===== src/Runs/Web.antt =====
-- Runs of the web server: a client that comes before a thing and one that comes after it.
use Prim.Native.String.{String}
use text.Mathlib.Text.{◌==◌ as str_eq}
use text.Mathlib.TextEquality.{eq_iff}
use iotic.Prelude.{
  ℕ, ℤ, pos, negsuc, ◌≡◌, refl, sym, ap, ◌∙◌, subst, inl, inr, Bool, true, Option, none, some, List,
  [], ◌∷◌, ◌++◌, arith, Bool-cases, filter_by,
}
use iotic.Config.ConfigRepository.{ConfigRepository, value, set_properties_to}
use iotic.Config.ConfigRepository.Persistence.{find-set_self, find-set_other, newer}
use iotic.Runs.Config
use iotic.WebServer.Broadcast.Hub.Restored.{property_map, thing_returned, name_shown_again}
use iotic.Rules.SymbolRepository.{find_symbol, set_symbol}
use iotic.Things.ThingValue.{
  Json, to_json_value, ThingPropertyValue, scalar, integer, text as json_text,
}
use iotic.WebServer.Broadcast.{
  PropertyMap, Thing, Published, set_members, serialize_user_properties, serialize_site_properties,
  site_history, thing_properties, get_things,
}
use iotic.WebServer.Broadcast.Hub.{
  Hub, client_opened, thing_added, properties_emitted, Event, Reach, send_things, client_sent,
}
use iotic.WebServer.Broadcast.Hub.Emitted.{IsUpdate}
use iotic.Things.ThingsManager.{on_timer}
use iotic.Things.ThingsManager.Polls.{polls, IsOnTime}
use iotic.WebServer.Broadcast.Hub.Interval.{interval_message, interval_set, interval_zero}
use iotic.WebServer.Broadcast.Hub.Answers.{start, answers_seen, interval_seen}
use iotic.WebServer.Broadcast.View.{view}

abbrev pub store : PropertyMap → PropertyMap → PropertyMap
store old set = old ++ set

abbrev pub emit : PropertyMap → PropertyMap → PropertyMap
emit old set = set

newer_assoc : {T : Type 0} (a b c : Option T) → newer (newer a b) c ≡ newer a (newer b c)
newer_assoc none b c = refl
newer_assoc (some x) b c = refl

find-set_symbol :
    (key k : String) (v : Json) (members : List (String × Json))
    → find_symbol key (set_symbol k v members)
      ≡ newer (find_symbol key (set_symbol k v [])) (find_symbol key members)
unfolding find_symbol
find-set_symbol key k v members = elim (Bool-cases (str_eq k key)) [
  | inl same ↦
      let equal = (eq_iff k key).0 same in
      subst
        (λ x.
          find_symbol x (set_symbol k v members)
          ≡ newer (find_symbol x (set_symbol k v [])) (find_symbol x members))
        equal
        (find-set_self k v members
          ∙ sym (ap (λ o. newer o (find_symbol k members)) (find-set_self k v [])))
  | inr differ ↦
      find-set_other k key v members differ
      ∙ sym (ap (λ o. newer o (find_symbol key members)) (find-set_other k key v [] differ))
]

find-set_members :
    (key : String) (set : PropertyMap) (members : List (String × Json))
    → find_symbol key (set_members set members)
      ≡ newer (find_symbol key (set_members set [])) (find_symbol key members)
unfolding set_members find_symbol
find-set_members key [] members = refl
find-set_members key ((k, v) ∷ set) members =
    let j = to_json_value v in
    let rest = find_symbol key (set_members set []) in
    find-set_members key set (set_symbol k j members)
    ∙ ap (newer rest) (find-set_symbol key k j members)
    ∙ sym (newer_assoc rest (find_symbol key (set_symbol k j [])) (find_symbol key members))
    ∙ ap (λ o. newer o (find_symbol key members))
        (sym (find-set_members key set (set_symbol k j [])))

set_members-append :
    (old set : PropertyMap) (members : List (String × Json))
    → set_members (old ++ set) members ≡ set_members set (set_members old members)
unfolding set_members
set_members-append [] set members = refl
set_members-append ((k, v) ∷ old) set members = set_members-append old set _

pub update : IsUpdate store emit
update old set key =
    ap (find_symbol key) (set_members-append old set [])
    ∙ find-set_members key set (set_members old [])

abbrev pub config : ConfigRepository ℤ
config = record {
  table = [];
  thing_interval = pos 10;
  discovery_interval = pos 60;
  intervals = [];
  files = [];
}

abbrev pub meter : Thing
meter = record {
  thing_type = some "SmartMeter";
  properties = ("power", ThingPropertyValue.whole (pos 300)) ∷ [];
}

abbrev feeding : PropertyMap
feeding = ("power", ThingPropertyValue.whole (negsuc 99)) ∷ []

abbrev with_early : Hub ℤ
with_early = client_opened 1 (start [] config)

abbrev with_meter : Hub ℤ
with_meter = thing_added "meter" meter with_early

abbrev with_power : Hub ℤ
with_power = properties_emitted "meter" meter (store meter.properties feeding) feeding with_meter

abbrev with_both : Hub ℤ
with_both = client_opened 2 with_power

abbrev pub readable : ℤ → Option ℤ
readable v = some v

abbrev pub known : String → Bool
known name = true

run : Reach (λ i. i) readable known store emit (start [] config) with_both
unfolding thing_added client_opened find_symbol
run =
    Reach.next
      (Reach.next
        (Reach.next (Reach.next Reach.here (Event.opened 1 (start [] config)))
          (Event.added "meter" meter with_early refl))
        (Event.emitted "meter" meter feeding with_meter refl))
      (Event.opened 2 with_power)

abbrev power : List (String × Json)
power = ("power", scalar (integer (negsuc 99))) ∷ []

abbrev early : List Published
early =
    record { thing = "meter"; members = power }
    ∷ serialize_user_properties "meter" meter
    ∷ site_history []
    ∷ serialize_site_properties (pos 10)
    ∷ []

answers_seen_example : view "meter" "power" early ≡ some (scalar (integer (negsuc 99)))
unfolding client_opened properties_emitted thing_added thing_properties set_members set_symbol
    find_symbol get_things to_json_value send_things
answers_seen_example =
    answers_seen (λ i. i) readable known store emit [] config {h = with_both} 1 early "meter"
      "power" power (scalar (integer (negsuc 99))) update run refl refl refl refl

interval_seen_example : view "site" "thing_interval" early ≡ some (scalar (integer (pos 10)))
unfolding client_opened properties_emitted thing_added thing_properties set_members set_symbol
    find_symbol to_json_value send_things
interval_seen_example =
    interval_seen (λ i. i) readable known store emit [] config {h = with_both} 1 early update run
      refl

-- A client that comes later is sent the thing as it is then.
late_client :
    view "meter" "power" (send_things with_power.things []) ≡ some (scalar (integer (negsuc 99)))
unfolding client_opened properties_emitted thing_added thing_properties set_members set_symbol
    find_symbol to_json_value send_things view serialize_user_properties filter_by
late_client = refl

abbrev ticks : List ℕ
ticks = 720 ∷ 790 ∷ 851 ∷ 1049 ∷ 1100 ∷ 1190 ∷ 1300 ∷ 1400 ∷ 1500 ∷ 1600 ∷ []

on_time : IsOnTime 7 ticks
on_time = (refl, (refl, (refl, (refl, (refl, (refl, (refl, (refl, (refl, (refl, tt))))))))))

interval_set_example :
    (k : Hub ℤ) × (client_sent (λ i. i) readable known 1 (interval_message (pos 1)) with_both
      ≡ some k)
    × (polls k.config.thing_interval ticks ≡ some 1)
    × (value "site" "thing_interval" k.config ≡ some (pos 1))
interval_set_example =
    interval_set (λ i. i) readable known 1 1 7 ticks with_both refl (omega arith) (omega arith)
      on_time refl

interval_zero_example :
    (k : Hub ℤ) × (client_sent (λ i. i) readable known 1 (interval_message (pos 0)) with_both
      ≡ some k)
    × (on_timer k.config.thing_interval 720 ≡ none)
interval_zero_example = interval_zero (λ i. i) readable known 1 720 with_both refl

abbrev desk_lamp : Thing
desk_lamp = record {
  thing_type = none;
  properties = store [] (
      property_map (
        set_properties_to Config.read_text Config.read_boolean Config.read_integer "lamp"
          Config.again));
}

abbrev lamp : Thing
lamp = record { thing_type = none; properties = [] }

abbrev shown : List Published
shown =
    serialize_user_properties "lamp" desk_lamp
    ∷ site_history []
    ∷ serialize_site_properties Config.again.thing_interval
    ∷ []

name_shown_again_example : view "lamp" "name" shown ≡ some (scalar (json_text "Desk"))
unfolding thing_returned thing_added client_opened send_things
name_shown_again_example =
    name_shown_again Config.Entry.text Config.Entry.boolean Config.Entry.integer Config.read_text
      Config.read_boolean Config.read_integer store (λ x. refl) (λ x. refl) (λ x. refl) update
      "lamp" "Desk" lamp Config.renamed Config.config Config.config
      (client_opened 1 (start [] Config.again)) 1 shown refl refl refl refl
