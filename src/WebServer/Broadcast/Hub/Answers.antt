-- ===== src/WebServer/Broadcast/Hub/Answers.antt =====
-- What a client has seen, and what the server answers.
use Prim.Native.String.{String}
use text.Mathlib.Text.{◌==◌ as str_eq}
use text.Mathlib.TextEquality.{eq_iff}
use iotic.Prelude.{
  ℕ, ℤ, ◌≡◌, refl, sym, ap, ◌∙◌, subst, inl, inr, ◌⊎◌, Bool, true, false, Option, none, some, List,
  [], ◌∷◌, All, ◌==◌, Bool-cases, if◌then◌else◌,
}
use iotic.Config.ConfigRepository.{ConfigRepository}
use iotic.Rules.SymbolRepository.{find_symbol}
use iotic.Strategies.Strategy.{SiteProperties}
use iotic.Things.ThingValue.{Json, scalar, integer}
use iotic.WebServer.Broadcast.{PropertyMap, Thing, Published, set_members, get_things, entered}
use iotic.WebServer.Broadcast.Hub.{Hub, client_sent, configured, take_effect, Event, Reach}
use iotic.WebServer.Broadcast.View.{view, IsSeen}
use iotic.WebServer.Messages.{Effect, Message, on_message}
use iotic.WebServer.SiteHistory.{Reply}
use iotic.WebServer.Broadcast.Hub.Seen.{
  IsUpToDate, IsHub, opened-IsHub, closed-IsHub, added-IsHub, removed-IsHub, changed-IsHub,
  configured-IsHub,
}
use iotic.WebServer.Broadcast.Hub.Emitted.{IsUpdate, emitted-IsHub}

module _ {Value : Type 0} where
  -- What was sent back and what was asked of the repository change nothing that a client has seen.
  noted-IsHub :
      (replies : List (ℕ × Reply)) (requests : List (String × String × Json)) (h : Hub Value)
      → IsHub h
      → IsHub (record h { replies = replies; requests = requests })
  noted-IsHub replies requests h i = record {
    seen = i.seen;
    distinct = i.distinct;
    not_site = i.not_site;
  }

  resulting : (h k : Hub Value) → some h ≡ some k → IsHub h → IsHub k
  resulting h k e i = let same : h ≡ k = cc in subst (λ x. IsHub x) same i

  take_effect-IsHub :
      (n : ℕ) (e : Effect Value) (h k : Hub Value) → take_effect n e h ≡ some k → IsHub h → IsHub k
  take_effect-IsHub n Effect.ignored h k f i = resulting h k f i
  take_effect-IsHub n Effect.escaped h k f i = cc
  take_effect-IsHub n (Effect.replied Reply.fault) h k f i = cc
  take_effect-IsHub n (Effect.replied Reply.nothing) h k f i = resulting h k f i
  take_effect-IsHub n (Effect.replied (Reply.series s)) h k f i =
      resulting _ k f (noted-IsHub _ h.requests h i)
  take_effect-IsHub n (Effect.configured c) h k f i = resulting _ k f (configured-IsHub c h i)
  take_effect-IsHub n (Effect.set_property id key value) h k f i =
      resulting _ k f (noted-IsHub h.replies _ h i)

module _ {Value : Type 0} where
  same_things : (h k : Hub Value) → some h ≡ some k → h.things ≡ k.things
  same_things h k e = let same : h ≡ k = cc in ap (λ x. x.things) same

  take_effect-things :
      (n : ℕ) (e : Effect Value) (h k : Hub Value)
      → take_effect n e h ≡ some k
      → h.things ≡ k.things
  unfolding configured
  take_effect-things n Effect.ignored h k f = same_things h k f
  take_effect-things n Effect.escaped h k f = cc
  take_effect-things n (Effect.replied Reply.fault) h k f = cc
  take_effect-things n (Effect.replied Reply.nothing) h k f = same_things h k f
  take_effect-things n (Effect.replied (Reply.series s)) h k f = same_things _ k f
  take_effect-things n (Effect.configured c) h k f = same_things (configured c h) k f
  take_effect-things n (Effect.set_property id key value) h k f = same_things _ k f

-- A message of a client leaves the things as they are.
pub client_sent-things :
    {Value : Type 0} (write_int : ℤ → Value) (read_int : Value → Option ℤ)
    (is_property : String → Bool) (n : ℕ) (m : Message) (h k : Hub Value)
    → client_sent write_int read_int is_property n m h ≡ some k
    → h.things ≡ k.things
unfolding client_sent
client_sent-things write_int read_int is_property n m h k f =
    take_effect-things n (on_message write_int read_int is_property h.history h.config m) h k f

module _ {Value : Type 0} (write_int : ℤ → Value) (read_int : Value → Option ℤ)
    (is_property : String → Bool) (store emit : PropertyMap → PropertyMap → PropertyMap) where
  pub Event-IsHub :
      {h k : Hub Value}
      → IsUpdate store emit
      → Event write_int read_int is_property store emit h k
      → IsHub h
      → IsHub k
  unfolding client_sent
  Event-IsHub law (Event.opened c h) i = opened-IsHub c h i
  Event-IsHub law (Event.closed c h) i = closed-IsHub c h i
  Event-IsHub law (Event.added id t h n) i = added-IsHub id t h n i
  Event-IsHub law (Event.removed id h) i = removed-IsHub id h i
  Event-IsHub law (Event.emitted id t set h found) i =
      emitted-IsHub store emit id t set h law found i
  Event-IsHub law (Event.changed p history h) i = changed-IsHub p history h i
  Event-IsHub law (Event.sent n m h k e) i = take_effect-IsHub n _ h k e i

  Reach-IsHub :
      {h k : Hub Value}
      → IsUpdate store emit
      → Reach write_int read_int is_property store emit h k
      → IsHub h
      → IsHub k
  Reach-IsHub law Reach.here i = i
  Reach-IsHub law (Reach.next r e) i = Event-IsHub law e (Reach-IsHub law r i)

find-entered :
    (id other : String) (members section : List (String × Json))
    (rest : List (String × List (String × Json)))
    → find_symbol id (entered other members rest) ≡ some section
    → ((str_eq other id ≡ true) × (members ≡ section)) ⊎ (find_symbol id rest ≡ some section)
unfolding find_symbol
find-entered id other [] section rest e = inr e
find-entered id other (m ∷ members) section rest e = elim (Bool-cases (str_eq other id)) [
  | inl same ↦
      let found : some (m ∷ members) ≡ some section = sym (rw same refl) ∙ e in inl (same, cc)
  | inr differ ↦ inr (rw differ at e)
]

-- A property in the answer to `/things` is one that was seen.
get_things-seen :
    (inbox : List Published) (id key : String) (section : List (String × Json)) (v : Json)
    (things : List (String × Thing))
    → All (IsSeen inbox) things
    → str_eq "type" key ≡ false
    → find_symbol id (get_things things) ≡ some section
    → find_symbol key section ≡ some v
    → view id key inbox ≡ some v
unfolding get_things find_symbol
get_things-seen inbox id key section v [] h t e f = cc
get_things-seen inbox id key section v ((other, thing) ∷ things) h t e f =
    elim (find-entered id other (set_members thing.properties []) section (get_things things) e) [
      | inl (same, found) ↦
          ap (λ i. view i key inbox) (sym ((eq_iff other id).0 same))
          ∙ h.0 key v t (ap (find_symbol key) found ∙ f)
      | inr later ↦ get_things-seen inbox id key section v things h.1 t later f
    ]

abbrev pub find_client : ℕ → List (ℕ × List Published) → Option (List Published)
find_client n [] = none
find_client n ((c, inbox) ∷ clients) = if c == n then some inbox else find_client n clients

pub All-find_client :
    (P : List Published → Type 0) (n : ℕ) (inbox : List Published)
    (clients : List (ℕ × List Published))
    → All (λ c. P c.1) clients
    → find_client n clients ≡ some inbox
    → P inbox
All-find_client P n inbox [] h e = cc
All-find_client P n inbox ((c, sent) ∷ clients) h e = elim (Bool-cases (c == n)) [
  | inl same ↦
      let found : some sent ≡ some inbox = sym (rw same refl) ∙ e in
      let equal : sent ≡ inbox = cc in subst P equal h.0
  | inr differ ↦ All-find_client P n inbox clients h.1 (rw differ at e)
]

abbrev pub start : {Value : Type 0} → List SiteProperties → ConfigRepository Value → Hub Value
start history config = record {
  things = [];
  history = history;
  config = config;
  clients = [];
  replies = [];
  requests = [];
}

module _ {Value : Type 0} (write_int : ℤ → Value) (read_int : Value → Option ℤ)
    (is_property : String → Bool) (store emit : PropertyMap → PropertyMap → PropertyMap) where
  start-IsUpToDate :
      (history : List SiteProperties) (config : ConfigRepository Value) {h : Hub Value} (n : ℕ)
      (inbox : List Published)
      → IsUpdate store emit
      → Reach write_int read_int is_property store emit (start history config) h
      → find_client n h.clients ≡ some inbox
      → IsUpToDate h.things h.config.thing_interval (n, inbox)
  start-IsUpToDate history config {h = h} n inbox law r found =
      let hub =
        Reach-IsHub write_int read_int is_property store emit law r
          (record { seen = tt; distinct = tt; not_site = tt }) in
      All-find_client (λ i. IsUpToDate h.things h.config.thing_interval (n, i)) n inbox h.clients
        hub.seen found

  -- From the start on, whatever things are added, removed or publish and whatever clients come, go and
  -- send, what `/things` would answer of a property is the newest value that each open client was sent
  -- of it, if a thing publishes what its properties become and if no thing is named like the site. The
  -- name `type` is left out, which the first message about a thing uses for something else.
  pub answers_seen :
      (history : List SiteProperties) (config : ConfigRepository Value) {h : Hub Value} (n : ℕ)
      (inbox : List Published) (id key : String) (section : List (String × Json)) (v : Json)
      → IsUpdate store emit
      → Reach write_int read_int is_property store emit (start history config) h
      → find_client n h.clients ≡ some inbox
      → str_eq "type" key ≡ false
      → find_symbol id (get_things h.things) ≡ some section
      → find_symbol key section ≡ some v
      → view id key inbox ≡ some v
  answers_seen history config {h = h} n inbox id key section v law r found t e f =
      get_things-seen inbox id key section v h.things
        (start-IsUpToDate history config n inbox law r found).0 t e f

  -- From the start on, each open client knows the interval that is configured: it is the newest value
  -- that it was sent of it, if a thing publishes what its properties become and no thing is named like
  -- the site.
  pub interval_seen :
      (history : List SiteProperties) (config : ConfigRepository Value) {h : Hub Value} (n : ℕ)
      (inbox : List Published)
      → IsUpdate store emit
      → Reach write_int read_int is_property store emit (start history config) h
      → find_client n h.clients ≡ some inbox
      → view "site" "thing_interval" inbox ≡ some (scalar (integer h.config.thing_interval))
  interval_seen history config n inbox law r found =
      (start-IsUpToDate history config n inbox law r found).1
