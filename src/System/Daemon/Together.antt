-- ===== src/System/Daemon/Together.antt =====
-- What holds between the parts: the strategies, their things, and what the clients are shown.
use Prim.Native.String.{String}
use mathlib.Core.List.{Mem}
use text.Mathlib.Text.{◌==◌ as str_eq}
use text.Mathlib.TextEquality.{eq_iff}
use iotic.Prelude.{
  ℕ, ℤ, ◌≡◌, refl, sym, ap, ◌∙◌, subst, ◌⊎◌, inl, inr, Bool, true, false, not, ◌||◌, Option, none,
  some, List, [], ◌∷◌, All, map, arith, Bool-cases, filter_by, if◌then◌else◌,
}
use iotic.Config.ConfigRepository.{ConfigRepository, set_properties_to, on_properties}
use iotic.Config.ConfigRepository.Persistence.{on_properties-interval}
use iotic.Rules.RuleEngine.{contains}
use iotic.Rules.SymbolRepository.{find_symbol}
use iotic.Strategies.PowerManager.{Manager}
use iotic.Strategies.Strategy.{SiteProperties, World, StrategyOps}
use iotic.System
use iotic.System.{System}
use iotic.System.Presence.{IsSystem, Event-IsSystem, adjusted-present}
use iotic.System.Daemon.{
  Daemon, thing_added, thing_removed, site_changed, with_config, Event, Reach,
}
use iotic.WebServer.Broadcast.{PropertyMap, Thing, Published, set_members, thing_properties}
use iotic.WebServer.Broadcast.Hub
use iotic.WebServer.Broadcast.Hub.{
  Hub, put, client_opened, client_closed, properties_emitted, client_sent, publish_some,
}
use iotic.WebServer.Broadcast.Hub.Answers
use iotic.Things.ThingValue.{Json}
use iotic.WebServer.Broadcast.Hub.Answers.{
  Event-IsHub, client_sent-things, find_client, All-find_client,
}
use iotic.WebServer.Broadcast.Hub.Emitted.{IsUpdate, All-find}
use iotic.WebServer.Broadcast.Hub.Restored.{property_map}
use iotic.WebServer.Broadcast.Hub.Seen.{IsHub, IsUpToDate}
use iotic.Rules.RuleEngine.Parser.{contains-find}
use iotic.Rules.RuleEngine.Symbols.{find-contains}
use iotic.WebServer.Broadcast.View.{view, IsSeen}

abbrev names : List (String × Thing) → List String
names things = map (λ e. e.0) things

contains-filter_by :
    (x id : String) (xs : List String)
    → contains x (filter_by (λ t. not (str_eq t id)) xs)
      ≡ (if str_eq id x then false else contains x xs)
unfolding contains filter_by
contains-filter_by x id [] = ground arith
contains-filter_by x id (y ∷ xs) = elim (Bool-cases (str_eq y id)) [
  | inl gone ↦
      let same = (eq_iff y id).0 gone in
      let equal : str_eq y x ≡ str_eq id x = ap (λ z. str_eq z x) same in
      rw (gone, equal) (contains-filter_by x id xs ∙ ground arith)
  | inr stays ↦ elim (Bool-cases (str_eq id x)) [
    | inl mine ↦
        let same = (eq_iff id x).0 mine in
        let differ : str_eq y x ≡ false = sym (ap (str_eq y) same) ∙ stays in
        rw (stays, mine, differ) (contains-filter_by x id xs ∙ rw mine refl)
    | inr other ↦
        rw (stays, other) (ap (λ b. str_eq y x || b) (contains-filter_by x id xs ∙ rw other refl))
  ]
]

names-filter_by :
    (id : String) (things : List (String × Thing))
    → names (filter_by (λ e. not (str_eq e.0 id)) things)
      ≡ filter_by (λ t. not (str_eq t id)) (names things)
unfolding filter_by
names-filter_by id [] = refl
names-filter_by id (e ∷ things) = elim (Bool-cases (str_eq e.0 id)) [
  | inl gone ↦ rw gone (names-filter_by id things)
  | inr stays ↦ rw stays (ap (λ r. e.0 ∷ r) (names-filter_by id things))
]

contains-removed :
    (x id : String) (things : List (String × Thing))
    → contains x (names (filter_by (λ e. not (str_eq e.0 id)) things))
      ≡ (if str_eq id x then false else contains x (names things))
contains-removed x id things =
    ap (contains x) (names-filter_by id things) ∙ contains-filter_by x id (names things)

contains-put :
    (x id : String) (t : Thing) (things : List (String × Thing))
    → contains x (names (put id t things))
      ≡ (if str_eq id x then true else contains x (names things))
unfolding contains
contains-put x id t things = let e = contains-removed x id things in ground (arith, e)

-- The rules and the web server have the same things.
abbrev HaveSame : {V S Value : Type 0} → Daemon V S Value → Type 0
HaveSame d = (x : String) → contains x d.system.things ≡ contains x (names d.hub.things)

added_same :
    (x id : String) (t : Thing) (ids : List String) (things : List (String × Thing))
    → contains x ids ≡ contains x (names things)
    → contains x (id ∷ ids) ≡ contains x (names (put id t things))
unfolding contains
added_same x id t ids things h = let e = contains-put x id t things in ground (arith, e, h)

removed_same :
    (x id : String) (ids : List String) (things : List (String × Thing))
    → contains x ids ≡ contains x (names things)
    → contains x (filter_by (λ t. not (str_eq t id)) ids)
      ≡ contains x (names (filter_by (λ e. not (str_eq e.0 id)) things))
removed_same x id ids things h =
    contains-filter_by x id ids
    ∙ ap (λ b. if str_eq id x then false else b) h
    ∙ sym (contains-removed x id things)

-- A thing that publishes is there already.
put_same :
    (x id : String) (t u : Thing) (things : List (String × Thing))
    → find_symbol id things ≡ some t
    → contains x (names things) ≡ contains x (names (put id u things))
put_same x id t u things found = elim (Bool-cases (str_eq id x)) [
  | inl same ↦
      let here = contains-find id t things found in
      subst (λ y. contains y (names things) ≡ contains y (names (put id u things)))
        ((eq_iff id x).0 same)
        (here ∙ sym (contains-put id id u things ∙ rw ((eq_iff id id).1 refl) refl))
  | inr differ ↦ sym (contains-put x id u things ∙ rw differ refl)
]

published_things :
    {Value : Type 0} (o : Option Published) (h : Hub Value) → (publish_some o h).things ≡ h.things
published_things none h = refl
published_things (some m) h = refl

-- A daemon without things and clients.
abbrev pub start :
    {V S Value : Type 0}
    → List (String × V)
    → Manager S
    → List SiteProperties
    → ConfigRepository Value
    → Daemon V S Value
start symbols manager history config = record {
  system = record {
    things = [];
    rules = record {
      engine = record { dependent = []; subscribed = []; subscriptions = [] };
      symbols = symbols;
      strategies = [];
    };
    manager = manager;
  };
  hub = Answers.start history config;
}

seen_or_none :
    (inbox : List Published) (id key : String) (t : Thing) (o : Option Json)
    → IsSeen inbox (id, t)
    → str_eq "type" key ≡ false
    → find_symbol key (set_members t.properties []) ≡ o
    → (find_symbol key (set_members t.properties []) ≡ none)
      ⊎ (view id key inbox ≡ find_symbol key (set_members t.properties []))
seen_or_none inbox id key t none seen h e = inl e
seen_or_none inbox id key t (some v) seen h e = inr (seen key v h e ∙ sym e)

with_config-IsHub :
    {Value : Type 0} (c : ConfigRepository Value) (h : Hub Value)
    → c.thing_interval ≡ h.config.thing_interval
    → IsHub h
    → IsHub (with_config c h)
with_config-IsHub c h e i = record {
  seen = subst (λ x. All (IsUpToDate h.things x) h.clients) (sym e) i.seen;
  distinct = i.distinct;
  not_site = i.not_site;
}

module _ {V S Value : Type 0} (ops : StrategyOps S) (thing_id : ℕ → String) (priority : ℕ → ℤ)
    (write_string : String → Value) (write_bool : Bool → Value) (write_int : ℤ → Value)
    (read_string : Value → Option String) (read_bool : Value → Option Bool)
    (read_int : Value → Option ℤ) (is_property : String → Bool)
    (store emit : PropertyMap → PropertyMap → PropertyMap) where
  -- Each part is in order, and the parts have the same things.
  pub record IsDaemon (d : Daemon V S Value) : Type 0 where
    pub is_system : IsSystem thing_id priority d.system
    pub is_hub : IsHub d.hub
    pub same : HaveSame d

  Event-IsDaemon :
      {d e : Daemon V S Value}
      → IsUpdate store emit
      → Event ops thing_id priority write_string write_bool write_int read_string read_bool read_int
          is_property store emit d e
      → IsDaemon d
      → IsDaemon e
  unfolding thing_added thing_removed site_changed Hub.thing_added Hub.thing_removed
      Hub.site_changed client_opened client_closed properties_emitted System.thing_added
      System.thing_removed System.site_changed
  Event-IsDaemon law (Event.added factory id t set d f n) i =
      let kept = set_properties_to read_string read_bool read_int id d.hub.config in
      let there : Thing = record t {
        properties = store (store t.properties (property_map kept)) set;
      } in
      record {
        is_system =
            Event-IsSystem ops thing_id priority (System.Event.added factory id d.system f)
              i.is_system;
        is_hub =
            Event-IsHub write_int read_int is_property store emit law
              (Hub.Event.added id there d.hub n) i.is_hub;
        same = λ x. added_same x id there d.system.things d.hub.things (i.same x);
      }
  Event-IsDaemon law (Event.removed id d) i = record {
    is_system = Event-IsSystem ops thing_id priority (System.Event.removed id d.system) i.is_system;
    is_hub =
        Event-IsHub write_int read_int is_property store emit law (Hub.Event.removed id d.hub)
          i.is_hub;
    same = λ x. removed_same x id d.system.things d.hub.things (i.same x);
  }
  Event-IsDaemon law (Event.changed world p history d) i = record {
    is_system =
        Event-IsSystem ops thing_id priority (System.Event.changed world p d.system) i.is_system;
    is_hub =
        Event-IsHub write_int read_int is_property store emit law
          (Hub.Event.changed p history d.hub) i.is_hub;
    same = i.same;
  }
  Event-IsDaemon law (Event.emitted id t set kept symbols d found) i =
      let new : Thing = record t { properties = store t.properties set } in
      let config = on_properties write_string write_bool write_int id kept d.hub.config in
      let hub = with_config config d.hub in
      record {
        is_system = record {
          sorted = i.is_system.sorted;
          present = i.is_system.present;
          apart = i.is_system.apart;
        };
        is_hub =
            Event-IsHub write_int read_int is_property store emit law
              (Hub.Event.emitted id t set hub found)
              (with_config-IsHub config d.hub
                (on_properties-interval write_string write_bool write_int id kept d.hub.config)
                i.is_hub);
        same = λ x.
            i.same x
            ∙ put_same x id t new d.hub.things found
            ∙ ap (λ l. contains x (names l))
                (sym (published_things (thing_properties id (emit t.properties set)) _));
      }
  Event-IsDaemon law (Event.opened c d) i = record {
    is_system = i.is_system;
    is_hub =
        Event-IsHub write_int read_int is_property store emit law (Hub.Event.opened c d.hub)
          i.is_hub;
    same = i.same;
  }
  Event-IsDaemon law (Event.closed c d) i = record {
    is_system = i.is_system;
    is_hub =
        Event-IsHub write_int read_int is_property store emit law (Hub.Event.closed c d.hub)
          i.is_hub;
    same = i.same;
  }
  Event-IsDaemon law (Event.sent n m d k f) i = record {
    is_system = i.is_system;
    is_hub =
        Event-IsHub write_int read_int is_property store emit law (Hub.Event.sent n m d.hub k f)
          i.is_hub;
    same = λ x.
        i.same x
        ∙ ap (λ l. contains x (names l))
            (client_sent-things write_int read_int is_property n m d.hub k f);
  }

  Reach-IsDaemon :
      {d e : Daemon V S Value}
      → IsUpdate store emit
      → Reach ops thing_id priority write_string write_bool write_int read_string read_bool read_int
          is_property store emit d e
      → IsDaemon d
      → IsDaemon e
  Reach-IsDaemon law Reach.here i = i
  Reach-IsDaemon law (Reach.next r e) i = Event-IsDaemon law e (Reach-IsDaemon law r i)

  start-IsDaemon :
      (symbols : List (String × V)) (manager : Manager S) (history : List SiteProperties)
      (config : ConfigRepository Value)
      → IsDaemon (start symbols manager history config)
  unfolding contains
  start-IsDaemon symbols manager history config = record {
    is_system = record { sorted = tt; present = tt; apart = λ x h. cc };
    is_hub = record { seen = tt; distinct = tt; not_site = tt };
    same = λ x. refl;
  }

  -- Whatever happens from the start on, each strategy that a cycle adjusts belongs to a thing that the web
  -- server has, and of each property of this thing the newest value that an open client was sent is the
  -- one that the thing has, if a thing publishes what its properties become and no thing is named like
  -- the site. The name `type` is left out, which the first message about a thing uses for something else.
  pub adjusted_seen :
      (symbols : List (String × V)) (manager : Manager S) (history : List SiteProperties)
      (config : ConfigRepository Value) (d : Daemon V S Value) (world : World)
      (site : SiteProperties) (p n : ℕ) (inbox : List Published) (key : String)
      → IsUpdate store emit
      → Reach ops thing_id priority write_string write_bool write_int read_string read_bool read_int
          is_property store emit
          (start symbols manager history config)
          d
      → Mem p (map (λ e. e.0) (System.site_changed ops world site d.system).manager.log)
      → find_client n d.hub.clients ≡ some inbox
      → str_eq "type" key ≡ false
      → (t : Thing) × (find_symbol (thing_id p) d.hub.things ≡ some t)
        × ((find_symbol key (set_members t.properties []) ≡ none)
            ⊎ (view (thing_id p) key inbox ≡ find_symbol key (set_members t.properties [])))
  adjusted_seen symbols manager history config d world site p n inbox key law r adjusted found h =
      let now = Reach-IsDaemon law r (start-IsDaemon symbols manager history config) in
      let id = thing_id p in
      let there =
        adjusted-present ops thing_id priority d.system d.system world site p now.is_system
          System.Reach.here adjusted in
      let thing = find-contains id d.hub.things (sym (now.same id) ∙ there) in
      let current =
        All-find_client (λ i. IsUpToDate d.hub.things d.hub.config.thing_interval (n, i)) n inbox
          d.hub.clients now.is_hub.seen found in
      (
        thing.0,
        thing.1,
        seen_or_none inbox id key thing.0 _
            (All-find (IsSeen inbox) id thing.0 d.hub.things current.0 thing.1) h refl,
      )
