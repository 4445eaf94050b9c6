-- ===== src/WebServer/Broadcast/Hub/Seen.antt =====
-- What every client has seen of the things and of the interval.
use Prim.Native.String.{String}
use text.Mathlib.Text.{◌==◌ as str_eq}
use iotic.Prelude.{
  ℕ, ℤ, ◌≡◌, refl, ap, ◌∙◌, false, some, List, [], ◌∷◌, All, All_imp, All-map, All-filter_by,
}
use iotic.Config.ConfigRepository.{ConfigRepository}
use iotic.Rules.SymbolRepository.{find_symbol}
use iotic.Strategies.Strategy.{SiteProperties}
use iotic.Things.ThingValue.{scalar, integer}
use iotic.WebServer.Broadcast.{
  Thing, Published, serialize_user_properties, serialize_site_properties, site_history,
  site_properties,
}
use iotic.WebServer.Broadcast.Hub.{
  Hub, put, send_things, client_opened, client_closed, thing_added, thing_removed, site_changed,
  configured,
}
use iotic.WebServer.Broadcast.View.{
  view, view_other, IsSeen, IsSeen-other, IsDistinct, IsDistinct-filter_by, IsDistinct-put, All-put,
  user_properties-IsSeen, send_things-IsSeen, str_eq_other,
}

abbrev pub HasInterval : ℤ → List Published → Type 0
HasInterval interval inbox = view "site" "thing_interval" inbox ≡ some (scalar (integer interval))

abbrev pub IsUpToDate : List (String × Thing) → ℤ → ℕ × List Published → Type 0
IsUpToDate things interval c = All (IsSeen c.1) things × HasInterval interval c.1

-- Every open client has seen every property of every thing and the interval; each thing has one entry,
-- and none has the name of the site.
pub record IsHub {Value : Type 0} (h : Hub Value) : Type 0 where
  pub seen : All (IsUpToDate h.things h.config.thing_interval) h.clients
  pub distinct : IsDistinct h.things
  pub not_site : All (λ e. str_eq "site" e.0 ≡ false) h.things

-- A message about the site leaves what was seen of the things.
IsSeen-site :
    (m : Published) (inbox : List Published) (things : List (String × Thing))
    → m.thing ≡ "site"
    → All (λ e. str_eq "site" e.0 ≡ false) things
    → All (IsSeen inbox) things
    → All (IsSeen (m ∷ inbox)) things
IsSeen-site m inbox [] s n h = tt
IsSeen-site m inbox (e ∷ things) s n h = (
  IsSeen-other m inbox e (ap (λ x. str_eq x e.0) s ∙ n.0) h.0,
  IsSeen-site m inbox things s n.1 h.1,
)

module _ {Value : Type 0} where
  pub opened-IsHub : (c : ℕ) (h : Hub Value) → IsHub h → IsHub (client_opened c h)
  unfolding client_opened view site_history serialize_site_properties find_symbol
  opened-IsHub c h i =
      let history = site_history h.history in
      let site = serialize_site_properties h.config.thing_interval in
      let all = send_things h.things [] in
      record {
        seen = (
          (
            IsSeen-site history (site ∷ all) h.things refl i.not_site (
                IsSeen-site site all h.things refl i.not_site
                  (send_things-IsSeen h.things [] i.distinct)),
            refl,
          ),
          i.seen,
        );
        distinct = i.distinct;
        not_site = i.not_site;
      }

  pub closed-IsHub : (c : ℕ) (h : Hub Value) → IsHub h → IsHub (client_closed c h)
  unfolding client_closed
  closed-IsHub c h i = record {
    seen = All-filter_by _ _ h.clients i.seen;
    distinct = i.distinct;
    not_site = i.not_site;
  }

  pub added-IsHub :
      (id : String) (t : Thing) (h : Hub Value)
      → str_eq "site" id ≡ false
      → IsHub h
      → IsHub (thing_added id t h)
  unfolding thing_added serialize_user_properties
  added-IsHub id t h n i = record {
    seen =
        All-map (IsUpToDate (put id t h.things) h.config.thing_interval) _
          (λ c u. (
            All-put id t h.things (user_properties-IsSeen id t c.1)
                (λ e k f. IsSeen-other (serialize_user_properties id t) c.1 e k f) u.0,
            view_other "site" "thing_interval" (serialize_user_properties id t) c.1
                  (str_eq_other "site" id n)
                ∙ u.1,
          ))
          h.clients i.seen;
    distinct = IsDistinct-put id t h.things i.distinct;
    not_site = (n, All-filter_by _ _ h.things i.not_site);
  }

  pub removed-IsHub : (id : String) (h : Hub Value) → IsHub h → IsHub (thing_removed id h)
  unfolding thing_removed
  removed-IsHub id h i = record {
    seen = All_imp (λ c u. (All-filter_by _ _ h.things u.0, u.1)) h.clients i.seen;
    distinct = IsDistinct-filter_by id h.things i.distinct;
    not_site = All-filter_by _ _ h.things i.not_site;
  }

  pub changed-IsHub :
      (p : SiteProperties) (history : List SiteProperties) (h : Hub Value)
      → IsHub h
      → IsHub (site_changed p history h)
  unfolding site_changed view site_properties find_symbol
  changed-IsHub p history h i = record {
    seen =
        All-map (IsUpToDate h.things h.config.thing_interval) _
          (λ c u. (IsSeen-site (site_properties p) c.1 h.things refl i.not_site u.0, u.1)) h.clients
          i.seen;
    distinct = i.distinct;
    not_site = i.not_site;
  }

  pub configured-IsHub :
      (c : ConfigRepository Value) (h : Hub Value) → IsHub h → IsHub (configured c h)
  unfolding configured view serialize_site_properties find_symbol
  configured-IsHub c h i = record {
    seen =
        All-map (IsUpToDate h.things c.thing_interval) _
          (λ x u. (
            IsSeen-site (serialize_site_properties c.thing_interval) x.1 h.things refl i.not_site
                u.0,
            refl,
          ))
          h.clients i.seen;
    distinct = i.distinct;
    not_site = i.not_site;
  }
