-- ===== src/WebServer/Broadcast/Hub/Emitted.antt =====
-- What a thing publishes, and what a client has seen of it.
use Prim.Native.String.{String}
use text.Mathlib.Text.{◌==◌ as str_eq}
use text.Mathlib.TextEquality.{eq_iff}
use iotic.Prelude.{
  ◌≡◌, refl, sym, ap, ◌∙◌, subst, inl, inr, false, Option, none, some, List, [], ◌∷◌, All, All_imp,
  All-map, All-filter_by, Bool-cases,
}
use iotic.Config.ConfigRepository.Persistence.{newer}
use iotic.Rules.SymbolRepository.{find_symbol}
use iotic.Things.ThingValue.{Json}
use iotic.WebServer.Broadcast.{
  PropertyMap, Thing, Published, set_members, unless_empty, thing_properties,
}
use iotic.WebServer.Broadcast.Hub.{Hub, put, publish_some, properties_emitted}
use iotic.WebServer.Broadcast.View.{
  view, view_other, view-thing_properties, IsSeen, IsSeen-other, IsDistinct-put, All-put,
  str_eq_other,
}
use iotic.WebServer.Broadcast.Hub.Seen.{IsUpToDate, IsHub}

pub All-find :
    {V : Type 0} (P : String × V → Type 0) (id : String) (v : V) (entries : List (String × V))
    → All P entries
    → find_symbol id entries ≡ some v
    → P (id, v)
unfolding find_symbol
All-find P id v [] h e = cc
All-find P id v ((k, w) ∷ entries) h e = elim (Bool-cases (str_eq k id)) [
  | inl same ↦
      let found : some w ≡ some v = sym (rw same refl) ∙ e in
      subst P (ap (λ x. (x, w)) ((eq_iff k id).0 same) ∙ ap (λ x. (id, x)) (cc)) h.0
  | inr differ ↦ All-find P id v entries h.1 (rw differ at e)
]

newer_known :
    {V : Type 0} (new old seen : Option V) (v : V)
    → (old ≡ some v → seen ≡ some v)
    → newer new old ≡ some v
    → newer new seen ≡ some v
newer_known none old seen v f h = f h
newer_known (some x) old seen v f h = h

-- What a thing publishes when some properties are set on it, put over the properties that it had, are
-- the properties that it has.
abbrev pub IsUpdate :
    (PropertyMap → PropertyMap → PropertyMap) → (PropertyMap → PropertyMap → PropertyMap) → Type 0
IsUpdate store emit =
    (old set : PropertyMap) (key : String)
    → find_symbol key (set_members (store old set) [])
      ≡ newer (find_symbol key (set_members (emit old set) []))
          (find_symbol key (set_members old []))

-- What a thing has published makes its new properties seen, and leaves what was seen of the others.
update-IsSeen :
    (id : String) (t u : Thing) (members : List (String × Json)) (things : List (String × Thing))
    (inbox now : List Published)
    → ((key : String) → view id key now ≡ newer (find_symbol key members) (view id key inbox))
    → ((e : String × Thing) → str_eq id e.0 ≡ false → IsSeen inbox e → IsSeen now e)
    → find_symbol id things ≡ some t
    → ((key : String)
        → find_symbol key (set_members u.properties [])
          ≡ newer (find_symbol key members) (find_symbol key (set_members t.properties [])))
    → All (IsSeen inbox) things
    → All (IsSeen now) (put id u things)
update-IsSeen id t u members things inbox now views others found law seen =
    All-put id u things
      (λ key v k f.
        views key
        ∙ newer_known (find_symbol key members) _ _ v
            (λ o. All-find (IsSeen inbox) id t things seen found key v k o) (sym (law key) ∙ f))
      others seen

published_thing :
    (id : String) (m : Published) (members : List (String × Json))
    → unless_empty id members ≡ some m
    → m.thing ≡ id
published_thing id m [] e = cc
published_thing id m (x ∷ members) e =
    let sent : Published = record { thing = id; members = x ∷ members } in
    let same : sent ≡ m = cc in sym (ap (λ n. n.thing) same)

module _ {Value : Type 0} where
  emitted-seen :
      (id : String) (t u : Thing) (members : List (String × Json)) (h : Hub Value)
      (o : Option Published)
      → unless_empty id members ≡ o
      → str_eq "site" id ≡ false
      → find_symbol id h.things ≡ some t
      → ((key : String)
          → find_symbol key (set_members u.properties [])
            ≡ newer (find_symbol key members) (find_symbol key (set_members t.properties [])))
      → IsHub h
      → IsHub (publish_some o (record h { things = put id u h.things }))
  unfolding find_symbol view
  emitted-seen id t u [] h none e n found law i = record {
    seen =
        All_imp
          (λ c s. (
            update-IsSeen id t u [] h.things c.1 c.1 (λ key. refl) (λ x k f. f) found law s.0,
            s.1,
          ))
          h.clients i.seen;
    distinct = IsDistinct-put id u h.things i.distinct;
    not_site = (n, All-filter_by _ _ h.things i.not_site);
  }
  emitted-seen id t u (x ∷ members) h none e n found law i = cc
  emitted-seen id t u members h (some m) e n found law i =
      let thing = published_thing id m members e in
      record {
        seen =
            All-map (IsUpToDate (put id u h.things) h.config.thing_interval) _
              (λ c s. (
                update-IsSeen id t u members h.things c.1 (m ∷ c.1)
                    (λ key. view-thing_properties id key m members c.1 e)
                    (λ x k f. IsSeen-other m c.1 x (ap (λ y. str_eq y x.0) thing ∙ k) f) found law
                    s.0,
                view_other "site" "thing_interval" m c.1
                      (ap (λ y. str_eq y "site") thing ∙ str_eq_other "site" id n)
                    ∙ s.1,
              ))
              h.clients i.seen;
        distinct = IsDistinct-put id u h.things i.distinct;
        not_site = (n, All-filter_by _ _ h.things i.not_site);
      }

  pub emitted-IsHub :
      (store emit : PropertyMap → PropertyMap → PropertyMap) (id : String) (t : Thing)
      (set : PropertyMap) (h : Hub Value)
      → IsUpdate store emit
      → find_symbol id h.things ≡ some t
      → IsHub h
      → IsHub (properties_emitted id t (store t.properties set) (emit t.properties set) h)
  unfolding properties_emitted thing_properties
  emitted-IsHub store emit id t set h law found i =
      emitted-seen id t (record t { properties = store t.properties set })
        (set_members (emit t.properties set) []) h _ refl
        (All-find (λ e. str_eq "site" e.0 ≡ false) id t h.things i.not_site found) found
        (law t.properties set) i
