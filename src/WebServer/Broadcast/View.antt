-- ===== src/WebServer/Broadcast/View.antt =====
-- What a client knows from the messages that it was sent.
use Prim.Native.String.{String}
use text.Mathlib.Text.{◌==◌ as str_eq}
use text.Mathlib.TextEquality.{eq_iff}
use iotic.Prelude.{
  ◌≡◌, refl, sym, ap, ◌∙◌, subst, inl, inr, true, false, not, Option, none, some, List, [], ◌∷◌,
  All, All-filter_by, All-filter_kept, Bool, arith, Bool-cases, if◌then◌else◌, filter_by,
}
use iotic.Config.ConfigRepository.Persistence.{find-set_other, newer}
use iotic.Rules.SymbolRepository.{find_symbol}
use iotic.Things.ThingValue.{Json}
use iotic.WebServer.Broadcast.{
  Thing, Published, set_members, with_type, serialize_user_properties, unless_empty,
}
use iotic.WebServer.Broadcast.Hub.{put, send_things}

-- What a client shows of a property: the newest value that it was sent.
unfoldable pub view : String → String → List Published → Option Json
view id key [] = none
view id key (m ∷ inbox) =
    let older = view id key inbox in
    if str_eq m.thing id then newer (find_symbol key m.members) older else older

-- A client's view of a thing has every property of it.
abbrev pub IsSeen : List Published → String × Thing → Type 0
IsSeen inbox e =
    (key : String) (v : Json)
    → str_eq "type" key ≡ false
    → find_symbol key (set_members e.1.properties []) ≡ some v
    → view e.0 key inbox ≡ some v

-- Each thing has one entry.
abbrev pub IsDistinct : List (String × Thing) → Type 0
IsDistinct [] = Unit
IsDistinct (e ∷ things) = All (λ f. str_eq e.0 f.0 ≡ false) things × IsDistinct things

pub str_eq_self : (s : String) → str_eq s s ≡ true
str_eq_self s = (eq_iff s s).1 refl

pub str_eq_other : (s t : String) → str_eq s t ≡ false → str_eq t s ≡ false
str_eq_other s t h = elim (Bool-cases (str_eq t s)) [
  | inl same ↦ let e = (eq_iff s t).1 (sym ((eq_iff t s).0 same)) in cc
  | inr differ ↦ differ
]

-- A message about another thing tells nothing.
pub view_other :
    (id key : String) (m : Published) (inbox : List Published)
    → str_eq m.thing id ≡ false
    → view id key (m ∷ inbox) ≡ view id key inbox
unfolding view
view_other id key m inbox h = rw h refl

view_same :
    (key : String) (m : Published) (inbox : List Published)
    → view m.thing key (m ∷ inbox) ≡ newer (find_symbol key m.members) (view m.thing key inbox)
unfolding view
view_same key m inbox = rw (str_eq_self m.thing) refl

find-with_type :
    (key : String) (name : Option String) (members : List (String × Json))
    → str_eq "type" key ≡ false
    → find_symbol key (with_type name members) ≡ find_symbol key members
find-with_type key none members h = refl
find-with_type key (some name) members h = find-set_other "type" key _ members h

-- A client that is sent a thing has seen it.
pub user_properties-IsSeen :
    (id : String) (t : Thing) (inbox : List Published)
    → IsSeen (serialize_user_properties id t ∷ inbox) (id, t)
unfolding serialize_user_properties
user_properties-IsSeen id t inbox key v h e =
    view_same key (serialize_user_properties id t) inbox
    ∙ ap (λ o. newer o (view id key inbox)) (find-with_type key t.thing_type _ h ∙ e)

-- What a thing publishes is newer than what was seen before.
pub view-thing_properties :
    (id key : String) (m : Published) (members : List (String × Json)) (inbox : List Published)
    → unless_empty id members ≡ some m
    → view id key (m ∷ inbox) ≡ newer (find_symbol key members) (view id key inbox)
view-thing_properties id key m [] inbox e = cc
view-thing_properties id key m (x ∷ members) inbox e =
    let sent : Published = record { thing = id; members = x ∷ members } in
    let same : sent ≡ m = cc in
    subst (λ n. view id key (n ∷ inbox) ≡ newer (find_symbol key (x ∷ members)) (view id key inbox))
      same (view_same key sent inbox)

-- The things that are sent later leave what was seen of another thing.
view-send_other :
    (id key : String) (things : List (String × Thing)) (inbox : List Published)
    → All (λ f. str_eq id f.0 ≡ false) things
    → view id key (send_things things inbox) ≡ view id key inbox
unfolding send_things serialize_user_properties
view-send_other id key [] inbox h = refl
view-send_other id key ((other, t) ∷ things) inbox h =
    view-send_other id key things (serialize_user_properties other t ∷ inbox) h.1
    ∙ view_other id key (serialize_user_properties other t) inbox (str_eq_other id other h.0)

-- A client that is sent every thing has seen every thing.
pub send_things-IsSeen :
    (things : List (String × Thing)) (inbox : List Published)
    → IsDistinct things
    → All (IsSeen (send_things things inbox)) things
unfolding send_things
send_things-IsSeen [] inbox d = tt
send_things-IsSeen ((id, t) ∷ things) inbox d =
    let sent = serialize_user_properties id t ∷ inbox in
    (
      λ key v h e.
          view-send_other id key things sent d.0 ∙ user_properties-IsSeen id t inbox key v h e,
      send_things-IsSeen things sent d.1,
    )

-- A message about another thing leaves what was seen.
pub IsSeen-other :
    (m : Published) (inbox : List Published) (e : String × Thing)
    → str_eq m.thing e.0 ≡ false
    → IsSeen inbox e
    → IsSeen (m ∷ inbox) e
IsSeen-other m inbox e h seen key v k f = view_other e.0 key m inbox h ∙ seen key v k f

pub IsDistinct-filter_by :
    (id : String) (things : List (String × Thing))
    → IsDistinct things
    → IsDistinct (filter_by (λ e. not (str_eq e.0 id)) things)
unfolding filter_by
IsDistinct-filter_by id [] d = tt
IsDistinct-filter_by id (e ∷ things) d = elim (Bool-cases (str_eq e.0 id)) [
  | inl gone ↦ rw gone (IsDistinct-filter_by id things d.1)
  | inr stays ↦ rw stays (All-filter_by _ _ things d.0, IsDistinct-filter_by id things d.1)
]

All_unit : (things : List (String × Thing)) → All (λ e. Unit {0}) things
All_unit [] = tt
All_unit (e ∷ things) = (tt, All_unit things)

false_of_not : (b : Bool) → not b ≡ true → b ≡ false
false_of_not b h = ground arith

-- An entry that was there stays only under another name.
pub All-put :
    {P Q : String × Thing → Type 0} (id : String) (t : Thing) (things : List (String × Thing))
    → Q (id, t)
    → ((e : String × Thing) → str_eq id e.0 ≡ false → P e → Q e)
    → All P things
    → All Q (put id t things)
All-put id t things q f h = (
  q,
  All-filter_kept _ (λ e k p. f e (str_eq_other e.0 id (false_of_not (str_eq e.0 id) k)) p) things
      h,
)

pub IsDistinct-put :
    (id : String) (t : Thing) (things : List (String × Thing))
    → IsDistinct things
    → IsDistinct (put id t things)
IsDistinct-put id t things d = (
  All-filter_kept {P = λ e. Unit {0}} _
      (λ e k u. str_eq_other e.0 id (false_of_not (str_eq e.0 id) k)) things (All_unit things),
  IsDistinct-filter_by id things d,
)
