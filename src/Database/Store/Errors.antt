-- ===== src/Database/Store/Errors.antt =====
-- src/database/Database.cpp: a map that cannot be created.
use Prim.Native.String.{String}
use text.Mathlib.TextEquality.{eq_iff}
use iotic.Prelude.{ℕ, ◌≡◌, refl, ◌∙◌, true, false, none, List, [], ◌∷◌, arith}
use iotic.Database.Types.{Datapoint}
use iotic.Database.Delta.Thin.{same_point}
use iotic.Database.Environment.{Environment}
use iotic.Database.Store.{
  Store, Outcome, contains, last_value, set_last_value, raw_name, create_map, put_datapoint,
}
use iotic.Database.Store.Refinement.{last_value-set_thing}

same_point_refl : (p : Datapoint) → same_point p p ≡ true
unfolding same_point
same_point_refl [] = refl
same_point_refl (v ∷ p) = ground (arith, same_point_refl p)

module _ {Env : Type 0} ⦃M : Environment Env⦄ where
  -- Puts of one value at some times; the environment that each of them finds may be any.
  unfoldable pub put_again : String → String → Datapoint → List (Env × ℕ) → Store Env → Outcome Env
  put_again thing property p [] s = Outcome.returned s
  put_again thing property p ((e, t) ∷ puts) s =
      elim (put_datapoint thing property t p (record s { env = e })) [
        | Outcome.thrown r ↦ Outcome.thrown r
        | Outcome.returned r ↦ put_again thing property p puts r
      ]

  abbrev pub last_found : Env → List (Env × ℕ) → Env
  last_found env [] = env
  last_found env ((e, t) ∷ puts) = last_found e puts

  put_same :
      (thing property : String) (t : ℕ) (p : Datapoint) (s : Store Env)
      → last_value thing property s.last_values ≡ p
      → put_datapoint thing property t p s ≡ Outcome.returned s
  unfolding put_datapoint
  put_same thing property t p s kept = rw (kept, same_point_refl p) refl

  put_again_lem :
      (thing property : String) (p : Datapoint) (puts : List (Env × ℕ)) (s : Store Env)
      → last_value thing property s.last_values ≡ p
      → put_again thing property p puts s
        ≡ Outcome.returned (record s { env = last_found s.env puts })
  unfolding put_again
  put_again_lem thing property p [] s kept = refl
  put_again_lem thing property p ((e, t) ∷ puts) s kept =
      rw (put_again, put_same thing property t p (record s { env = e }) kept)
        (put_again_lem thing property p puts (record s { env = e }) kept)

  -- When the map of a changed value cannot be created, the put throws and no map changes. However
  -- often the same value of this property is put next, with no other put in between, at whatever
  -- times and even when the map could be created by then, each put returns and leaves all maps as it
  -- finds them.
  pub put_datapoint_lost :
      (thing property : String) (t : ℕ) (p : Datapoint) (s : Store Env)
      → same_point (last_value thing property s.last_values) p ≡ false
      → contains s.map_cache (raw_name thing property) ≡ false
      → M.create_map (raw_name thing property) s.env ≡ none
      → (r : Store Env) × (put_datapoint thing property t p s ≡ Outcome.thrown r)
        × (r.env ≡ s.env)
        × ((puts : List (Env × ℕ))
            → put_again thing property p puts r
              ≡ Outcome.returned (record r { env = last_found r.env puts }))
  unfolding put_datapoint create_map
  put_datapoint_lost thing property t p s changed new full =
      let lasts = set_last_value thing property p s.last_values in
      let kept : last_value thing property lasts ≡ p =
        last_value-set_thing thing property p s.last_values property
        ∙ rw ((eq_iff property property).1 refl) refl in
      (
        record s { last_values = lasts },
        rw (changed, new, full) refl,
        refl,
        λ puts. put_again_lem thing property p puts (record s { last_values = lasts }) kept,
      )
