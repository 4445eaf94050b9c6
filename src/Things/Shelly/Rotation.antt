-- ===== src/Things/Shelly/Rotation.antt =====
-- Each call sets one switch, and the calls go round.
use Prim.Native.String.{String}
use native.Mathlib.Nat.{mod-lt, mod-eq_of_lt, mod-add-mod, add-mod_right}
use iotic.Prelude.{
  ℕ, zero, suc, ◌+◌, ◌-◌, ◌%◌, ◌≤◌, ◌<◌, ◌≡◌, refl, ap, ◌∙◌, subst, Bool, Option, none, some, List,
  [], ◌∷◌, length, get_elem?, arith, inl, inr, Bool-cases, ltb,
}
use iotic.Database.Delta.{◌>>=◌}
use iotic.Things.Shelly.{ShellyGen2Thing, switch_path, on_set_properties}

-- Calls with the same states, one after the other: the paths that are set.
unfoldable pub set_times : ℕ → List Bool → ShellyGen2Thing → Option (List String × ShellyGen2Thing)
set_times zero states thing = some ([], thing)
set_times (suc n) states thing =
    on_set_properties states thing >>= λ a. set_times n states a.1 >>= λ b. some (a.0 ∷ b.0, b.1)

get_elem?_total :
    {A : Type 0} (xs : List A) (i : ℕ) → i < length xs → (x : A) × (get_elem? xs i ≡ some x)
get_elem?_total [] i h = absurd (omega (arith, h))
get_elem?_total (x ∷ xs) zero h = (x, refl)
get_elem?_total (x ∷ xs) (suc i) h = get_elem?_total xs i (omega (arith, h))

get_elem?_outside : {A : Type 0} (xs : List A) (i : ℕ) → length xs ≤ i → get_elem? xs i ≡ none
get_elem?_outside [] i h = refl
get_elem?_outside (x ∷ xs) zero h = absurd (omega (arith, h))
get_elem?_outside (x ∷ xs) (suc i) h = get_elem?_outside xs i (omega (arith, h))

stays : (phase size : ℕ) → phase < size → (phase + 0) % size ≡ phase
stays phase size h = ap (λ x. x % size) (omega arith) ∙ mod-eq_of_lt h

goes_on : (phase n size : ℕ) → ((phase + 1) % size + n) % size ≡ (phase + suc n) % size
goes_on phase n size = mod-add-mod (phase + 1) size n ∙ ap (λ x. x % size) (omega arith)

-- The call that reaches a switch.
turn :
    (phase size j : ℕ) → phase < size → j < size → (i : ℕ) × (i < size) × ((phase + i) % size ≡ j)
turn phase size j h k = elim (Bool-cases (ltb j phase)) [
  | inl before ↦
      let less : j < phase = ground (arith, before) in
      (
        j + size - phase,
        omega arith,
        ap (λ x. x % size) (omega arith) ∙ add-mod_right j size ∙ mod-eq_of_lt k,
      )
  | inr after ↦
      let least : phase ≤ j = ground (arith, after) in
      (j - phase, omega arith, ap (λ x. x % size) (omega arith) ∙ mod-eq_of_lt k)
]

-- The paths of `n` calls set the switches from the phase on, modulo their number.
abbrev IsRotation : List Bool → ℕ → ℕ → List String → Type 0
IsRotation states phase n paths =
    (i : ℕ)
    → i < n
    → (state : Bool) × (get_elem? states ((phase + i) % length states) ≡ some state)
      × (get_elem? paths i ≡ some (switch_path ((phase + i) % length states) state))

IsRotation-cons :
    (states : List Bool) (phase n : ℕ) (state : Bool) (paths : List String)
    → phase < length states
    → get_elem? states phase ≡ some state
    → IsRotation states ((phase + 1) % length states) n paths
    → IsRotation states phase (suc n) (switch_path phase state ∷ paths)
IsRotation-cons states phase n state paths h e g zero k =
    let here = stays phase (length states) h in (state, rw here e, rw here refl)
IsRotation-cons states phase n state paths h e g (suc j) k =
    let (found, x, y) = g j (omega (arith, k)) in
    let on = goes_on phase j (length states) in
    (
      found,
      subst (λ z. get_elem? states z ≡ some found) on x,
      subst (λ z. get_elem? paths j ≡ some (switch_path z found)) on y,
    )

set_times-IsRotation :
    (n : ℕ) (states : List Bool) (thing : ShellyGen2Thing)
    → thing.phase_to_set < length states
    → (paths : List String) × (set_times n states thing
        ≡ some (paths, record thing { phase_to_set = (thing.phase_to_set + n) % length states }))
      × IsRotation states thing.phase_to_set n paths
unfolding set_times on_set_properties
set_times-IsRotation zero states thing h =
    let here = stays thing.phase_to_set (length states) h in
    ([], rw here refl, λ i k. absurd (omega (arith, k)))
set_times-IsRotation (suc n) states thing h =
    let phase = thing.phase_to_set in
    let size = length states in
    let (state, e) = get_elem?_total states phase h in
    let after : ShellyGen2Thing = record thing { phase_to_set = (phase + 1) % size } in
    let (paths, f, g) = set_times-IsRotation n states after (mod-lt (phase + 1) (omega arith)) in
    (
      switch_path phase state ∷ paths,
      rw (e, f)
          (ap (λ x. some (switch_path phase state ∷ paths, record thing { phase_to_set = x }))
            (goes_on phase n size)),
      IsRotation-cons states phase n state paths h e g,
    )

-- From a phase of the states, as many calls as there are states lead back to the same phase, and one
-- of them sets the switch `j`, each one that there is, to its state.
pub set_times_all :
    (states : List Bool) (thing : ShellyGen2Thing) (j : ℕ)
    → thing.phase_to_set < length states
    → j < length states
    → (paths : List String) × (i : ℕ) × (state : Bool) × (set_times (length states) states thing
        ≡ some (paths, thing))
      × (i < length states)
      × (get_elem? states j ≡ some state)
      × (get_elem? paths i ≡ some (switch_path j state))
set_times_all states thing j h k =
    let phase = thing.phase_to_set in
    let size = length states in
    let (paths, e, g) = set_times-IsRotation size states thing h in
    let back : (phase + size) % size ≡ phase = add-mod_right phase size ∙ mod-eq_of_lt h in
    let (i, l, q) = turn phase size j h k in
    let (state, x, y) = g i l in
    (
      paths,
      i,
      state,
      e ∙ ap (λ z. some (paths, record thing { phase_to_set = z })) back,
      l,
      subst (λ z. get_elem? states z ≡ some state) q x,
      subst (λ z. get_elem? paths i ≡ some (switch_path z state)) q y,
    )

-- With fewer states than the phase counts, the call reads outside of them.
pub on_set_properties_shrunk :
    (states : List Bool) (thing : ShellyGen2Thing)
    → length states ≤ thing.phase_to_set
    → on_set_properties states thing ≡ none
unfolding on_set_properties
on_set_properties_shrunk states thing h = rw (get_elem?_outside states thing.phase_to_set h) refl
