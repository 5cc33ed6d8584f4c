-- ===== src/Prelude/Dict.antt =====
-- Python's `dict`: the entries in insertion order. Assignment to a key that is there keeps its
-- place.
use mathlib.Core.Path.{◌≡◌, refl}
use mathlib.Core.Logic.{inl, inr}
use mathlib.Core.Bool.{true, false, Bool}
use mathlib.Core.Option.{Option, none, some}
use mathlib.Core.List.{List, [], ◌∷◌, map}
use native.Mathlib.Omega.{arith}
use pynchronize.Prelude.Tests.{Bool-cases, if◌then◌else◌}
use pynchronize.Prelude.Keys.{Key, ◌==◌, contains, Distinct, same_sym}

abbrev pub Dict {ℓ κ} : Type ℓ → Type κ → Type (ℓ ⊔ κ)
Dict K V = List (K × V)

abbrev pub keys {ℓ κ} : {K : Type ℓ} {V : Type κ} → Dict K V → List K
keys = map (λ e. e.0)

abbrev pub values {ℓ κ} : {K : Type ℓ} {V : Type κ} → Dict K V → List V
values = map (λ e. e.1)

abbrev pub is_some {ℓ} : {V : Type ℓ} → Option V → Bool
is_some none = false
is_some (some v) = true

module _ {ℓ κ} {K : Type ℓ} {V : Type κ} ⦃k : Key K⦄ where
  -- `d.get(key)`
  unfoldable pub get : K → Dict K V → Option V
  get key [] = none
  get key ((j, v) ∷ d) = if j == key then some v else get key d

  -- `d[key] = value`
  unfoldable pub assign : K → V → Dict K V → Dict K V
  assign key value [] = (key, value) ∷ []
  assign key value ((j, v) ∷ d) = if j == key then (j, value) ∷ d else (j, v) ∷ assign key value d

  -- `d.pop(key, None)`
  unfoldable pub remove : K → Dict K V → Dict K V
  remove key [] = []
  remove key ((j, v) ∷ d) = let rest = remove key d in if j == key then rest else (j, v) ∷ rest

  -- `key in d`
  abbrev pub has : K → Dict K V → Bool
  has key d = is_some (get key d)

  pub get-assign :
      (i j : K) (v : V) (d : Dict K V) → get i (assign j v d) ≡ (if j == i then some v else get i d)
  unfolding get assign
  get-assign i j v [] = refl
  get-assign i j v ((h, w) ∷ d) =
      ground (arith, get-assign i j v d, k.same_iff h j, k.same_iff h i, k.same_iff j i)

  pub get-remove :
      (i j : K) (d : Dict K V) → get i (remove j d) ≡ (if j == i then none else get i d)
  unfolding get remove
  get-remove i j [] = ground arith
  get-remove i j ((h, w) ∷ d) =
      ground (arith, get-remove i j d, k.same_iff h j, k.same_iff h i, k.same_iff j i)

  pub contains-keys : (i : K) (d : Dict K V) → contains i (keys d) ≡ has i d
  unfolding get contains
  contains-keys i [] = refl
  contains-keys i ((h, w) ∷ d) = ground (arith, contains-keys i d)

  -- In a `dict` no key stands twice.
  abbrev pub UniqueKeys : Dict K V → Type 0
  UniqueKeys d = Distinct (keys d)

  has-assign :
      (i j : K) (v : V) (d : Dict K V) → has i (assign j v d) ≡ (if j == i then true else has i d)
  has-assign i j v d = ground (arith, get-assign i j v d)

  pub assign-UniqueKeys : (i : K) (v : V) (d : Dict K V) → UniqueKeys d → UniqueKeys (assign i v d)
  unfolding assign contains
  assign-UniqueKeys i v [] u = (refl, tt)
  assign-UniqueKeys i v ((j, w) ∷ d) u = elim (Bool-cases (j == i)) [
    | inl hit ↦ rw hit u
    | inr miss ↦ rw miss (
      ground (
        arith,
        contains-keys j (assign i v d),
        contains-keys j d,
        has-assign j i v d,
        same_sym i j,
      ),
      assign-UniqueKeys i v d u.1,
    )
  ]

  pub remove-UniqueKeys : (i : K) (d : Dict K V) → UniqueKeys d → UniqueKeys (remove i d)
  unfolding remove
  remove-UniqueKeys i [] u = tt
  remove-UniqueKeys i ((j, w) ∷ d) u = elim (Bool-cases (j == i)) [
    | inl hit ↦ rw hit (remove-UniqueKeys i d u.1)
    | inr miss ↦ rw miss (
      ground (arith, contains-keys j (remove i d), contains-keys j d, get-remove j i d),
      remove-UniqueKeys i d u.1,
    )
  ]
