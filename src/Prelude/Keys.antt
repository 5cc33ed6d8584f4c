-- ===== src/Prelude/Keys.antt =====
-- Keys that Python compares and hashes: equality as an instance, and sets of keys as lists.
use Prim.Native.Nat.{ℕ}
use Prim.Native.String.{String}
use text.Mathlib.Text.{◌==◌ as str_eq}
use text.Mathlib.TextEquality.{eq_iff}
use mathlib.Core.Path.{◌≡◌, refl}
use mathlib.Core.Logic.{◌↔◌, inl, inr}
use mathlib.Core.Bool.{Bool, true, false, ◌||◌}
use mathlib.Core.List.{List, [], ◌∷◌, ◌++◌}
use native.Mathlib.Omega.{arith}
use pynchronize.Prelude.Tests.{eqb, Bool-cases, if◌then◌else◌}

pub record Key {ℓ} (A : Type ℓ) : Type ℓ where
  pub same : A → A → Bool
  pub same_iff : (a b : A) → (same a b ≡ true) ↔ (a ≡ b)

infix 50 ◌==◌
abbrev pub ◌==◌ {ℓ} : {A : Type ℓ} ⦃k : Key A⦄ → A → A → Bool
◌==◌ ⦃k⦄ = k.same

pub eqb_iff : (a b : ℕ) → (eqb a b ≡ true) ↔ (a ≡ b)
eqb_iff a b = ground arith

instance abbrev pub nat_key : Key ℕ
nat_key = record { same = eqb; same_iff = eqb_iff }

instance abbrev pub string_key : Key String
string_key = record { same = str_eq; same_iff = eq_iff }

module _ {ℓ} {A : Type ℓ} ⦃k : Key A⦄ where
  pub same_refl : (a : A) → (a == a) ≡ true
  same_refl a = (k.same_iff a a).1 refl

  pub same→eq : (a b : A) → (a == b) ≡ true → a ≡ b
  same→eq a b h = (k.same_iff a b).0 h

  pub same_sym : (a b : A) → (a == b) ≡ (b == a)
  same_sym a b = ground (arith, k.same_iff a b, k.same_iff b a)

  -- `a in xs`
  unfoldable pub contains : A → List A → Bool
  contains a [] = false
  contains a (x ∷ xs) = x == a || contains a xs

  -- `set.add`
  unfoldable pub insert : A → List A → List A
  insert a xs = if contains a xs then xs else xs ++ a ∷ []

  -- `set.discard`, and `set.remove` of a member
  unfoldable pub discard : A → List A → List A
  discard a [] = []
  discard a (x ∷ xs) = let rest = discard a xs in if x == a then rest else x ∷ rest

  pub contains-append :
      (a : A) (xs ys : List A) → contains a (xs ++ ys) ≡ (contains a xs || contains a ys)
  unfolding contains
  contains-append a [] ys = refl
  contains-append a (x ∷ xs) ys = ground (arith, contains-append a xs ys)

  pub contains-insert :
      (b a : A) (xs : List A) → contains b (insert a xs) ≡ (a == b || contains b xs)
  unfolding contains insert
  contains-insert b a xs = ground (arith, contains-append b xs (a ∷ []), k.same_iff a b)

  pub contains-discard :
      (b a : A) (xs : List A)
      → contains b (discard a xs) ≡ (if a == b then false else contains b xs)
  unfolding contains discard
  contains-discard b a [] = ground arith
  contains-discard b a (x ∷ xs) =
      ground (arith, contains-discard b a xs, k.same_iff x a, k.same_iff x b, k.same_iff a b)

  -- no element stands twice
  abbrev pub Distinct : List A → Type 0
  Distinct [] = Unit {0}
  Distinct (x ∷ xs) = (contains x xs ≡ false) × Distinct xs

  pub Distinct-append :
      (a : A) (xs : List A) → Distinct xs → contains a xs ≡ false → Distinct (xs ++ a ∷ [])
  unfolding contains
  Distinct-append a [] d h = (refl, tt)
  Distinct-append a (x ∷ xs) d h = (
    ground (arith, contains-append x xs (a ∷ []), same_sym a x),
    Distinct-append a xs d.1 (ground arith),
  )

  pub Distinct-insert : (a : A) (xs : List A) → Distinct xs → Distinct (insert a xs)
  unfolding insert
  Distinct-insert a xs d = elim (Bool-cases (contains a xs)) [
    | inl old ↦ rw old d
    | inr new ↦ rw new (Distinct-append a xs d new)
  ]

  pub Distinct-discard : (a : A) (xs : List A) → Distinct xs → Distinct (discard a xs)
  unfolding discard
  Distinct-discard a [] d = tt
  Distinct-discard a (x ∷ xs) d = elim (Bool-cases (x == a)) [
    | inl hit ↦ rw hit (Distinct-discard a xs d.1)
    | inr miss ↦ rw miss (ground (arith, contains-discard x a xs), Distinct-discard a xs d.1)
  ]
