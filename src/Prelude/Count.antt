-- ===== src/Prelude/Count.antt =====
-- Counting the elements of sets: two majorities share a member.
use Prim.Native.Nat.{◌+◌, ◌≤◌, ◌<◌}
use mathlib.Core.Path.{◌≡◌}
use mathlib.Core.Logic.{inl, inr}
use mathlib.Core.Bool.{true}
use mathlib.Core.List.{List, [], ◌∷◌}
use native.Mathlib.Omega.{arith}
use pynchronize.Prelude.Tests.{Bool-cases}
use pynchronize.Prelude.Lists.{length}
use pynchronize.Prelude.Keys.{Key, contains, discard, Distinct, contains-discard, same_refl}

module _ {A : Type 0} ⦃k : Key A⦄ where
  abbrev pub Within : List A → List A → Type 0
  Within xs ys = (a : A) → contains a xs ≡ true → contains a ys ≡ true

  length-discard-le : (a : A) (xs : List A) → length (discard a xs) ≤ length xs
  unfolding discard
  length-discard-le a [] = omega arith
  length-discard-le a (x ∷ xs) = ground (arith, length-discard-le a xs)

  length-discard-lt :
      (a : A) (xs : List A) → contains a xs ≡ true → length (discard a xs) < length xs
  unfolding discard contains
  length-discard-lt a [] h = cc
  length-discard-lt a (x ∷ xs) h = ground (arith, length-discard-lt a xs, length-discard-le a xs)

  pub length-le_of_Within : (xs ys : List A) → Distinct xs → Within xs ys → length xs ≤ length ys
  unfolding contains
  length-le_of_Within [] ys d w = omega arith
  length-le_of_Within (x ∷ xs) ys d w = omega (
    arith,
    length-le_of_Within xs (discard x ys) d.1
        (λ a h. ground (arith, contains-discard a x ys, w a, k.same_iff x a)),
    length-discard-lt x ys (w x (ground (arith, same_refl x))),
  )

  pub majorities_meet :
      (xs ys all : List A)
      → Distinct xs
      → Distinct ys
      → Within xs all
      → Within ys all
      → length all < length xs + length ys
      → (a : A) × (contains a xs ≡ true) × (contains a ys ≡ true)
  unfolding contains
  majorities_meet [] ys all d e v w h = absurd (omega (arith, length-le_of_Within ys all e w))
  majorities_meet (x ∷ xs) ys all d e v w h = elim (Bool-cases (contains x ys)) [
    | inl both ↦ (x, ground (arith, same_refl x), both)
    | inr only ↦
        let (a, p, q) =
          majorities_meet xs (x ∷ ys) all d.1 (only, e) (λ a m. v a (ground arith))
            (λ a m. ground (arith, w a, v a, k.same_iff x a)) (omega arith) in
        (a, ground arith, ground (arith, k.same_iff x a))
  ]
