-- ===== src/Raft/Matching/Lists.antt =====
-- Prefixes of lists, and what `store_entries` makes of a log that agrees with another one.
use pynchronize.Prelude.{
  ℕ, zero, suc, ◌≤◌, ◌<◌, ◌≡◌, refl, ap, some, List, [], ◌∷◌, ◌++◌, arith, length, take, drop,
  get_elem?,
}
use mathlib.Core.Option.{some-injective}

module _ {ℓ} {A : Type ℓ} where
  pub length-take : (k : ℕ) (l : List A) → k ≤ length l → length (take k l) ≡ k
  length-take zero l h = refl
  length-take (suc k) [] h = absurd (omega arith)
  length-take (suc k) (x ∷ l) h = ap suc (length-take k l (omega arith))

  pub take-take : (j k : ℕ) (l : List A) → j ≤ k → take j (take k l) ≡ take j l
  take-take zero k l h = refl
  take-take (suc j) zero l h = absurd (omega arith)
  take-take (suc j) (suc k) [] h = refl
  take-take (suc j) (suc k) (x ∷ l) h = ap (λ r. x ∷ r) (take-take j k l (omega arith))

  pub take_all : (k : ℕ) (l : List A) → length l ≤ k → take k l ≡ l
  take_all zero [] h = refl
  take_all zero (x ∷ l) h = absurd (omega arith)
  take_all (suc k) [] h = refl
  take_all (suc k) (x ∷ l) h = ap (λ r. x ∷ r) (take_all k l (omega arith))

  pub take-append : (k : ℕ) (l r : List A) → k ≤ length l → take k (l ++ r) ≡ take k l
  take-append zero l r h = refl
  take-append (suc k) [] r h = absurd (omega arith)
  take-append (suc k) (x ∷ l) r h = ap (λ t. x ∷ t) (take-append k l r (omega arith))

  pub append_one : (l r : List A) (x : A) → (l ++ x ∷ []) ++ r ≡ l ++ x ∷ r
  append_one [] r x = refl
  append_one (y ∷ l) r x = ap (λ t. y ∷ t) (append_one l r x)

  pub take-drop : (k : ℕ) (l : List A) → take k l ++ drop k l ≡ l
  take-drop zero l = refl
  take-drop (suc k) [] = refl
  take-drop (suc k) (x ∷ l) = ap (λ t. x ∷ t) (take-drop k l)

  -- The prefix up to an element.
  pub take-suc :
      (k : ℕ) (l : List A) (x : A) → get_elem? l k ≡ some x → take (suc k) l ≡ take k l ++ x ∷ []
  take-suc k [] x e = cc
  take-suc zero (y ∷ l) x e = ap (λ t. t ∷ []) (some-injective y x e)
  take-suc (suc k) (y ∷ l) x e = ap (λ t. y ∷ t) (take-suc k l x e)

  pub get_elem?-lt : (k : ℕ) (l : List A) → k < length l → (x : A) × (get_elem? l k ≡ some x)
  get_elem?-lt k [] h = absurd (omega arith)
  get_elem?-lt zero (x ∷ l) h = (x, refl)
  get_elem?-lt (suc k) (x ∷ l) h = get_elem?-lt k l (omega arith)

  pub lt_of_get_elem? : (k : ℕ) (l : List A) (x : A) → get_elem? l k ≡ some x → k < length l
  lt_of_get_elem? k [] x e = cc
  lt_of_get_elem? zero (y ∷ l) x e = omega arith
  lt_of_get_elem? (suc k) (y ∷ l) x e = omega (arith, lt_of_get_elem? k l x e)

  pub get_elem?-append : (l r : List A) (x : A) → get_elem? (l ++ x ∷ r) (length l) ≡ some x
  get_elem?-append [] r x = refl
  get_elem?-append (y ∷ l) r x = get_elem?-append l r x

  pub get_elem?-take : (j k : ℕ) (l : List A) → j < k → get_elem? (take k l) j ≡ get_elem? l j
  get_elem?-take j zero l h = absurd (omega arith)
  get_elem?-take j (suc k) [] h = refl
  get_elem?-take zero (suc k) (x ∷ l) h = refl
  get_elem?-take (suc j) (suc k) (x ∷ l) h = get_elem?-take j k l (omega arith)
