-- ===== src/Deadlock/Cycles.antt =====
-- The wait-for graph as a relation: edges, walks and cycles.
use pynchronize.Prelude.{
  ◌≡◌, true, List, [], ◌∷◌, ◌++◌, String, string_key, contains, same→eq, Bool-cases, arith, inl,
  inr, ◌==◌, ap,
}
use pynchronize.Deadlock.{WaitGraph, neighbors, from_index}

abbrev pub Edge : WaitGraph → String → String → Type 0
Edge g a b = contains b (neighbors g a) ≡ true

pub data Walk (g : WaitGraph) (a : String) : String → Type 0 where
  here : Walk g a a
  step : {b c : String} → Walk g a b → Edge g b c → Walk g a c

-- `a` waits, over one or more edges, for itself.
pub record OnCycle (g : WaitGraph) (a : String) : Type 0 where
  pub next : String
  pub leaves : Edge g a next
  pub returns : Walk g next a

-- Each element waits for the one behind it.
abbrev pub Chain : WaitGraph → List String → Type 0
Chain g [] = Unit {0}
Chain g (x ∷ []) = Unit {0}
Chain g (x ∷ y ∷ r) = Edge g x y × Chain g (y ∷ r)

-- A closed chain: it ends where it starts, and has at least one edge.
pub record IsCycle (g : WaitGraph) (c : List String) : Type 0 where
  pub node : String
  pub others : List String
  pub closed : c ≡ node ∷ (others ++ node ∷ [])
  pub linked : Chain g c

module _ (g : WaitGraph) where
  pub Chain-snoc :
      (xs : List String) (a b : String)
      → Chain g (xs ++ a ∷ [])
      → Edge g a b
      → Chain g ((xs ++ a ∷ []) ++ b ∷ [])
  Chain-snoc [] a b c e = (e, tt)
  Chain-snoc (x ∷ []) a b c e = (c.0, (e, tt))
  Chain-snoc (x ∷ y ∷ r) a b c e = (c.0, Chain-snoc (y ∷ r) a b c.1 e)

  Chain-tail : (x : String) (r : List String) → Chain g (x ∷ r) → Chain g r
  Chain-tail x [] c = tt
  Chain-tail x (y ∷ r) c = c.1

  pub Chain-from_index :
      (n : String) (xs : List String) → Chain g (xs ++ n ∷ []) → Chain g (from_index n xs ++ n ∷ [])
  unfolding from_index
  Chain-from_index n [] c = c
  Chain-from_index n (x ∷ xs) c = elim (Bool-cases (x == n)) [
    | inl e ↦ rw e c
    | inr e ↦ rw e (Chain-from_index n xs (Chain-tail x (xs ++ n ∷ []) c))
  ]

  pub Walk-trans : {a b c : String} → Walk g a b → Walk g b c → Walk g a c
  Walk-trans w here = w
  Walk-trans w (step v e) = step (Walk-trans w v) e

-- `path[path.index(n):]` begins with `n`.
pub from_index-head :
    (n : String) (xs : List String)
    → contains n xs ≡ true
    → (r : List String) × (from_index n xs ≡ n ∷ r)
unfolding from_index contains
from_index-head n [] h = cc
from_index-head n (x ∷ xs) h = elim (Bool-cases (x == n)) [
  | inl e ↦ (xs, rw e (ap (λ y. y ∷ xs) (same→eq x n e)))
  | inr e ↦ let (r, p) = from_index-head n xs (ground arith) in (r, rw e p)
]
