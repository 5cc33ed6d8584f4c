-- ===== src/Deadlock/Fuel.antt =====
-- The fuel of `detect_cycle` is enough: the depth of the calls is bounded by the keys left to visit.
use pynchronize.Prelude.{
  ℕ, zero, suc, ◌+◌, ◌≤◌, ◌<◌, ◌≡◌, ◌≢◌, refl, true, false, List, [], ◌∷◌, ◌++◌, String, string_key,
  contains, same→eq, same_refl, Bool-cases, arith, inl, inr, ◌==◌, contains-append, if◌then◌else◌,
  length,
}
use pynchronize.Prelude.Dict.{keys, contains-keys}
use pynchronize.Deadlock.{
  WaitGraph, neighbors, Search, cycle, clear, exhausted, dfs, dfs_all, detect_cycle,
}

-- the keys that are not yet visited
unseen : List String → List String → ℕ
unseen visited [] = 0
unseen visited (x ∷ xs) = (if contains x visited then 0 else 1) + unseen visited xs

unseen-le : (visited xs : List String) → unseen visited xs ≤ length xs
unfolding unseen
unseen-le visited [] = omega arith
unseen-le visited (x ∷ xs) = ground (arith, unseen-le visited xs)

unseen-append-le :
    (visited : List String) (a : String) (xs : List String)
    → unseen (visited ++ a ∷ []) xs ≤ unseen visited xs
unfolding unseen
unseen-append-le visited a [] = omega arith
unseen-append-le visited a (x ∷ xs) =
    ground (arith, unseen-append-le visited a xs, contains-append x visited (a ∷ []))

-- Visiting a new key leaves one less.
unseen-append-lt :
    (visited : List String) (a : String) (xs : List String)
    → contains a visited ≡ false
    → contains a xs ≡ true
    → unseen (visited ++ a ∷ []) xs < unseen visited xs
unfolding unseen contains
unseen-append-lt visited a [] new h = cc
unseen-append-lt visited a (x ∷ xs) new h = elim (Bool-cases (x == a)) [
  | inl e ↦
      let p : x ≡ a = same→eq x a e in
      rw p (
        ground
          (arith, unseen-append-le visited a xs, contains-append a visited (a ∷ []), same_refl a))
  | inr e ↦ ground (arith, unseen-append-lt visited a xs, contains-append x visited (a ∷ []))
]

module _ (g : WaitGraph) where
  -- The call ended, and leaves at most `n` keys to visit.
  abbrev Ends : ℕ → Search → Type 0
  Ends n (cycle c) = Unit {0}
  Ends n (clear visited) = unseen visited (keys g) ≤ n
  Ends n exhausted = ⊥

  Ends-mono : {m n : ℕ} (r : Search) → m ≤ n → Ends m r → Ends n r
  Ends-mono (cycle c) h e = tt
  Ends-mono (clear visited) h e = omega arith
  Ends-mono exhausted h e = e

  dfs_all-Ends :
      (n : ℕ) (call : List String → String → Search)
      → ((visited : List String) (a : String)
          → unseen visited (keys g) ≤ n
          → Ends n (call visited a))
      → (ns visited : List String) → unseen visited (keys g) ≤ n
      → Ends n (dfs_all call visited ns)
  unfolding dfs_all
  dfs_all-Ends n call ends [] visited h = h
  dfs_all-Ends n call ends (a ∷ ns) visited h =
      go (dfs_all-Ends n call ends ns) (call visited a) (ends visited a h)
    where
      go :
          ((visited : List String) → unseen visited (keys g) ≤ n → Ends n (dfs_all call visited ns))
          → (r : Search) → Ends n r
          → Ends n (elim r [
            | cycle c ↦ cycle c
            | clear visited' ↦ dfs_all call visited' ns
            | exhausted ↦ exhausted
          ])
      go rest (cycle c) e = tt
      go rest (clear visited') e = rest visited' e
      go rest exhausted e = e

  key_of_neighbor :
      (node n : String) (ns : List String)
      → neighbors g node ≡ n ∷ ns
      → contains node (keys g) ≡ true
  key_of_neighbor node n ns h = ground (arith, contains-keys node g)

  -- A node that has neighbors is a key, so one key less is left to the calls below it.
  enter-Ends :
      (fuel : ℕ) (path visited : List String) (node : String)
      → unseen visited (keys g) + 2 ≤ suc fuel
      → contains node visited ≡ false
      → ((path visited : List String) (a : String)
          → unseen visited (keys g) + 2 ≤ fuel
          → Ends (unseen visited (keys g)) (dfs g fuel path visited a))
      → (ns : List String) → neighbors g node ≡ ns
      → Ends
          (unseen visited (keys g))
          (dfs_all (dfs g fuel (path ++ node ∷ [])) (visited ++ node ∷ []) ns)
  unfolding dfs_all
  enter-Ends fuel path visited node h new below [] e = unseen-append-le visited node (keys g)
  enter-Ends fuel path visited node h new below (n ∷ ns) e =
      let less = unseen-append-lt visited node (keys g) new (key_of_neighbor node n ns e) in
      let left = unseen (visited ++ node ∷ []) (keys g) in
      let path' = path ++ node ∷ [] in
      Ends-mono {m = left} (dfs_all (dfs g fuel path') (visited ++ node ∷ []) (n ∷ ns))
        (omega arith)
        (dfs_all-Ends left (dfs g fuel path')
          (λ v a le.
            Ends-mono {m = unseen v (keys g)} (dfs g fuel path' v a) le
              (below path' v a (omega arith)))
          (n ∷ ns) (visited ++ node ∷ []) (omega arith))

  dfs-Ends :
      (fuel : ℕ) (path visited : List String) (node : String)
      → unseen visited (keys g) + 2 ≤ fuel
      → Ends (unseen visited (keys g)) (dfs g fuel path visited node)
  unfolding dfs
  dfs-Ends zero path visited node h = absurd (omega arith)
  dfs-Ends (suc fuel) path visited node h = elim (Bool-cases (contains node visited)) [
    | inl old ↦ elim (Bool-cases (contains node path)) [
      | inl on ↦ rw (old, on, dfs) tt
      | inr off ↦ rw (old, off, dfs) (omega arith)
    ]
    | inr new ↦
        rw (new, dfs)
          (enter-Ends fuel path visited node h new (λ p v a le. dfs-Ends fuel p v a le)
            (neighbors g node) refl)
  ]

  Ends-ne : (n : ℕ) (r : Search) → Ends n r → r ≢ exhausted
  Ends-ne n (cycle c) e = λ p. cc
  Ends-ne n (clear v) e = λ p. cc
  Ends-ne n exhausted e = absurd e

  pub detect_cycle-ne-exhausted : (start : String) → detect_cycle g start ≢ exhausted
  unfolding detect_cycle
  detect_cycle-ne-exhausted start =
      Ends-ne _ _
        (dfs-Ends (length (keys g) + 3) [] [] start (omega (arith, unseen-le [] (keys g))))
