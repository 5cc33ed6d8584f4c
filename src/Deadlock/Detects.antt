-- ===== src/Deadlock/Detects.antt =====
-- `detect_cycle` and `has_deadlock` find a cycle exactly where there is one.
use pynchronize.Prelude.{
  ℕ, zero, suc, ◌≡◌, ◌≢◌, refl, true, false, ◌||◌, List, [], ◌∷◌, ◌++◌, String, string_key,
  contains, same→eq, same_refl, Bool-cases, arith, inl, inr, ◌==◌, ap, contains-append,
}
use pynchronize.Deadlock.{
  WaitGraph, neighbors, Search, cycle, clear, exhausted, dfs, dfs_all, depth_bound, detect_cycle,
  has_deadlock, has_deadlock_from,
}
use pynchronize.Prelude.Dict.{keys, contains-keys}
use pynchronize.Deadlock.Fuel.{detect_cycle-ne-exhausted}
use pynchronize.Deadlock.Cycles.{
  Edge, Walk, here, step, OnCycle, Chain, IsCycle, Chain-snoc, Chain-from_index, from_index-head,
}

-- Nodes whose search has ended, the last first: each leads only to nodes behind it.
abbrev pub Done : WaitGraph → List String → Type 0
Done g [] = Unit {0}
Done g (x ∷ f) = ((b : String) → Edge g x b → contains b f ≡ true) × Done g f

-- The nodes visited are those on the path and those that are done.
abbrev pub Splits : List String → List String → List String → Type 0
Splits visited path f = (b : String) → contains b visited ≡ (contains b path || contains b f)

module _ (g : WaitGraph) where
  Done-Edge :
      (f : List String) (a b : String)
      → Done g f
      → contains a f ≡ true
      → Edge g a b
      → contains b f ≡ true
  unfolding contains
  Done-Edge [] a b d h e = cc
  Done-Edge (x ∷ f) a b d h e = elim (Bool-cases (contains a f)) [
    | inl later ↦ ground (arith, Done-Edge f a b d.1 later e)
    | inr first ↦ let p : x ≡ a = same→eq x a (ground arith) in ground (arith, d.0 b (rw p e))
  ]

  Done-Walk :
      (f : List String) {a b : String}
      → Done g f
      → contains a f ≡ true
      → Walk g a b
      → contains b f ≡ true
  Done-Walk f d h here = h
  Done-Walk f d h (step {b = m} {c = b} w e) = Done-Edge f m b d (Done-Walk f d h w) e

  -- No node that is done lies on a cycle.
  Done-acyclic : (f : List String) (a : String) → Done g f → contains a f ≡ true → ¬ OnCycle g a
  unfolding contains
  Done-acyclic [] a d h o = cc
  Done-acyclic (x ∷ f) a d h o = elim (Bool-cases (contains a f)) [
    | inl later ↦ Done-acyclic f a d.1 later o
    | inr first ↦
        let p : x ≡ a = same→eq x a (ground arith) in
        let back = Done-Walk f d.1 (d.0 o.next (rw p o.leaves)) o.returns in cc
  ]

  -- What a call that found no cycle has done: more nodes are done, the path is as before.
  record Cleared (path f visited : List String) : Type 0 where
    done : List String
    is_done : Done g done
    splits : Splits visited path done
    grows : (b : String) → contains b f ≡ true → contains b done ≡ true

  -- What the result of a call means; `Q` is what is known of the nodes that are done.
  abbrev Meaning : (List String → Type 0) → List String → List String → Search → Type 0
  Meaning Q path f (cycle c) = IsCycle g c
  Meaning Q path f (clear visited) = (k : Cleared path f visited) × Q k.done
  Meaning Q path f exhausted = Unit

  abbrev Holds : String → List String → Type 0
  Holds n f = contains n f ≡ true

  -- The calls made from the loop over the neighbors of the last node of `path`.
  abbrev Sound : List String → (List String → String → Search) → Type 0
  Sound path call =
      (visited f : List String) (n : String)
      → Done g f
      → Splits visited path f
      → Chain g (path ++ n ∷ [])
      → Meaning (Holds n) path f (call visited n)

  abbrev HoldsAll : List String → List String → Type 0
  HoldsAll ns f = (b : String) → contains b ns ≡ true → contains b f ≡ true

  abbrev Linked : List String → List String → Type 0
  Linked path ns = (b : String) → contains b ns ≡ true → Chain g (path ++ b ∷ [])

  Meaning-weaken :
      (Q R : List String → Type 0) (path f f' : List String) (r : Search)
      → HoldsAll f f'
      → ((h : List String) → HoldsAll f' h → Q h → R h)
      → Meaning Q path f' r
      → Meaning R path f r
  Meaning-weaken Q R path f f' (cycle c) sub weaker m = m
  Meaning-weaken Q R path f f' exhausted sub weaker m = tt
  Meaning-weaken Q R path f f' (clear visited) sub weaker (k, q) = (
    record {
      done = k.done;
      is_done = k.is_done;
      splits = k.splits;
      grows = λ b h. k.grows b (sub b h);
    },
    weaker k.done k.grows q,
  )

  HoldsAll-cons :
      (n : String) (ns h : List String) → Holds n h → HoldsAll ns h → HoldsAll (n ∷ ns) h
  unfolding contains
  HoldsAll-cons n ns h first rest b m = elim (Bool-cases (n == b)) [
    | inl e ↦ rw (← same→eq n b e) first
    | inr e ↦ rest b (ground arith)
  ]

  dfs_all-Meaning :
      (path : List String) (call : List String → String → Search)
      → Sound path call
      → (ns visited f : List String) → Done g f
      → Splits visited path f
      → Linked path ns
      → Meaning (HoldsAll ns) path f (dfs_all call visited ns)
  unfolding dfs_all contains
  dfs_all-Meaning path call sound [] visited f d s l =
      (record { done = f; is_done = d; splits = s; grows = λ b h. h }, λ b h. cc)
  dfs_all-Meaning path call sound (n ∷ ns) visited f d s l =
      go (dfs_all-Meaning path call sound ns) (call visited n)
        (sound visited f n d s (l n (ground (arith, same_refl n))))
    where
      go :
          ((visited f : List String)
            → Done g f
            → Splits visited path f
            → Linked path ns
            → Meaning (HoldsAll ns) path f (dfs_all call visited ns))
          → (r : Search) → Meaning (Holds n) path f r
          → Meaning (HoldsAll (n ∷ ns)) path f (elim r [
            | cycle c ↦ cycle c
            | clear visited' ↦ dfs_all call visited' ns
            | exhausted ↦ exhausted
          ])
      go rest (cycle c) m = m
      go rest exhausted m = tt
      go rest (clear visited') (k, q) =
          Meaning-weaken (HoldsAll ns) (HoldsAll (n ∷ ns)) path f k.done (dfs_all call visited' ns)
            k.grows (λ h up all. HoldsAll-cons n ns h (up n q) all)
            (rest visited' k.done k.is_done k.splits (λ b m. l b (ground (arith, m))))

  -- The node that a call enters goes onto the path, and is done when its neighbors are.
  leave :
      (path f : List String) (node : String) (r : Search)
      → contains node path ≡ false
      → Meaning (HoldsAll (neighbors g node)) (path ++ node ∷ []) f r
      → Meaning (Holds node) path f r
  unfolding contains
  leave path f node (cycle c) new m = m
  leave path f node exhausted new m = tt
  leave path f node (clear visited) new (k, q) = (
    record {
      done = node ∷ k.done;
      is_done = (q, k.is_done);
      splits = λ b. ground (arith, k.splits b, contains-append b path (node ∷ []));
      grows = λ b h. ground (arith, k.grows b h);
    },
    ground (arith, same_refl node),
  )

  dfs-Sound : (fuel : ℕ) (path : List String) → Sound path (dfs g fuel path)
  unfolding dfs contains
  dfs-Sound zero path visited f node d s c = tt
  dfs-Sound (suc fuel) path visited f node d s c = elim (Bool-cases (contains node visited)) [
    | inl old ↦ elim (Bool-cases (contains node path)) [
      | inl on ↦
          let (r, p) = from_index-head node path on in
          rw (old, on, dfs)
            (record {
              node = node;
              others = r;
              closed = ap (λ y. y ++ node ∷ []) p;
              linked = Chain-from_index g node path c;
            })
      | inr off ↦
          rw (old, off, dfs)
            (record { done = f; is_done = d; splits = s; grows = λ b h. h }, ground (arith, s node))
    ]
    | inr new ↦
        rw (new, dfs)
          (leave path f node _ (ground (arith, s node)) (
            dfs_all-Meaning (path ++ node ∷ []) (dfs g fuel (path ++ node ∷ []))
              (dfs-Sound fuel (path ++ node ∷ [])) (neighbors g node) (visited ++ node ∷ []) f d
              (λ b. ground (
                arith,
                s b,
                contains-append b path (node ∷ []),
                contains-append b visited (node ∷ []),
              ))
              (λ b e. Chain-snoc g path node b c e)))
  ]

  detect_cycle-Meaning : (start : String) → Meaning (Holds start) [] [] (detect_cycle g start)
  unfolding detect_cycle contains
  detect_cycle-Meaning start = dfs-Sound (depth_bound g) [] [] [] start tt (λ b. refl) tt

  -- What the search answers: a cycle, or that no cycle can be reached.
  pub data Verdict (start : String) : Search → Type 0 where
    found : (c : List String) → IsCycle g c → Verdict start (cycle c)
    free :
        (visited : List String)
        → ((a : String) → Walk g start a → ¬ OnCycle g a)
        → Verdict start (clear visited)

  verdict :
      (start : String) (r : Search)
      → Meaning (Holds start) [] [] r
      → r ≢ exhausted
      → Verdict start r
  verdict start (cycle c) m ended = found c m
  verdict start (clear visited) (k, q) ended =
      free visited (λ a w. Done-acyclic k.done a k.is_done (Done-Walk k.done k.is_done q w))
  verdict start exhausted m ended = absurd (ended refl)

  -- `detect_cycle(start)` always ends. A list that it returns is a closed walk of the wait-for graph,
  -- and if it returns None, no node that can be reached from `start` lies on a cycle.
  pub detect_cycle-Verdict : (start : String) → Verdict start (detect_cycle g start)
  detect_cycle-Verdict start =
      verdict start (detect_cycle g start) (detect_cycle-Meaning start)
        (detect_cycle-ne-exhausted g start)

  -- What `has_deadlock` answers, of the whole graph.
  pub data Answer : Search → Type 0 where
    deadlock : (c : List String) → IsCycle g c → Answer (cycle c)
    none_left : (v : List String) → ((a : String) → ¬ OnCycle g a) → Answer (clear v)

  OnCycle-key : (a : String) → OnCycle g a → contains a (keys g) ≡ true
  unfolding contains
  OnCycle-key a o = ground (arith, contains-keys a g, o.leaves)

  -- What the loop over the keys answers of the keys that are left.
  abbrev AnswerFor : List String → Search → Type 0
  AnswerFor ks (cycle c) = IsCycle g c
  AnswerFor ks (clear v) = (a : String) → contains a ks ≡ true → ¬ OnCycle g a
  AnswerFor ks exhausted = ⊥

  has_deadlock_from-AnswerFor : (ks : List String) → AnswerFor ks (has_deadlock_from g ks)
  unfolding has_deadlock_from contains
  has_deadlock_from-AnswerFor [] = λ a h. cc
  has_deadlock_from-AnswerFor (x ∷ ks) =
      go (detect_cycle g x) (detect_cycle-Verdict x) (has_deadlock_from g ks)
        (has_deadlock_from-AnswerFor ks)
    where
      go :
          (r : Search)
          → Verdict x r
          → (rest : Search) → AnswerFor ks rest
          → AnswerFor
              (x ∷ ks)
              (elim r [ cycle c ↦ cycle c | clear _ ↦ rest | exhausted ↦ exhausted ])
      go _ (found c m) rest e = m
      go _ (free v no_cycle) (cycle c) e = e
      go _ (free v no_cycle) exhausted e = e
      go _ (free v no_cycle) (clear v') e = λ a h o. elim (Bool-cases (x == a)) [
        | inl p ↦ no_cycle a (rw (same→eq x a p) here) o
        | inr p ↦ e a (ground arith) o
      ]

  answer : (r : Search) → AnswerFor (keys g) r → Answer r
  answer (cycle c) m = deadlock c m
  answer (clear v) m = none_left v (λ a o. m a (OnCycle-key a o) o)
  answer exhausted m = absurd m

  -- `has_deadlock()` always ends. A list that it returns is a closed walk of the wait-for graph, and
  -- if it returns None, no node of the graph lies on a cycle.
  pub has_deadlock-Answer : Answer (has_deadlock g)
  unfolding has_deadlock
  has_deadlock-Answer = answer (has_deadlock g) (has_deadlock_from-AnswerFor (keys g))
