-- ===== src/Queue/Cover.antt =====
-- src/nodes/queue_node.py: on a ring that is built by `add_node`, every node has a place, if no two nodes
-- have virtual nodes with the same hash.
use pynchronize.Prelude.{
  ◌≤◌, ◌+◌, ℕ, zero, suc, ◌<◌, ◌≡◌, ◌⊎◌, inl, inr, refl, sym, ap, ◌∙◌, subst, true, some, List, [],
  ◌∷◌, String, string_key, nat_key, contains, insert, Distinct, Distinct-insert, contains-insert,
  arith, length, get_elem?, Bool-cases, ◌==◌, same_refl, same→eq,
}
use mathlib.Core.Option.{some-injective}
use pynchronize.Prelude.Dict
use pynchronize.Prelude.Dict.{Dict, get-assign}
use pynchronize.Queue.Ring.{
  ConsistentHash, insort, add_point, add_points, add_node, add_nodes, new_ring, node_at,
  get_nodes_for_key,
}
use pynchronize.Queue.Routing.{Owned, add_node-Owned}
use pynchronize.Queue.Walk.{Covered, Chosen, get_nodes_for_key-Chosen}

-- None of the virtual nodes of one node of `all`, with the numbers below `replicas`, has the hash of one of
-- another.
abbrev pub NoCollision : (String → ℕ → ℕ) → ℕ → List String → Type 0
NoCollision v replicas all =
    (a b : String)
    → contains a all ≡ true
    → contains b all ≡ true
    → (i j : ℕ) → i < replicas
    → j < replicas
    → v a i ≡ v b j
    → a ≡ b

abbrev PlacedAt : ConsistentHash → String → Type 0
PlacedAt c n = (p : ℕ) × (contains p c.ring ≡ true) × (Dict.get p c.node_map ≡ some n)

-- Every point of the map is the hash of a virtual node of its owner.
abbrev Origin : (String → ℕ → ℕ) → ℕ → ConsistentHash → Type 0
Origin v replicas c =
    (p : ℕ) (n : String) → Dict.get p c.node_map ≡ some n → (i : ℕ) × (i < replicas) × (p ≡ v n i)

contains-insort_old :
    (q x : ℕ) (ring : List ℕ) → contains q ring ≡ true → contains q (insort x ring) ≡ true
unfolding insort contains
contains-insort_old q x [] h = cc
contains-insort_old q x (y ∷ ys) h =
    ground (arith, nat_key.same_iff x q, nat_key.same_iff y q, contains-insort_old q x ys)

contains-insort_self : (x : ℕ) (ring : List ℕ) → contains x (insort x ring) ≡ true
unfolding insort contains
contains-insort_self x [] = ground (arith, nat_key.same_iff x x)
contains-insort_self x (y ∷ ys) =
    ground (arith, nat_key.same_iff x x, nat_key.same_iff y x, contains-insort_self x ys)

get_elem?-contains :
    (p : ℕ) (ring : List ℕ)
    → contains p ring ≡ true
    → (i : ℕ) × (i < length ring) × (get_elem? ring i ≡ some p)
unfolding contains
get_elem?-contains p [] h = cc
get_elem?-contains p (y ∷ ys) h = elim (Bool-cases (y == p)) [
  | inl hit ↦ (0, omega arith, ap some (same→eq y p hit))
  | inr miss ↦
      let (i, lt, e) = get_elem?-contains p ys (ground (arith, h, miss)) in (suc i, omega arith, e)
]

contains-get_elem? :
    (i : ℕ) (ring : List ℕ)
    → i < length ring
    → (p : ℕ) × (get_elem? ring i ≡ some p) × (contains p ring ≡ true)
unfolding contains
contains-get_elem? i [] h = absurd (omega arith)
contains-get_elem? zero (y ∷ ys) h = (y, refl, ground (arith, nat_key.same_iff y y))
contains-get_elem? (suc i) (y ∷ ys) h =
    let (p, e, k) = contains-get_elem? i ys (omega arith) in
    (p, e, ground (arith, k, nat_key.same_iff y p))

module _ (v : String → ℕ → ℕ) (replicas : ℕ) (all : List String)
    (apart : NoCollision v replicas all) where
  add_point-Origin :
      (node : String) (i : ℕ) (c : ConsistentHash)
      → i < replicas
      → Origin v replicas c
      → Origin v replicas (add_point (v node i) node c)
  unfolding add_point
  add_point-Origin node i c lt o p n e = elim (Bool-cases (v node i == p)) [
    | inl hit ↦
        let at : v node i ≡ p = same→eq (v node i) p hit in
        let same : node ≡ n =
          some-injective node n (sym (get-assign p (v node i) node c.node_map ∙ rw hit refl) ∙ e) in
        (i, lt, sym at ∙ ap (λ m. v m i) same)
    | inr miss ↦ o p n (sym (get-assign p (v node i) node c.node_map ∙ rw miss refl) ∙ e)
  ]

  add_point-PlacedAt :
      (node n : String) (i : ℕ) (c : ConsistentHash)
      → i < replicas
      → contains node all ≡ true
      → contains n all ≡ true
      → Origin v replicas c
      → PlacedAt c n
      → PlacedAt (add_point (v node i) node c) n
  unfolding add_point
  add_point-PlacedAt node n i c lt k l o (p, on, at) = (
    p,
    contains-insort_old p (v node i) c.ring on,
    elim (Bool-cases (v node i == p)) [
      | inr miss ↦ get-assign p (v node i) node c.node_map ∙ rw miss at
      | inl hit ↦
          let (j, lt', from) = o p n at in
          let same : node ≡ n = apart node n k l i j lt lt' (same→eq (v node i) p hit ∙ from) in
          get-assign p (v node i) node c.node_map ∙ rw hit (ap some same)
    ],
  )

  add_point-PlacedAt_self :
      (node : String) (i : ℕ) (c : ConsistentHash) → PlacedAt (add_point (v node i) node c) node
  unfolding add_point
  add_point-PlacedAt_self node i c = (
    v node i,
    contains-insort_self (v node i) c.ring,
    get-assign (v node i) (v node i) node c.node_map ∙ rw (same_refl (v node i)) refl,
  )

  add_points-Origin :
      (node : String) (k i : ℕ) (c : ConsistentHash)
      → i + k ≤ replicas
      → Origin v replicas c
      → Origin v replicas (add_points v node k i c)
  unfolding add_points
  add_points-Origin node zero i c le o = o
  add_points-Origin node (suc k) i c le o =
      add_points-Origin node k (suc i) (add_point (v node i) node c) (omega (arith, le))
        (add_point-Origin node i c (omega (arith, le)) o)

  add_points-PlacedAt :
      (node n : String) (k i : ℕ) (c : ConsistentHash)
      → i + k ≤ replicas
      → contains node all ≡ true
      → contains n all ≡ true
      → Origin v replicas c
      → PlacedAt c n
      → PlacedAt (add_points v node k i c) n
  unfolding add_points
  add_points-PlacedAt node n zero i c le m l o w = w
  add_points-PlacedAt node n (suc k) i c le m l o w =
      add_points-PlacedAt node n k (suc i) (add_point (v node i) node c) (omega (arith, le)) m l
        (add_point-Origin node i c (omega (arith, le)) o)
        (add_point-PlacedAt node n i c (omega (arith, le)) m l o w)

  add_points-fields :
      (node : String) (k i : ℕ) (c : ConsistentHash)
      → ((add_points v node k i c).nodes ≡ c.nodes)
        × ((add_points v node k i c).replicas ≡ c.replicas)
  unfolding add_points add_point
  add_points-fields node zero i c = (refl, refl)
  add_points-fields node (suc k) i c =
      add_points-fields node k (suc i) (add_point (v node i) node c)

  -- What holds of a ring on which every node has a place.
  record Placed (c : ConsistentHash) : Type 0 where
    some_replicas : 0 < c.replicas
    same_replicas : c.replicas ≡ replicas
    origin : Origin v replicas c
    within : (n : String) → contains n c.nodes ≡ true → contains n all ≡ true
    placed : (n : String) → contains n c.nodes ≡ true → PlacedAt c n
    nodes_Distinct : Distinct c.nodes
    owned : Owned c

  add_points_self :
      (node : String) (k i : ℕ) (c : ConsistentHash)
      → 0 < k
      → i + k ≤ replicas
      → contains node all ≡ true
      → Origin v replicas c
      → PlacedAt (add_points v node k i c) node
  unfolding add_points
  add_points_self node zero i c h le m o = absurd (omega arith)
  add_points_self node (suc k) i c h le m o =
      add_points-PlacedAt node node k (suc i) (add_point (v node i) node c) (omega (arith, le)) m m
        (add_point-Origin node i c (omega (arith, le)) o) (add_point-PlacedAt_self node i c)

  add_node-Placed :
      (node : String) (c : ConsistentHash)
      → contains node all ≡ true
      → Placed c
      → Placed (add_node v node c)
  unfolding add_node
  add_node-Placed node c m w = elim (Bool-cases (contains node c.nodes)) [
    | inl old ↦ rw old w
    | inr new ↦ let own = add_node-Owned v node c w.owned in rw new (fresh (rw new at own))
  ]
    where
      base : ConsistentHash
      base = record c { nodes = insert node c.nodes }

      within_replicas : 0 + c.replicas ≤ replicas
      within_replicas = omega (arith, w.same_replicas)

      c' : ConsistentHash
      c' = add_points v node c.replicas 0 base

      fields : (c'.nodes ≡ insert node c.nodes) × (c'.replicas ≡ c.replicas)
      fields = add_points-fields node c.replicas 0 base

      or_node : (n : String) → contains n c'.nodes ≡ true → (node ≡ n) ⊎ (contains n c.nodes ≡ true)
      or_node n h =
          let h' : contains n (insert node c.nodes) ≡ true =
            subst (λ ns. contains n ns ≡ true) fields.0 h in
          ground (arith, h', contains-insert n node c.nodes, string_key.same_iff node n)

      fresh : Owned c' → Placed c'
      fresh own = record {
        some_replicas = omega (arith, fields.1, w.some_replicas);
        same_replicas = fields.1 ∙ w.same_replicas;
        origin = add_points-Origin node c.replicas 0 base within_replicas w.origin;
        within = λ n h. elim (or_node n h) [
          | inl e ↦ subst (λ x. contains x all ≡ true) e m
          | inr old ↦ w.within n old
        ];
        placed = λ n h. elim (or_node n h) [
          | inl e ↦
              subst (PlacedAt c') e
                (add_points_self node c.replicas 0 base w.some_replicas within_replicas m w.origin)
          | inr old ↦
              add_points-PlacedAt node n c.replicas 0 base within_replicas m (w.within n old)
                w.origin (w.placed n old)
        ];
        nodes_Distinct = rw fields.0 (Distinct-insert node c.nodes w.nodes_Distinct);
        owned = own;
      }

  add_nodes-Placed :
      (nodes : List String) (c : ConsistentHash)
      → ((n : String) → contains n nodes ≡ true → contains n all ≡ true)
      → Placed c
      → Placed (add_nodes v nodes c)
  unfolding add_nodes contains
  add_nodes-Placed [] c m w = w
  add_nodes-Placed (n ∷ nodes) c m w =
      add_nodes-Placed nodes (add_node v n c) (λ x h. m x (ground (arith, h)))
        (add_node-Placed n c (m n (ground (arith, same_refl n))) w)

  Placed-Covered : (c : ConsistentHash) → Placed c → Covered c
  unfolding node_at
  Placed-Covered c w = record {
    owner_at = λ i lt.
        let (p, at, on) = contains-get_elem? i c.ring lt in
        let (n, e, k) = w.owned p on in (n, rw (node_at, at) e, k);
    place_of = λ n h.
        let (p, on, e) = w.placed n h in
        let (i, lt, at) = get_elem?-contains p c.ring on in (i, lt, rw (node_at, at) e);
    nodes_Distinct = w.nodes_Distinct;
  }

-- On a ring that is made of a list of nodes with at least one replica each, where no two of these nodes have
-- virtual nodes, numbered below the number of replicas, with one hash: `get_nodes_for_key` ends and raises
-- nothing, and gives `count` nodes, or all nodes if there are fewer, none of them twice.
pub get_nodes_for_key-new_ring :
    (hash : String → ℕ) (virtual_hash : String → ℕ → ℕ) (nodes : List String) (replicas count : ℕ)
    (key : String)
    → 0 < replicas
    → NoCollision virtual_hash replicas nodes
    → let c = new_ring virtual_hash nodes replicas in
      Chosen c count (get_nodes_for_key hash key count c)
unfolding new_ring contains Dict.get
get_nodes_for_key-new_ring hash v nodes replicas count key h apart =
    let empty : ConsistentHash = record {
      replicas = replicas;
      ring = [];
      node_map = [];
      nodes = [];
    } in
    get_nodes_for_key-Chosen hash key count (add_nodes v nodes empty) (
      Placed-Covered v replicas nodes apart (add_nodes v nodes empty) (
        add_nodes-Placed v replicas nodes apart nodes empty (λ n m. m)
          (record {
            some_replicas = h;
            same_replicas = refl;
            origin = λ p n e. absurd (nothing p n e);
            within = λ n m. cc;
            placed = λ n m. absurd (not_in n m);
            nodes_Distinct = tt;
            owned = λ p m. absurd (not_on p m);
          })))
  where
    nothing : (p : ℕ) (n : String) → Dict.get p ([]) ≡ some n → ⊥
    nothing p n e = cc

    not_in : (n : String) → contains n [] ≡ true → ⊥
    not_in n e = cc

    not_on : (p : ℕ) → contains p [] ≡ true → ⊥
    not_on p e = cc
