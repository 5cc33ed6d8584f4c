-- ===== src/Queue/Routing.antt =====
-- src/nodes/queue_node.py: which node the ring of `ConsistentHash` gives for a key.
use pynchronize.Prelude.{
  ℕ, zero, suc, ◌≡◌, refl, ◌∙◌, ap, sym, true, false, Option, none, some, List, [], ◌∷◌, String,
  string_key, nat_key, ◌==◌, ltb, if◌then◌else◌, contains, insert, length, get_elem?, eqb, arith,
  Bool-cases, inl, inr, ◌⊎◌, contains-insert, same_refl,
}
use pynchronize.Prelude.Dict
use pynchronize.Prelude.Dict.{Dict, has, get-assign}
use pynchronize.Queue.Ring.{
  ConsistentHash, insort, bisect_left, add_point, add_points, add_node, add_nodes, new_ring, nobody,
  owner, owner_of, look_up, wrap, find_owner, get_node,
}

-- the first element that is not less than `h`
unfoldable first_ge : ℕ → List ℕ → Option ℕ
first_ge h [] = none
first_ge h (y ∷ ys) = if ltb y h then first_ge h ys else some y

unfoldable or_head : Option ℕ → List ℕ → Option ℕ
or_head (some p) ring = some p
or_head none [] = none
or_head none (y ∷ ys) = some y

-- What `bisect_left` and the wrap-around find: the first point that is not less, else the first.
bisect_left-lem :
    (h : ℕ) (ring : List ℕ)
    → ((first_ge h ring ≡ none) × (bisect_left ring h ≡ length ring))
      ⊎ ((p : ℕ) × (first_ge h ring ≡ some p)
          × (eqb (bisect_left ring h) (length ring) ≡ false)
          × (get_elem? ring (bisect_left ring h) ≡ some p))
unfolding first_ge bisect_left
bisect_left-lem h [] = inl (refl, refl)
bisect_left-lem h (y ∷ ys) = elim (Bool-cases (ltb y h)) [
  | inr stop ↦ rw stop (inr (y, refl, ground arith, refl))
  | inl less ↦ rw less (elim (bisect_left-lem h ys) [
    | inl (a, b) ↦ inl (a, ap suc b)
    | inr (p, a, b, c) ↦ inr (p, a, ground (arith, b), c)
  ])
]

point-lem :
    (h : ℕ) (ring : List ℕ)
    → get_elem? ring (wrap (bisect_left ring h) ring) ≡ or_head (first_ge h ring) ring
unfolding or_head
point-lem h ring = elim (bisect_left-lem h ring) [
  | inl (a, b) ↦ rw a (go ring (ground (arith, b)))
  | inr (p, a, b, c) ↦ rw (a, b) c
]
  where
    go :
        (r : List ℕ)
        → eqb (bisect_left r h) (length r) ≡ true
        → get_elem? r (wrap (bisect_left r h) r) ≡ or_head none r
    go [] e = refl
    go (y ∷ ys) e = rw e refl

-- A new point changes the point of a hash only to itself.
first_ge-insort :
    (h x : ℕ) (ring : List ℕ)
    → (first_ge h (insort x ring) ≡ first_ge h ring) ⊎ (first_ge h (insort x ring) ≡ some x)
unfolding first_ge insort
first_ge-insort h x [] = elim (Bool-cases (ltb x h)) [
  | inl l ↦ inl (rw l refl)
  | inr l ↦ inr (rw l refl)
]
first_ge-insort h x (y ∷ ys) = elim (Bool-cases (ltb x y)) [
  | inl front ↦
      rw front (elim (Bool-cases (ltb x h)) [ inl l ↦ inl (rw l refl) | inr l ↦ inr (rw l refl) ])
  | inr back ↦ rw back (elim (Bool-cases (ltb y h)) [
    | inl l ↦ rw l (first_ge-insort h x ys)
    | inr l ↦ inl (rw l refl)
  ])
]

or_head-insort :
    (x y : ℕ) (ys : List ℕ)
    → (or_head none (insort x (y ∷ ys)) ≡ some y) ⊎ (or_head none (insort x (y ∷ ys)) ≡ some x)
unfolding or_head insort
or_head-insort x y ys = elim (Bool-cases (ltb x y)) [
  | inl front ↦ rw front (inr refl)
  | inr back ↦ rw back (inl refl)
]

unfoldable successor : ℕ → List ℕ → Option ℕ
unfolding first_ge or_head
successor h ring = or_head (first_ge h ring) ring

successor-insort :
    (h x y : ℕ) (ys : List ℕ)
    → (successor h (insort x (y ∷ ys)) ≡ successor h (y ∷ ys))
      ⊎ (successor h (insort x (y ∷ ys)) ≡ some x)
unfolding successor
successor-insort h x y ys = elim (first_ge-insort h x (y ∷ ys)) [
  | inr e ↦ inr (ap (λ o. or_head o (insort x (y ∷ ys))) e)
  | inl e ↦ rw e (go (first_ge h (y ∷ ys)))
]
  where
    go :
        (o : Option ℕ)
        → (or_head o (insort x (y ∷ ys)) ≡ or_head o (y ∷ ys))
          ⊎ (or_head o (insort x (y ∷ ys)) ≡ some x)
    go none = or_head-insort x y ys
    go (some p) = inl refl

find_owner-lem :
    (h y : ℕ) (ys : List ℕ) (m : Dict ℕ String)
    → find_owner h (y ∷ ys) m ≡ look_up (successor h (y ∷ ys)) m
unfolding find_owner successor
find_owner-lem h y ys m = ap (λ q. look_up q m) (point-lem h (y ∷ ys))

find_owner-insort :
    (h x : ℕ) (ring : List ℕ) (m : Dict ℕ String)
    → find_owner h (insort x ring) m ≡ look_up (successor h (insort x ring)) m
unfolding insort
find_owner-insort h x [] m = find_owner-lem h x [] m
find_owner-insort h x (y ∷ ys) m = elim (Bool-cases (ltb x y)) [
  | inl l ↦ rw l (find_owner-lem h x (y ∷ ys) m)
  | inr l ↦ rw l (find_owner-lem h y (insort x ys) m)
]

look_up-assign :
    (q : Option ℕ) (p : ℕ) (node : String) (m : Dict ℕ String)
    → (look_up q (Dict.assign p node m) ≡ look_up q m)
      ⊎ (look_up q (Dict.assign p node m) ≡ owner node)
unfolding look_up owner_of
look_up-assign none p node m = inl refl
look_up-assign (some q) p node m = elim (Bool-cases (p == q)) [
  | inl hit ↦ inr (rw (get-assign q p node m, hit) refl)
  | inr miss ↦ inl (rw (get-assign q p node m, miss) refl)
]

look_up-hit :
    (p : ℕ) (node : String) (m : Dict ℕ String)
    → look_up (some p) (Dict.assign p node m) ≡ owner node
unfolding look_up owner_of
look_up-hit p node m = rw (get-assign p p node m, same_refl p) refl

successor-alone : (h p : ℕ) → successor h (insort p []) ≡ some p
unfolding successor insort first_ge or_head
successor-alone h p = elim (Bool-cases (ltb p h)) [ inl l ↦ rw l refl | inr l ↦ rw l refl ]

-- A point that is added takes keys only for its own node.
find_owner-added :
    (h p : ℕ) (node : String) (ring : List ℕ) (m : Dict ℕ String)
    → (find_owner h (insort p ring) (Dict.assign p node m) ≡ find_owner h ring m)
      ⊎ (find_owner h (insort p ring) (Dict.assign p node m) ≡ owner node)
find_owner-added h p node [] m = inr (
    find_owner-insort h p [] (Dict.assign p node m)
    ∙ ap (λ q. look_up q (Dict.assign p node m)) (successor-alone h p)
    ∙ look_up-hit p node m)
find_owner-added h p node (y ∷ ys) m = elim (successor-insort h p y ys) [
  | inr e ↦ inr (
      find_owner-insort h p (y ∷ ys) (Dict.assign p node m)
      ∙ ap (λ q. look_up q (Dict.assign p node m)) e
      ∙ look_up-hit p node m)
  | inl e ↦
      let a =
        find_owner-insort h p (y ∷ ys) (Dict.assign p node m)
        ∙ ap (λ q. look_up q (Dict.assign p node m)) e in
      elim (look_up-assign (successor h (y ∷ ys)) p node m) [
        | inl s ↦ inl (a ∙ s ∙ sym (find_owner-lem h y ys m))
        | inr t ↦ inr (a ∙ t)
      ]
]

module _ (hash : String → ℕ) (virtual_hash : String → ℕ → ℕ) where
  get_node-add_points :
      (key node : String) (n i : ℕ) (c : ConsistentHash)
      → (get_node hash key (add_points virtual_hash node n i c) ≡ get_node hash key c)
        ⊎ (get_node hash key (add_points virtual_hash node n i c) ≡ owner node)
  unfolding get_node add_points add_point
  get_node-add_points key node zero i c = inl refl
  get_node-add_points key node (suc n) i c =
      elim (get_node-add_points key node n (suc i) (add_point (virtual_hash node i) node c)) [
        | inr e ↦ inr e
        | inl e ↦ elim (find_owner-added (hash key) (virtual_hash node i) node c.ring c.node_map) [
          | inl s ↦ inl (e ∙ s)
          | inr t ↦ inr (e ∙ t)
        ]
      ]

  -- Adding a node moves keys only to the new node: each key has the owner that it had, or the new
  -- node. It holds for every hash function, and where virtual nodes collide.
  pub get_node-add_node :
      (key node : String) (c : ConsistentHash)
      → (get_node hash key (add_node virtual_hash node c) ≡ get_node hash key c)
        ⊎ (get_node hash key (add_node virtual_hash node c) ≡ owner node)
  unfolding add_node get_node
  get_node-add_node key node c = elim (Bool-cases (contains node c.nodes)) [
    | inl old ↦ rw old (inl refl)
    | inr new ↦
        rw new
          (get_node-add_points key node c.replicas 0 (record c { nodes = insert node c.nodes }))
  ]

-- Every point of the ring belongs to a node of the ring.
abbrev pub Owned : ConsistentHash → Type 0
Owned c =
    (p : ℕ)
    → contains p c.ring ≡ true
    → (n : String) × (Dict.get p c.node_map ≡ some n) × (contains n c.nodes ≡ true)

contains-insort :
    (q x : ℕ) (ring : List ℕ)
    → contains q (insort x ring) ≡ true
    → (x ≡ q) ⊎ (contains q ring ≡ true)
unfolding insort contains
contains-insort q x [] h = ground (arith, nat_key.same_iff x q)
contains-insort q x (y ∷ ys) h =
    ground (arith, nat_key.same_iff x q, nat_key.same_iff y q, contains-insort q x ys)

add_point-Owned :
    (p : ℕ) (node : String) (c : ConsistentHash)
    → contains node c.nodes ≡ true
    → Owned c
    → Owned (add_point p node c)
unfolding add_point
add_point-Owned p node c k o q h = elim (Bool-cases (p == q)) [
  | inl hit ↦ (node, rw (get-assign q p node c.node_map, hit) refl, k)
  | inr miss ↦
      (let (n, e, i) = o q (ground (arith, contains-insort q p c.ring, nat_key.same_iff p q)) in
        (n, rw (get-assign q p node c.node_map, miss) e, i))
]

add_points-Owned :
    (virtual_hash : String → ℕ → ℕ) (node : String) (n i : ℕ) (c : ConsistentHash)
    → contains node c.nodes ≡ true
    → Owned c
    → Owned (add_points virtual_hash node n i c)
unfolding add_points add_point
add_points-Owned v node zero i c k o = o
add_points-Owned v node (suc n) i c k o =
    add_points-Owned v node n (suc i) (add_point (v node i) node c) k
      (add_point-Owned (v node i) node c k o)

pub add_node-Owned :
    (virtual_hash : String → ℕ → ℕ) (node : String) (c : ConsistentHash)
    → Owned c
    → Owned (add_node virtual_hash node c)
unfolding add_node
add_node-Owned v node c o = elim (Bool-cases (contains node c.nodes)) [
  | inl old ↦ rw old o
  | inr new ↦ rw new (
      add_points-Owned v node c.replicas 0 (record c { nodes = insert node c.nodes })
        (ground (arith, contains-insert node node c.nodes, same_refl node))
        (λ p h. let (n, e, i) = o p h in (n, e, ground (arith, contains-insert n node c.nodes))))
]

add_nodes-Owned :
    (virtual_hash : String → ℕ → ℕ) (nodes : List String) (c : ConsistentHash)
    → Owned c
    → Owned (add_nodes virtual_hash nodes c)
unfolding add_nodes
add_nodes-Owned v [] c o = o
add_nodes-Owned v (node ∷ nodes) c o =
    add_nodes-Owned v nodes (add_node v node c) (add_node-Owned v node c o)

contains-first_ge :
    (h : ℕ) (ring : List ℕ) (p : ℕ) → first_ge h ring ≡ some p → contains p ring ≡ true
unfolding first_ge contains
contains-first_ge h [] p e = cc
contains-first_ge h (z ∷ zs) p e = ground (arith, contains-first_ge h zs p, nat_key.same_iff z p)

contains-successor :
    (h : ℕ) (y : ℕ) (ys : List ℕ)
    → (p : ℕ) × (successor h (y ∷ ys) ≡ some p) × (contains p (y ∷ ys) ≡ true)
unfolding successor or_head contains
contains-successor h y ys = go (first_ge h (y ∷ ys)) refl
  where
    go :
        (o : Option ℕ)
        → first_ge h (y ∷ ys) ≡ o
        → (p : ℕ) × (or_head o (y ∷ ys) ≡ some p) × (contains p (y ∷ ys) ≡ true)
    go none e = (y, refl, ground (arith, nat_key.same_iff y y))
    go (some p) e = (p, refl, contains-first_ge h (y ∷ ys) p e)

find_owner-member :
    (h : ℕ) (ring : List ℕ) (c : ConsistentHash)
    → Owned c
    → c.ring ≡ ring
    → (find_owner h ring c.node_map ≡ nobody)
      ⊎ ((n : String) × (find_owner h ring c.node_map ≡ owner n) × (contains n c.nodes ≡ true))
unfolding find_owner look_up owner_of
find_owner-member h [] c o e = inl refl
find_owner-member h (y ∷ ys) c o e =
    let (p, s, i) = contains-successor h y ys in
    let (n, g, k) = o p (rw e i) in
    inr (n, find_owner-lem h y ys c.node_map ∙ ap (λ q. look_up q c.node_map) s ∙ ap owner_of g, k)

-- On a ring that is built from a list of nodes, and to which further nodes are added, `get_node`
-- raises no KeyError: it gives None or one of the nodes that were added.
pub get_node-member :
    (hash : String → ℕ) (virtual_hash : String → ℕ → ℕ) (nodes later : List String) (replicas : ℕ)
    (key : String)
    → let c = add_nodes virtual_hash later (new_ring virtual_hash nodes replicas) in
      (get_node hash key c ≡ nobody)
      ⊎ ((n : String) × (get_node hash key c ≡ owner n) × (contains n c.nodes ≡ true))
unfolding get_node new_ring contains
get_node-member hash v nodes later replicas key =
    let empty : ConsistentHash = record {
      replicas = replicas;
      ring = [];
      node_map = [];
      nodes = [];
    } in
    let c = add_nodes v later (add_nodes v nodes empty) in
    find_owner-member (hash key) c.ring c
      (add_nodes-Owned v later (add_nodes v nodes empty)
        (add_nodes-Owned v nodes empty (λ p h. cc)))
      refl
