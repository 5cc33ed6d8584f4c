-- ===== src/Queue/Walk.antt =====
-- src/nodes/queue_node.py: the loop of `get_nodes_for_key` ends, with as many nodes as were asked for.
use pynchronize.Prelude.{
  ℕ, zero, suc, ◌+◌, ◌-◌, ◌≤◌, ◌<◌, ◌≡◌, ◌⊎◌, inl, inr, refl, sym, ap, ◌∙◌, subst, true, false,
  ◌&&◌, some, List, [], ◌∷◌, String, string_key, nat_key, contains, insert, Distinct,
  Distinct-insert, contains-insert, length-append, arith, length, ltb, if◌then◌else◌, min,
  Bool-cases,
}
use mathlib.Core.Option.{some-injective}
use pynchronize.Prelude.Count.{length-le_of_Within}
use pynchronize.Queue.Ring.{
  ConsistentHash, Replicas, chosen, next_index, node_at, collect, collect_from, get_nodes_for_key,
  bisect_left,
}

-- Every place of the ring belongs to a node of the ring, and every node has a place.
pub record Covered (c : ConsistentHash) : Type 0 where
  pub owner_at :
      (i : ℕ)
      → i < length c.ring
      → (n : String) × (node_at i c ≡ some n) × (contains n c.nodes ≡ true)
  pub place_of :
      (n : String)
      → contains n c.nodes ≡ true
      → (i : ℕ) × (i < length c.ring) × (node_at i c ≡ some n)
  pub nodes_Distinct : Distinct c.nodes

-- The place that is `k` rounds after the place `s` of a ring of `len` points.
abbrev turn : ℕ → ℕ → ℕ → ℕ
turn s k len = if ltb (s + k) len then s + k else s + k - len

-- Whether the place `j` was visited in the first `k` rounds from `s`.
abbrev Visited : ℕ → ℕ → ℕ → ℕ → Type 0
Visited s k len j = ((s ≤ j) × (j < s + k)) ⊎ (j + len < s + k)

-- The nodes that were collected: nodes of the ring, none twice, not more than asked for, and all that
-- own a place visited so far.
record Collected (c : ConsistentHash) (count s k : ℕ) (result : List String) : Type 0 where
  distinct : Distinct result
  members : (n : String) → contains n result ≡ true → contains n c.nodes ≡ true
  bounded : length result ≤ count
  seen :
      (j : ℕ) (n : String)
      → j < length c.ring
      → Visited s k (length c.ring) j
      → node_at j c ≡ some n
      → contains n result ≡ true

-- What the loop gives.
abbrev pub Chosen : ConsistentHash → ℕ → Replicas → Type 0
Chosen c count r =
    (ns : List String) × (r ≡ chosen ns)
    × Distinct ns
    × ((n : String) → contains n ns ≡ true → contains n c.nodes ≡ true)
    × (length ns ≡ min count (length c.nodes))

length-insert-le : (n : String) (ns : List String) → length (insert n ns) ≤ suc (length ns)
unfolding insert
length-insert-le n ns = elim (Bool-cases (contains n ns)) [
  | inl old ↦ rw old (omega arith)
  | inr new ↦ rw new (omega (arith, length-append ns (n ∷ [])))
]

visit :
    (s k len j : ℕ)
    → s < len
    → k < len
    → j < len
    → Visited s (suc k) len j
    → Visited s k len j ⊎ (j ≡ turn s k len)
visit s k len j p q r v = ground arith

turn-suc :
    (s k : ℕ) (ring : List ℕ)
    → s < length ring
    → k < length ring
    → next_index (suc (turn s k (length ring))) ring ≡ turn s (suc k) (length ring)
turn-suc s k ring p q = ground arith

turn-lt : (s k len : ℕ) → s < len → k < len → turn s k len < len
turn-lt s k len p q = ground arith

module _ (c : ConsistentHash) (cov : Covered c) (count s : ℕ) (here : s < length c.ring) where
  -- After a whole turn every node has been collected.
  all_seen :
      (result : List String)
      → Collected c count s (length c.ring) result
      → length c.nodes ≤ length result
  all_seen result w =
      length-le_of_Within c.nodes result cov.nodes_Distinct
        (λ n m. let (i, lt, at) = cov.place_of n m in w.seen i n lt (ground arith) at)

  stop :
      (k : ℕ) (result : List String)
      → Collected c count s k result
      → (ltb (length result) count && ltb (length result) (length c.nodes)) ≡ false
      → Chosen c count (chosen result)
  stop k result w full = (
    result,
    refl,
    w.distinct,
    w.members,
    ground (arith, w.bounded, length-le_of_Within result c.nodes w.distinct w.members, full),
  )

  go_on :
      (k : ℕ) (n : String) (result : List String)
      → k < length c.ring
      → length result < count
      → node_at (turn s k (length c.ring)) c ≡ some n
      → contains n c.nodes ≡ true
      → Collected c count s k result
      → Collected c count s (suc k) (insert n result)
  go_on k n result lt room at member w = record {
    distinct = Distinct-insert n result w.distinct;
    members =
        λ m h. ground (arith, contains-insert m n result, string_key.same_iff n m, w.members m);
    bounded = omega (arith, length-insert-le n result);
    seen = λ j m jl v q. elim (visit s k (length c.ring) j here lt jl v) [
      | inl old ↦ ground (arith, contains-insert m n result, w.seen j m jl old q)
      | inr new ↦
          let e : n ≡ m = some-injective n m (sym at ∙ ap (λ i. node_at i c) (sym new) ∙ q) in
          ground (arith, contains-insert m n result, string_key.same_iff n m, e)
    ];
  }

  not_done :
      (k : ℕ) (result : List String)
      → k ≤ length c.ring
      → Collected c count s k result
      → length result < length c.nodes
      → k < length c.ring
  not_done k result le w few = elim (Bool-cases (ltb k (length c.ring))) [
    | inl lt ↦ ground (arith, lt)
    | inr ge ↦
        let e : k ≡ length c.ring = ground (arith, ge) in
        absurd (omega (arith, all_seen result (subst (λ j. Collected c count s j result) e w)))
  ]

  collect-suc :
      (fuel idx : ℕ) (n : String) (result : List String)
      → (ltb (length result) count && ltb (length result) (length c.nodes)) ≡ true
      → node_at (next_index idx c.ring) c ≡ some n
      → collect c count (suc fuel) idx result
        ≡ collect c count fuel (suc (next_index idx c.ring)) (insert n result)
  unfolding collect
  collect-suc fuel idx n result more at = rw (collect, more, at) refl

  walk :
      (fuel k idx : ℕ) (result : List String)
      → k + fuel ≡ suc (length c.ring)
      → k ≤ length c.ring
      → next_index idx c.ring ≡ turn s k (length c.ring)
      → Collected c count s k result
      → Chosen c count (collect c count fuel idx result)
  unfolding collect
  walk zero k idx result e le at w = absurd (omega arith)
  walk (suc fuel) k idx result e le at w =
      elim (Bool-cases (ltb (length result) count && ltb (length result) (length c.nodes))) [
        | inr full ↦ rw (full, collect) (stop k result w full)
        | inl more ↦
            let lt : k < length c.ring = not_done k result le w (ground (arith, more)) in
            let (n, found, member) =
              cov.owner_at (turn s k (length c.ring)) (turn-lt s k (length c.ring) here lt) in
            let found' : node_at (next_index idx c.ring) c ≡ some n =
              ap (λ i. node_at i c) at ∙ found in
            subst (Chosen c count) (sym (collect-suc fuel idx n result more found')) (
              walk fuel (suc k) (suc (next_index idx c.ring)) (insert n result) (omega arith)
                (omega arith) (ap (λ i. next_index (suc i) c.ring) at ∙ turn-suc s k c.ring here lt)
                (go_on k n result lt (ground (arith, more)) found member w))
      ]

bisect_left-le : (h : ℕ) (ring : List ℕ) → bisect_left ring h ≤ length ring
unfolding bisect_left
bisect_left-le h [] = omega arith
bisect_left-le h (y ∷ ys) = ground (arith, bisect_left-le h ys)

next_index-lt : (i : ℕ) (ring : List ℕ) → 0 < length ring → next_index i ring < length ring
next_index-lt i ring h = ground arith

none_yet : (c : ConsistentHash) (count s : ℕ) → s < length c.ring → Collected c count s 0 []
unfolding contains
none_yet c count s h = record {
  distinct = tt;
  members = λ n m. cc;
  bounded = omega arith;
  seen = λ j n lt v q. absurd (ground arith);
}

turn-zero : (s len : ℕ) → s < len → s ≡ turn s 0 len
turn-zero s len h = ground arith

-- Where every place of the ring has an owner and every node a place, the loop of `get_nodes_for_key`
-- ends within one turn of the ring and raises no KeyError: it gives as many nodes as were asked for, or
-- all nodes if there are fewer, and none of them twice.
pub get_nodes_for_key-Chosen :
    (hash : String → ℕ) (key : String) (count : ℕ) (c : ConsistentHash)
    → Covered c
    → Chosen c count (get_nodes_for_key hash key count c)
unfolding get_nodes_for_key collect_from contains
get_nodes_for_key-Chosen hash key count c cov = go c.ring refl
  where
    no_nodes : c.ring ≡ [] → length c.nodes ≤ 0
    no_nodes e =
        length-le_of_Within c.nodes [] cov.nodes_Distinct
          (λ n m. let (i, lt, at) = cov.place_of n m in absurd (omega (arith, lt, ap length e)))

    go : (ring : List ℕ) → c.ring ≡ ring → Chosen c count (collect_from (hash key) c count ring)
    go [] e = ([], refl, tt, λ n m. cc, ground (arith, no_nodes e))
    go (p ∷ ps) e =
        let h : ℕ = hash key in
        let here : next_index (bisect_left c.ring h) c.ring < length c.ring =
          next_index-lt (bisect_left c.ring h) c.ring (rw e (omega arith)) in
        subst (λ r. Chosen c count (collect c count (suc (length r)) (bisect_left r h) [])) e
          (walk c cov count (next_index (bisect_left c.ring h) c.ring) here (suc (length c.ring)) 0
            (bisect_left c.ring h) [] (omega arith) (omega arith)
            (turn-zero (next_index (bisect_left c.ring h) c.ring) (length c.ring) here)
            (none_yet c count (next_index (bisect_left c.ring h) c.ring) here))
