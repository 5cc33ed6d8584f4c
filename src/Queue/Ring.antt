-- ===== src/Queue/Ring.antt =====
-- src/nodes/queue_node.py: `ConsistentHash`. The md5 hash is a parameter: `hash` of a key, and
-- `virtual_hash` of the i-th virtual key of a node, "{node}:{i}".
use pynchronize.Prelude.{
  Bool, ◌&&◌, true, false, ℕ, zero, suc, Option, none, some, List, [], ◌∷◌, String, string_key,
  nat_key, ◌==◌, ltb, if◌then◌else◌, contains, insert, discard, length, get_elem?, eqb,
}
use pynchronize.Prelude.Dict
use pynchronize.Prelude.Dict.{Dict, has}

pub record ConsistentHash : Type 0 where
  pub replicas : ℕ
  pub ring : List ℕ
  pub node_map : Dict ℕ String
  pub nodes : List String

-- `insort`: after the elements that are not greater
unfoldable pub insort : ℕ → List ℕ → List ℕ
insort x [] = x ∷ []
insort x (y ∷ ys) = if ltb x y then x ∷ y ∷ ys else y ∷ insort x ys

-- `bisect_left`: the number of elements in front that are less
unfoldable pub bisect_left : List ℕ → ℕ → ℕ
bisect_left [] h = 0
bisect_left (y ∷ ys) h = if ltb y h then suc (bisect_left ys h) else 0

-- `list.remove` of an element that is there
unfoldable pub remove_first : ℕ → List ℕ → List ℕ
remove_first x [] = []
remove_first x (y ∷ ys) = if y == x then ys else y ∷ remove_first x ys

unfoldable pub add_point : ℕ → String → ConsistentHash → ConsistentHash
add_point p node c = record c { ring = insort p c.ring; node_map = Dict.assign p node c.node_map }

-- the loop of `add_node`, from the index `i`, for the next `n` replicas
unfoldable pub add_points : (String → ℕ → ℕ) → String → ℕ → ℕ → ConsistentHash → ConsistentHash
add_points virtual_hash node zero i c = c
add_points virtual_hash node (suc n) i c =
    add_points virtual_hash node n (suc i) (add_point (virtual_hash node i) node c)

unfoldable pub add_node : (String → ℕ → ℕ) → String → ConsistentHash → ConsistentHash
add_node virtual_hash node c =
    if contains node c.nodes
    then c
    else add_points virtual_hash node c.replicas 0 (record c { nodes = insert node c.nodes })

unfoldable pub add_nodes : (String → ℕ → ℕ) → List String → ConsistentHash → ConsistentHash
add_nodes virtual_hash [] c = c
add_nodes virtual_hash (node ∷ nodes) c =
    add_nodes virtual_hash nodes (add_node virtual_hash node c)

-- `ConsistentHash(nodes, replicas)`
unfoldable pub new_ring : (String → ℕ → ℕ) → List String → ℕ → ConsistentHash
new_ring virtual_hash nodes replicas =
    add_nodes virtual_hash nodes
      (record { replicas = replicas; ring = []; node_map = []; nodes = [] })

-- `self.ring.remove(hash_val)` and `del self.node_map[hash_val]`: the ring, and whether neither raised. The
-- second raises after the first has changed the ring.
unfoldable pub remove_point : ℕ → ConsistentHash → ConsistentHash × Bool
remove_point p c =
    if contains p c.ring
    then (
      record c { ring = remove_first p c.ring; node_map = Dict.remove p c.node_map },
      has p c.node_map,
    )
    else (c, false)

-- The loop of `remove_node`, which ends where it raises: the ring as it is then, and whether it did not.
unfoldable pub remove_points :
    (String → ℕ → ℕ) → String → ℕ → ℕ → ConsistentHash → ConsistentHash × Bool
unfolding remove_point
remove_points virtual_hash node zero i c = (c, true)
remove_points virtual_hash node (suc n) i c =
    let (c', fine) = remove_point (virtual_hash node i) c in
    elim fine [ true ↦ remove_points virtual_hash node n (suc i) c' | false ↦ (c', false) ]

unfoldable pub remove_node : (String → ℕ → ℕ) → String → ConsistentHash → ConsistentHash × Bool
unfolding remove_points
remove_node virtual_hash node c =
    if contains node c.nodes
    then remove_points virtual_hash node c.replicas 0 (record c { nodes = discard node c.nodes })
    else (c, true)

-- What `get_node` gives: None, a node, or a KeyError.
pub data Owner : Type 0 where
  nobody : Owner
  owner : String → Owner
  key_error : Owner

unfoldable pub owner_of : Option String → Owner
owner_of none = key_error
owner_of (some n) = owner n

-- `self.node_map[self.ring[idx]]`
unfoldable pub look_up : Option ℕ → Dict ℕ String → Owner
unfolding owner_of
look_up none m = key_error
look_up (some p) m = owner_of (Dict.get p m)

-- `if idx == len(self.ring): idx = 0`
abbrev pub wrap : ℕ → List ℕ → ℕ
wrap i ring = if eqb i (length ring) then 0 else i

-- `get_node`, by the ring
unfoldable pub find_owner : ℕ → List ℕ → Dict ℕ String → Owner
unfolding look_up
find_owner h [] m = nobody
find_owner h (p ∷ ps) m = look_up (get_elem? (p ∷ ps) (wrap (bisect_left (p ∷ ps) h) (p ∷ ps))) m

unfoldable pub get_node : (String → ℕ) → String → ConsistentHash → Owner
unfolding find_owner
get_node hash key c = find_owner (hash key) c.ring c.node_map

-- What `get_nodes_for_key` gives: nodes, a KeyError, or nothing within the given number of rounds.
pub data Replicas : Type 0 where
  chosen : List String → Replicas
  missing : Replicas
  exhausted : Replicas

-- `if idx >= len(self.ring): idx = 0`
abbrev pub next_index : ℕ → List ℕ → ℕ
next_index idx ring = if ltb idx (length ring) then idx else 0

-- `self.node_map[self.ring[idx]]`, where it is there
unfoldable pub node_at : ℕ → ConsistentHash → Option String
node_at i c = elim (get_elem? c.ring i) [ none ↦ none | some p ↦ Dict.get p c.node_map ]

-- The loop of `get_nodes_for_key`. `seen` has the same nodes as `result`.
unfoldable pub collect : ConsistentHash → ℕ → ℕ → ℕ → List String → Replicas
unfolding node_at
collect c count zero idx result = exhausted
collect c count (suc fuel) idx result =
    elim (ltb (length result) count && ltb (length result) (length c.nodes)) [
      | false ↦ chosen result
      | true ↦ elim (node_at (next_index idx c.ring) c) [
        | none ↦ missing
        | some n ↦ collect c count fuel (suc (next_index idx c.ring)) (insert n result)
      ]
    ]

-- `get_nodes_for_key`, by the ring; one round for each point, and one that ends
unfoldable pub collect_from : ℕ → ConsistentHash → ℕ → List ℕ → Replicas
unfolding collect
collect_from h c count [] = chosen []
collect_from h c count (p ∷ ps) =
    collect c count (suc (length (p ∷ ps))) (bisect_left (p ∷ ps) h) []

unfoldable pub get_nodes_for_key : (String → ℕ) → String → ℕ → ConsistentHash → Replicas
unfolding collect_from
get_nodes_for_key hash key count c = collect_from (hash key) c count c.ring
