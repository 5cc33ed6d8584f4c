-- ===== src/Deadlock.antt =====
-- src/nodes/lock_manager.py: `DeadlockDetector`, the wait-for graph and the search for a cycle.
pub mod Cycles
pub mod Detects
mod Fuel
pub mod Tests
pub mod Edges
use pynchronize.Prelude.{
  ℕ, zero, suc, ◌+◌, ◌≡◌, Bool, true, false, not, Option, none, some, List, [], ◌∷◌, ◌++◌, ◌==◌,
  String, string_key, contains, insert, discard, if◌then◌else◌, length,
}
use pynchronize.Prelude.Dict
use pynchronize.Prelude.Dict.{Dict, keys}

-- `wait_for_graph`: who waits for whom. A set is the list of its members in the order in which a
-- loop visits them.
abbrev pub WaitGraph : Type 0
WaitGraph = Dict String (List String)

-- `self.wait_for_graph.get(node, set())`
abbrev pub or_empty : Option (List String) → List String
or_empty none = []
or_empty (some xs) = xs

abbrev pub neighbors : WaitGraph → String → List String
neighbors g node = or_empty (Dict.get node g)

-- one round of the loop in `add_wait`; the `defaultdict` makes the set on its first use
unfoldable pub add_edge : String → String → WaitGraph → WaitGraph
add_edge waiter holder g =
    if holder == waiter then g else Dict.assign waiter (insert holder (neighbors g waiter)) g

unfoldable pub add_wait : String → List String → WaitGraph → WaitGraph
add_wait waiter [] g = g
add_wait waiter (holder ∷ holders) g = add_wait waiter holders (add_edge waiter holder g)

unfoldable pub remove_wait : String → WaitGraph → WaitGraph
remove_wait waiter g = Dict.remove waiter g

-- one round of the loop in `remove_holder`: an entry whose set becomes empty is deleted
unfoldable pub drop_holder : String → String → List String → WaitGraph → WaitGraph
drop_holder holder waiter waits rest = elim (discard holder waits) [
  | [] ↦ rest
  | w ∷ ws ↦ (waiter, w ∷ ws) ∷ rest
]

unfoldable pub remove_holder : String → WaitGraph → WaitGraph
remove_holder holder [] = []
remove_holder holder ((waiter, waits) ∷ g) =
    drop_holder holder waiter waits (remove_holder holder g)

-- `path[path.index(node):]`
unfoldable pub from_index : String → List String → List String
from_index node [] = []
from_index node (x ∷ xs) = if x == node then x ∷ xs else from_index node xs

-- What a call of `dfs` leaves: a cycle, or no cycle and the nodes visited so far. `path` is as
-- before the call when no cycle was found. `exhausted` is the model's own: the fuel ran out.
pub data Search : Type 0 where
  cycle : List String → Search
  clear : (visited : List String) → Search
  exhausted : Search

-- The loop over the neighbors, for a `dfs` that is given.
unfoldable pub dfs_all : (List String → String → Search) → List String → List String → Search
dfs_all dfs visited [] = clear visited
dfs_all dfs visited (n ∷ ns) = elim (dfs visited n) [
  | cycle c ↦ cycle c
  | clear visited' ↦ dfs_all dfs visited' ns
  | exhausted ↦ exhausted
]

-- `dfs(node)`, with the fuel that bounds the depth of the calls.
unfoldable pub dfs : WaitGraph → ℕ → List String → List String → String → Search
dfs g zero path visited node = exhausted
dfs g (suc fuel) path visited node = elim (contains node visited) [
  | true ↦ if contains node path then cycle (from_index node path ++ node ∷ []) else clear visited
  | false ↦ dfs_all (dfs g fuel (path ++ node ∷ [])) (visited ++ node ∷ []) (neighbors g node)
]

-- Every node that a call can enter is a key, one of its neighbors, or the start: the depth is at
-- most the number of keys and two more.
abbrev pub depth_bound : WaitGraph → ℕ
depth_bound g = length (keys g) + 3

unfoldable pub detect_cycle : WaitGraph → String → Search
detect_cycle g start = dfs g (depth_bound g) [] [] start

-- `has_deadlock`, over the keys that are left
unfoldable pub has_deadlock_from : WaitGraph → List String → Search
has_deadlock_from g [] = clear []
has_deadlock_from g (node ∷ nodes) = elim (detect_cycle g node) [
  | cycle c ↦ cycle c
  | clear _ ↦ has_deadlock_from g nodes
  | exhausted ↦ exhausted
]

unfoldable pub has_deadlock : WaitGraph → Search
has_deadlock g = has_deadlock_from g (keys g)
