-- ===== src/Cache/Lru.antt =====
-- src/nodes/cache_node.py: `CacheEntry`, `LRUCache` and `MESIProtocol`. An `OrderedDict` is the list of
-- its entries, the least recently used first; `now` is the reading of the clock.
use pynchronize.Prelude.{
  ℕ, Bool, true, false, Option, none, some, List, [], ◌∷◌, ◌++◌, String, string_key, leb,
  if◌then◌else◌, length,
}
use pynchronize.Prelude.Dict
use pynchronize.Prelude.Dict.{Dict, values}

pub data CacheState : Type 0 where
  modified exclusive shared invalid : CacheState

unfoldable pub same_state : CacheState → CacheState → Bool
same_state modified modified = true
same_state exclusive exclusive = true
same_state shared shared = true
same_state invalid invalid = true
same_state _ _ = false

pub record CacheEntry (V : Type 0) : Type 0 where
  pub key : String
  pub value : V
  pub state : CacheState
  pub version : ℕ
  pub last_access : ℕ

pub record LruCache (V : Type 0) : Type 0 where
  pub max_size : ℕ
  pub cache : Dict String (CacheEntry V)

module _ {V : Type 0} where
  unfoldable pub touch : ℕ → CacheEntry V → CacheEntry V
  touch now e = record e { last_access = now }

  -- `self.cache.move_to_end(key)`, of an entry that is there
  unfoldable pub move_to_end :
      String → CacheEntry V → Dict String (CacheEntry V) → Dict String (CacheEntry V)
  move_to_end key e d = Dict.remove key d ++ (key, e) ∷ []

  unfoldable pub get_found :
      ℕ → String → Option (CacheEntry V) → LruCache V → LruCache V × Option (CacheEntry V)
  unfolding touch move_to_end
  get_found now key none c = (c, none)
  get_found now key (some e) c =
      let e' = touch now e in (record c { cache = move_to_end key e' c.cache }, some e')

  -- `LRUCache.get`
  unfoldable pub get : ℕ → String → LruCache V → LruCache V × Option (CacheEntry V)
  unfolding get_found
  get now key c = get_found now key (Dict.get key c.cache) c

  -- the first entry that is not modified
  unfoldable pub find_clean : Dict String (CacheEntry V) → Option (CacheEntry V)
  find_clean [] = none
  find_clean ((k, e) ∷ d) = if same_state e.state modified then find_clean d else some e

  -- the dictionary without the first entry that is not modified
  unfoldable pub drop_clean : Dict String (CacheEntry V) → Dict String (CacheEntry V)
  drop_clean [] = []
  drop_clean ((k, e) ∷ d) =
      let rest = drop_clean d in if same_state e.state modified then (k, e) ∷ rest else d

  -- `self.cache.popitem(last=False)`
  unfoldable pub pop_first :
      Dict String (CacheEntry V) → Dict String (CacheEntry V) × Option (CacheEntry V)
  pop_first [] = ([], none)
  pop_first ((k, e) ∷ d) = (d, some e)

  -- `_evict`
  unfoldable pub evict :
      Dict String (CacheEntry V) → Dict String (CacheEntry V) × Option (CacheEntry V)
  unfolding find_clean drop_clean pop_first
  evict d = elim (find_clean d) [ some e ↦ (drop_clean d, some e) | none ↦ pop_first d ]

  unfoldable pub make_room :
      Option (CacheEntry V)
      → String
      → LruCache V
      → Dict String (CacheEntry V) × Option (CacheEntry V)
  unfolding evict move_to_end
  make_room (some old) key c = (move_to_end key old c.cache, none)
  make_room none key c = if leb c.max_size (length c.cache) then evict c.cache else (c.cache, none)

  -- `LRUCache.put`: the cache, and the entry that was evicted
  unfoldable pub put : String → CacheEntry V → LruCache V → LruCache V × Option (CacheEntry V)
  unfolding make_room
  put key e c =
      let (d, evicted) = make_room (Dict.get key c.cache) key c in
      (record c { cache = Dict.assign key e d }, evicted)

  -- `LRUCache.remove`
  unfoldable pub remove : String → LruCache V → LruCache V × Option (CacheEntry V)
  remove key c = (record c { cache = Dict.remove key c.cache }, Dict.get key c.cache)

  -- `get_all` and `size`
  unfoldable pub get_all : LruCache V → List (CacheEntry V)
  get_all c = values c.cache

  unfoldable pub size : LruCache V → ℕ
  size c = length c.cache

  -- `MESIProtocol.on_local_read`
  unfoldable pub on_local_read : Option (CacheEntry V) → Bool → CacheState
  on_local_read none from_other = if from_other then shared else exclusive
  on_local_read (some e) from_other =
      if same_state e.state invalid then (if from_other then shared else exclusive) else e.state

  unfoldable pub on_local_write : Option (CacheEntry V) → CacheState
  on_local_write e = modified

  -- `on_bus_read`: the value, the new state, and whether a write-back is due
  unfoldable pub on_bus_read : Option (CacheEntry V) → Option V × CacheState × Bool
  unfolding same_state
  on_bus_read none = (none, invalid, false)
  on_bus_read (some e) =
      if same_state e.state invalid
      then (none, invalid, false)
      else (some e.value, shared, same_state e.state modified)

  unfoldable pub on_bus_write : Option (CacheEntry V) → CacheState
  on_bus_write e = invalid
