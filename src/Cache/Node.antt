-- ===== src/Cache/Node.antt =====
-- src/nodes/cache_node.py: `CacheNode`. A write-back only writes to the log, and is left out with the
-- metrics. `read` and `write` are cut where they wait for the other nodes.
use pynchronize.Prelude.{
  ℕ, ◌+◌, Bool, true, false, Option, none, some, List, [], ◌∷◌, String, string_key, ltb,
  if◌then◌else◌,
}
use pynchronize.Prelude.Dict
use pynchronize.Prelude.Dict.{Dict}
use pynchronize.Cache.Lru
use pynchronize.Cache.Lru.{
  CacheState, modified, exclusive, shared, invalid, same_state, CacheEntry, LruCache,
  on_local_write, on_bus_read, on_bus_write,
}

pub record CacheNode (V : Type 0) : Type 0 where
  pub cache : LruCache V
  pub versions : Dict String ℕ

-- The payload of a CACHE_RESPONSE; a field that may be missing is optional. A value of None (none) is what
-- `on_bus_read` gives for no entry; a node sends none, and a reader passes it over.
pub data Reply (V : Type 0) : Type 0 where
  not_found : Reply V
  found : (value : Option V) (version : Option ℕ) (is_shared : Option Bool) → Reply V

abbrev pub or_zero : Option ℕ → ℕ
or_zero none = 0
or_zero (some n) = n

abbrev pub or_true : Option Bool → Bool
or_true none = true
or_true (some b) = b

module _ {V : Type 0} where
  -- the value of an entry that is not invalid
  unfoldable pub hit : Option (CacheEntry V) → Option V
  hit none = none
  hit (some e) = if same_state e.state invalid then none else some e.value

  -- `read` up to the first request to another node
  unfoldable pub begin_read : ℕ → String → CacheNode V → CacheNode V × Option V
  unfolding hit
  begin_read now key n = let (c, e) = Lru.get now key n.cache in (record n { cache = c }, hit e)

  -- `self.cache.put(key, CacheEntry(…))`
  unfoldable pub store : ℕ → String → V → CacheState → ℕ → CacheNode V → CacheNode V
  store now key value state version n = record n {
    cache =
        (Lru.put key
          (record { key = key; value = value; state = state; version = version; last_access = now })
          n.cache).0;
  }

  -- The loop over the other nodes, by their responses: the first that has the value ends it.
  unfoldable pub finish_read :
      ℕ → String → List (Option (Reply V)) → CacheNode V → CacheNode V × Option V
  unfolding store
  finish_read now key [] n = (n, none)
  finish_read now key (some (found (some value) version is_shared) ∷ rs) n = (
    store now key value (if or_true is_shared then shared else exclusive) (or_zero version) n,
    some value,
  )
  finish_read now key (r ∷ rs) n = finish_read now key rs n

  -- `write` up to the broadcast: the node, the entry that it has, and the version in the
  -- CACHE_INVALIDATE message
  unfoldable pub begin_write : ℕ → String → CacheNode V → CacheNode V × Option (CacheEntry V) × ℕ
  begin_write now key n =
      let (c, e) = Lru.get now key n.cache in
      (record n { cache = c }, e, or_zero (Dict.get key n.versions))

  -- `write` behind the broadcast, with the entry that the node had before it
  unfoldable pub finish_write : ℕ → String → V → Option (CacheEntry V) → CacheNode V → CacheNode V
  unfolding store on_local_write
  finish_write now key value e n =
      let version = or_zero (Dict.get key n.versions) + 1 in
      store now key value (on_local_write e) version
        (record n { versions = Dict.assign key version n.versions })

  -- a change of state of the entry that `get` returned
  unfoldable pub set_state : String → CacheEntry V → CacheState → LruCache V → LruCache V
  set_state key e state c = record c {
    cache = Dict.assign key (record e { state = state }) c.cache;
  }

  unfoldable pub answer_read : String → Option (CacheEntry V) → LruCache V → LruCache V × Reply V
  unfolding set_state
  answer_read key none c = (c, not_found)
  answer_read key (some e) c =
      if same_state e.state invalid
      then (c, not_found)
      else (let (value, state, dirty) = on_bus_read (some e) in
          (
            if same_state state e.state then c else set_state key e state c,
            found value (some e.version) (some (same_state state shared)),
          ))

  -- `_handle_cache_read`
  unfoldable pub handle_cache_read : ℕ → String → CacheNode V → CacheNode V × Reply V
  unfolding answer_read
  handle_cache_read now key n =
      let (c, e) = Lru.get now key n.cache in
      let (c', reply) = answer_read key e c in (record n { cache = c' }, reply)

  unfoldable pub invalidate_entry : String → Option (CacheEntry V) → LruCache V → LruCache V
  unfolding set_state
  invalidate_entry key none c = c
  invalidate_entry key (some e) c = set_state key e invalid c

  -- `_handle_cache_write`; the entry that was there is replaced
  unfoldable pub handle_cache_write : ℕ → String → V → Option ℕ → CacheNode V → CacheNode V
  unfolding invalidate_entry store
  handle_cache_write now key value version n =
      let (c, e) = Lru.get now key n.cache in
      store now key value shared (or_zero version) (record n { cache = invalidate_entry key e c })

  unfoldable pub invalidate_older : String → ℕ → Option (CacheEntry V) → LruCache V → LruCache V
  unfolding set_state
  invalidate_older key version none c = c
  invalidate_older key version (some e) c =
      if ltb e.version version then set_state key e (on_bus_write (some e)) c else c

  -- `_handle_cache_invalidate`
  unfoldable pub handle_cache_invalidate : ℕ → String → Option ℕ → CacheNode V → CacheNode V
  unfolding invalidate_older
  handle_cache_invalidate now key version n =
      let (c, e) = Lru.get now key n.cache in
      record n { cache = invalidate_older key (or_zero version) e c }

  abbrev is_found : Option (CacheEntry V) → Bool
  is_found none = false
  is_found (some e) = true

  -- `invalidate`
  unfoldable pub invalidate : ℕ → String → CacheNode V → CacheNode V × Bool
  unfolding invalidate_entry
  invalidate now key n =
      let (c, e) = Lru.get now key n.cache in
      (record n { cache = invalidate_entry key e c }, is_found e)
