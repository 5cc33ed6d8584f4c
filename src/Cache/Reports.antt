-- ===== src/Cache/Reports.antt =====
-- src/nodes/cache_node.py: `get_cache_info` and `get_entry_info`.
use pynchronize.Prelude.{ℕ, ◌+◌, Option, none, some, List, [], ◌∷◌, String, string_key}
use pynchronize.Prelude.Dict
use pynchronize.Prelude.Dict.{Dict, values}
use pynchronize.Cache.Lru
use pynchronize.Cache.Lru.{
  CacheState, modified, exclusive, shared, invalid, CacheEntry, LruCache, get_all, size,
}
use pynchronize.Cache.Node.{CacheNode, or_zero}

-- `CacheState.value`
unfoldable pub state_value : CacheState → String
state_value modified = "M"
state_value exclusive = "E"
state_value shared = "S"
state_value invalid = "I"

pub record CacheInfo : Type 0 where
  pub size : ℕ
  pub max_size : ℕ
  pub state_counts : Dict String ℕ

pub record EntryInfo : Type 0 where
  pub key : String
  pub state : String
  pub version : ℕ
  pub last_access : ℕ

abbrev pub counts : ℕ → ℕ → ℕ → ℕ → Dict String ℕ
counts m e s i = ("M", m) ∷ ("E", e) ∷ ("S", s) ∷ ("I", i) ∷ []

module _ {V : Type 0} where
  -- `state_counts[entry.state.value] += 1` for each entry
  unfoldable pub count_states : List (CacheEntry V) → Dict String ℕ → Dict String ℕ
  unfolding state_value
  count_states [] d = d
  count_states (e ∷ es) d =
      let v = state_value e.state in count_states es (Dict.assign v (or_zero (Dict.get v d) + 1) d)

  unfoldable pub get_cache_info : CacheNode V → CacheInfo
  unfolding count_states
  get_cache_info n = record {
    size = size n.cache;
    max_size = n.cache.max_size;
    state_counts = count_states (get_all n.cache) (counts 0 0 0 0);
  }

  abbrev pub entry_info : CacheEntry V → EntryInfo
  entry_info e = record {
    key = e.key;
    state = state_value e.state;
    version = e.version;
    last_access = e.last_access;
  }

  abbrev pub info_of : Option (CacheEntry V) → Option EntryInfo
  info_of none = none
  info_of (some e) = some (entry_info e)

  -- the look-up makes the entry the last one used
  unfoldable pub get_entry_info : ℕ → String → CacheNode V → CacheNode V × Option EntryInfo
  get_entry_info now key n =
      let (c, e) = Lru.get now key n.cache in (record n { cache = c }, info_of e)
