-- ===== src/Cache/Tests.antt =====
-- The cache at small inputs.
use pynchronize.Prelude.{
  ℕ, ◌≡◌, refl, ◌≤◌, true, none, some, [], ◌∷◌, String, string_key, arith, length,
}
use pynchronize.Prelude.Dict
use pynchronize.Cache.Lru
use pynchronize.Cache.Lru.{
  get_all, size, CacheState, modified, exclusive, shared, invalid, same_state, CacheEntry, LruCache,
  move_to_end, find_clean, drop_clean, evict, make_room, on_bus_read,
}
use pynchronize.Cache.Node.{
  CacheNode, found, begin_read, finish_read, begin_write, finish_write, handle_cache_read,
  handle_cache_invalidate, hit,
}
use pynchronize.Cache.Bounds.{put-IsBounded, put_evicts}
use pynchronize.Cache.Reports.{get_cache_info, counts, state_value, count_states}
use pynchronize.Cache.Coherence.{
  entry, reads, begin_read-reads, write_then_read, bus_read_shares, invalidate_reads,
  second_write_leaves_stale,
}

cache : Unit {0}
unfolding same_state move_to_end find_clean drop_clean evict make_room on_bus_read hit Lru.get
    Lru.put begin_read finish_read begin_write finish_write handle_cache_read
    handle_cache_invalidate Dict.get Dict.assign Dict.remove
cache = tt

abbrev cached : String → ℕ → CacheState → CacheEntry ℕ
cached key value state = record {
  key = key;
  value = value;
  state = state;
  version = 1;
  last_access = 0;
}

-- two entries, the older of them modified
abbrev full : LruCache ℕ
full = record {
  max_size = 2;
  cache = ("a", cached "a" 1 modified) ∷ ("b", cached "b" 2 shared) ∷ [];
}

abbrev node : CacheNode ℕ
node = record { cache = full; versions = ("a", 1) ∷ [] }

abbrev blank : CacheNode ℕ
blank = record { cache = record { max_size = 2; cache = [] }; versions = [] }

-- the modified entry is passed over
put-full : (Lru.put "c" (cached "c" 3 exclusive) full).1 ≡ some (cached "b" 2 shared)
unfolding cache
put-full = refl

put-IsBounded_example : length (Lru.put "c" (cached "c" 3 exclusive) full).0.cache ≤ 2
unfolding cache
put-IsBounded_example = put-IsBounded "c" (cached "c" 3 exclusive) full (omega arith)

put_evicts_example :
    (Dict.get "c" full.cache ≡ none)
    × (full.max_size ≤ length full.cache)
    × ((cached "b" 2 shared).state ≡ modified
        → (k : String) (x : CacheEntry ℕ) → Dict.get k full.cache ≡ some x
        → x.state ≡ modified)
unfolding cache
put_evicts_example = put_evicts "c" (cached "c" 3 exclusive) full (cached "b" 2 shared) refl

begin_read-reads_example :
    ((begin_read 5 "a" node).1 ≡ some 1) × (reads "a" (begin_read 5 "a" node).0 ≡ some 1)
unfolding cache
begin_read-reads_example = begin_read-reads 5 "a" node

write_then_read_example :
    let n' = finish_write 5 "a" 9 (some (cached "a" 1 modified)) node in
    ((begin_read 6 "a" n').1 ≡ some 9)
    × ((handle_cache_read 6 "a" n').1 ≡ found (some 9) (some 2) (some true))
    × (on_bus_read (entry "a" n') ≡ (some 9, shared, true))
    × ((begin_write 6 "a" n').2 ≡ 2)
unfolding cache
write_then_read_example = write_then_read 5 6 "a" 9 (some (cached "a" 1 modified)) node

bus_read_shares_example :
    let (n', reply) = handle_cache_read 5 "a" node in
    (reply ≡ found (some 1) (some 1) (some true))
    × (entry "a" n' ≡ some (record (cached "a" 1 shared) { last_access = 5 }))
unfolding cache
bus_read_shares_example = bus_read_shares 5 "a" node (cached "a" 1 modified) refl refl

invalidate_reads_example : reads "b" (handle_cache_invalidate 5 "b" (some 2) node) ≡ none
unfolding cache
invalidate_reads_example = invalidate_reads 5 "b" 2 node (cached "b" 2 shared) refl

second_write_leaves_stale_example :
    let (a0, e0, _) = begin_write 0 "k" blank in
    let a1 = finish_write 1 "k" 10 e0 a0 in
    let (a2, reply) = handle_cache_read 2 "k" a1 in
    let b1 = (finish_read 3 "k" (some reply ∷ []) blank).0 in
    let (a3, e3, version) = begin_write 4 "k" a2 in
    let b2 = handle_cache_invalidate 5 "k" (some version) b1 in
    (reads "k" b2 ≡ some 10) × (reads "k" (finish_write 6 "k" 20 e3 a3) ≡ some 20)
second_write_leaves_stale_example = second_write_leaves_stale 0 1 2 3 4 5 6 "k" 10 20 blank blank

get_cache_info-node : get_cache_info node ≡ record {
  size = size node.cache;
  max_size = node.cache.max_size;
  state_counts = counts 1 0 1 0;
}
unfolding cache state_value count_states get_cache_info get_all
get_cache_info-node = refl
