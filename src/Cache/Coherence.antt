-- ===== src/Cache/Coherence.antt =====
-- src/nodes/cache_node.py: what the nodes read after writes, bus reads and invalidations.
use pynchronize.Prelude.{
  ℕ, ◌+◌, ◌≡◌, refl, ap, ◌∙◌, true, false, Option, none, some, List, [], ◌∷◌, String, string_key,
  ltb, if◌then◌else◌, same_refl, arith,
}
use pynchronize.Prelude.Dict
use pynchronize.Prelude.Dict.{Dict, get-assign}
use pynchronize.Cache.Lru
use pynchronize.Cache.Lru.{
  CacheState, modified, exclusive, shared, invalid, same_state, CacheEntry, LruCache, get_found,
  touch, on_bus_read, on_bus_write, on_local_write,
}
use pynchronize.Cache.Bounds.{get-move_to_end}
use pynchronize.Cache.Node.{
  CacheNode, Reply, found, or_zero, hit, begin_read, finish_read, store, begin_write, finish_write,
  set_state, answer_read, handle_cache_read, invalidate_older, handle_cache_invalidate,
}

module _ {V : Type 0} where
  -- The entry of a key.
  abbrev pub entry : String → CacheNode V → Option (CacheEntry V)
  entry key n = Dict.get key n.cache.cache

  -- What a read of the key finds in the node's own cache.
  abbrev pub reads : String → CacheNode V → Option V
  reads key n = hit (entry key n)

  touched : ℕ → Option (CacheEntry V) → Option (CacheEntry V)
  touched now none = none
  touched now (some e) = some (touch now e)

  get-get :
      (now : ℕ) (key : String) (c : LruCache V)
      → (Dict.get key (Lru.get now key c).0.cache ≡ touched now (Dict.get key c.cache))
        × ((Lru.get now key c).1 ≡ touched now (Dict.get key c.cache))
  unfolding Lru.get get_found touched
  get-get now key c = go (Dict.get key c.cache) refl
    where
      go :
          (o : Option (CacheEntry V))
          → Dict.get key c.cache ≡ o
          → (Dict.get key (get_found now key o c).0.cache ≡ touched now o)
            × ((get_found now key o c).1 ≡ touched now o)
      go none h = (h, refl)
      go (some e) h = (get-move_to_end key (touch now e) c.cache, refl)

  hit-touched : (now : ℕ) (o : Option (CacheEntry V)) → hit (touched now o) ≡ hit o
  unfolding hit touched touch
  hit-touched now none = refl
  hit-touched now (some e) = refl

  -- `begin_read` returns what the node has, and does not change it.
  pub begin_read-reads :
      (now : ℕ) (key : String) (n : CacheNode V)
      → ((begin_read now key n).1 ≡ reads key n)
        × (reads key (begin_read now key n).0 ≡ reads key n)
  unfolding begin_read
  begin_read-reads now key n =
      let (a, b) = get-get now key n.cache in
      (ap hit b ∙ hit-touched now (entry key n), ap hit a ∙ hit-touched now (entry key n))

  entry-store :
      (now : ℕ) (key : String) (value : V) (state : CacheState) (version : ℕ) (n : CacheNode V)
      → entry key (store now key value state version n)
        ≡ some (record {
          key = key;
          value = value;
          state = state;
          version = version;
          last_access = now;
        })
  unfolding store Lru.put
  entry-store now key value state version n = rw (get-assign key key, same_refl key)

  -- What a write leaves, whatever the node had before the broadcast.
  finish_write-entry :
      (now : ℕ) (key : String) (value : V) (old : Option (CacheEntry V)) (n : CacheNode V)
      → let n' = finish_write now key value old n in
        (reads key n' ≡ some value)
        × (entry key n'
            ≡ some (record {
              key = key;
              value = value;
              state = modified;
              version = or_zero (Dict.get key n.versions) + 1;
              last_access = now;
            }))
        × (or_zero (Dict.get key n'.versions) ≡ or_zero (Dict.get key n.versions) + 1)
  unfolding finish_write on_local_write hit same_state
  finish_write-entry now key value old n =
      let version = or_zero (Dict.get key n.versions) + 1 in
      let stored =
        entry-store now key value modified version
          (record n { versions = Dict.assign key version n.versions }) in
      (ap hit stored, stored, rw (get-assign key key, same_refl key))

  answer_read-found :
      (key : String) (e : CacheEntry V) (c : LruCache V)
      → Dict.get key c.cache ≡ some e
      → same_state e.state invalid ≡ false
      → let (c', reply) = answer_read key (some e) c in
        (reply ≡ found (some e.value) (some e.version) (some true))
        × (Dict.get key c'.cache ≡ some (record e { state = shared }))
  unfolding answer_read on_bus_read same_state set_state
  answer_read-found key e c h valid =
      ground (arith, get-assign key key (record e { state = shared }) c.cache, same_refl key)

  -- A bus read of an entry that is not invalid is answered with its value and its version, as shared;
  -- the entry is shared from then on.
  pub bus_read_shares :
      (now : ℕ) (key : String) (n : CacheNode V) (e : CacheEntry V)
      → entry key n ≡ some e
      → same_state e.state invalid ≡ false
      → let (n', reply) = handle_cache_read now key n in
        (reply ≡ found (some e.value) (some e.version) (some true))
        × (entry key n' ≡ some (record e { state = shared; last_access = now }))
  unfolding handle_cache_read touched touch
  bus_read_shares now key n e h valid =
      let (a, b) = get-get now key n.cache in
      let there = a ∙ ap (touched now) h in
      let got = b ∙ ap (touched now) h in
      rw got (answer_read-found key (touch now e) (Lru.get now key n.cache).0 there valid)

  -- Once a write of a node is over, whatever became of the node during its broadcast: its own read finds
  -- the value that was written; a bus read is answered with that value as shared, and asks for a
  -- write-back, since the entry is modified; and the version of the entry, and of the next invalidation
  -- that the node sends, is one above the version that the node last gave to the key.
  pub write_then_read :
      (t u : ℕ) (key : String) (value : V) (old : Option (CacheEntry V)) (n : CacheNode V)
      → let n' = finish_write t key value old n in
        let version = or_zero (Dict.get key n.versions) + 1 in
        ((begin_read u key n').1 ≡ some value)
        × ((handle_cache_read u key n').1 ≡ found (some value) (some version) (some true))
        × (on_bus_read (entry key n') ≡ (some value, shared, true))
        × ((begin_write u key n').2 ≡ version)
  unfolding begin_write on_bus_read same_state
  write_then_read t u key value old n =
      let n' = finish_write t key value old n in
      let (read, stored, last) = finish_write-entry t key value old n in
      (
        (begin_read-reads u key n').0 ∙ read,
        (bus_read_shares u key n' _ stored refl).0,
        ap on_bus_read stored,
        last,
      )

  invalidate_older-entry :
      (key : String) (w : ℕ) (e : CacheEntry V) (c : LruCache V)
      → Dict.get key c.cache ≡ some e
      → Dict.get key (invalidate_older key w (some e) c).cache
        ≡ some (record e { state = if ltb e.version w then invalid else e.state })
  unfolding invalidate_older set_state on_bus_write
  invalidate_older-entry key w e c h =
      ground (arith, get-assign key key (record e { state = invalid }) c.cache, same_refl key)

  -- An invalidation hides an entry from the reads of its node exactly where its version is above the
  -- entry's.
  pub invalidate_reads :
      (now : ℕ) (key : String) (w : ℕ) (n : CacheNode V) (e : CacheEntry V)
      → entry key n ≡ some e
      → reads key (handle_cache_invalidate now key (some w) n)
        ≡ (if ltb e.version w then none else reads key n)
  unfolding handle_cache_invalidate touched touch hit same_state
  invalidate_reads now key w n e h =
      let (a, b) = get-get now key n.cache in
      let there = a ∙ ap (touched now) h in
      let got = b ∙ ap (touched now) h in
      let after = invalidate_older-entry key w (touch now e) (Lru.get now key n.cache).0 there in
      rw got (ground (arith, after))

  finish_read-entry :
      (now : ℕ) (key : String) (value : V) (version : ℕ) (rs : List (Option (Reply V)))
      (n : CacheNode V)
      → entry key
          (finish_read now key (some (found (some value) (some version) (some true)) ∷ rs) n).0
        ≡ some (record {
          key = key;
          value = value;
          state = shared;
          version = version;
          last_access = now;
        })
  unfolding finish_read
  finish_read-entry now key value version rs n = entry-store now key value shared version n

  versions-handle_cache_read :
      (now : ℕ) (key : String) (n : CacheNode V)
      → (handle_cache_read now key n).0.versions ≡ n.versions
  unfolding handle_cache_read
  versions-handle_cache_read now key n = refl

  -- An invalidation with the version of the copy leaves the copy.
  same_version_stays :
      (now : ℕ) (key : String) (w : ℕ) (value : V) (t : ℕ) (n : CacheNode V)
      → entry key n
        ≡ some (record { key = key; value = value; state = shared; version = w; last_access = t })
      → reads key (handle_cache_invalidate now key (some w) n) ≡ some value
  unfolding hit same_state
  same_version_stays now key w value t n h =
      ground (arith, invalidate_reads now key w n _ h, ap hit h)

  -- The second write of a node does not invalidate the copies of the first: when `a` writes `v1`, `b`
  -- reads it from `a`, and `a` writes `v2`, the invalidation that `a` sends leaves `b` with `v1`.
  pub second_write_leaves_stale :
      (t0 t1 t2 t3 t4 t5 t6 : ℕ) (key : String) (v1 v2 : V) (a b : CacheNode V)
      → let (a0, e0, _) = begin_write t0 key a in
        let a1 = finish_write t1 key v1 e0 a0 in
        let (a2, reply) = handle_cache_read t2 key a1 in
        let b1 = (finish_read t3 key (some reply ∷ []) b).0 in
        let (a3, e3, version) = begin_write t4 key a2 in
        let b2 = handle_cache_invalidate t5 key (some version) b1 in
        (reads key b2 ≡ some v1) × (reads key (finish_write t6 key v2 e3 a3) ≡ some v2)
  unfolding begin_write same_state
  second_write_leaves_stale t0 t1 t2 t3 t4 t5 t6 key v1 v2 a b =
      let (a0, e0, _) = begin_write t0 key a in
      let a1 = finish_write t1 key v1 e0 a0 in
      let (_, stored, last) = finish_write-entry t1 key v1 e0 a0 in
      let version = or_zero (Dict.get key a.versions) + 1 in
      let (reply, _) = bus_read_shares t2 key a1 _ stored refl in
      let copied = finish_read-entry t3 key v1 version [] b in
      (
        rw (reply, versions-handle_cache_read, last)
            (same_version_stays t5 key version v1 t3 _ copied),
        (finish_write-entry t6 key v2 _ _).0,
      )
