-- ===== src/Cache/Bounds.antt =====
-- src/nodes/cache_node.py: the size of the cache, and what an eviction takes.
use pynchronize.Prelude.{
  ℕ, ◌+◌, ◌≤◌, ◌<◌, max, ◌≡◌, ◌≢◌, refl, Option, none, some, [], ◌∷◌, ◌++◌, String, string_key, leb,
  if◌then◌else◌, length, length-append, same_refl, Bool-cases, Option-cases, inl, inr, arith,
  leb→le, ◌⊎◌,
}
use pynchronize.Prelude.Dict
use pynchronize.Prelude.Dict.{Dict, has, get-assign, get-remove}
use pynchronize.Cache.Lru
use pynchronize.Cache.Lru.{
  CacheState, modified, same_state, CacheEntry, LruCache, move_to_end, get_found, find_clean,
  drop_clean, pop_first, evict, make_room,
}

module _ {V : Type 0} where
  length-remove-le : (key : String) (d : Dict String V) → length (Dict.remove key d) ≤ length d
  unfolding Dict.remove
  length-remove-le key [] = omega arith
  length-remove-le key ((j, v) ∷ d) = ground (arith, length-remove-le key d)

  length-remove-lt :
      (key : String) (d : Dict String V) (v : V)
      → Dict.get key d ≡ some v
      → length (Dict.remove key d) < length d
  unfolding Dict.remove Dict.get
  length-remove-lt key [] v h = cc
  length-remove-lt key ((j, w) ∷ d) v h =
      ground (arith, length-remove-lt key d v, length-remove-le key d)

  length-assign-le :
      (key : String) (v : V) (d : Dict String V) → length (Dict.assign key v d) ≤ length d + 1
  unfolding Dict.assign
  length-assign-le key v [] = omega arith
  length-assign-le key v ((j, w) ∷ d) = ground (arith, length-assign-le key v d)

  length-assign_old :
      (key : String) (v w : V) (d : Dict String V)
      → Dict.get key d ≡ some w
      → length (Dict.assign key v d) ≡ length d
  unfolding Dict.assign Dict.get
  length-assign_old key v w [] h = cc
  length-assign_old key v w ((j, x) ∷ d) h = ground (arith, length-assign_old key v w d)

  pub get-append :
      (i : String) (d d' : Dict String V)
      → Dict.get i (d ++ d') ≡ (if has i d then Dict.get i d else Dict.get i d')
  unfolding Dict.get
  get-append i [] d' = refl
  get-append i ((j, v) ∷ d) d' = ground (arith, get-append i d d')

module _ {V : Type 0} where
  pub get-move_to_end :
      (key : String) (e : CacheEntry V) (d : Dict String (CacheEntry V))
      → Dict.get key (move_to_end key e d) ≡ some e
  unfolding move_to_end Dict.get
  get-move_to_end key e d = ground (
    arith,
    get-append key (Dict.remove key d) ((key, e) ∷ []),
    get-remove key key d,
    same_refl key,
  )

  length-move_to_end :
      (key : String) (e old : CacheEntry V) (d : Dict String (CacheEntry V))
      → Dict.get key d ≡ some old
      → length (move_to_end key e d) ≤ length d
  unfolding move_to_end
  length-move_to_end key e old d h =
      omega (arith, length-remove-lt key d old h, length-append (Dict.remove key d) ((key, e) ∷ []))

  -- At least one entry is allowed, whatever the limit.
  abbrev pub IsBounded : LruCache V → Type 0
  IsBounded c = length c.cache ≤ max 1 c.max_size

  length-drop_clean :
      (d : Dict String (CacheEntry V)) (e : CacheEntry V)
      → find_clean d ≡ some e
      → length (drop_clean d) + 1 ≡ length d
  unfolding find_clean drop_clean
  length-drop_clean [] e h = cc
  length-drop_clean ((k, x) ∷ d) e h = ground (arith, length-drop_clean d e)

  length-pop_first :
      (d : Dict String (CacheEntry V))
      → (length (pop_first d).0 + 1 ≡ length d) ⊎ (length (pop_first d).0 ≡ 0)
  unfolding pop_first
  length-pop_first [] = inr refl
  length-pop_first ((k, e) ∷ d) = inl (omega arith)

  length-evict :
      (d : Dict String (CacheEntry V))
      → (length (evict d).0 + 1 ≡ length d) ⊎ (length (evict d).0 ≡ 0)
  unfolding evict
  length-evict d = elim (Option-cases (find_clean d)) [
    | inr (e, h) ↦ inl (ground (arith, length-drop_clean d e h))
    | inl h ↦ rw (h, evict) (length-pop_first d)
  ]

  make_room_old :
      (old e : CacheEntry V) (key : String) (c : LruCache V)
      → Dict.get key c.cache ≡ some old
      → length (Dict.assign key e (make_room (some old) key c).0) ≤ length c.cache
  unfolding make_room
  make_room_old old e key c h = omega (
    arith,
    length-assign_old key e old (move_to_end key old c.cache) (get-move_to_end key old c.cache),
    length-move_to_end key old old c.cache h,
  )

  make_room_new :
      (e : CacheEntry V) (key : String) (c : LruCache V)
      → IsBounded c
      → length (Dict.assign key e (make_room none key c).0) ≤ max 1 c.max_size
  unfolding make_room
  make_room_new e key c b = ground (
    arith,
    length-evict c.cache,
    length-assign-le key e (evict c.cache).0,
    length-assign-le key e c.cache,
  )

  -- `put` keeps the cache within its limit; a limit of 0 is taken as 1.
  pub put-IsBounded :
      (key : String) (e : CacheEntry V) (c : LruCache V)
      → IsBounded c
      → IsBounded (Lru.put key e c).0
  unfolding Lru.put
  put-IsBounded key e c b = go (Dict.get key c.cache) refl
    where
      go :
          (o : Option (CacheEntry V))
          → Dict.get key c.cache ≡ o
          → length (Dict.assign key e (make_room o key c).0) ≤ max 1 c.max_size
      go none h = make_room_new e key c b
      go (some old) h = omega (arith, make_room_old old e key c h)

  pub get-IsBounded :
      (now : ℕ) (key : String) (c : LruCache V) → IsBounded c → IsBounded (Lru.get now key c).0
  unfolding Lru.get get_found
  get-IsBounded now key c b = go (Dict.get key c.cache) refl
    where
      go :
          (o : Option (CacheEntry V))
          → Dict.get key c.cache ≡ o
          → IsBounded (get_found now key o c).0
      go none h = b
      go (some old) h =
          omega (arith, length-move_to_end key (record old { last_access = now }) old c.cache h)

  find_clean-none :
      (d : Dict String (CacheEntry V)) (k : String) (x : CacheEntry V)
      → find_clean d ≡ none
      → Dict.get k d ≡ some x
      → x.state ≡ modified
  unfolding find_clean Dict.get same_state
  find_clean-none [] k x h g = cc
  find_clean-none ((j, y) ∷ d) k x h g = ground (arith, find_clean-none d k x)

  find_clean-state :
      (d : Dict String (CacheEntry V)) (x : CacheEntry V)
      → find_clean d ≡ some x
      → x.state ≢ modified
  unfolding find_clean same_state
  find_clean-state [] x h = λ e. cc
  find_clean-state ((j, y) ∷ d) x h = λ e. ground (arith, find_clean-state d x)

  evicted_clean :
      (d : Dict String (CacheEntry V)) (v : CacheEntry V)
      → (evict d).1 ≡ some v
      → v.state ≡ modified
      → (k : String) (x : CacheEntry V) → Dict.get k d ≡ some x
      → x.state ≡ modified
  unfolding evict
  evicted_clean d v h m k x g = elim (Option-cases (find_clean d)) [
    | inl e ↦ find_clean-none d k x e g
    | inr (y, e) ↦ let p : y ≡ v = ground arith in absurd (find_clean-state d v (rw (← p) e) m)
  ]

  make_room-full :
      (key : String) (c : LruCache V) (v : CacheEntry V)
      → (make_room none key c).1 ≡ some v
      → (c.max_size ≤ length c.cache) × ((evict c.cache).1 ≡ some v)
  unfolding make_room
  make_room-full key c v h = elim (Bool-cases (leb c.max_size (length c.cache))) [
    | inl full ↦ (leb→le _ _ full, rw (full, make_room) at h)
    | inr room ↦ cc (rw (room, make_room) at h)
  ]

  -- `put` evicts only where the key is new and the cache is full, and it evicts a modified entry only
  -- where every entry is modified.
  pub put_evicts :
      (key : String) (e : CacheEntry V) (c : LruCache V) (v : CacheEntry V)
      → (Lru.put key e c).1 ≡ some v
      → (Dict.get key c.cache ≡ none)
        × (c.max_size ≤ length c.cache)
        × (v.state ≡ modified
            → (k : String) (x : CacheEntry V) → Dict.get k c.cache ≡ some x
            → x.state ≡ modified)
  unfolding Lru.put
  put_evicts key e c v h = go (Dict.get key c.cache) refl h
    where
      go :
          (o : Option (CacheEntry V))
          → Dict.get key c.cache ≡ o
          → (make_room o key c).1 ≡ some v
          → (Dict.get key c.cache ≡ none)
            × (c.max_size ≤ length c.cache)
            × (v.state ≡ modified
                → (k : String) (x : CacheEntry V) → Dict.get k c.cache ≡ some x
                → x.state ≡ modified)
      go (some old) g h = cc
      go none g h =
          let (full, out) = make_room-full key c v h in (g, full, evicted_clean c.cache v out)
