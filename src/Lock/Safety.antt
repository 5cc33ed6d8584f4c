-- ===== src/Lock/Safety.antt =====
-- Mutual exclusion: what holds of the lock table after any log of commands.
use pynchronize.Prelude.{
  ℕ, ◌≡◌, refl, true, false, not, ◌&&◌, Option, none, some, List, [], ◌∷◌, ◌==◌, String, string_key,
  contains, insert, discard, if◌then◌else◌, Distinct, Distinct-insert, Distinct-discard, Bool-cases,
  Option-cases, inl, inr, arith, same_refl, ap, contains-discard, ◌⊎◌,
}
use pynchronize.Prelude.Dict
use pynchronize.Prelude.Dict.{get-assign, get-remove}
use pynchronize.Deadlock
use pynchronize.Deadlock.{WaitGraph, Search}
use pynchronize.Lock.{
  LockType, shared, exclusive, LockStatus, deadlock, LockRequest, Lock, Manager, init, Command,
  acquire, release, unknown, is_empty, same_type, complete, lock_of, can_acquire, grant, enqueue,
  wait_or_refuse, acquire_lock_of, shared_requests, grant_shared, process_first, process_from,
  process_waiting, hand_over, store_or_delete, release_lock_of, apply_command, run,
}

-- At most one holder, unless the lock is shared.
pub record IsSafe (lock : Lock) : Type 0 where
  pub held_once : Distinct lock.holders
  pub alone :
      lock.lock_type ≡ exclusive
      → (a b : String) → contains a lock.holders ≡ true
      → contains b lock.holders ≡ true
      → a ≡ b

-- A lock in the table has a holder.
pub record IsHeld (lock : Lock) : Type 0 where
  pub safe : IsSafe lock
  pub held : is_empty lock.holders ≡ false

pub record Inv (m : Manager) : Type 0 where
  pub at : (r : String) (lock : Lock) → Dict.get r m.locks ≡ some lock → IsHeld lock

pub insert-held : (a : String) (xs : List String) → is_empty (insert a xs) ≡ false
unfolding insert is_empty contains
insert-held a [] = ground arith
insert-held a (x ∷ xs) = ground arith

-- A holder that joins an empty set stands alone.
alone_of_empty :
    (c : String) (hs : List String)
    → is_empty hs ≡ true
    → (a b : String) → contains a (insert c hs) ≡ true
    → contains b (insert c hs) ≡ true
    → a ≡ b
unfolding contains insert is_empty
alone_of_empty c [] e a b ha hb = ground (arith, string_key.same_iff c a, string_key.same_iff c b)
alone_of_empty c (x ∷ xs) e a b ha hb = cc

contains-insert_old :
    (c b : String) (hs : List String)
    → contains c hs ≡ true
    → contains b (insert c hs) ≡ true
    → contains b hs ≡ true
unfolding insert
contains-insert_old c b hs old h = ground arith

grant-alone :
    (lock : Lock) (c : String) (t : LockType)
    → IsSafe lock
    → can_acquire lock c t ≡ true
    → (grant lock c t).lock_type ≡ exclusive
    → (a b : String) → contains a (grant lock c t).holders ≡ true
    → contains b (grant lock c t).holders ≡ true
    → a ≡ b
unfolding can_acquire grant
grant-alone lock c t s ok e a b ha hb = elim (Bool-cases (is_empty lock.holders)) [
  | inl empty ↦ alone_of_empty c lock.holders empty a b ha hb
  | inr busy ↦
      let old : contains c lock.holders ≡ true = ground arith in
      s.alone (ground arith) a b (contains-insert_old c a lock.holders old ha)
        (contains-insert_old c b lock.holders old hb)
]

grant-IsHeld :
    (lock : Lock) (c : String) (t : LockType)
    → IsSafe lock
    → can_acquire lock c t ≡ true
    → IsHeld (grant lock c t)
unfolding grant
grant-IsHeld lock c t s can = record {
  safe = record {
    held_once = Distinct-insert c lock.holders s.held_once;
    alone = grant-alone lock c t s can;
  };
  held = insert-held c lock.holders;
}

-- What the table holds after one of its locks is replaced.
assign-Inv :
    (r : String) (lock : Lock) (m m' : Manager)
    → IsHeld lock
    → m'.locks ≡ Dict.assign r lock m.locks
    → Inv m
    → Inv m'
assign-Inv r lock m m' h e inv = record {
  at = λ q l found. elim (Bool-cases (r == q)) [
    | inl same ↦
        let p : lock ≡ l = ground (arith, ap (Dict.get q) e, get-assign q r lock m.locks) in
        rw (← p) h
    | inr other ↦ inv.at q l (rw (e, get-assign q r lock m.locks, other) at found)
  ];
}

remove-Inv : (r : String) (m m' : Manager) → m'.locks ≡ Dict.remove r m.locks → Inv m → Inv m'
remove-Inv r m m' e inv = record {
  at = λ q l found. elim (Bool-cases (r == q)) [
    | inl same ↦ cc (rw (e, get-remove q r m.locks, same) at found)
    | inr other ↦ inv.at q l (rw (e, get-remove q r m.locks, other) at found)
  ];
}

same-Inv : (m m' : Manager) → m'.locks ≡ m.locks → Inv m → Inv m'
same-Inv m m' e inv = record { at = λ q l found. inv.at q l (rw e at found) }

pub locks-complete :
    (s : LockStatus) (id : Option String) (m : Manager) → (complete s id m).locks ≡ m.locks
unfolding complete
locks-complete s none m = refl
locks-complete s (some id) m = ground arith

lock_of-IsSafe :
    (r : String) (t : LockType) (m : Manager) → Inv m → IsSafe (lock_of r t (Dict.get r m.locks))
unfolding lock_of contains
lock_of-IsSafe r t m inv = elim (Option-cases (Dict.get r m.locks)) [
  | inl e ↦ rw e (record { held_once = tt; alone = λ p a b ha hb. cc })
  | inr (lock, e) ↦ rw e (inv.at r lock e).safe
]

enqueue-IsHeld : (lock : Lock) (r : LockRequest) → IsHeld lock → IsHeld (enqueue lock r)
unfolding enqueue
enqueue-IsHeld lock r h = record {
  safe = record { held_once = h.safe.held_once; alone = h.safe.alone };
  held = h.held;
}

wait_or_refuse-Inv :
    (now : ℕ) (lock : Lock) (c r : String) (t : LockType) (id : Option String) (s : Search)
    (m : Manager)
    → IsHeld lock
    → Inv m
    → Inv (wait_or_refuse now lock c r t id s m).1
unfolding wait_or_refuse
wait_or_refuse-Inv now lock c r t id (Search.cycle x) m h inv =
    same-Inv m _ (locks-complete deadlock id _) inv
wait_or_refuse-Inv now lock c r t id (Search.clear x) m h inv =
    assign-Inv r _ m _ (enqueue-IsHeld lock _ h) refl inv
wait_or_refuse-Inv now lock c r t id Search.exhausted m h inv =
    assign-Inv r _ m _ (enqueue-IsHeld lock _ h) refl inv

held_of_refused :
    (lock : Lock) (c : String) (t : LockType)
    → can_acquire lock c t ≡ false
    → is_empty lock.holders ≡ false
unfolding can_acquire
held_of_refused lock c t h = ground arith

acquire_lock_of-Inv :
    (now : ℕ) (lock : Lock) (c r : String) (t : LockType) (id : Option String) (m : Manager)
    → IsSafe lock
    → Inv m
    → Inv (acquire_lock_of now lock c r t id m).1
unfolding acquire_lock_of
acquire_lock_of-Inv now lock c r t id m s inv = elim (Bool-cases (can_acquire lock c t)) [
  | inl can ↦
      rw (can, acquire_lock_of)
        (assign-Inv r (grant lock c t) m _ (grant-IsHeld lock c t s can)
          (locks-complete LockStatus.acquired id _) inv)
  | inr cannot ↦
      rw (cannot, acquire_lock_of)
        (wait_or_refuse-Inv now lock c r t id _ _
          (record { safe = s; held = held_of_refused lock c t cannot }) (same-Inv m _ refl inv))
]

grant_shared-held_once :
    (rs : List LockRequest) (lock : Lock) (g : WaitGraph)
    → Distinct lock.holders
    → Distinct (grant_shared rs lock g).0.holders
unfolding grant_shared
grant_shared-held_once [] lock g d = d
grant_shared-held_once (r ∷ rs) lock g d =
    grant_shared-held_once rs _ _ (Distinct-insert r.client_id lock.holders d)

grant_shared-held :
    (rs : List LockRequest) (lock : Lock) (g : WaitGraph)
    → is_empty lock.holders ≡ false
    → is_empty (grant_shared rs lock g).0.holders ≡ false
unfolding grant_shared
grant_shared-held [] lock g h = h
grant_shared-held (r ∷ rs) lock g h =
    grant_shared-held rs _ _ (insert-held r.client_id lock.holders)

-- With a shared request in front, at least one client is granted.
grant_front-held :
    (r : LockRequest) (rs : List LockRequest) (lock : Lock) (g : WaitGraph)
    → r.lock_type ≡ shared
    → is_empty (grant_shared (shared_requests (r ∷ rs)) lock g).0.holders ≡ false
unfolding grant_shared shared_requests same_type
grant_front-held r rs lock g e =
    simp e (grant_shared-held (shared_requests rs) _ _ (insert-held r.client_id lock.holders))

pub process_first-IsHeld :
    (t : LockType) (r : LockRequest) (rs : List LockRequest) (lock : Lock) (g : WaitGraph)
    → r.lock_type ≡ t
    → is_empty lock.holders ≡ true
    → Distinct lock.holders
    → IsHeld (process_first t r rs lock g).0
unfolding process_first
process_first-IsHeld exclusive r rs lock g p e d = record {
  safe = record {
    held_once = Distinct-insert r.client_id lock.holders d;
    alone = λ q. alone_of_empty r.client_id lock.holders e;
  };
  held = insert-held r.client_id lock.holders;
}
process_first-IsHeld shared r rs lock g p e d = record {
  safe = record {
    held_once = grant_shared-held_once (shared_requests (r ∷ rs)) lock g d;
    alone = λ q. cc;
  };
  held = grant_front-held r rs lock g p;
}

hand_over-Held :
    (lock : Lock) (g : WaitGraph)
    → IsSafe lock
    → let out = (hand_over lock g).0 in
      ((is_empty out.holders && is_empty out.waiting) ≡ true) ⊎ IsHeld out
unfolding hand_over process_waiting
hand_over-Held lock g s = elim (Bool-cases (is_empty lock.holders)) [
  | inr busy ↦ rw (busy, hand_over) (inr (record { safe = s; held = busy }))
  | inl free ↦ rw (free, hand_over) (go free lock.waiting refl)
]
  where
    go :
        is_empty lock.holders ≡ true
        → (rs : List LockRequest) → lock.waiting ≡ rs
        → let out = (if not (is_empty rs) then process_from rs lock g else (lock, g)).0 in
          ((is_empty out.holders && is_empty out.waiting) ≡ true) ⊎ IsHeld out
    go free [] e = inl (ground arith)
    go free (r ∷ rs) e = inr (process_first-IsHeld r.lock_type r rs lock g refl free s.held_once)

store_or_delete-Inv :
    (r : String) (p : Lock × WaitGraph) (m : Manager)
    → ((is_empty p.0.holders && is_empty p.0.waiting) ≡ true) ⊎ IsHeld p.0
    → Inv m
    → Inv (store_or_delete r p m)
unfolding store_or_delete
store_or_delete-Inv r (lock, g) m (inl gone) inv =
    rw (gone, store_or_delete) (remove-Inv r m _ refl inv)
store_or_delete-Inv r (lock, g) m (inr h) inv =
    rw (h.held, store_or_delete) (assign-Inv r lock m _ h refl inv)

discard-IsSafe :
    (c : String) (lock : Lock)
    → IsSafe lock
    → IsSafe (record lock { holders = discard c lock.holders })
discard-IsSafe c lock s = record {
  held_once = Distinct-discard c lock.holders s.held_once;
  alone = λ e a b ha hb.
      s.alone e a b (ground (arith, contains-discard a c lock.holders))
        (ground (arith, contains-discard b c lock.holders));
}

release_lock_of-Inv :
    (c r : String) (o : Option Lock) (m : Manager)
    → Dict.get r m.locks ≡ o
    → Inv m
    → Inv (release_lock_of c r o m)
unfolding release_lock_of
release_lock_of-Inv c r none m e inv = inv
release_lock_of-Inv c r (some lock) m e inv = elim (Bool-cases (contains c lock.holders)) [
  | inr stranger ↦ rw (stranger, release_lock_of) inv
  | inl holder ↦
      let left = record lock { holders = discard c lock.holders } in
      let g = Deadlock.remove_holder c m.wait_graph in
      rw (holder, release_lock_of)
        (store_or_delete-Inv r (hand_over left g) m
          (hand_over-Held left g (discard-IsSafe c lock (inv.at r lock e).safe)) inv)
]

-- Every command, applied to a lock table in order, leaves it in order: each lock in it has at least
-- one holder and none twice, and an exclusive lock has exactly one.
pub apply_command-Inv :
    (now : ℕ) (c : Command) (m : Manager) → Inv m → Inv (apply_command now c m).1
unfolding apply_command
apply_command-Inv now (acquire c r t id) m inv =
    acquire_lock_of-Inv now _ c r t id m (lock_of-IsSafe r t m inv) inv
apply_command-Inv now (release c r) m inv = release_lock_of-Inv c r (Dict.get r m.locks) m refl inv
apply_command-Inv now unknown m inv = inv

run-Inv : (log : List (ℕ × Command)) (m : Manager) → Inv m → Inv (run log m)
unfolding run
run-Inv [] m inv = inv
run-Inv ((now, c) ∷ log) m inv = run-Inv log _ (apply_command-Inv now c m inv)

pub init-Inv : Inv init
unfolding Dict.get
init-Inv = record { at = λ r lock e. cc }

-- After any log of commands from the empty table, two clients that hold one exclusive lock are the
-- same client.
pub mutual_exclusion :
    (log : List (ℕ × Command)) (r a b : String) (lock : Lock)
    → Dict.get r (run log init).locks ≡ some lock
    → lock.lock_type ≡ exclusive
    → contains a lock.holders ≡ true
    → contains b lock.holders ≡ true
    → a ≡ b
mutual_exclusion log r a b lock found e =
    ((run-Inv log init init-Inv).at r lock found).safe.alone e a b

some_holder : (hs : List String) → is_empty hs ≡ false → (c : String) × (contains c hs ≡ true)
unfolding is_empty contains
some_holder [] h = cc
some_holder (x ∷ xs) h = (x, ground (arith, same_refl x))

-- After any log of commands from the empty table, a resource that is in the table has a holder: no
-- client is left waiting for a lock that nobody holds.
pub waited_is_held :
    (log : List (ℕ × Command)) (r : String) (lock : Lock)
    → Dict.get r (run log init).locks ≡ some lock
    → (c : String) × (contains c lock.holders ≡ true)
waited_is_held log r lock found =
    some_holder lock.holders ((run-Inv log init init-Inv).at r lock found).held
