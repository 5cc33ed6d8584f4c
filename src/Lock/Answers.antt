-- ===== src/Lock/Answers.antt =====
-- What an `acquire` or a `release` answers, and what it leaves alone.
use pynchronize.Prelude.{
  ℕ, ◌≡◌, refl, Bool, true, false, Option, none, some, List, ◌==◌, String, string_key, contains,
  insert, discard, Bool-cases, inl, inr, arith, same_refl, ap, ◌∙◌,
}
use pynchronize.Prelude.Dict
use pynchronize.Prelude.Dict.{get-assign, get-remove}
use pynchronize.Deadlock
use pynchronize.Deadlock.{WaitGraph, Search}
use pynchronize.Deadlock.Cycles.{Walk, OnCycle, IsCycle}
use pynchronize.Deadlock.Detects.{Verdict, detect_cycle-Verdict}
use pynchronize.Deadlock.Edges.{waits, waits-remove_wait}
use pynchronize.Lock.{
  LockType, LockStatus, acquired, deadlock, waiting, Lock, Manager, Command, acquire, release,
  unknown, complete, lock_of, can_acquire, grant, wait_or_refuse, acquire_lock_of, apply_acquire,
  hand_over, store_or_delete, release_lock_of, apply_release, apply_command,
}
use pynchronize.Lock.Safety.{locks-complete}

pub graph-complete :
    (s : LockStatus) (id : Option String) (m : Manager)
    → (complete s id m).wait_graph ≡ m.wait_graph
unfolding complete
graph-complete s none m = refl
graph-complete s (some id) m = ground arith

-- What a request that is refused, or that waits, has found in the wait-for graph with its edges.
abbrev pub Explains : WaitGraph → String → Manager → LockStatus × Manager → Type 0
Explains g c m (s, m') =
    (s ≡ deadlock
      → (l : List String) × IsCycle g l
        × (m'.locks ≡ m.locks)
        × ((b : String) → waits m'.wait_graph c b ≡ false))
    × (s ≡ waiting → (m'.wait_graph ≡ g) × ((a : String) → Walk g c a → ¬ OnCycle g a))

wait_or_refuse-Explains :
    (now : ℕ) (lock : Lock) (c r : String) (t : LockType) (id : Option String) (m : Manager)
    (s : Search)
    → Verdict m.wait_graph c s
    → Explains m.wait_graph c m (wait_or_refuse now lock c r t id s m)
unfolding wait_or_refuse
wait_or_refuse-Explains now lock c r t id m _ (Verdict.found l cycle) = (
  λ e. (
    l,
    cycle,
    locks-complete deadlock id _,
    λ b. ground (
      arith,
      graph-complete deadlock id (record m { wait_graph = Deadlock.remove_wait c m.wait_graph }),
      waits-remove_wait c m.wait_graph c b,
      same_refl c,
    ),
  ),
  λ e. cc,
)
wait_or_refuse-Explains now lock c r t id m _ (Verdict.free v no_cycle) =
    (λ e. cc, λ e. (refl, no_cycle))

-- The graph in which a request looks for a cycle: the client waits for every other holder.
abbrev pub asked_graph : String → String → LockType → Manager → WaitGraph
asked_graph c r t m = Deadlock.add_wait c (lock_of r t (Dict.get r m.locks)).holders m.wait_graph

-- A request that is answered DEADLOCK has a cycle in the wait-for graph with its own edges; it leaves
-- the lock table as it was, and the client waits for nobody. A request that is answered WAITING
-- leaves its edges in the graph, and no cycle can be reached from the client.
pub apply_acquire-Explains :
    (now : ℕ) (c r : String) (t : LockType) (id : Option String) (m : Manager)
    → Explains (asked_graph c r t m) c m (apply_acquire now c r t id m)
unfolding apply_acquire acquire_lock_of
apply_acquire-Explains now c r t id m = go (lock_of r t (Dict.get r m.locks))
  where
    go :
        (lock : Lock)
        → Explains
            (Deadlock.add_wait c lock.holders m.wait_graph)
            c
            m
            (acquire_lock_of now lock c r t id m)
    go lock = elim (Bool-cases (can_acquire lock c t)) [
      | inl can ↦ rw (can, acquire_lock_of) (λ e. cc, λ e. cc)
      | inr cannot ↦
          let g = Deadlock.add_wait c lock.holders m.wait_graph in
          rw (cannot, acquire_lock_of)
            (wait_or_refuse-Explains now lock c r t id (record m { wait_graph = g })
              (Deadlock.detect_cycle g c) (detect_cycle-Verdict g c))
    ]

-- The resource that a command names.
abbrev pub touches : Command → String → Bool
touches (acquire c r t id) q = r == q
touches (release c r) q = r == q
touches unknown q = false

locks-wait_or_refuse :
    (now : ℕ) (lock : Lock) (c r : String) (t : LockType) (id : Option String) (s : Search)
    (m : Manager) (q : String)
    → (r == q) ≡ false
    → Dict.get q (wait_or_refuse now lock c r t id s m).1.locks ≡ Dict.get q m.locks
unfolding wait_or_refuse
locks-wait_or_refuse now lock c r t id (Search.cycle l) m q h =
    ap (Dict.get q) (locks-complete deadlock id _)
locks-wait_or_refuse now lock c r t id (Search.clear v) m q h = rw (get-assign q r, h)
locks-wait_or_refuse now lock c r t id Search.exhausted m q h = rw (get-assign q r, h)

locks-acquire_lock_of :
    (now : ℕ) (lock : Lock) (c r : String) (t : LockType) (id : Option String) (m : Manager)
    (q : String)
    → (r == q) ≡ false
    → Dict.get q (acquire_lock_of now lock c r t id m).1.locks ≡ Dict.get q m.locks
unfolding acquire_lock_of
locks-acquire_lock_of now lock c r t id m q h = elim (Bool-cases (can_acquire lock c t)) [
  | inl can ↦
      rw (can, acquire_lock_of)
        (ap (Dict.get q) (locks-complete acquired id _) ∙ rw (get-assign q r, h))
  | inr cannot ↦ rw (cannot, acquire_lock_of) (locks-wait_or_refuse now lock c r t id _ _ q h)
]

locks-store_or_delete :
    (r : String) (p : Lock × WaitGraph) (m : Manager) (q : String)
    → (r == q) ≡ false
    → Dict.get q (store_or_delete r p m).locks ≡ Dict.get q m.locks
unfolding store_or_delete
locks-store_or_delete r (lock, g) m q h =
    ground (arith, get-assign q r lock m.locks, get-remove q r m.locks)

locks-release_lock_of :
    (c r : String) (o : Option Lock) (m : Manager) (q : String)
    → (r == q) ≡ false
    → Dict.get q (release_lock_of c r o m).locks ≡ Dict.get q m.locks
unfolding release_lock_of
locks-release_lock_of c r none m q h = refl
locks-release_lock_of c r (some lock) m q h = elim (Bool-cases (contains c lock.holders)) [
  | inl holder ↦
      rw (holder, release_lock_of)
        (locks-store_or_delete r
          (hand_over (record lock { holders = discard c lock.holders })
            (Deadlock.remove_holder c m.wait_graph))
          m q h)
  | inr stranger ↦ rw (stranger, release_lock_of)
]

-- A command changes the lock of no resource but the one that it names.
pub locks-apply_command_ne :
    (now : ℕ) (cmd : Command) (m : Manager) (q : String)
    → touches cmd q ≡ false
    → Dict.get q (apply_command now cmd m).1.locks ≡ Dict.get q m.locks
unfolding apply_command apply_acquire apply_release
locks-apply_command_ne now (acquire c r t id) m q h = locks-acquire_lock_of now _ c r t id m q h
locks-apply_command_ne now (release c r) m q h =
    locks-release_lock_of c r (Dict.get r m.locks) m q h
locks-apply_command_ne now unknown m q h = refl

grant_again :
    (lock : Lock) (c : String) (t : LockType)
    → contains c lock.holders ≡ true
    → grant lock c t ≡ lock
unfolding grant insert contains
grant_again lock c t h = ground arith

can_acquire_again :
    (lock : Lock) (c : String) (t : LockType)
    → contains c lock.holders ≡ true
    → can_acquire lock c t ≡ true
unfolding can_acquire
can_acquire_again lock c t h = ground arith

-- A client that holds a lock and asks for it again, with whatever type, is answered ACQUIRED, and
-- the lock keeps its type and its holders: a shared holder that asks for the exclusive lock does not
-- get it for itself.
pub acquire_again :
    (now : ℕ) (c r : String) (t : LockType) (id : Option String) (m : Manager) (lock : Lock)
    → Dict.get r m.locks ≡ some lock
    → contains c lock.holders ≡ true
    → let (s, m') = apply_acquire now c r t id m in
      (s ≡ acquired) × (Dict.get r m'.locks ≡ some lock)
unfolding apply_acquire acquire_lock_of lock_of
acquire_again now c r t id m lock found h =
    rw (found, apply_acquire, can_acquire_again, h, acquire_lock_of)
      (
        refl,
        ap (Dict.get r) (locks-complete acquired id _)
            ∙ rw (get-assign r r, same_refl r) (ap some (grant_again lock c t h)),
      )

-- A release by a client that does not hold the lock changes nothing.
pub release_stranger :
    (c r : String) (m : Manager) (lock : Lock)
    → Dict.get r m.locks ≡ some lock
    → contains c lock.holders ≡ false
    → (apply_release c r m).1 ≡ m
unfolding apply_release release_lock_of
release_stranger c r m lock found h = rw (found, apply_release, h, release_lock_of)

-- No release settles a future: the requests that a release grants are left unresolved.
pub release_settles_nothing :
    (c r : String) (m : Manager)
    → let m' = (apply_release c r m).1 in
      (m'.pending_requests ≡ m.pending_requests) × (m'.futures ≡ m.futures)
unfolding apply_release release_lock_of store_or_delete
release_settles_nothing c r m = go (Dict.get r m.locks)
  where
    go :
        (o : Option Lock)
        → let m' = release_lock_of c r o m in
          (m'.pending_requests ≡ m.pending_requests) × (m'.futures ≡ m.futures)
    go none = (refl, refl)
    go (some lock) = ground arith
