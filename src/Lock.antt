-- ===== src/Lock.antt =====
-- src/nodes/lock_manager.py: the lock table that every replica keeps, and the commands that Raft
-- applies to it. The calls of the metrics are left out: they write to counters only.
pub mod Safety
pub mod Answers
mod Client
pub mod Forward
mod Tests
pub mod HandOver
use pynchronize.Prelude.{
  ℕ, ◌≡◌, Bool, true, false, not, ◌&&◌, ◌||◌, Option, none, some, List, [], ◌∷◌, ◌++◌, ◌==◌, String,
  string_key, nat_key, contains, insert, discard, if◌then◌else◌, eqb,
}
use pynchronize.Prelude.Dict
use pynchronize.Prelude.Dict.{Dict}
use pynchronize.Deadlock
use pynchronize.Deadlock.{WaitGraph, Search}

pub data LockType : Type 0 where
  shared exclusive : LockType

pub data LockStatus : Type 0 where
  acquired waiting released denied timeout deadlock : LockStatus

-- `LockType.value` and `LockStatus.value`
unfoldable pub type_value : LockType → String
type_value shared = "shared"
type_value exclusive = "exclusive"

unfoldable pub status_value : LockStatus → String
status_value acquired = "acquired"
status_value denied = "denied"
status_value waiting = "waiting"
status_value released = "released"
status_value timeout = "timeout"
status_value deadlock = "deadlock"

unfoldable pub same_type : LockType → LockType → Bool
same_type shared shared = true
same_type exclusive exclusive = true
same_type _ _ = false

-- `timestamp` is the reading of the clock.
pub record LockRequest : Type 0 where
  pub client_id : String
  pub resource_id : String
  pub lock_type : LockType
  pub timestamp : ℕ

pub record Lock : Type 0 where
  pub resource_id : String
  pub lock_type : LockType
  pub holders : List String
  pub waiting : List LockRequest

-- An `asyncio.Future` for the status of a request.
pub data Future : Type 0 where
  unresolved cancelled : Future
  resolved : LockStatus → Future

-- The fields of `LockManager`. `futures` is the store of the future objects: `pending_requests` maps
-- a request id to its object.
pub record Manager : Type 0 where
  pub locks : Dict String Lock
  pub wait_graph : WaitGraph
  pub pending_requests : Dict String ℕ
  pub futures : Dict ℕ Future

abbrev pub init : Manager
init = record { locks = []; wait_graph = []; pending_requests = []; futures = [] }

-- A committed command. `unknown` stands for any other "action".
pub data Command : Type 0 where
  acquire :
      (client_id resource_id : String) (lock_type : LockType) (request_id : Option String) → Command
  release : (client_id resource_id : String) → Command
  unknown : Command

unfoldable pub is_empty {ℓ} : {A : Type ℓ} → List A → Bool
is_empty [] = true
is_empty (x ∷ xs) = false

-- `if not future.done(): future.set_result(status)`
unfoldable pub settle : LockStatus → ℕ → Option Future → Dict ℕ Future → Dict ℕ Future
settle status f (some unresolved) futures = Dict.assign f (resolved status) futures
settle status f _ futures = futures

unfoldable pub resolve : LockStatus → String → Option ℕ → Manager → Manager
unfolding settle
resolve status request_id none m = m
resolve status request_id (some f) m = record m {
  pending_requests = Dict.remove request_id m.pending_requests;
  futures = settle status f (Dict.get f m.futures) m.futures;
}

-- `if request_id and request_id in self.pending_requests: …`
unfoldable pub complete : LockStatus → Option String → Manager → Manager
unfolding resolve
complete status none m = m
complete status (some request_id) m =
    if request_id == ""
    then m
    else resolve status request_id (Dict.get request_id m.pending_requests) m

-- The lock of a resource, made on its first use.
unfoldable pub lock_of : String → LockType → Option Lock → Lock
lock_of resource_id lock_type (some lock) = lock
lock_of resource_id lock_type none = record {
  resource_id = resource_id;
  lock_type = lock_type;
  holders = [];
  waiting = [];
}

-- `can_acquire`
unfoldable pub can_acquire : Lock → String → LockType → Bool
unfolding is_empty same_type
can_acquire lock client_id lock_type =
    is_empty lock.holders
    || (same_type lock.lock_type shared && same_type lock_type shared
        || contains client_id lock.holders)

-- the lock with the client among its holders; a free lock takes the type that is asked for
unfoldable pub grant : Lock → String → LockType → Lock
unfolding is_empty
grant lock client_id lock_type = record lock {
  lock_type = if is_empty lock.holders then lock_type else lock.lock_type;
  holders = insert client_id lock.holders;
}

unfoldable pub enqueue : Lock → LockRequest → Lock
enqueue lock request = record lock { waiting = lock.waiting ++ request ∷ [] }

-- Where the lock cannot be had: a cycle refuses the request, otherwise it waits. The search always
-- ends, so the last case is never taken.
unfoldable pub wait_or_refuse :
    ℕ → Lock → String → String → LockType → Option String → Search → Manager → LockStatus × Manager
unfolding complete enqueue
wait_or_refuse now lock client_id resource_id lock_type request_id (Search.cycle c) m = (
  deadlock,
  complete deadlock request_id
      (record m { wait_graph = Deadlock.remove_wait client_id m.wait_graph }),
)
wait_or_refuse now lock client_id resource_id lock_type request_id _ m = (
  waiting,
  record m {
    locks =
        Dict.assign resource_id
          (enqueue lock (record {
            client_id = client_id;
            resource_id = resource_id;
            lock_type = lock_type;
            timestamp = now;
          }))
          m.locks;
  },
)

unfoldable pub acquire_lock_of :
    ℕ → Lock → String → String → LockType → Option String → Manager → LockStatus × Manager
unfolding can_acquire grant complete wait_or_refuse
acquire_lock_of now lock client_id resource_id lock_type request_id m =
    if can_acquire lock client_id lock_type
    then (
      acquired,
      complete acquired request_id (record m {
        locks = Dict.assign resource_id (grant lock client_id lock_type) m.locks;
        wait_graph = Deadlock.remove_wait client_id m.wait_graph;
      }),
    )
    else (let g = Deadlock.add_wait client_id lock.holders m.wait_graph in
        wait_or_refuse now lock client_id resource_id lock_type request_id
          (Deadlock.detect_cycle g client_id) (record m { wait_graph = g }))

-- `_apply_acquire`
unfoldable pub apply_acquire :
    ℕ → String → String → LockType → Option String → Manager → LockStatus × Manager
unfolding lock_of acquire_lock_of
apply_acquire now client_id resource_id lock_type request_id m =
    acquire_lock_of now (lock_of resource_id lock_type (Dict.get resource_id m.locks)) client_id
      resource_id lock_type request_id m

-- `LockRequest.__eq__`, which `waiting.remove` uses
unfoldable pub same_request : LockRequest → LockRequest → Bool
unfolding same_type
same_request a b =
    a.client_id == b.client_id
    && (a.resource_id == b.resource_id
        && (same_type a.lock_type b.lock_type && eqb a.timestamp b.timestamp))

-- `waiting.remove(req)`
unfoldable pub remove_request : LockRequest → List LockRequest → List LockRequest
remove_request r [] = []
remove_request r (x ∷ xs) = if same_request x r then xs else x ∷ remove_request r xs

-- the loop that collects the shared requests in front
unfoldable pub shared_requests : List LockRequest → List LockRequest
shared_requests [] = []
shared_requests (r ∷ rs) =
    let rest = shared_requests rs in if same_type r.lock_type shared then r ∷ rest else []

-- one round of the loop that grants them
unfoldable pub grant_shared : List LockRequest → Lock → WaitGraph → Lock × WaitGraph
grant_shared [] lock g = (lock, g)
grant_shared (r ∷ rs) lock g =
    grant_shared rs
      (record lock {
        waiting = remove_request r lock.waiting;
        holders = insert r.client_id lock.holders;
      })
      (Deadlock.remove_wait r.client_id g)

-- The two branches of `_process_waiting`, by the type of the first request.
unfoldable pub process_first :
    LockType → LockRequest → List LockRequest → Lock → WaitGraph → Lock × WaitGraph
process_first exclusive next rest lock g = (
  record lock {
    waiting = rest;
    lock_type = exclusive;
    holders = insert next.client_id lock.holders;
  },
  Deadlock.remove_wait next.client_id g,
)
process_first shared next rest lock g =
    let (lock', g') = grant_shared (shared_requests (next ∷ rest)) lock g in
    (record lock' { lock_type = shared }, g')

-- `_process_waiting`, by the list of those who wait
unfoldable pub process_from : List LockRequest → Lock → WaitGraph → Lock × WaitGraph
unfolding process_first
process_from [] lock g = (lock, g)
process_from (next ∷ rest) lock g = process_first next.lock_type next rest lock g

unfoldable pub process_waiting : Lock → WaitGraph → Lock × WaitGraph
unfolding process_from
process_waiting lock g = process_from lock.waiting lock g

-- `if not lock.holders and lock.waiting: …`
unfoldable pub hand_over : Lock → WaitGraph → Lock × WaitGraph
unfolding is_empty
hand_over lock g =
    if is_empty lock.holders && not (is_empty lock.waiting)
    then process_waiting lock g
    else (lock, g)

-- the last part of `_apply_release`: a lock that nobody holds or waits for is deleted
unfoldable pub store_or_delete : String → Lock × WaitGraph → Manager → Manager
unfolding is_empty
store_or_delete resource_id (lock, g) m = record m {
  locks =
      if is_empty lock.holders && is_empty lock.waiting
      then Dict.remove resource_id m.locks
      else Dict.assign resource_id lock m.locks;
  wait_graph = g;
}

unfoldable pub release_lock_of : String → String → Option Lock → Manager → Manager
unfolding hand_over store_or_delete
release_lock_of client_id resource_id none m = m
release_lock_of client_id resource_id (some lock) m =
    if contains client_id lock.holders
    then store_or_delete resource_id
        (hand_over (record lock { holders = discard client_id lock.holders })
          (Deadlock.remove_holder client_id m.wait_graph))
        m
    else m

-- `_apply_release`
unfoldable pub apply_release : String → String → Manager → LockStatus × Manager
unfolding release_lock_of
apply_release client_id resource_id m =
    (released, release_lock_of client_id resource_id (Dict.get resource_id m.locks) m)

-- `_apply_command`, at the time `now`
unfoldable pub apply_command : ℕ → Command → Manager → Option LockStatus × Manager
unfolding apply_acquire apply_release
apply_command now (acquire c r t id) m = let (s, m') = apply_acquire now c r t id m in (some s, m')
apply_command now (release c r) m = let (s, m') = apply_release c r m in (some s, m')
apply_command now unknown m = (none, m)

-- The state machine over a log of commands, each with the time at which it is applied.
unfoldable pub run : List (ℕ × Command) → Manager → Manager
run [] m = m
run ((now, c) ∷ cs) m = run cs (apply_command now c m).1
