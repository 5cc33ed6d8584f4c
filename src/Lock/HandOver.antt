-- ===== src/Lock/HandOver.antt =====
-- What a release hands over, and to whom.
use pynchronize.Prelude.{
  ◌≡◌, refl, true, false, some, List, [], ◌∷◌, String, string_key, contains, insert, discard, arith,
  same_refl,
}
use pynchronize.Prelude.Dict
use pynchronize.Prelude.Dict.{get-assign, get-remove}
use pynchronize.Deadlock
use pynchronize.Deadlock.{WaitGraph}
use pynchronize.Lock.{
  LockType, shared, exclusive, LockRequest, Lock, Manager, is_empty, same_type, same_request,
  remove_request, shared_requests, grant_shared, process_first, process_from, process_waiting,
  hand_over, store_or_delete, release_lock_of, apply_release,
}
use pynchronize.Lock.Safety.{process_first-IsHeld}

-- Who holds the lock after a release by its only holder, and who still waits, by the queue alone: an
-- exclusive request in front is served alone; otherwise all shared requests in front are served.
abbrev pub served : LockType → List LockRequest → List LockRequest
served exclusive [] = []
served exclusive (r ∷ rs) = r ∷ []
served shared [] = []
served shared (r ∷ rs) =
    let rest = served shared rs in elim r.lock_type [ shared ↦ r ∷ rest | exclusive ↦ [] ]

abbrev pub left_waiting : LockType → List LockRequest → List LockRequest
left_waiting exclusive [] = []
left_waiting exclusive (r ∷ rs) = rs
left_waiting shared [] = []
left_waiting shared (r ∷ rs) =
    let rest = left_waiting shared rs in elim r.lock_type [ shared ↦ rest | exclusive ↦ r ∷ rs ]

abbrev pub add_clients : List LockRequest → List String → List String
add_clients [] hs = hs
add_clients (r ∷ rs) hs = add_clients rs (insert r.client_id hs)

same_request_refl : (r : LockRequest) → same_request r r ≡ true
unfolding same_request same_type
same_request_refl r = ground (arith, same_refl r.client_id, same_refl r.resource_id)

remove_front : (r : LockRequest) (rs : List LockRequest) → remove_request r (r ∷ rs) ≡ rs
unfolding remove_request
remove_front r rs = rw same_request_refl

shared_requests-served : (rs : List LockRequest) → shared_requests rs ≡ served shared rs
unfolding shared_requests same_type
shared_requests-served [] = refl
shared_requests-served (r ∷ rs) = ground (arith, shared_requests-served rs)

grant_shared-holders :
    (rs : List LockRequest) (lock : Lock) (g : WaitGraph)
    → (grant_shared rs lock g).0.holders ≡ add_clients rs lock.holders
unfolding grant_shared
grant_shared-holders [] lock g = refl
grant_shared-holders (r ∷ rs) lock g = grant_shared-holders rs _ _

grant_shared-waiting :
    (rs : List LockRequest) (lock : Lock) (g : WaitGraph)
    → lock.waiting ≡ rs
    → (grant_shared (shared_requests rs) lock g).0.waiting ≡ left_waiting shared rs
unfolding grant_shared shared_requests same_type
grant_shared-waiting [] lock g e = e
grant_shared-waiting (r ∷ rs) lock g e = ground (
  arith,
  remove_front r rs,
  grant_shared-waiting rs
      (record lock {
        waiting = remove_request r lock.waiting;
        holders = insert r.client_id lock.holders;
      })
      (Deadlock.remove_wait r.client_id g),
)

grant_shared-id :
    (rs : List LockRequest) (lock : Lock) (g : WaitGraph)
    → (grant_shared rs lock g).0.resource_id ≡ lock.resource_id
unfolding grant_shared
grant_shared-id [] lock g = refl
grant_shared-id (r ∷ rs) lock g = grant_shared-id rs _ _

-- The lock that the front of the queue leaves.
abbrev pub handed : Lock → LockType → Lock
handed lock t = record {
  resource_id = lock.resource_id;
  lock_type = t;
  holders = add_clients (served t lock.waiting) [];
  waiting = left_waiting t lock.waiting;
}

process_first-handed :
    (t : LockType) (r : LockRequest) (rs : List LockRequest) (lock : Lock) (g : WaitGraph)
    → lock.waiting ≡ r ∷ rs
    → lock.holders ≡ []
    → (process_first t r rs lock g).0 ≡ handed lock t
unfolding process_first
process_first-handed exclusive r rs lock g e h = ground arith
process_first-handed shared r rs lock g e h = ground (
  arith,
  shared_requests-served (r ∷ rs),
  grant_shared-id (shared_requests (r ∷ rs)) lock g,
  grant_shared-holders (shared_requests (r ∷ rs)) lock g,
  grant_shared-waiting (r ∷ rs) lock g e,
)

empty_of : {A : Type 0} (xs : List A) → is_empty xs ≡ true → xs ≡ []
unfolding is_empty
empty_of [] h = refl
empty_of (x ∷ xs) h = cc

hand_over-handed :
    (w : LockRequest) (ws : List LockRequest) (lock : Lock) (g : WaitGraph)
    → lock.waiting ≡ w ∷ ws
    → is_empty lock.holders ≡ true
    → ((hand_over lock g).0 ≡ handed lock w.lock_type)
      × (is_empty (hand_over lock g).0.holders ≡ false)
unfolding hand_over process_waiting process_from is_empty
hand_over-handed w ws lock g e h =
    let none_held = empty_of lock.holders h in
    let same : hand_over lock g ≡ process_first w.lock_type w ws lock g = ground arith in
    rw same (
      process_first-handed w.lock_type w ws lock g e none_held,
      (process_first-IsHeld w.lock_type w ws lock g refl h (rw none_held tt)).held,
    )

-- When the only holder of a lock releases it and requests wait, the lock stays in the table and goes to
-- the front of the queue: to the first request alone if that is exclusive, otherwise to all shared
-- requests that stand before the first exclusive one. The others wait on in their order.
pub release_hands_over :
    (c r : String) (m : Manager) (lock : Lock) (w : LockRequest) (ws : List LockRequest)
    → Dict.get r m.locks ≡ some lock
    → contains c lock.holders ≡ true
    → is_empty (discard c lock.holders) ≡ true
    → lock.waiting ≡ w ∷ ws
    → Dict.get r (apply_release c r m).1.locks ≡ some (handed lock w.lock_type)
unfolding apply_release release_lock_of store_or_delete
release_hands_over c r m lock w ws found holder last queue =
    let left = record lock { holders = discard c lock.holders } in
    let g = Deadlock.remove_holder c m.wait_graph in
    let (same, held) = hand_over-handed w ws left g queue last in
    ground (arith, get-assign r r (hand_over left g).0 m.locks, same_refl r)
