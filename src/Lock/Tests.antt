-- ===== src/Lock/Tests.antt =====
-- Runs of the lock manager, and the theorems at them.
use pynchronize.Prelude.{
  ℕ, ◌≡◌, refl, true, none, some, List, [], ◌∷◌, String, string_key, nat_key, contains,
}
use pynchronize.Prelude.Dict
use pynchronize.Deadlock.Tests.{detector}
use pynchronize.Lock.{
  LockType, shared, exclusive, acquired, deadlock, LockRequest, Lock, Manager, init, unresolved,
  resolved, Command, acquire, release, is_empty, same_type, settle, resolve, complete, lock_of,
  can_acquire, grant, enqueue, wait_or_refuse, acquire_lock_of, apply_acquire, same_request,
  remove_request, shared_requests, grant_shared, process_first, process_from, process_waiting,
  hand_over, store_or_delete, release_lock_of, apply_release, apply_command, run,
}
use pynchronize.Lock.Safety.{mutual_exclusion, waited_is_held}
use pynchronize.Lock.Answers.{
  Explains, asked_graph, apply_acquire-Explains, locks-apply_command_ne, acquire_again,
  release_stranger, release_settles_nothing,
}
use pynchronize.Lock.HandOver.{handed, release_hands_over}

manager : Unit {0}
unfolding detector is_empty same_type settle resolve complete lock_of can_acquire grant enqueue
    wait_or_refuse acquire_lock_of apply_acquire same_request remove_request shared_requests
    grant_shared process_first process_from process_waiting hand_over store_or_delete
    release_lock_of apply_release apply_command run
manager = tt

-- "a" writes, then "b" and "c" want to read, and "d" to write
abbrev log : List (ℕ × Command)
log =
    (1, acquire "a" "r" exclusive (some "a:r:1"))
    ∷ (2, acquire "b" "r" shared none)
    ∷ (3, acquire "c" "r" shared none)
    ∷ (4, acquire "d" "r" exclusive none)
    ∷ []

abbrev asks : String → LockType → ℕ → LockRequest
asks c t now = record { client_id = c; resource_id = "r"; lock_type = t; timestamp = now }

abbrev queued : Lock
queued = record {
  resource_id = "r";
  lock_type = exclusive;
  holders = "a" ∷ [];
  waiting = asks "b" shared 2 ∷ asks "c" shared 3 ∷ asks "d" exclusive 4 ∷ [];
}

abbrev readers : Lock
readers = record {
  resource_id = "r";
  lock_type = shared;
  holders = "b" ∷ "c" ∷ [];
  waiting = asks "d" exclusive 4 ∷ [];
}

abbrev after_log : Manager
after_log = run log init

run-log : Dict.get "r" after_log.locks ≡ some queued
unfolding manager
run-log = refl

run-release : Dict.get "r" (apply_release "a" "r" after_log).1.locks ≡ some readers
unfolding manager
run-release = refl

-- two resources, taken in opposite orders
deadlocked :
    (apply_acquire 9 "b" "r" exclusive (some "x") (
      run
        ((1, acquire "a" "r" exclusive none)
          ∷ (2, acquire "b" "q" exclusive none)
          ∷ (3, acquire "a" "q" exclusive none)
          ∷ [])
        init)).0
    ≡ deadlock
unfolding manager
deadlocked = refl

-- the future of the request is settled with the answer
settled :
    (apply_acquire 1 "a" "r" exclusive
      (some "x")
      (record init { pending_requests = ("x", 7) ∷ []; futures = (7, unresolved) ∷ [] })).1.futures
    ≡ (7, resolved acquired) ∷ []
unfolding manager
settled = refl

mutual_exclusion_example : ◌≡◌ {A = String} "a" "a"
unfolding manager
mutual_exclusion_example = mutual_exclusion log "r" "a" "a" queued refl refl refl refl

waited_is_held_example : (c : String) × (contains c queued.holders ≡ true)
unfolding manager
waited_is_held_example = waited_is_held log "r" queued refl

apply_acquire-Explains_example :
    Explains
      (asked_graph "e" "r" shared after_log)
      "e"
      after_log
      (apply_acquire 5 "e" "r" shared none after_log)
apply_acquire-Explains_example = apply_acquire-Explains 5 "e" "r" shared none after_log

locks-apply_command_ne_example :
    Dict.get "r" (apply_command 5 (release "a" "q") after_log).1.locks
    ≡ Dict.get "r" after_log.locks
unfolding manager
locks-apply_command_ne_example = locks-apply_command_ne 5 (release "a" "q") after_log "r" refl

-- "b" reads together with "c" and asks to write
abbrev shared_by_two : Manager
shared_by_two = record init { locks = ("r", readers) ∷ [] }

acquire_again_example :
    ((apply_acquire 5 "b" "r" exclusive none shared_by_two).0 ≡ acquired)
    × (Dict.get "r" (apply_acquire 5 "b" "r" exclusive none shared_by_two).1.locks ≡ some readers)
unfolding manager
acquire_again_example = acquire_again 5 "b" "r" exclusive none shared_by_two readers refl refl

release_stranger_example : (apply_release "z" "r" shared_by_two).1 ≡ shared_by_two
unfolding manager
release_stranger_example = release_stranger "z" "r" shared_by_two readers refl refl

-- two clients wait for the release, one of them at this node
abbrev one_awaits : Manager
one_awaits = record after_log {
  pending_requests = ("b:r:2", 0) ∷ [];
  futures = (0, unresolved) ∷ [];
}

release_settles_nothing_example :
    let m' = (apply_release "a" "r" one_awaits).1 in
    (m'.pending_requests ≡ ("b:r:2", 0) ∷ []) × (m'.futures ≡ (0, unresolved) ∷ [])
release_settles_nothing_example = release_settles_nothing "a" "r" one_awaits

release_hands_over_example :
    Dict.get "r" (apply_release "a" "r" after_log).1.locks ≡ some (handed queued shared)
unfolding manager
release_hands_over_example =
    release_hands_over "a" "r" after_log queued (asks "b" shared 2)
      (asks "c" shared 3 ∷ asks "d" exclusive 4 ∷ []) refl refl refl refl
