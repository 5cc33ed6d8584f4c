-- ===== src/Lock/Client.antt =====
-- src/nodes/lock_manager.py: `acquire_lock`, `release_lock` and `_forward_to_leader`, split where they wait
-- for Raft, for the future or for the leader, and the ends of the waiting futures. `f` stands for the new
-- future object, `request_id` for the text that the method makes from the client, the resource and the
-- time.
use pynchronize.Prelude.{
  ℕ, Bool, true, false, Option, none, some, List, [], ◌∷◌, String, string_key, nat_key, ◌==◌,
  if◌then◌else◌, length,
}
use pynchronize.Prelude.Dict
use pynchronize.Prelude.Dict.{Dict}
use pynchronize.Config.{NodeConfig, Cluster, get_node}
use pynchronize.Lock.{
  LockType, LockStatus, denied, released, timeout, Lock, Future, unresolved, cancelled, resolved,
  Manager, Command, acquire, release, settle,
}

-- What a call does first: it answers, asks the leader, or proposes a command to Raft.
pub data Route : Type 0 where
  answer : LockStatus → Route
  forward : NodeConfig → Route
  propose : Command → Route

-- `leader_node`, where it is a node of the cluster
abbrev pub to_node : Option NodeConfig → Route
to_node none = answer denied
to_node (some n) = forward n

-- a node that is not the leader: `if leader: …`
unfoldable pub to_leader : Cluster → Option String → Route
to_leader cluster none = answer denied
to_leader cluster (some leader) =
    if leader == "" then answer denied else to_node (get_node cluster leader)

-- `_forward_to_leader` with the status of the response, if there is one
unfoldable pub forwarded : Option LockStatus → LockStatus
forwarded none = denied
forwarded (some status) = status

-- `acquire_lock` up to the first wait
unfoldable pub begin_acquire :
    Cluster
    → Bool
    → Option String
    → String
    → ℕ
    → String
    → String
    → LockType
    → Manager
    → Route × Manager
unfolding to_leader
begin_acquire cluster is_leader leader request_id f client_id resource_id lock_type m =
    if is_leader
    then (
      propose (acquire client_id resource_id lock_type (some request_id)),
      record m {
        pending_requests = Dict.assign request_id f m.pending_requests;
        futures = Dict.assign f unresolved m.futures;
      },
    )
    else (to_leader cluster leader, m)

-- behind `propose`: an answer, or the wait for the future
unfoldable pub after_propose : String → Bool → Manager → Option LockStatus × Manager
after_propose request_id true m = (none, m)
after_propose request_id false m =
    (some denied, record m { pending_requests = Dict.remove request_id m.pending_requests })

-- The end of the wait, when the future is resolved or the time is up, by the state of the future;
-- none where the CancelledError is raised.
unfoldable pub end_wait : String → ℕ → Option Future → Manager → Option LockStatus × Manager
end_wait request_id f (some (resolved status)) m = (some status, m)
end_wait request_id f (some unresolved) m = (
  some timeout,
  record m {
    pending_requests = Dict.remove request_id m.pending_requests;
    futures = Dict.assign f cancelled m.futures;
  },
)
end_wait request_id f _ m = (none, m)

unfoldable pub finish_acquire : String → ℕ → Manager → Option LockStatus × Manager
unfolding end_wait
finish_acquire request_id f m = end_wait request_id f (Dict.get f m.futures) m

-- `release_lock` up to the first wait, and the answer behind `propose`
unfoldable pub begin_release : Cluster → Bool → Option String → String → String → Route
unfolding to_leader
begin_release cluster is_leader leader client_id resource_id =
    if is_leader then propose (release client_id resource_id) else to_leader cluster leader

unfoldable pub finish_release : Bool → LockStatus
finish_release success = if success then released else denied

-- a loop over the values of `pending_requests` that settles the futures that are not done
unfoldable pub settle_all : LockStatus → Dict String ℕ → Dict ℕ Future → Dict ℕ Future
unfolding settle
settle_all status [] futures = futures
settle_all status ((id, f) ∷ pending) futures =
    settle_all status pending (settle status f (Dict.get f futures) futures)

-- `_on_lose_leadership`
unfoldable pub on_lose_leadership : Manager → Manager
unfolding settle_all
on_lose_leadership m = record m {
  futures = settle_all denied m.pending_requests m.futures;
  pending_requests = [];
}

-- the loop of `_on_stop`: a future that is not done gets the exception `CancelledError`
unfoldable pub cancel : ℕ → Option Future → Dict ℕ Future → Dict ℕ Future
cancel f (some unresolved) futures = Dict.assign f cancelled futures
cancel f _ futures = futures

unfoldable pub cancel_all : Dict String ℕ → Dict ℕ Future → Dict ℕ Future
unfolding cancel
cancel_all [] futures = futures
cancel_all ((id, f) ∷ pending) futures = cancel_all pending (cancel f (Dict.get f futures) futures)

-- `_on_stop` of the lock manager, behind the stop of Raft
unfoldable pub on_stop : Manager → Manager
unfolding cancel_all
on_stop m = record m { futures = cancel_all m.pending_requests m.futures }

pub record LockInfo : Type 0 where
  pub resource_id : String
  pub lock_type : LockType
  pub holders : List String
  pub waiting_count : ℕ

abbrev pub info_of : String → Option Lock → Option LockInfo
info_of resource_id none = none
info_of resource_id (some lock) = some (record {
  resource_id = resource_id;
  lock_type = lock.lock_type;
  holders = lock.holders;
  waiting_count = length lock.waiting;
})

unfoldable pub get_lock_info : String → Manager → Option LockInfo
get_lock_info resource_id m = info_of resource_id (Dict.get resource_id m.locks)

abbrev infos_of : List String → Manager → List (Option LockInfo)
infos_of [] m = []
infos_of (id ∷ ids) m = get_lock_info id m ∷ infos_of ids m

unfoldable pub get_all_locks : Manager → List (Option LockInfo)
get_all_locks m = infos_of (Dict.keys m.locks) m
