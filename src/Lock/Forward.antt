-- ===== src/Lock/Forward.antt =====
-- src/nodes/lock_manager.py: `_forward_to_leader`, and the handlers of the leader for what is forwarded.
-- `acquire_lock` and `release_lock` of the leader, which wait for Raft, are arguments.
mod Answered
mod Tests
use pynchronize.Prelude.{
  ℕ, Bool, true, false, Option, none, some, List, [], ◌∷◌, String, string_key, ◌==◌, if◌then◌else◌,
}
use pynchronize.Config.{NodeConfig, Cluster, get_node}
use pynchronize.Json.{
  Json, Fields, null, boolean, number, text, array, object, no_fields, field, find,
}
use pynchronize.Message.{MessageType, Message, lock_request, lock_response, lock_release}
use pynchronize.Transport
use pynchronize.Transport.{
  Handled, answered, raised, Handler, MessageTransport, Reply, Sent, got, failed,
}
use pynchronize.Lock.{
  LockType, shared, exclusive, LockStatus, acquired, waiting, released, denied, timeout, deadlock,
  type_value, status_value,
}

-- `LockType(value)` and `LockStatus(value)`; none where they raise
unfoldable pub find_lock_type : String → List LockType → Option LockType
unfolding type_value
find_lock_type v [] = none
find_lock_type v (t ∷ ts) =
    let rest = find_lock_type v ts in if type_value t == v then some t else rest

unfoldable pub find_status : String → List LockStatus → Option LockStatus
unfolding status_value
find_status v [] = none
find_status v (t ∷ ts) = let rest = find_status v ts in if status_value t == v then some t else rest

unfoldable pub lock_type_of : Json → Option LockType
unfolding find_lock_type
lock_type_of (text v) = find_lock_type v (shared ∷ exclusive ∷ [])
lock_type_of _ = none

unfoldable pub status_of_value : Json → Option LockStatus
unfolding find_status
status_of_value (text v) =
    find_status v (acquired ∷ waiting ∷ released ∷ denied ∷ timeout ∷ deadlock ∷ [])
status_of_value _ = none

-- `"acquire"` or `"release"`
pub data Action : Type 0 where
  acquiring releasing : Action

unfoldable pub type_of_action : Action → MessageType
type_of_action acquiring = lock_request
type_of_action releasing = lock_release

-- `lock_type.value if lock_type else None`
unfoldable pub optional_type : Option LockType → Json
unfolding type_value
optional_type none = null
optional_type (some t) = text (type_value t)

unfoldable pub forward_message : String → ℕ → Action → String → String → Option LockType → Message
unfolding type_of_action optional_type
forward_message node_id term action client_id resource_id lock_type = record {
  type = type_of_action action;
  sender_id = text node_id;
  term = number term;
  payload = object (
      field "client_id" (text client_id) (
        field "resource_id" (text resource_id)
          (field "lock_type" (optional_type lock_type) no_fields)));
}

unfoldable pub status_in_fields : Option Json → Option LockStatus
unfolding status_of_value
status_in_fields none = some denied
status_in_fields (some v) = status_of_value v

-- the status in a payload; none where it raises
unfoldable pub status_in : (String → String → Bool) → Json → Option LockStatus
unfolding status_in_fields find
status_in substring (object fs) = status_in_fields (find "status" fs)
status_in substring (array xs) = if Transport.has_text "status" xs then none else some denied
status_in substring (text s) = if substring "status" s then none else some denied
status_in substring _ = none

unfoldable pub status_of_sent : (String → String → Bool) → Sent → Option LockStatus
unfolding status_in
status_of_sent substring (got (some m)) = status_in substring m.payload
status_of_sent substring (got none) = some denied
status_of_sent substring failed = none

-- `_forward_to_leader`; none where it raises
unfoldable pub forward_to_leader :
    {S : Type 0}
    → (String → String → Bool)
    → (String → ℕ → Json → Reply)
    → MessageTransport S
    → Cluster
    → String
    → Message
    → Option LockStatus
unfolding status_of_sent
forward_to_leader substring post transport cluster leader_id message =
    elim (get_node cluster leader_id) [
      | none ↦ some denied
      | some n ↦
          status_of_sent substring (Transport.send substring post transport n.host n.port message)
    ]

abbrev pub response : String → ℕ → LockStatus → Message
response node_id term status = record {
  type = lock_response;
  sender_id = text node_id;
  term = number term;
  payload = object (field "status" (text (status_value status)) no_fields);
}

-- the payload of a message, where it is an object
unfoldable pub fields_of : Json → Option Fields
fields_of (object fs) = some fs
fields_of _ = none

unfoldable pub required : String → Option Fields → Option Json
unfolding find
required name none = none
required name (some fs) = find name fs

unfoldable pub lock_type_in : Option Json → Option LockType
unfolding lock_type_of
lock_type_in none = none
lock_type_in (some v) = lock_type_of v

-- `reason` is the text of an exception.
module _ {S : Type 0} (node_id : String) (term : S → ℕ) (reason : String) where
  abbrev answer : S × LockStatus → S × Handled
  answer (s, status) = (s, answered (some (response node_id (term s) status)))

  unfoldable pub acquire_with :
      (Json → Json → LockType → S → S × LockStatus)
      → Option Json
      → Option Json
      → Option LockType
      → S
      → S × Handled
  acquire_with acquire (some client_id) (some resource_id) (some lock_type) s =
      answer (acquire client_id resource_id lock_type s)
  acquire_with acquire _ _ _ s = (s, raised reason)

  -- `_handle_lock_request`
  unfoldable pub handle_lock_request : (Json → Json → LockType → S → S × LockStatus) → Handler S
  unfolding acquire_with required fields_of
  handle_lock_request acquire m s =
      let payload = fields_of m.payload in
      acquire_with acquire (required "client_id" payload) (required "resource_id" payload)
        (lock_type_in (required "lock_type" payload)) s

  unfoldable pub release_with :
      (Json → Json → S → S × LockStatus) → Option Json → Option Json → S → S × Handled
  release_with release (some client_id) (some resource_id) s =
      answer (release client_id resource_id s)
  release_with release _ _ s = (s, raised reason)

  -- `_handle_lock_release`
  unfoldable pub handle_lock_release : (Json → Json → S → S × LockStatus) → Handler S
  unfolding release_with required fields_of
  handle_lock_release release m s =
      let payload = fields_of m.payload in
      release_with release (required "client_id" payload) (required "resource_id" payload) s

  -- the handlers that `_on_start` registers
  unfoldable pub register_lock_handlers :
      (Json → Json → LockType → S → S × LockStatus)
      → (Json → Json → S → S × LockStatus)
      → MessageTransport S
      → MessageTransport S
  unfolding handle_lock_request handle_lock_release
  register_lock_handlers acquire release transport =
      Transport.register_handler lock_release (handle_lock_release release)
        (Transport.register_handler lock_request (handle_lock_request acquire) transport)
