-- ===== src/Api.antt =====
-- src/main.py: the handlers of the HTTP front end. A body is given as the value that it reads as, or none
-- where it is not JSON; a handler that raises gives no response. What the handlers call of the three nodes
-- is the interface `Services`; the route of the metrics is not modelled.
mod Refusals
mod Tests
use pynchronize.Prelude.{
  ℕ, Bool, true, false, not, ◌||◌, Option, none, some, List, [], ◌∷◌, String, string_key, ◌==◌, eqb,
  if◌then◌else◌,
}
use pynchronize.Json.{
  Json, Elements, Fields, null, boolean, number, text, array, object, no_elements, element,
  no_fields, field, find,
}
use pynchronize.Transport.{Response, error}
use pynchronize.Lock.{
  type_value, status_value, LockType, shared, exclusive, LockStatus, acquired, denied, waiting,
  released, timeout, deadlock,
}
use pynchronize.Queue.Store.{QueueMessage}

-- The methods of the lock manager, the queue node and the cache node over the state of the process; none
-- where a method raises.
pub record Services (S : Type 0) : Type 0 where
  pub node_id : String
  pub is_leader : S → Bool
  pub get_leader : S → Option String
  pub get_term : S → ℕ
  pub acquire_lock : Json → Json → LockType → Json → S → S × Option LockStatus
  pub release_lock : Json → Json → S → S × Option LockStatus
  pub get_lock_info : String → S → Option Json
  pub get_all_locks : S → Json
  pub publish : Json → Json → Json → S → S × Option Json
  pub consume : Json → Json → S → S × Option (List (QueueMessage))
  pub ack : Json → S → S × Option Bool
  pub get_queue_info : String → S → Json
  pub read : String → S → S × Option Json
  pub write : String → Json → S → S × Option Bool
  pub invalidate : String → S → S × Bool
  pub get_cache_info : S → Json

-- Python's truth of a value
unfoldable pub is_true : Json → Bool
is_true null = false
is_true (boolean b) = b
is_true (number n) = not (eqb n 0)
is_true (text s) = not (s == "")
is_true (array no_elements) = false
is_true (array (element x xs)) = true
is_true (object no_fields) = false
is_true (object (field n v fs)) = true

-- `value is None`
unfoldable pub is_none : Json → Bool
is_none null = true
is_none _ = false

-- `data.get(name, default)`
unfoldable pub get_or : String → Json → Fields → Json
get_or name default fs = elim (find name fs) [ none ↦ default | some v ↦ v ]

-- `LockType.SHARED if lock_type_str == "shared" else LockType.EXCLUSIVE`
unfoldable pub type_of : Json → LockType
type_of (text s) = if s == "shared" then shared else exclusive
type_of _ = exclusive

abbrev pub ok : Json → Response
ok body = record { status = 200; body = body }

abbrev pub bad_request : String → Response
bad_request e = record { status = 400; body = error e }

abbrev pub not_found : String → Response
not_found e = record { status = 404; body = error e }

abbrev pub optional : Option String → Json
optional none = null
optional (some s) = text s

-- `{"id": m.id, "payload": m.payload, "attempts": m.attempts}` for each message
unfoldable pub messages_json : List (QueueMessage) → Elements
messages_json [] = no_elements
messages_json (m ∷ ms) =
    element
      (object (
        field "id" (text m.id)
          (field "payload" m.payload (field "attempts" (number m.attempts) no_fields))))
      (messages_json ms)

-- the response to `acquire_lock`
abbrev pub acquired_json : LockStatus → Json → LockType → Response
acquired_json status resource_id lock_type = ok (
    object (
      field "status" (text (status_value status)) (
        field "resource_id" resource_id
          (field "lock_type" (text (type_value lock_type)) no_fields))))

-- the response to what a call gave
unfoldable pub reply {ℓ} :
    {S : Type 0} {A : Type ℓ} → (A → Response) → S × Option A → S × Option Response
reply f (s, none) = (s, none)
reply f (s, some a) = (s, some (f a))

-- `return web.json_response({"error": ...}, status=400)` where a field is missing, or else the call
unfoldable pub unless_missing :
    {S : Type 0} → Bool → String → S → S × Option Response → S × Option Response
unless_missing missing e s call = if missing then (s, some (bad_request e)) else call

module _ {S : Type 0} (v : Services S) where
  unfoldable pub health : S → Response
  health s = ok (
      object (
        field "status" (text "healthy") (
          field "node_id" (text v.node_id) (
            field "is_leader" (boolean (v.is_leader s)) (
              field "current_leader" (optional (v.get_leader s))
                (field "term" (number (v.get_term s)) no_fields))))))

  unfoldable pub acquire_lock : Fields → S → S × Option Response
  unfolding unless_missing reply get_or status_value type_value
  acquire_lock body s =
      let client_id = get_or "client_id" null body in
      let resource_id = get_or "resource_id" null body in
      let lock_type = type_of (get_or "lock_type" (text "exclusive") body) in
      unless_missing (not (is_true client_id) || not (is_true resource_id))
        "client_id and resource_id required" s
        (reply (λ status. acquired_json status resource_id lock_type)
          (v.acquire_lock client_id resource_id lock_type (get_or "timeout" (number 30) body) s))

  unfoldable pub release_lock : Fields → S → S × Option Response
  unfolding unless_missing reply get_or status_value
  release_lock body s =
      let client_id = get_or "client_id" null body in
      let resource_id = get_or "resource_id" null body in
      unless_missing (not (is_true client_id) || not (is_true resource_id))
        "client_id and resource_id required" s
        (reply (λ status. ok (object (field "status" (text (status_value status)) no_fields)))
          (v.release_lock client_id resource_id s))

  unfoldable pub lock_info : String → S → Response
  lock_info resource_id s = elim (v.get_lock_info resource_id s) [
    | none ↦ not_found "Lock not found"
    | some info ↦ if is_true info then ok info else not_found "Lock not found"
  ]

  unfoldable pub all_locks : S → Response
  all_locks s = ok (object (field "locks" (v.get_all_locks s) no_fields))

  unfoldable pub queue_publish : Fields → S → S × Option Response
  unfolding unless_missing reply get_or is_none
  queue_publish body s =
      let queue_name = get_or "queue_name" null body in
      let payload = get_or "payload" null body in
      unless_missing (not (is_true queue_name) || is_none payload) "queue_name and payload required"
        s
        (reply (λ id. ok (object (field "message_id" id (field "queue_name" queue_name no_fields))))
          (v.publish queue_name payload (get_or "message_id" null body) s))

  unfoldable pub queue_consume : Fields → S → S × Option Response
  unfolding unless_missing reply get_or messages_json
  queue_consume body s =
      let queue_name = get_or "queue_name" null body in
      unless_missing (not (is_true queue_name)) "queue_name required" s (
        reply (λ ms. ok (object (field "messages" (array (messages_json ms)) no_fields)))
          (v.consume queue_name (get_or "limit" (number 1) body) s))

  unfoldable pub queue_ack : Fields → S → S × Option Response
  unfolding unless_missing reply get_or
  queue_ack body s =
      let message_id = get_or "message_id" null body in
      unless_missing (not (is_true message_id)) "message_id required" s (
        reply (λ success. ok (object (field "success" (boolean success) no_fields)))
          (v.ack message_id s))

  unfoldable pub queue_info : String → S → Response
  queue_info queue_name s = ok (v.get_queue_info queue_name s)

  unfoldable pub cache_read : String → S → S × Option Response
  unfolding reply is_none
  cache_read key s =
      reply
        (λ value.
          if is_none value
          then not_found "Key not found"
          else ok (object (field "key" (text key) (field "value" value no_fields))))
        (v.read key s)

  unfoldable pub cache_write : String → Fields → S → S × Option Response
  unfolding unless_missing reply get_or is_none
  cache_write key body s =
      let value = get_or "value" null body in
      unless_missing (is_none value) "value required" s (
        reply
          (λ success.
            ok (object (field "success" (boolean success) (field "key" (text key) no_fields))))
          (v.write key value s))

  unfoldable pub cache_invalidate : String → S → S × Response
  cache_invalidate key s =
      let (s', success) = v.invalidate key s in
      (s', ok (object (field "success" (boolean success) (field "key" (text key) no_fields))))

  unfoldable pub cache_info : S → Response
  cache_info s = ok (v.get_cache_info s)

-- a request, by the route that takes it
pub data Request : Type 0 where
  get_health get_locks get_cache : Request
  get_lock get_queue get_key delete_key : String → Request
  post_acquire post_release post_publish post_consume post_ack : Option Json → Request
  put_key : String → Option Json → Request

-- `data = await request.json()`, and the methods of a dict on it
unfoldable pub with_body :
    {S : Type 0} → (Fields → S → S × Option Response) → Option Json → S → S × Option Response
with_body f (some (object body)) s = f body s
with_body f _ s = (s, none)

-- `_setup_routes`
unfoldable pub handle : {S : Type 0} → Services S → Request → S → S × Option Response
unfolding health acquire_lock release_lock lock_info all_locks queue_publish queue_consume queue_ack
    queue_info cache_read cache_write cache_invalidate cache_info with_body
handle v get_health s = (s, some (health v s))
handle v (post_acquire body) s = with_body (acquire_lock v) body s
handle v (post_release body) s = with_body (release_lock v) body s
handle v (get_lock resource_id) s = (s, some (lock_info v resource_id s))
handle v get_locks s = (s, some (all_locks v s))
handle v (post_publish body) s = with_body (queue_publish v) body s
handle v (post_consume body) s = with_body (queue_consume v) body s
handle v (post_ack body) s = with_body (queue_ack v) body s
handle v (get_queue queue_name) s = (s, some (queue_info v queue_name s))
handle v (get_key key) s = cache_read v key s
handle v (put_key key body) s = with_body (cache_write v key) body s
handle v (delete_key key) s = let (s', r) = cache_invalidate v key s in (s', some r)
handle v get_cache s = (s, some (cache_info v s))
