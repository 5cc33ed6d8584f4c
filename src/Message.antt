-- ===== src/Message.antt =====
-- src/communication/message_passing.py: `MessageType` and `Message`. A JSON text is given as the value
-- that it reads as.
use pynchronize.Prelude.{
  true, Option, none, some, List, [], ◌∷◌, String, string_key, Key, ◌==◌, ◌≡◌, refl, if◌then◌else◌,
  subst, ap, same→eq, same_refl,
}
use pynchronize.Json.{Json, text, object, no_fields, field, find}

pub data MessageType : Type 0 where
  request_vote request_vote_response append_entries append_entries_response lock_request
        lock_response lock_release queue_publish queue_consume queue_ack cache_read cache_write
        cache_invalidate cache_response heartbeat heartbeat_response :
      MessageType

-- `MessageType.value`
unfoldable pub type_value : MessageType → String
type_value request_vote = "request_vote"
type_value request_vote_response = "request_vote_response"
type_value append_entries = "append_entries"
type_value append_entries_response = "append_entries_response"
type_value lock_request = "lock_request"
type_value lock_response = "lock_response"
type_value lock_release = "lock_release"
type_value queue_publish = "queue_publish"
type_value queue_consume = "queue_consume"
type_value queue_ack = "queue_ack"
type_value cache_read = "cache_read"
type_value cache_write = "cache_write"
type_value cache_invalidate = "cache_invalidate"
type_value cache_response = "cache_response"
type_value heartbeat = "heartbeat"
type_value heartbeat_response = "heartbeat_response"

abbrev pub all_types : List MessageType
all_types =
    request_vote ∷ request_vote_response ∷ append_entries ∷ append_entries_response ∷ lock_request
    ∷ lock_response ∷ lock_release ∷ queue_publish ∷ queue_consume ∷ queue_ack ∷ cache_read
    ∷ cache_write ∷ cache_invalidate ∷ cache_response ∷ heartbeat ∷ heartbeat_response ∷ []

-- the member of an enumeration with a value
unfoldable pub find_type : String → List MessageType → Option MessageType
unfolding type_value
find_type v [] = none
find_type v (t ∷ ts) = let rest = find_type v ts in if type_value t == v then some t else rest

-- `MessageType(value)`; none where it raises
unfoldable pub of_value : String → Option MessageType
unfolding find_type
of_value v = find_type v all_types

pub of_value-type_value : (t : MessageType) → of_value (type_value t) ≡ some t
unfolding of_value
of_value-type_value request_vote = refl
of_value-type_value request_vote_response = refl
of_value-type_value append_entries = refl
of_value-type_value append_entries_response = refl
of_value-type_value lock_request = refl
of_value-type_value lock_response = refl
of_value-type_value lock_release = refl
of_value-type_value queue_publish = refl
of_value-type_value queue_consume = refl
of_value-type_value queue_ack = refl
of_value-type_value cache_read = refl
of_value-type_value cache_write = refl
of_value-type_value cache_invalidate = refl
of_value-type_value cache_response = refl
of_value-type_value heartbeat = refl
of_value-type_value heartbeat_response = refl

pub type_value-injective : (t u : MessageType) → type_value t ≡ type_value u → t ≡ u
type_value-injective t u e = cc (of_value-type_value t, of_value-type_value u, ap of_value e)

instance abbrev pub type_key : Key MessageType
unfolding type_value
type_key = record {
  same = λ t u. type_value t == type_value u;
  same_iff = λ t u. (
    λ e. type_value-injective t u (same→eq (type_value t) (type_value u) e),
    λ e. subst (λ x. (type_value t == type_value x) ≡ true) e (same_refl (type_value t)),
  );
}

-- `from_dict` checks the type only, so that the other fields may have any value.
pub record Message : Type 0 where
  pub type : MessageType
  pub sender_id : Json
  pub term : Json
  pub payload : Json

unfoldable pub to_dict : Message → Json
unfolding type_value
to_dict m = object (
    field "type" (text (type_value m.type))
      (field "sender_id" m.sender_id (field "term" m.term (field "payload" m.payload no_fields))))

-- `MessageType(data["type"])`
unfoldable pub type_of : Option Json → Option MessageType
unfolding of_value
type_of (some (text v)) = of_value v
type_of _ = none

unfoldable pub message_of :
    Option MessageType → Option Json → Option Json → Option Json → Option Message
message_of (some t) (some sender_id) (some term) (some payload) =
    some (record { type = t; sender_id = sender_id; term = term; payload = payload })
message_of _ _ _ _ = none

-- `from_dict`; none where it raises
unfoldable pub from_dict : Json → Option Message
unfolding type_of message_of find
from_dict (object fs) =
    message_of (type_of (find "type" fs)) (find "sender_id" fs) (find "term" fs) (find "payload" fs)
from_dict _ = none

-- A message that was written with `to_dict` is read back by `from_dict` as it was.
pub from_dict-to_dict : (m : Message) → from_dict (to_dict m) ≡ some m
unfolding from_dict to_dict type_of message_of find
from_dict-to_dict m = rw (of_value-type_value m.type) refl
