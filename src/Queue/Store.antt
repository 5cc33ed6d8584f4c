-- ===== src/Queue/Store.antt =====
-- src/nodes/queue_node.py: `QueueMessage` and `MessageStore`. The file of a queue is the JSON value that was
-- last written to it; `file_name` is the md5 of the name of the queue. A missing queue is an empty one.
use pynchronize.Prelude.{
  contains, ◌&&◌, ℕ, suc, ◌+◌, Bool, true, false, Option, none, some, List, [], ◌∷◌, ◌++◌, String,
  string_key, leb, if◌then◌else◌,
}
use pynchronize.Json.{
  Json, Elements, Fields, boolean, number, text, array, object, no_elements, element, no_fields,
  field, find,
}
use pynchronize.Prelude.Dict
use pynchronize.Prelude.Dict.{Dict}

pub record QueueMessage : Type 0 where
  pub id : String
  pub queue_name : String
  pub payload : Json
  pub created_at : ℕ
  pub attempts : ℕ
  pub last_attempt : ℕ
  pub acked : Bool

unfoldable pub to_dict : QueueMessage → Json
to_dict m = object (
    field "id" (text m.id) (
      field "queue_name" (text m.queue_name) (
        field "payload" m.payload (
          field "created_at" (number m.created_at) (
            field "attempts" (number m.attempts) (
              field "last_attempt" (number m.last_attempt)
                (field "acked" (boolean m.acked) no_fields)))))))

-- the parameters of `QueueMessage(…)`
abbrev pub parameters : List String
parameters =
    "id" ∷ "queue_name" ∷ "payload" ∷ "created_at" ∷ "attempts" ∷ "last_attempt" ∷ "acked" ∷ []

-- whether all names of an object are parameters
unfoldable pub has_only : List String → Fields → Bool
has_only names no_fields = true
has_only names (field n v fs) = contains n names && has_only names fs

unfoldable pub text_in : Option Json → Option String
text_in (some (text s)) = some s
text_in _ = none

unfoldable pub number_or : ℕ → Option Json → Option ℕ
number_or default none = some default
number_or default (some (number n)) = some n
number_or default _ = none

unfoldable pub boolean_or : Bool → Option Json → Option Bool
boolean_or default none = some default
boolean_or default (some (boolean b)) = some b
boolean_or default _ = none

unfoldable pub message_with :
    Option String
    → Option String
    → Option Json
    → Option ℕ
    → Option ℕ
    → Option ℕ
    → Option Bool
    → Option QueueMessage
message_with (some id) (some queue_name) (some payload) (some created_at) (some attempts)
      (some last_attempt) (some acked) =
    some (record {
      id = id;
      queue_name = queue_name;
      payload = payload;
      created_at = created_at;
      attempts = attempts;
      last_attempt = last_attempt;
      acked = acked;
    })
message_with _ _ _ _ _ _ _ = none

-- `from_dict`, at the time `now`; none where it raises. A value of another type than its field's, which the
-- program writes nowhere, counts as one that raises.
unfoldable pub from_dict : ℕ → Json → Option QueueMessage
unfolding has_only message_with text_in number_or boolean_or find
from_dict now (object fs) =
    if has_only parameters fs
    then message_with (text_in (find "id" fs)) (text_in (find "queue_name" fs)) (find "payload" fs)
        (number_or now (find "created_at" fs)) (number_or 0 (find "attempts" fs))
        (number_or 0 (find "last_attempt" fs)) (boolean_or false (find "acked" fs))
    else none
from_dict now _ = none

unfoldable pub bodies_of : List QueueMessage → Elements
unfolding to_dict
bodies_of [] = no_elements
bodies_of (m ∷ ms) = element (to_dict m) (bodies_of ms)

-- `{"messages": messages}`
unfoldable pub file_of : List QueueMessage → Json
unfolding bodies_of
file_of ms = object (field "messages" (array (bodies_of ms)) no_fields)

unfoldable pub elements_in : Option Json → Elements
elements_in (some (array bodies)) = bodies
elements_in _ = no_elements

-- `data.get("messages", [])`. Where there is no list, nothing is loaded: the loop has no rounds, or it or
-- its first round raises.
unfoldable pub messages_in : Json → Elements
unfolding elements_in find
messages_in (object fs) = elements_in (find "messages" fs)
messages_in _ = no_elements

pub record MessageStore : Type 0 where
  pub messages : Dict String QueueMessage
  pub queues : Dict String (List String)
  pub files : Dict String Json

abbrev pub or_nil {ℓ} : {A : Type ℓ} → Option (List A) → List A
or_nil none = []
or_nil (some xs) = xs

abbrev pub queue_of : String → MessageStore → List String
queue_of queue_name s = or_nil (Dict.get queue_name s.queues)

-- `if not msg.acked: self.queues[msg.queue_name].append(msg.id)`
unfoldable pub load_message : QueueMessage → MessageStore → MessageStore
load_message m s = record s {
  messages = Dict.assign m.id m s.messages;
  queues =
      if m.acked
      then s.queues
      else Dict.assign m.queue_name (queue_of m.queue_name s ++ m.id ∷ []) s.queues;
}

-- the loop over the messages of a file, which ends where `from_dict` raises
unfoldable pub load_messages : ℕ → Elements → MessageStore → MessageStore
unfolding load_message from_dict
load_messages now no_elements s = s
load_messages now (element body bodies) s = elim (from_dict now body) [
  | none ↦ s
  | some m ↦ load_messages now bodies (load_message m s)
]

-- `_load`, over the files in the order of the directory
unfoldable pub load : ℕ → Dict String Json → MessageStore → MessageStore
unfolding load_messages messages_in
load now [] s = s
load now ((file, body) ∷ rest) s = load now rest (load_messages now (messages_in body) s)

unfoldable pub add_known : Option QueueMessage → List QueueMessage → List QueueMessage
add_known none rest = rest
add_known (some m) rest = m ∷ rest

-- the messages of the ids that the store knows
unfoldable pub known : List String → Dict String QueueMessage → List QueueMessage
unfolding add_known
known [] d = []
known (id ∷ ids) d = add_known (Dict.get id d) (known ids d)

-- `_save_queue`
unfoldable pub save_queue : (String → String) → String → MessageStore → MessageStore
unfolding known file_of
save_queue file_name queue_name s = record s {
  files =
      Dict.assign (file_name queue_name) (file_of (known (queue_of queue_name s) s.messages))
        s.files;
}

unfoldable pub add : (String → String) → QueueMessage → MessageStore → MessageStore
unfolding save_queue
add file_name m s = save_queue file_name m.queue_name (record s {
  messages = Dict.assign m.id m s.messages;
  queues = Dict.assign m.queue_name (queue_of m.queue_name s ++ m.id ∷ []) s.queues;
})

-- `msg and not msg.acked`
unfoldable pub if_pending : Option QueueMessage → Option QueueMessage
if_pending none = none
if_pending (some m) = if m.acked then none else some m

-- the loop of `get_pending`, where `n` messages have been taken
unfoldable pub pending_from : Dict String QueueMessage → ℕ → ℕ → List String → List QueueMessage
unfolding if_pending
pending_from d limit n [] = []
pending_from d limit n (id ∷ ids) = elim (if_pending (Dict.get id d)) [
  | none ↦ pending_from d limit n ids
  | some m ↦ m ∷ (if leb limit (suc n) then [] else pending_from d limit (suc n) ids)
]

unfoldable pub get_pending : String → ℕ → MessageStore → List QueueMessage
get_pending queue_name limit s = pending_from s.messages limit 0 (queue_of queue_name s)

unfoldable pub count_pending : Dict String QueueMessage → List String → ℕ
unfolding if_pending
count_pending d [] = 0
count_pending d (id ∷ ids) = elim (if_pending (Dict.get id d)) [
  | none ↦ count_pending d ids
  | some m ↦ suc (count_pending d ids)
]

unfoldable pub get_queue_size : String → MessageStore → ℕ
get_queue_size queue_name s = count_pending s.messages (queue_of queue_name s)

unfoldable pub ack_found :
    (String → String) → String → Option QueueMessage → MessageStore → MessageStore × Bool
unfolding save_queue
ack_found file_name id none s = (s, false)
ack_found file_name id (some m) s = (
  save_queue file_name m.queue_name
      (record s { messages = Dict.assign id (record m { acked = true }) s.messages }),
  true,
)

unfoldable pub ack : (String → String) → String → MessageStore → MessageStore × Bool
unfolding ack_found
ack file_name id s = ack_found file_name id (Dict.get id s.messages) s

unfoldable pub nack_found :
    (String → String) → ℕ → String → Option QueueMessage → MessageStore → MessageStore
unfolding save_queue
nack_found file_name now id none s = s
nack_found file_name now id (some m) s = save_queue file_name m.queue_name (record s {
  messages = Dict.assign id (record m { attempts = m.attempts + 1; last_attempt = now }) s.messages;
})

unfoldable pub nack : (String → String) → ℕ → String → MessageStore → MessageStore
unfolding nack_found
nack file_name now id s = nack_found file_name now id (Dict.get id s.messages) s
