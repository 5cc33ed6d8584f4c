-- ===== src/Transport/Tests.antt =====
-- Two transports with a handler that counts the messages it gets.
use pynchronize.Prelude.{
  ℕ, suc, ◌≡◌, ◌≢◌, refl, ◌⊎◌, Bool, true, Option, some, [], ◌∷◌, String, string_key, ◌==◌,
  if◌then◌else◌,
}
use pynchronize.Prelude.Dict
use pynchronize.Config.{NodeConfig}
use pynchronize.Json.{Json, text, number, object, no_fields, find}
use pynchronize.Message.{
  Message, to_dict, from_dict, from_dict-to_dict, type_key, type_value, type_of, message_of,
  of_value, find_type, heartbeat, queue_ack,
}
use pynchronize.Transport.{
  answered, Handler, MessageTransport, handle_message, dispatch, respond, register_handler, Reply,
  timed_out, got, send, broadcast, tasks_of, results_of, read_response, read_reply, got_message,
}
use pynchronize.Transport.Rpc.{connected, Handles, handle_message-cases, send-handle_message}
use pynchronize.Transport.Broadcast.{last_with, get-broadcast}

transport : Unit {0}
unfolding to_dict from_dict type_value type_of message_of of_value find_type find handle_message
    dispatch respond register_handler send broadcast tasks_of results_of read_response read_reply
    got_message Dict.get Dict.assign last_with
transport = tt

abbrev count : Handler ℕ
count m n = (suc n, answered (some m))

abbrev idle : MessageTransport ℕ
idle = record { node_id = "b"; host = "h"; port = 1; handlers = []; session = true }

abbrev counting : MessageTransport ℕ
counting = record {
  node_id = "b";
  host = "h";
  port = 1;
  handlers = (heartbeat, count) ∷ [];
  session = true;
}

abbrev message : Message
message = record {
  type = heartbeat;
  sender_id = text "a";
  term = number 3;
  payload = object no_fields;
}

abbrev error_text : Option Json → String
error_text body = "no message"

abbrev substring : String → String → Bool
substring s t = s == t

from_dict-to_dict_example : from_dict (to_dict message) ≡ some message
from_dict-to_dict_example = from_dict-to_dict message

handle_message-unknown :
    (handle_message error_text counting
      (some (to_dict (record message { type = queue_ack })))
      5).1.status
    ≡ 400
unfolding transport
handle_message-unknown = refl

handle_message-cases_example :
    let r = handle_message error_text counting (some (to_dict message)) 5 in
    ((r.0 ≡ 5) × (r.1.status ≢ 200))
    ⊎ ((b : Json) × (m : Message) × (some (to_dict message) ≡ some b)
        × (from_dict b ≡ some m)
        × Handles counting m 5 r)
handle_message-cases_example = handle_message-cases error_text counting (some (to_dict message)) 5

send-handle_message_example :
    send substring (connected error_text counting 5) idle "h" 1 message ≡ got (some message)
unfolding transport
send-handle_message_example =
    send-handle_message substring error_text idle counting 5 "h" 1 message refl

abbrev peer : String → String → NodeConfig
peer id host = record { node_id = id; host = host; port = 1 }

-- only the host "h" answers
abbrev post : String → ℕ → Json → Reply
post host port body =
    if host == "h" then connected error_text counting 5 host port body else timed_out

get-broadcast_example :
    Dict.get "b" (broadcast substring post idle (peer "b" "h" ∷ peer "c" "x" ∷ []) message)
    ≡ some (some message)
unfolding transport
get-broadcast_example =
    get-broadcast substring post idle (peer "b" "h" ∷ peer "c" "x" ∷ []) message "b"
