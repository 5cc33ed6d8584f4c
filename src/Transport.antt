-- ===== src/Transport.antt =====
-- src/communication/message_passing.py: the handlers of a `MessageTransport`, `send` and `broadcast`.
pub mod Rpc
mod Broadcast
mod Tests
use pynchronize.Prelude.{
  ℕ, Bool, true, false, Option, none, some, List, [], ◌∷◌, String, string_key, ◌==◌, eqb,
  if◌then◌else◌,
}
use pynchronize.Prelude.Dict
use pynchronize.Prelude.Dict.{Dict}
use pynchronize.Config.{NodeConfig}
use pynchronize.Json.{
  Json, Elements, Fields, null, boolean, number, text, array, object, no_elements, element,
  no_fields, field, find,
}
use pynchronize.Message.{MessageType, type_key, Message, to_dict, from_dict}

-- What a handler does: it answers, gives no answer, or raises an exception with a text.
pub data Handled : Type 0 where
  answered : Option Message → Handled
  raised : String → Handled

abbrev pub Handler : Type 0 → Type 0
Handler S = Message → S → S × Handled

-- A transport over the state that its handlers share; `session` tells whether it was started.
pub record MessageTransport (S : Type 0) : Type 0 where
  pub node_id : String
  pub host : String
  pub port : ℕ
  pub handlers : Dict MessageType (Handler S)
  pub session : Bool

pub record Response : Type 0 where
  pub status : ℕ
  pub body : Json

abbrev pub error : String → Json
error e = object (field "error" (text e) no_fields)

module _ {S : Type 0} where
  unfoldable pub register_handler :
      MessageType → Handler S → MessageTransport S → MessageTransport S
  register_handler t h transport = record transport {
    handlers = Dict.assign t h transport.handlers;
  }

  unfoldable pub respond : S × Handled → S × Response
  unfolding to_dict
  respond (s, answered (some m)) = (s, record { status = 200; body = to_dict m })
  respond (s, answered none) =
      (s, record { status = 200; body = object (field "status" (text "ok") no_fields) })
  respond (s, raised e) = (s, record { status = 500; body = error e })

  unfoldable pub dispatch : Option (Handler S) → Message → S → S × Response
  unfolding respond
  dispatch none m s = (s, record { status = 400; body = error "unknown message type" })
  dispatch (some h) m s = respond (h m s)

  -- `_handle_message`, for the body of a request, or none where it is not JSON; `error_text` is the text
  -- of the exception of a body that is no message
  unfoldable pub handle_message :
      (Option Json → String) → MessageTransport S → Option Json → S → S × Response
  unfolding from_dict dispatch
  handle_message error_text transport none s =
      (s, record { status = 500; body = error (error_text none) })
  handle_message error_text transport (some body) s = elim (from_dict body) [
    | none ↦ (s, record { status = 500; body = error (error_text (some body)) })
    | some m ↦ dispatch (Dict.get m.type transport.handlers) m s
  ]

-- What the HTTP client gives for a request: a status and a JSON body (none where its text is not JSON); a
-- status and a body that does not say it is JSON, where `response.json()` raises a `ContentTypeError`, which
-- is a `ClientError`; a timeout; or another error of the client.
pub data Reply : Type 0 where
  replied : ℕ → Option Json → Reply
  wrong_type : ℕ → Reply
  timed_out : Reply
  client_error : Reply

-- What `send` gives: a message or None, or it raises.
pub data Sent : Type 0 where
  got : Option Message → Sent
  failed : Sent

unfoldable pub has_text : String → Elements → Bool
has_text s no_elements = false
has_text s (element (text t) xs) = if t == s then true else has_text s xs
has_text s (element _ xs) = has_text s xs

unfoldable pub got_message : Option Message → Sent
got_message none = failed
got_message (some m) = got (some m)

-- `Message.from_dict(data)` where `"type" in data`; `substring` is Python's test of two texts
unfoldable pub read_reply : (String → String → Bool) → Json → Sent
unfolding got_message from_dict has_text find
read_reply substring (object fs) = elim (find "type" fs) [
  | none ↦ got none
  | some v ↦ got_message (from_dict (object fs))
]
read_reply substring (array xs) = if has_text "type" xs then failed else got none
read_reply substring (text s) = if substring "type" s then failed else got none
read_reply substring _ = failed

unfoldable pub read_response : (String → String → Bool) → Reply → Sent
unfolding read_reply
read_response substring (replied status none) = if eqb status 200 then failed else got none
read_response substring (replied status (some body)) =
    if eqb status 200 then read_reply substring body else got none
read_response substring (wrong_type status) = got none
read_response substring timed_out = got none
read_response substring client_error = got none

-- `send`; `post` is the HTTP client, by the host, the port and the body
unfoldable pub send :
    {S : Type 0}
    → (String → String → Bool)
    → (String → ℕ → Json → Reply)
    → MessageTransport S
    → String
    → ℕ
    → Message
    → Sent
unfolding read_response to_dict
send substring post transport host port m =
    if transport.session then read_response substring (post host port (to_dict m)) else got none

-- the tasks of `broadcast`, by the node; a later target with the same id takes the place of the earlier
unfoldable pub tasks_of :
    (NodeConfig → Sent) → List NodeConfig → Dict String Sent → Dict String Sent
tasks_of run [] tasks = tasks
tasks_of run (n ∷ ns) tasks = tasks_of run ns (Dict.assign n.node_id (run n) tasks)

abbrev pub result_of : Sent → Option Message
result_of (got o) = o
result_of failed = none

unfoldable pub results_of :
    Dict String Sent → Dict String (Option Message) → Dict String (Option Message)
results_of [] results = results
results_of ((id, task) ∷ tasks) results = results_of tasks (Dict.assign id (result_of task) results)

unfoldable pub broadcast :
    {S : Type 0}
    → (String → String → Bool)
    → (String → ℕ → Json → Reply)
    → MessageTransport S
    → List NodeConfig
    → Message
    → Dict String (Option Message)
unfolding tasks_of results_of send
broadcast substring post transport targets m =
    results_of (tasks_of (λ n. send substring post transport n.host n.port m) targets []) []
