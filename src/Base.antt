-- ===== src/Base.antt =====
-- src/nodes/base_node.py: the start of a `BaseNode` and its heartbeats. A tick of the clock is one
-- millisecond. The loops and the stop of the tasks are not modelled.
mod Heartbeats
mod Tests
use pynchronize.Prelude.{
  ℕ, Bool, true, false, Option, none, some, List, [], ◌∷◌, ◌++◌, String, string_key,
}
use pynchronize.Prelude.Dict
use pynchronize.Prelude.Dict.{Dict}
use pynchronize.Config.{NodeConfig, Cluster, get_other_nodes}
use pynchronize.Json.{Json, null, boolean, number, text, array, object, no_fields, field}
use pynchronize.Message.{Message, heartbeat, heartbeat_response}
use pynchronize.Transport
use pynchronize.Transport.{Handled, answered, raised, Handler, MessageTransport, Reply}
use pynchronize.Failure
use pynchronize.Failure.{FailureDetector, StatusChange}

-- What the handler of a heartbeat works on: the clock, the detector, and the calls of `on_status_change`.
pub record Watch : Type 0 where
  pub clock : ℕ
  pub failure_detector : FailureDetector
  pub calls : List StatusChange

pub record BaseNode : Type 0 where
  pub node_id : String
  pub cluster : Cluster
  pub transport : MessageTransport Watch
  pub watch : Watch

-- `__init__`; the detector has its default thresholds
unfoldable pub init : NodeConfig → Cluster → ℕ → ℕ → BaseNode
init node cluster heartbeat_interval now = record {
  node_id = node.node_id;
  cluster = cluster;
  transport = record {
    node_id = node.node_id;
    host = node.host;
    port = node.port;
    handlers = [];
    session = false;
  };
  watch = record {
    clock = now;
    failure_detector = record {
      node_id = node.node_id;
      heartbeat_interval = heartbeat_interval;
      suspect_threshold = 3;
      dead_threshold = 5;
      nodes = [];
    };
    calls = [];
  };
}

-- `failure_detector.record_heartbeat(message.sender_id)`; none where it raises: an array or an object
-- cannot be looked up in a dict
unfoldable pub beat : Json → Watch → Option Watch
beat (text id) w =
    let (d, calls) = Failure.record_heartbeat w.clock id w.failure_detector in
    some (record w { failure_detector = d; calls = w.calls ++ calls })
beat (array xs) w = none
beat (object fs) w = none
beat _ w = some w

abbrev pub response : String → Json → Message
response node_id term = record {
  type = heartbeat_response;
  sender_id = text node_id;
  term = term;
  payload = object (field "status" (text "alive") no_fields);
}

unfoldable pub handle_heartbeat : String → Handler Watch
unfolding beat
handle_heartbeat node_id m w = elim (beat m.sender_id w) [
  | none ↦ (w, raised "unhashable type")
  | some w' ↦ (w', answered (some (response node_id m.term)))
]

unfoldable pub register_handlers : BaseNode → BaseNode
register_handlers n = record n {
  transport = Transport.register_handler heartbeat (handle_heartbeat n.node_id) n.transport;
}

unfoldable pub register_nodes : ℕ → List NodeConfig → FailureDetector → FailureDetector
register_nodes now [] d = d
register_nodes now (n ∷ ns) d = register_nodes now ns (Failure.register_node now n.node_id d)

-- `start`, as far as it goes before the tasks: the transport, the nodes to watch, and the handlers
unfoldable pub start : BaseNode → BaseNode
unfolding register_handlers register_nodes
start n = register_handlers (record n {
  transport = record (n.transport) { session = true };
  watch = record (n.watch) {
    failure_detector =
        register_nodes n.watch.clock (get_other_nodes n.cluster n.node_id) n.watch.failure_detector;
  };
})

abbrev pub heartbeat_of : String → Message
heartbeat_of node_id = record {
  type = heartbeat;
  sender_id = text node_id;
  term = number 0;
  payload = object no_fields;
}

-- `_send_heartbeats`, with what `broadcast` gives
unfoldable pub send_heartbeats :
    (String → String → Bool) → (String → ℕ → Json → Reply) → BaseNode → Dict String (Option Message)
send_heartbeats substring post n =
    Transport.broadcast substring post n.transport (get_other_nodes n.cluster n.node_id)
      (heartbeat_of n.node_id)
