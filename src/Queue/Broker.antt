-- ===== src/Queue/Broker.antt =====
-- src/nodes/queue_node.py: `publish`, `ack` and a round of `_consumer_loop`. The messages to the other
-- nodes are given as the list of the nodes that they go to.
use pynchronize.Prelude.{
  ℕ, Bool, true, false, Option, none, some, List, [], ◌∷◌, String, string_key, ◌==◌, contains,
  length, min, if◌then◌else◌,
}
use pynchronize.Json.{Json}
use pynchronize.Prelude.Dict
use pynchronize.Prelude.Dict.{Dict, has}
use pynchronize.Config.{NodeConfig, Cluster, get_node}
use pynchronize.Queue.Ring
use pynchronize.Queue.Ring.{Replicas, chosen}
use pynchronize.Queue.Store
use pynchronize.Queue.Store.{QueueMessage}
use pynchronize.Queue.Node.{QueueNode, handle_ack}

-- the nodes of the cluster among the targets, without the node itself
unfoldable pub to_peers : String → Cluster → List String → List NodeConfig
to_peers node_id cluster [] = []
to_peers node_id cluster (target ∷ targets) =
    let rest = to_peers node_id cluster targets in
    if target == node_id
    then rest
    else elim (get_node cluster target) [ none ↦ rest | some p ↦ p ∷ rest ]

-- the nodes that are responsible for a message
unfoldable pub responsible : (String → ℕ) → String → QueueNode → Replicas
responsible hash id n =
    Ring.get_nodes_for_key hash id (min n.replication_factor (length n.consistent_hash.nodes))
      n.consistent_hash

-- `publish` behind the choice of the targets: the nodes that the message is sent to, or none where it
-- raised
unfoldable pub publish_to :
    (String → String) → QueueMessage → Replicas → QueueNode → QueueNode × Option (List NodeConfig)
unfolding to_peers
publish_to file_name m (chosen targets) n = (
  if contains n.node_id targets
      then record n { messages = Store.add file_name m n.messages }
      else n,
  some (to_peers n.node_id n.cluster targets),
)
publish_to file_name m _ n = (n, none)

-- `publish`, with the id of the message: the one that is given, or a new one
unfoldable pub publish :
    (String → ℕ)
    → (String → String)
    → ℕ
    → String
    → Json
    → String
    → QueueNode
    → QueueNode × Option (List NodeConfig)
unfolding publish_to responsible
publish hash file_name now queue_name payload id n =
    publish_to file_name
      (record {
        id = id;
        queue_name = queue_name;
        payload = payload;
        created_at = now;
        attempts = 0;
        last_attempt = 0;
        acked = false;
      })
      (responsible hash id n) n

-- `ack` behind the choice of the targets
unfoldable pub ack_at :
    (String → String) → String → Replicas → QueueNode → QueueNode × Option (List NodeConfig)
unfolding handle_ack to_peers
ack_at file_name id (chosen targets) n = (
  if contains n.node_id targets then handle_ack file_name id n else n,
  some (to_peers n.node_id n.cluster targets),
)
ack_at file_name id _ n = (n, none)

-- `ack`: False for a message that the node does not have, else True, and the nodes that are told; none
-- where it raised
unfoldable pub ack :
    (String → ℕ)
    → (String → String)
    → String
    → QueueNode
    → QueueNode × Option (Bool × List NodeConfig)
unfolding ack_at responsible
ack hash file_name id n =
    if has id n.messages.messages
    then (let (n', told) = ack_at file_name id (responsible hash id n) n in
        (n', elim told [ none ↦ none | some peers ↦ some (true, peers) ]))
    else (n, some (false, []))

-- The loop over the handlers of a queue for one message; a handler answers, or raises (none). An
-- exception of `ack` is caught as one of the handler.
unfoldable pub run_handlers :
    (String → ℕ)
    → (String → String)
    → List (QueueMessage → Option Bool)
    → QueueMessage
    → QueueNode
    → QueueNode
unfolding ack
run_handlers hash file_name [] m n = record n { in_flight = Dict.remove m.id n.in_flight }
run_handlers hash file_name (handler ∷ handlers) m n =
    let rest = run_handlers hash file_name handlers m n in
    elim (handler m) [
      | none ↦ rest
      | some success ↦
          if success
          then (let (n', answer) = ack hash file_name m.id n in
              elim answer [ none ↦ run_handlers hash file_name handlers m n' | some _ ↦ n' ])
          else rest
    ]

-- One message of `_consumer_loop`: a message in flight is passed over.
unfoldable pub consume_message :
    (String → ℕ)
    → (String → String)
    → ℕ
    → List (QueueMessage → Option Bool)
    → QueueMessage
    → QueueNode
    → QueueNode
unfolding run_handlers
consume_message hash file_name now handlers m n =
    if has m.id n.in_flight
    then n
    else run_handlers hash file_name handlers m
        (record n { in_flight = Dict.assign m.id now n.in_flight })

unfoldable pub consume_messages :
    (String → ℕ)
    → (String → String)
    → ℕ
    → List (QueueMessage → Option Bool)
    → List QueueMessage
    → QueueNode
    → QueueNode
unfolding consume_message
consume_messages hash file_name now handlers [] n = n
consume_messages hash file_name now handlers (m ∷ ms) n =
    consume_messages hash file_name now handlers ms
      (consume_message hash file_name now handlers m n)

-- `_consumer_loop` for one queue with handlers, where nothing else runs between the messages
unfoldable pub consumer_round :
    (String → ℕ)
    → (String → String)
    → ℕ
    → String
    → List (QueueMessage → Option Bool)
    → QueueNode
    → QueueNode
unfolding consume_messages
consumer_round hash file_name now queue_name handlers n =
    consume_messages hash file_name now handlers (Store.get_pending queue_name 10 n.messages) n
