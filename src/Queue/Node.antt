-- ===== src/Queue/Node.antt =====
-- src/nodes/queue_node.py: the handlers of `QueueNode`, `consume`, and a round of the redelivery.
-- `now` is the reading of the clock in ticks.
use pynchronize.Prelude.{
  true, ℕ, Bool, false, ◌+◌, ◌-◌, Option, none, some, List, [], ◌∷◌, String, string_key, ◌==◌, ltb,
  if◌then◌else◌,
}
use pynchronize.Prelude.Dict
use pynchronize.Prelude.Dict.{Dict, has}
use pynchronize.Config.{NodeConfig, Cluster, get_node}
use pynchronize.Failure.{NodeStatus, alive, dead}
use pynchronize.Queue.Ring
use pynchronize.Queue.Ring.{ConsistentHash, Owner, nobody, owner, key_error}
use pynchronize.Queue.Store
use pynchronize.Queue.Store.{QueueMessage, MessageStore}

pub record QueueNode : Type 0 where
  pub node_id : String
  pub cluster : Cluster
  pub consistent_hash : ConsistentHash
  pub messages : MessageStore
  pub in_flight : Dict String ℕ
  pub ack_timeout : ℕ
  pub replication_factor : ℕ

-- What `consume` does: it gives messages of its own store, asks the responsible node, gives no
-- messages, or raises a KeyError.
pub data Consumption : Type 0 where
  delivered : List QueueMessage → Consumption
  asked : NodeConfig → Consumption
  failed : Consumption

abbrev pub or_one : Option ℕ → ℕ
or_one none = 1
or_one (some n) = n

abbrev pub asked_or_none : Option NodeConfig → Consumption
asked_or_none none = delivered []
asked_or_none (some n) = asked n

-- `_handle_publish`
unfoldable pub handle_publish : (String → String) → QueueMessage → QueueNode → QueueNode
handle_publish file_name m n =
    if has m.id n.messages.messages
    then n
    else record n { messages = Store.add file_name m n.messages }

-- one more attempt for a message that is in the store
unfoldable pub attempt : ℕ → QueueMessage → QueueMessage
attempt now m = record m { attempts = m.attempts + 1; last_attempt = now }

abbrev pub or_message : QueueMessage → Option QueueMessage → QueueMessage
or_message m none = m
or_message m (some m') = m'

-- the loop that marks the messages as delivered; an object that stands twice is marked twice
unfoldable pub mark_delivered : ℕ → List QueueMessage → QueueNode → QueueNode
unfolding attempt
mark_delivered now [] n = n
mark_delivered now (m ∷ ms) n = mark_delivered now ms (record n {
  messages = record n.messages {
    messages =
        Dict.assign m.id (attempt now (or_message m (Dict.get m.id n.messages.messages)))
          n.messages.messages;
  };
  in_flight = Dict.assign m.id now n.in_flight;
})

-- the messages as they are after the loop
unfoldable pub reread : List QueueMessage → QueueNode → List QueueMessage
reread [] n = []
reread (m ∷ ms) n = or_message m (Dict.get m.id n.messages.messages) ∷ reread ms n

-- the delivery of `consume` and of `_handle_consume`
unfoldable pub deliver : ℕ → String → ℕ → QueueNode → QueueNode × List QueueMessage
unfolding mark_delivered reread
deliver now queue_name limit n =
    let ms = Store.get_pending queue_name limit n.messages in
    let n' = mark_delivered now ms n in (n', reread ms n')

-- `consume`, by the node that is responsible for the queue
unfoldable pub consume_from : ℕ → String → ℕ → Owner → QueueNode → QueueNode × Consumption
unfolding deliver
consume_from now queue_name limit nobody n = (n, delivered [])
consume_from now queue_name limit key_error n = (n, failed)
consume_from now queue_name limit (owner id) n =
    if id == n.node_id
    then (let (n', ms) = deliver now queue_name limit n in (n', delivered ms))
    else (n, asked_or_none (get_node n.cluster id))

unfoldable pub consume : (String → ℕ) → ℕ → String → ℕ → QueueNode → QueueNode × Consumption
unfolding consume_from
consume hash now queue_name limit n =
    consume_from now queue_name limit (Ring.get_node hash queue_name n.consistent_hash) n

-- `_handle_consume`
unfoldable pub handle_consume : ℕ → String → Option ℕ → QueueNode → QueueNode × List QueueMessage
unfolding deliver
handle_consume now queue_name limit n = deliver now queue_name (or_one limit) n

-- `_handle_ack`
unfoldable pub handle_ack : (String → String) → String → QueueNode → QueueNode
handle_ack file_name id n = record n {
  messages = (Store.ack file_name id n.messages).0;
  in_flight = Dict.remove id n.in_flight;
}

-- one round of `_redelivery_loop`, over the items of `in_flight` as they were
unfoldable pub redeliver : (String → String) → ℕ → Dict String ℕ → QueueNode → QueueNode
redeliver file_name now [] n = n
redeliver file_name now ((id, start_time) ∷ items) n = redeliver file_name now items (
    if ltb n.ack_timeout (now - start_time)
    then record n {
      messages = Store.nack file_name now id n.messages;
      in_flight = Dict.remove id n.in_flight;
    }
    else n)

unfoldable pub redelivery_round : (String → String) → ℕ → QueueNode → QueueNode
unfolding redeliver
redelivery_round file_name now n = redeliver file_name now n.in_flight n

-- `_on_node_status_change`: the node, and whether `remove_node` did not raise
unfoldable pub status_change :
    (String → ℕ → ℕ) → String → NodeStatus → NodeStatus → QueueNode → QueueNode × Bool
status_change virtual_hash id old dead n =
    let (c, fine) = Ring.remove_node virtual_hash id n.consistent_hash in
    (record n { consistent_hash = c }, fine)
status_change virtual_hash id dead alive n =
    (record n { consistent_hash = Ring.add_node virtual_hash id n.consistent_hash }, true)
status_change virtual_hash id old new n = (n, true)

pub record QueueInfo : Type 0 where
  pub queue_name : String
  pub size : ℕ
  pub in_flight : ℕ

-- `self.store.get(mid) and self.store.get(mid).queue_name == queue_name`
abbrev pub is_of : String → Option QueueMessage → Bool
is_of queue_name none = false
is_of queue_name (some m) = m.queue_name == queue_name

unfoldable pub count_of : String → MessageStore → Dict String ℕ → ℕ
count_of queue_name s [] = 0
count_of queue_name s ((id, start_time) ∷ items) =
    let rest = count_of queue_name s items in
    if is_of queue_name (Dict.get id s.messages) then rest + 1 else rest

unfoldable pub get_queue_info : String → QueueNode → QueueInfo
unfolding count_of
get_queue_info queue_name n = record {
  queue_name = queue_name;
  size = Store.get_queue_size queue_name n.messages;
  in_flight = count_of queue_name n.messages n.in_flight;
}
