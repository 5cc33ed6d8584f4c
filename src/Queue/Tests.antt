-- ===== src/Queue/Tests.antt =====
-- The ring and the message store at small inputs.
use pynchronize.Prelude.{
  ℕ, ◌+◌, ◌*◌, ◌++◌, List, none, some, arith, Bool-cases, inl, inr, ◌≡◌, refl, ◌⊎◌, Bool, true,
  false, [], ◌∷◌, String, string_key, nat_key, ◌==◌, if◌then◌else◌, contains, insert, length, take,
  discard, max,
}
use pynchronize.Json.{Json, number, find}
use pynchronize.Prelude.Dict
use pynchronize.Queue.Ring.{
  ConsistentHash, insort, bisect_left, add_point, add_points, add_node, add_nodes, new_ring, owner,
  nobody, get_node, find_owner, look_up, owner_of, chosen, node_at, collect, collect_from,
  get_nodes_for_key,
}
use pynchronize.Queue.Walk.{Chosen}
use pynchronize.Queue.Cover.{NoCollision, get_nodes_for_key-new_ring}
use pynchronize.Queue.Node.{QueueNode, handle_ack, redeliver, redelivery_round}
use pynchronize.Queue.Broker.{responsible, publish, publish_to, to_peers}
use pynchronize.Queue.Publish.{message_of, unacked-publish}
use pynchronize.Queue.Redelivery.{redelivery_round-lem}
use pynchronize.Queue.Reload.{pending_of, IsQueue, save_queue-load_messages}
use pynchronize.Queue.Routing.{get_node-add_node, get_node-member}
use pynchronize.Queue.Store.{
  load, load_messages, messages_in, elements_in, file_of, bodies_of, to_dict, from_dict, has_only,
  message_with, text_in, number_or, boolean_or, QueueMessage, MessageStore, queue_of, add, ack,
  ack_found, save_queue, known, if_pending, pending_from, get_pending, get_queue_size,
  count_pending, add_known, load_message, load_messages, nack, nack_found,
}
use pynchronize.Queue.Delivery.{unacked, get_pending-take, unacked-ack}

queue : Unit {0}
unfolding node_at collect collect_from get_nodes_for_key responsible to_peers load_message publish
    publish_to handle_ack redeliver redelivery_round nack nack_found pending_of insort bisect_left
    add_point add_points add_node add_nodes new_ring get_node find_owner look_up owner_of contains
    insert discard Dict.get Dict.assign add ack ack_found save_queue known add_known if_pending
    pending_from get_pending get_queue_size count_pending unacked
queue = tt

abbrev hash : String → ℕ
hash key = if key == "jobs" then 5 else 15

abbrev virtual_hash : String → ℕ → ℕ
virtual_hash node i = i * 10 + (if node == "node1" then 3 else 7)

abbrev one : ConsistentHash
one = new_ring virtual_hash ("node1" ∷ []) 2

-- the points are 3 and 13 of the first node and 7 and 17 of the second
get_node-jobs : get_node hash "jobs" (add_node virtual_hash "node2" one) ≡ owner "node2"
unfolding queue
get_node-jobs = refl

get_node-add_node_example :
    (get_node hash "jobs" (add_node virtual_hash "node2" one) ≡ get_node hash "jobs" one)
    ⊎ (get_node hash "jobs" (add_node virtual_hash "node2" one) ≡ owner "node2")
get_node-add_node_example = get_node-add_node hash virtual_hash "jobs" "node2" one

get_node-member_example :
    let c = add_nodes virtual_hash ("node2" ∷ []) one in
    (get_node hash "jobs" c ≡ nobody)
    ⊎ ((n : String) × (get_node hash "jobs" c ≡ owner n) × (contains n c.nodes ≡ true))
get_node-member_example = get_node-member hash virtual_hash ("node1" ∷ []) ("node2" ∷ []) 2 "jobs"

abbrev message : String → Bool → QueueMessage
message id acked = record {
  id = id;
  queue_name = "jobs";
  payload = number 0;
  created_at = 0;
  attempts = 0;
  last_attempt = 0;
  acked = acked;
}

abbrev empty : MessageStore
empty = record { messages = []; queues = []; files = [] }

abbrev file_name : String → String
file_name q = q

abbrev three : MessageStore
three =
    add file_name (message "c" false)
      (add file_name (message "b" true) (add file_name (message "a" false) empty))

get_pending-three : get_pending "jobs" 10 three ≡ message "a" false ∷ message "c" false ∷ []
unfolding queue
get_pending-three = refl

-- a limit of 0 still gives a message
get_pending-zero : get_pending "jobs" 0 three ≡ message "a" false ∷ []
unfolding queue
get_pending-zero = refl

get_pending-take_example :
    (get_pending "jobs" 1 three ≡ take (max 1 1) (unacked three.messages (queue_of "jobs" three)))
    × (get_queue_size "jobs" three ≡ length (unacked three.messages (queue_of "jobs" three)))
get_pending-take_example = get_pending-take "jobs" 1 three

unacked-ack_example :
    let (s, found) = ack file_name "a" three in
    (found ≡ true)
    × (unacked s.messages (queue_of "jobs" s)
        ≡ unacked three.messages (discard "a" (queue_of "jobs" three)))
unfolding queue
unacked-ack_example = unacked-ack file_name "a" "jobs" three

-- the virtual nodes of `node1` have the hashes 3, 13, ..., those of every other node 7, 17, ...
NoCollision-virtual_hash : NoCollision virtual_hash 2 ("node1" ∷ "node2" ∷ [])
unfolding contains
NoCollision-virtual_hash a b h k i j lt lt' e = ground (
  arith,
  h,
  k,
  e,
  string_key.same_iff "node1" a,
  string_key.same_iff "node2" a,
  string_key.same_iff "node1" b,
  string_key.same_iff "node2" b,
  string_key.same_iff a "node1",
  string_key.same_iff b "node1",
)

get_nodes_for_key_example :
    Chosen
      (new_ring virtual_hash ("node1" ∷ "node2" ∷ []) 2)
      2
      (get_nodes_for_key hash "jobs" 2 (new_ring virtual_hash ("node1" ∷ "node2" ∷ []) 2))
get_nodes_for_key_example =
    get_nodes_for_key-new_ring hash virtual_hash ("node1" ∷ "node2" ∷ []) 2 2 "jobs" (omega arith)
      NoCollision-virtual_hash

get_nodes_for_key-jobs :
    get_nodes_for_key hash "jobs" 2 (new_ring virtual_hash ("node1" ∷ "node2" ∷ []) 2)
    ≡ chosen ("node2" ∷ "node1" ∷ [])
unfolding queue
get_nodes_for_key-jobs = refl

abbrev node : QueueNode
node = record {
  node_id = "node1";
  cluster = [];
  consistent_hash = new_ring virtual_hash ("node1" ∷ "node2" ∷ []) 2;
  messages = three;
  in_flight = ("a", 10) ∷ ("c", 95) ∷ [];
  ack_timeout = 30;
  replication_factor = 2;
}

three-new : (q : String) → contains "d" (queue_of q three) ≡ false
unfolding queue
three-new q = elim (Bool-cases ("jobs" == q)) [ inl hit ↦ rw hit refl | inr miss ↦ rw miss refl ]

unacked-publish_example :
    let n = (publish hash file_name 100 "jobs" (number 7) "d" node).0 in
    unacked n.messages.messages (queue_of "jobs" n.messages)
    ≡ unacked three.messages (queue_of "jobs" three) ++ message_of 100 "jobs" (number 7) "d" ∷ []
unfolding queue
unacked-publish_example =
    unacked-publish hash file_name 100 "jobs" (number 7) "d" node ("node2" ∷ "node1" ∷ []) refl refl
      three-new "jobs"

three-known :
    (id : String) (m : QueueMessage)
    → contains id ("a" ∷ "b" ∷ "c" ∷ []) ≡ true
    → Dict.get id three.messages ≡ some m
    → (m.id ≡ id) × (m.queue_name ≡ "jobs")
unfolding queue
three-known id m k e = ground (
  arith,
  k,
  e,
  string_key.same_iff "a" id,
  string_key.same_iff "b" id,
  string_key.same_iff "c" id,
)

three-IsQueue : IsQueue "jobs" three
unfolding queue IsQueue
three-IsQueue = ((refl, (refl, (refl, tt))), three-known)

-- "a" waits for 90 ticks, "c" for 5
redelivery_round_example : Dict.get "a" (redelivery_round file_name 100 node).in_flight ≡ none
unfolding Dict.get contains
redelivery_round_example = redelivery_round-lem file_name 100 node "a" (refl, (refl, tt))

save_queue-load_messages_example :
    (body : Json) × (Dict.get "jobs" (save_queue file_name "jobs" three).files ≡ some body)
    × (let t = load 50 (("jobs", body) ∷ []) empty in
        unacked t.messages (queue_of "jobs" t) ≡ unacked three.messages (queue_of "jobs" three))
unfolding Dict.get
save_queue-load_messages_example =
    save_queue-load_messages file_name 50 "jobs" three empty three-IsQueue refl

-- One id in two queues: the message is stored once, with the second queue's name, and the first queue's file
-- is loaded into the second queue.
abbrev twice : MessageStore
twice =
    add file_name (record (message "a" false) { queue_name = "other" })
      (add file_name (message "a" false) empty)

load-twice :
    elim (Dict.get "jobs" (save_queue file_name "jobs" twice).files) as (λ o. List QueueMessage) [
      | none ↦ []
      | some body ↦
          let t = load 50 (("jobs", body) ∷ []) empty in unacked t.messages (queue_of "jobs" t)
    ]
    ≡ []
unfolding queue load load_messages messages_in elements_in file_of bodies_of to_dict from_dict
    has_only message_with text_in number_or boolean_or find load_message
load-twice = refl
