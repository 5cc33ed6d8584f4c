-- ===== src/Lib.antt =====
-- pynchronize: a lock manager, a Raft consensus, a cache and a message queue for a small cluster of nodes
-- (`src/`, Python with asyncio). A lock manager proposes its commands to Raft, which applies them on every
-- node in the order of the log; the cache nodes keep their copies coherent by messages; the queue nodes
-- share their queues by a ring of hashes, from which the failure detector takes the dead nodes.
--
-- The parts and their files:
-- Prelude        what the parts share: Boolean tests on the numbers, lists, sets as lists (Keys), Python's
--                `dict` as an association list in the order of insertion (Dict), and majorities (Count)
-- Deadlock       `DeadlockDetector` of src/nodes/lock_manager.py; Cycles, Fuel and Detects are about the search,
--                Edges is about the graph
-- Lock           the rest of the replicated state of src/nodes/lock_manager.py: `_apply_command`,
--                `_apply_acquire`, `_apply_release`, `_process_waiting`. Safety has the invariants, Answers what
--                the commands answer, HandOver what a release does with those who wait; Client has `acquire_lock`
--                and `release_lock`, Forward the forwarding to the leader and the leader's handlers
-- Config         the nodes of a cluster, src/utils/config.py
-- Raft           `RaftNode` of src/consensus/raft.py: Node has the state, the file and the step-down, Votes
--                the elections, Entries `_handle_append_entries`, Leader the sending of entries, the commits and
--                `propose`. Steps says what the operations leave unchanged, Cluster composes nodes and messages
--                to a cluster, Election is about its elections. Matching is about the logs: System composes the
--                nodes once more, with the messages of the leaders, Lists, Store, Nodes, Records, Owners and
--                Local are its lemmas, Invariant has the invariant
-- Failure        `FailureDetector` of src/communication/failure_detector.py; Checks is about its statuses, Heard about
--                the time at which a node was last heard of
-- Accrual        `PhiAccrualFailureDetector` of the same file; Samples is about its histories, Checks about its
--                statuses
-- Cache          src/nodes/cache_node.py: Lru has `LRUCache` and `MESIProtocol`, Node the operations and the
--                handlers of `CacheNode`, Reports its reports; Bounds and Coherence are about them
-- Queue          src/nodes/queue_node.py: Ring has `ConsistentHash`, Store has `MessageStore`, Node the handlers of
--                `QueueNode`, Broker its `publish`, `ack` and consumers. Routing, Walk and Cover are about the ring,
--                Delivery and Reload about the store, Publish and Redelivery about the node
-- Json, Message  JSON values, and the messages of src/communication/message_passing.py
-- Transport      `MessageTransport` of the same file; Rpc and Broadcast are about what a sender gets back
-- Base           src/nodes/base_node.py; Heartbeats is about two nodes that were started
-- Api            the routes of src/main.py, over an interface of the methods of the three nodes; Refusals is about
--                the requests that lack a field
-- Each part has its runs on small inputs in a module Tests.
--
-- How the code is read. A method becomes a function from the state to the state and the answer. Where a
-- method waits for the network it is split there: the part before gives the messages, the part after
-- takes the answers, and in the cluster of Raft other steps may come between them. Times are natural
-- numbers, whole ticks of a clock that is an argument. A set is a list without double entries, and where
-- Python visits a set in an order of its own, the theorems hold for whatever order the list has. Commands
-- of Raft and values of the cache are of any type. Metrics and logs are left out: nothing reads them. Keys
-- that a message of the program always has are fields. A lost file is not modelled: what was saved last is
-- what is loaded. A file of a queue is the JSON value that was written to it.
--
-- Bounds and fuel. Numbers are unbounded, as in Python. The search of the deadlock detector has fuel,
-- `depth_bound`: the keys of the graph and three more, since the path of a search has no node twice and
-- all its nodes but the first and the last are keys.
--
-- In the cluster of Raft a candidate counts what the other nodes of the cluster answered to its request,
-- each an answer that this node gave to a request of this candidate in this term; messages may be lost,
-- doubled and late, and a node may stop and start again from its file at any moment.
--
-- The loop of `get_nodes_for_key` has a round for each point of the ring and one more as fuel: in one turn it
-- meets every node, unless another node has taken all the hashes of one; its theorem asks that no two
-- nodes have a virtual node with one hash, among those that the ring has.
--
-- In the cluster of Matching a leader sends, at any moment, the append-entries message that its log gives for
-- any next index, and any node may get any message that was ever sent.
--
-- Parameters: md5 (the hash of a key, the hash of a virtual key, the name of a file) is any function; so are the
-- HTTP client of a transport, the text of an exception, Python's test for a part of a text, and the score
-- of the phi accrual detector, which it takes in floating point.
--
-- Not modelled: the tasks and timers of asyncio, the reading and writing of JSON texts, the HTTP server, the
-- stop of the nodes and of the process, src/utils/metrics.py (nothing reads what it counts) and the settings
-- from environment variables.
pub mod Prelude
pub mod Deadlock
pub mod Lock
pub mod Config
pub mod Raft
pub mod Cache
pub mod Failure
pub mod Accrual
pub mod Queue
pub mod Json
pub mod Message
pub mod Transport
pub mod Base
pub mod Api
