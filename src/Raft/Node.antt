-- ===== src/Raft/Node.antt =====
-- src/consensus/raft.py: the state of a Raft node, its file, and the helpers of the handlers. The calls
-- of the metrics and of the logger are left out; `command_handler` and the callbacks are set, as the
-- lock manager sets them, and a write of the file succeeds.
use pynchronize.Prelude.{
  ℕ, zero, suc, ◌+◌, ◌-◌, ◌/◌, Bool, true, false, Option, none, some, List, [], ◌∷◌, ◌++◌, String,
  string_key, ltb, if◌then◌else◌, length, get_elem?, last?,
}
use pynchronize.Prelude.Dict.{Dict}
use pynchronize.Config.{Cluster}

pub data RaftState : Type 0 where
  follower candidate leader : RaftState

-- `command` is any JSON object.
pub record LogEntry (C : Type 0) : Type 0 where
  pub term : ℕ
  pub index : ℕ
  pub command : C

pub record PersistentState (C : Type 0) : Type 0 where
  pub current_term : ℕ
  pub voted_for : Option String
  pub log : List (LogEntry C)

pub record LeaderState : Type 0 where
  pub next_index : Dict String ℕ
  pub match_index : Dict String ℕ

-- A call that the node makes of its owner: `command_handler`, `on_become_leader` or
-- `on_lose_leadership`.
pub data Call (C : Type 0) : Type 0 where
  handle_command : C → Call C
  become_leader lose_leadership : Call C

-- `saved` is the state in the file, and `calls` the calls of the callbacks so far.
pub record Node (C : Type 0) : Type 0 where
  pub cluster : Cluster
  pub node_id : String
  pub state : RaftState
  pub persistent : PersistentState C
  pub open persistent use *
  pub commit_index : ℕ
  pub last_applied : ℕ
  pub leader_state : Option LeaderState
  pub current_leader : Option String
  pub votes_received : Dict String Bool
  pub last_heartbeat : ℕ
  pub saved : PersistentState C
  pub calls : List (Call C)

pub record RequestVote : Type 0 where
  pub term : ℕ
  pub candidate_id : String
  pub last_log_index : ℕ
  pub last_log_term : ℕ

pub record AppendEntries (C : Type 0) : Type 0 where
  pub term : ℕ
  pub leader_id : String
  pub prev_log_index : ℕ
  pub prev_log_term : ℕ
  pub entries : List (LogEntry C)
  pub leader_commit : ℕ

-- A response: the sender's term, and `vote_granted` or `success`.
pub record Response : Type 0 where
  pub term : ℕ
  pub granted : Bool

unfoldable pub is_state : RaftState → RaftState → Bool
is_state follower follower = true
is_state candidate candidate = true
is_state leader leader = true
is_state _ _ = false

module _ {C : Type 0} where
  -- `RaftNode(config, …)` with no file: the node as the constructor leaves it
  unfoldable pub new_node : Cluster → String → Node C
  new_node cluster node_id = record {
    cluster = cluster;
    node_id = node_id;
    state = follower;
    persistent = record { current_term = 0; voted_for = none; log = [] };
    commit_index = 0;
    last_applied = 0;
    leader_state = none;
    current_leader = none;
    votes_received = [];
    last_heartbeat = 0;
    saved = record { current_term = 0; voted_for = none; log = [] };
    calls = [];
  }

  -- the constructor where a file is found: `_load_state`
  unfoldable pub restart : Node C → Node C
  unfolding new_node
  restart n = record (new_node n.cluster n.node_id) { persistent = n.saved; saved = n.saved }

  -- `_save_state`
  unfoldable pub save_state : Node C → Node C
  save_state n = record n { saved = n.persistent }

  unfoldable pub get_majority : Node C → ℕ
  get_majority n = length n.cluster / 2 + 1

  unfoldable pub last_index : Option (LogEntry C) → ℕ
  last_index none = 0
  last_index (some e) = e.index

  unfoldable pub get_last_log_index : List (LogEntry C) → ℕ
  unfolding last_index
  get_last_log_index log = last_index (last? log)

  unfoldable pub last_term : Option (LogEntry C) → ℕ
  last_term none = 0
  last_term (some e) = e.term

  unfoldable pub get_last_log_term : List (LogEntry C) → ℕ
  unfolding last_term
  get_last_log_term log = last_term (last? log)

  -- `_get_log_entry`: the index counts from 1
  unfoldable pub get_log_entry : List (LogEntry C) → ℕ → Option (LogEntry C)
  get_log_entry log zero = none
  get_log_entry log (suc i) = get_elem? log i

  -- `_step_down`
  unfoldable pub step_down : ℕ → Node C → Node C
  unfolding save_state is_state
  step_down new_term n = save_state (record n {
    state = follower;
    persistent = record n.persistent { current_term = new_term; voted_for = none };
    leader_state = none;
    calls = if is_state n.state leader then n.calls ++ lose_leadership ∷ [] else n.calls;
  })

  -- the first lines of every handler: a higher term steps down
  unfoldable pub observe_term : ℕ → Node C → Node C
  unfolding step_down
  observe_term term n = if ltb n.current_term term then step_down term n else n

  -- `_apply_committed`, by the rounds of its loop
  unfoldable pub apply_call : Option (LogEntry C) → List (Call C) → List (Call C)
  apply_call none calls = calls
  apply_call (some e) calls = calls ++ handle_command e.command ∷ []

  unfoldable pub apply_rounds : ℕ → Node C → Node C
  apply_rounds zero n = n
  apply_rounds (suc k) n = apply_rounds k (record n {
    last_applied = n.last_applied + 1;
    calls = apply_call (get_log_entry n.log (n.last_applied + 1)) n.calls;
  })

  -- each round brings `last_applied` one nearer to `commit_index`
  unfoldable pub apply_committed : Node C → Node C
  apply_committed n = apply_rounds (n.commit_index - n.last_applied) n
