-- ===== src/Failure.antt =====
-- src/communication/failure_detector.py: `FailureDetector`. Times are whole ticks of the clock, `now`
-- its reading; the interval is at least one tick. An operation returns the calls of
-- `on_status_change` that it makes.
mod Checks
mod Heard
mod Tests
use pynchronize.Prelude.{
  ℕ, ◌-◌, ◌/◌, Bool, true, false, not, ◌&&◌, Option, none, some, List, [], ◌∷◌, ◌++◌, String,
  string_key, ◌==◌, leb, ltb, if◌then◌else◌,
}
use pynchronize.Prelude.Dict
use pynchronize.Prelude.Dict.{Dict, has}

pub data NodeStatus : Type 0 where
  alive suspected dead : NodeStatus

unfoldable pub same_status : NodeStatus → NodeStatus → Bool
same_status alive alive = true
same_status suspected suspected = true
same_status dead dead = true
same_status _ _ = false

pub record NodeState : Type 0 where
  pub node_id : String
  pub status : NodeStatus
  pub last_heartbeat : ℕ
  pub missed_heartbeats : ℕ

-- a call of `on_status_change`
pub record StatusChange : Type 0 where
  pub node_id : String
  pub old_status : NodeStatus
  pub new_status : NodeStatus

pub record FailureDetector : Type 0 where
  pub node_id : String
  pub heartbeat_interval : ℕ
  pub suspect_threshold : ℕ
  pub dead_threshold : ℕ
  pub nodes : Dict String NodeState

-- `NodeState(node_id=node_id)`
abbrev pub new_state : ℕ → String → NodeState
new_state now id = record {
  node_id = id;
  status = alive;
  last_heartbeat = now;
  missed_heartbeats = 0;
}

unfoldable pub register_node : ℕ → String → FailureDetector → FailureDetector
register_node now id d =
    if not (id == d.node_id) && not (has id d.nodes)
    then record d { nodes = Dict.assign id (new_state now id) d.nodes }
    else d

unfoldable pub unregister_node : String → FailureDetector → FailureDetector
unregister_node id d = record d { nodes = Dict.remove id d.nodes }

-- the call for a status that is set, where it differs from the old one
unfoldable pub report : NodeState → NodeStatus → List StatusChange
unfolding same_status
report s new =
    if same_status s.status new
    then []
    else record { node_id = s.node_id; old_status = s.status; new_status = new } ∷ []

-- `record_heartbeat`, by the state that the node has
unfoldable pub refresh :
    ℕ → String → Option NodeState → FailureDetector → FailureDetector × List StatusChange
unfolding report
refresh now id none d = (d, [])
refresh now id (some s) d = (
  record d {
    nodes =
        Dict.assign id (record s { status = alive; last_heartbeat = now; missed_heartbeats = 0 })
          d.nodes;
  },
  report s alive,
)

unfoldable pub record_heartbeat : ℕ → String → FailureDetector → FailureDetector × List StatusChange
unfolding refresh
record_heartbeat now id d = refresh now id (Dict.get id d.nodes) d

-- `int(elapsed / self.heartbeat_interval)`; a clock that went back gives no missed heartbeat
abbrev pub missed_at : FailureDetector → ℕ → NodeState → ℕ
missed_at d now s = (now - s.last_heartbeat) / d.heartbeat_interval

-- the status that a round of `_check_nodes` sets for a number of missed heartbeats
unfoldable pub judge : FailureDetector → ℕ → NodeStatus → NodeStatus
judge d missed old =
    if leb d.dead_threshold missed
    then dead
    else if leb d.suspect_threshold missed
    then suspected
    else old

-- one round of the loop in `_check_nodes`
unfoldable pub check_node : FailureDetector → ℕ → NodeState → NodeState
unfolding judge
check_node d now s =
    if ltb s.missed_heartbeats (missed_at d now s)
    then record s {
      missed_heartbeats = missed_at d now s;
      status = judge d (missed_at d now s) s.status;
    }
    else s

unfoldable pub check_states :
    FailureDetector → ℕ → Dict String NodeState → Dict String NodeState × List StatusChange
unfolding check_node report
check_states d now [] = ([], [])
check_states d now ((id, s) ∷ rest) =
    let (rest', calls) = check_states d now rest in
    ((id, check_node d now s) ∷ rest', report s (check_node d now s).status ++ calls)

-- `_check_nodes`
unfoldable pub check_nodes : ℕ → FailureDetector → FailureDetector × List StatusChange
unfolding check_states
check_nodes now d =
    let (states, calls) = check_states d now d.nodes in (record d { nodes = states }, calls)

-- `state.status == NodeStatus.ALIVE` over `self.nodes.items()`
unfoldable pub alive_of : Dict String NodeState → List String
unfolding same_status
alive_of [] = []
alive_of ((id, s) ∷ rest) =
    let ids = alive_of rest in if same_status s.status alive then id ∷ ids else ids

unfoldable pub get_alive_nodes : FailureDetector → List String
unfolding alive_of
get_alive_nodes d = alive_of d.nodes

abbrev status_of : Option NodeState → Option NodeStatus
status_of none = none
status_of (some s) = some s.status

unfoldable pub get_node_status : String → FailureDetector → Option NodeStatus
get_node_status id d = status_of (Dict.get id d.nodes)

abbrev is_status_alive : Option NodeStatus → Bool
is_status_alive none = false
is_status_alive (some t) = same_status t alive

unfoldable pub is_alive : String → FailureDetector → Bool
unfolding get_node_status same_status
is_alive id d = is_status_alive (get_node_status id d)
