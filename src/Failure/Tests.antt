-- ===== src/Failure/Tests.antt =====
-- The failure detector at small inputs.
use pynchronize.Prelude.{some, ◌≡◌, refl, [], ◌∷◌, string_key, arith}
use pynchronize.Prelude.Dict
use pynchronize.Failure.{
  suspected, dead, same_status, FailureDetector, register_node, report, refresh, record_heartbeat,
  judge, check_node, check_states, check_nodes, get_node_status,
}
use pynchronize.Failure.Checks.{Settings, register, heartbeat, last_heard, Reach, classify}
use pynchronize.Failure.Heard.{check_nodes-classify}

failure : Unit {0}
unfolding same_status register_node report refresh record_heartbeat judge check_node check_states
    check_nodes classify Dict.get Dict.assign
failure = tt

-- an interval of 10 ticks, and the thresholds that the source has by default
abbrev detector : FailureDetector
detector = record {
  node_id = "node1";
  heartbeat_interval = 10;
  suspect_threshold = 3;
  dead_threshold = 5;
  nodes = [];
}

abbrev watching : FailureDetector
watching = register_node 0 "node2" detector

settings : Settings detector
settings = record { interval_pos = omega arith; suspect_pos = omega arith; dead_pos = omega arith }

check-dead :
    (check_nodes 57 (check_nodes 34 watching).0).1
    ≡ record { node_id = "node2"; old_status = suspected; new_status = dead } ∷ []
unfolding failure
check-dead = refl

-- the last of "node2" is its heartbeat at 7, 50 ticks before the check
check_nodes-classify_example :
    get_node_status "node2"
      (check_nodes 57 (check_nodes 34 (record_heartbeat 7 "node2" watching).0).0).0
    ≡ some dead
unfolding failure last_heard
check_nodes-classify_example =
    check_nodes-classify detector 57 (heartbeat 7 "node2" ∷ register 0 "node2" ∷ [])
      (check_nodes 34 (record_heartbeat 7 "node2" watching).0).0 "node2" settings
      (Reach.later
        (Reach.checked (
          Reach.later
            (Reach.heard (Reach.later (Reach.registered (Reach.start 0) "node2") 7 (omega arith))
              "node2")
            34 (omega arith)))
        57 (omega arith))
