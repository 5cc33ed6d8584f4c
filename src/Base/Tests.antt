-- ===== src/Base/Tests.antt =====
-- A heartbeat between two nodes.
use pynchronize.Prelude.{◌≡◌, refl, true, some, Option, [], ◌∷◌, String, string_key, ◌==◌, contains}
use pynchronize.Config.{NodeConfig}
use pynchronize.Json.{Json, number}
use pynchronize.Message.{to_dict}
use pynchronize.Transport.{got, send, handle_message}
use pynchronize.Transport.Rpc.{connected}
use pynchronize.Prelude.Dict
use pynchronize.Prelude.Dict.{has}
use pynchronize.Failure.{NodeState, alive, dead, report, same_status}
use pynchronize.Base.{Watch, init, start, heartbeat_of, response}
use pynchronize.Base.Heartbeats.{start-heartbeat}

abbrev node : String → NodeConfig
node id = record { node_id = id; host = "h"; port = 1 }

-- "b" holds "a" for dead, and a heartbeat of "a" comes
abbrev silent : NodeState
silent = record { node_id = "a"; status = dead; last_heartbeat = 1000; missed_heartbeats = 6 }

abbrev watch : Watch
watch = record {
  clock = 9000;
  failure_detector = record {
    node_id = "b";
    heartbeat_interval = 50;
    suspect_threshold = 3;
    dead_threshold = 5;
    nodes = ("a", silent) ∷ [];
  };
  calls = [];
}

start-heartbeat_example :
    let cluster = node "a" ∷ node "b" ∷ [] in
    let a = start (init (node "a") cluster 50 1000) in
    let b = start (init (node "b") cluster 50 1000) in
    let error_text : Option Json → String = λ body. "no message" in
    let w' = (handle_message error_text b.transport (some (to_dict (heartbeat_of "a"))) watch).0 in
    (has "a" b.watch.failure_detector.nodes ≡ true)
    × (send
          (λ s t. s == t)
          (connected error_text b.transport watch)
          a.transport
          "h"
          1
          (heartbeat_of "a")
        ≡ got (some (response "b" (number 0))))
    × (Dict.get "a" w'.failure_detector.nodes
        ≡ some (record silent { status = alive; last_heartbeat = 9000; missed_heartbeats = 0 }))
    × (w'.calls ≡ record { node_id = "a"; old_status = dead; new_status = alive } ∷ [])
unfolding contains report same_status Dict.get
start-heartbeat_example =
    start-heartbeat (λ s t. s == t) (λ body. "no message") (node "a") (node "b")
      (node "a" ∷ node "b" ∷ []) 50 1000 "h" 1 watch silent "a" refl refl refl
