-- ===== src/Base/Heartbeats.antt =====
-- src/nodes/base_node.py: what a heartbeat does at the node that gets it.
use pynchronize.Prelude.{
  ℕ, ◌≡◌, refl, Bool, true, false, Option, none, some, List, [], ◌∷◌, ◌++◌, String, string_key,
  ◌==◌, arith, map, contains, same_refl, same→eq, ◌∙◌, ap, subst, Bool-cases, inl, inr,
  if◌then◌else◌,
}
use pynchronize.Prelude.Dict
use pynchronize.Prelude.Dict.{Dict, get-assign, has, is_some}
use pynchronize.Config.{NodeConfig, Cluster, get_other_nodes}
use pynchronize.Json.{Json, number}
use pynchronize.Message.{to_dict, type_key, type_value}
use pynchronize.Transport.{
  answered, raised, dispatch, respond, got, send, register_handler, handle_message,
}
use pynchronize.Transport.Rpc.{connected, send-handle_message, handle_message-to_dict}
use pynchronize.Failure
use pynchronize.Failure.{
  report, alive, FailureDetector, NodeState, register_node, record_heartbeat, refresh, is_alive,
  get_node_status,
}
use pynchronize.Base.{
  Watch, beat, response, handle_heartbeat, register_handlers, register_nodes, start, heartbeat_of,
  init,
}

register_node-kept :
    (now : ℕ) (id j : String) (d : FailureDetector)
    → has id d.nodes ≡ true
    → has id (register_node now j d).nodes ≡ true
unfolding register_node
register_node-kept now id j d h =
    ground (arith, h, get-assign id j (Failure.new_state now j) d.nodes)

register_node_self :
    (now : ℕ) (j : String) (d : FailureDetector) → (register_node now j d).node_id ≡ d.node_id
unfolding register_node
register_node_self now j d = ground arith

register_node-new :
    (now : ℕ) (id : String) (d : FailureDetector)
    → (id == d.node_id) ≡ false
    → has id (register_node now id d).nodes ≡ true
unfolding register_node
register_node-new now id d h =
    ground (arith, h, get-assign id id (Failure.new_state now id) d.nodes, same_refl id)

register_nodes-kept :
    (now : ℕ) (id : String) (ns : List NodeConfig) (d : FailureDetector)
    → has id d.nodes ≡ true
    → has id (register_nodes now ns d).nodes ≡ true
unfolding register_nodes
register_nodes-kept now id [] d h = h
register_nodes-kept now id (n ∷ ns) d h =
    register_nodes-kept now id ns (register_node now n.node_id d)
      (register_node-kept now id n.node_id d h)

abbrev ids_of : List NodeConfig → List String
ids_of ns = map (λ (n : NodeConfig). n.node_id) ns

register_nodes-all :
    (now : ℕ) (id : String) (ns : List NodeConfig) (d : FailureDetector)
    → (id == d.node_id) ≡ false
    → contains id (ids_of ns) ≡ true
    → has id (register_nodes now ns d).nodes ≡ true
unfolding register_nodes contains
register_nodes-all now id [] d h m = absurd cc
register_nodes-all now id (n ∷ ns) d h m = elim (Bool-cases (n.node_id == id)) [
  | inl hit ↦ register_nodes-kept now id ns (register_node now n.node_id d) (
      subst (λ x. has x (register_node now n.node_id d).nodes ≡ true) (same→eq n.node_id id hit)
        (register_node-new now n.node_id d
          (ground (arith, h, hit, string_key.same_iff n.node_id id))))
  | inr miss ↦
      register_nodes-all now id ns (register_node now n.node_id d)
        (rw (register_node_self now n.node_id d) h) (ground (arith, m, miss))
]

ids_of-get_other_nodes :
    (c : Cluster) (self id : String)
    → contains id (ids_of c) ≡ true
    → (id == self) ≡ false
    → contains id (ids_of (get_other_nodes c self)) ≡ true
unfolding get_other_nodes contains
ids_of-get_other_nodes [] self id m h = m
ids_of-get_other_nodes (n ∷ ns) self id m h =
    go (n.node_id == self) refl (ids_of-get_other_nodes ns self id)
  where
    go :
        (b : Bool)
        → (n.node_id == self) ≡ b
        → (contains id (ids_of ns) ≡ true
            → (id == self) ≡ false
            → contains id (ids_of (get_other_nodes ns self)) ≡ true)
        → contains id (ids_of (if b then get_other_nodes ns self else n ∷ get_other_nodes ns self))
          ≡ true
    go true e ih = ih (ground (arith, m, h, e, string_key.same_iff n.node_id id)) h
    go false e ih = ground (arith, m, ih, h)

-- the state of a node that was heard of
abbrev pub heard_state : ℕ → NodeState → NodeState
heard_state now s = record s { status = alive; last_heartbeat = now; missed_heartbeats = 0 }

-- the watch behind a heartbeat of a watched node
abbrev behind : String → NodeState → Watch → Watch
behind id s w = record w {
  failure_detector = record (w.failure_detector) {
    nodes = Dict.assign id (heard_state w.clock s) w.failure_detector.nodes;
  };
  calls = w.calls ++ report s alive;
}

handle_heartbeat-watched :
    (id own : String) (s : NodeState) (w : Watch)
    → Dict.get id w.failure_detector.nodes ≡ some s
    → handle_heartbeat own (heartbeat_of id) w
      ≡ (behind id s w, answered (some (response own (number 0))))
unfolding handle_heartbeat beat record_heartbeat refresh
handle_heartbeat-watched id own s w e = rw (handle_heartbeat, beat, record_heartbeat, e) refl

-- Two nodes of one cluster that were started. The one watches the other from its start on. Whatever its
-- detector holds of the sender at a later time, also that it is dead: a heartbeat comes back as the node's
-- answer; behind it the detector holds the sender for alive, last heard of now and with no missed
-- heartbeats, holds of every other node what it did, and has reported the change of the status, if there
-- was one.
pub start-heartbeat :
    (substring : String → String → Bool) (error_text : Option Json → String)
    (sender node : NodeConfig) (cluster : Cluster) (interval now : ℕ) (host : String) (port : ℕ)
    (w : Watch) (s : NodeState) (id : String)
    → contains sender.node_id (ids_of cluster) ≡ true
    → (sender.node_id == node.node_id) ≡ false
    → Dict.get sender.node_id w.failure_detector.nodes ≡ some s
    → let a = start (init sender cluster interval now) in
      let b = start (init node cluster interval now) in
      let w' =
        (handle_message error_text b.transport
          (some (to_dict (heartbeat_of sender.node_id)))
          w).0 in
      (has sender.node_id b.watch.failure_detector.nodes ≡ true)
      × (send substring
            (connected error_text b.transport w)
            a.transport
            host
            port
            (heartbeat_of sender.node_id)
          ≡ got (some (response node.node_id (number 0))))
      × (Dict.get id w'.failure_detector.nodes ≡ (
          if sender.node_id == id
          then some (heard_state w.clock s)
          else Dict.get id w.failure_detector.nodes))
      × (w'.calls ≡ w.calls ++ report s alive)
unfolding start init register_handlers register_handler Dict.get Dict.assign handle_heartbeat
    type_value dispatch respond
start-heartbeat substring error_text sender node cluster interval now host port w s id m h e =
    let a = start (init sender cluster interval now) in
    let b = start (init node cluster interval now) in
    let handled = handle_message-to_dict error_text b.transport (heartbeat_of sender.node_id) w in
    let beaten = handle_heartbeat-watched sender.node_id node.node_id s w e in
    (
      register_nodes-all now sender.node_id (get_other_nodes cluster node.node_id) _ h
          (ids_of-get_other_nodes cluster node.node_id sender.node_id m h),
      send-handle_message substring error_text a.transport b.transport w host port
            (heartbeat_of sender.node_id) refl
          ∙ ap (λ x. got (elim x.1 [ answered o ↦ o | raised t ↦ none ])) beaten,
      ap (λ x. Dict.get id x.0.failure_detector.nodes) handled
          ∙ ap (λ x. Dict.get id (respond {S = Watch} x).0.failure_detector.nodes) beaten
          ∙ get-assign id sender.node_id (heard_state w.clock s) w.failure_detector.nodes,
      ap (λ x. x.0.calls) handled ∙ ap (λ x. (respond {S = Watch} x).0.calls) beaten,
    )
