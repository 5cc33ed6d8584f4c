-- ===== src/Failure/Heard.antt =====
-- src/communication/failure_detector.py: the status of a node and the time at which it was last heard of.
use pynchronize.Prelude.{
  if◌then◌else◌, ℕ, ◌-◌, ◌/◌, ◌≡◌, refl, ap, ◌∙◌, sym, not, ◌&&◌, Bool, true, false, Option, none,
  some, List, ◌∷◌, String, string_key, ◌==◌, Bool-cases, inl, inr, same→eq,
}
use pynchronize.Prelude.Dict
use pynchronize.Prelude.Dict.{Dict, has, get-assign, get-remove, is_some}
use pynchronize.Failure.{
  NodeStatus, alive, NodeState, FailureDetector, new_state, register_node, unregister_node, refresh,
  record_heartbeat, check_node, check_states, check_nodes, get_node_status, status_of,
}
use pynchronize.Failure.Checks.{
  Settings, Event, register, unregister, heartbeat, last_heard, Reach, start, later, registered,
  unregistered, heard, checked, classify, Reach-Inv, map_state, get-check_states, check_node-exact,
  check_node-last,
}

abbrev heartbeat_time : Option NodeState → Option ℕ
heartbeat_time none = none
heartbeat_time (some s) = some s.last_heartbeat

-- The settings are those of `d0`, and every node has the time at which it was last heard of.
record Heard (d0 : FailureDetector) (es : List Event) (d : FailureDetector) : Type 0 where
  own : d.node_id ≡ d0.node_id
  interval : d.heartbeat_interval ≡ d0.heartbeat_interval
  suspect_at : d.suspect_threshold ≡ d0.suspect_threshold
  dead_at : d.dead_threshold ≡ d0.dead_threshold
  time : (id : String) → heartbeat_time (Dict.get id d.nodes) ≡ last_heard d0.node_id id es

with_nodes-Heard :
    (d0 : FailureDetector) (es es' : List Event) (d : FailureDetector)
    (nodes : Dict String NodeState)
    → Heard d0 es d
    → ((id : String) → heartbeat_time (Dict.get id nodes) ≡ last_heard d0.node_id id es')
    → Heard d0 es' (record d { nodes = nodes })
with_nodes-Heard d0 es es' d nodes w h = record {
  own = w.own;
  interval = w.interval;
  suspect_at = w.suspect_at;
  dead_at = w.dead_at;
  time = h;
}

is_some-heartbeat_time : (o : Option NodeState) → is_some (heartbeat_time o) ≡ is_some o
is_some-heartbeat_time none = refl
is_some-heartbeat_time (some s) = refl

Heard-has :
    (d0 : FailureDetector) (es : List Event) (d : FailureDetector)
    → Heard d0 es d
    → (id : String) → is_some (last_heard d0.node_id id es) ≡ has id d.nodes
Heard-has d0 es d w id = ap is_some (sym (w.time id)) ∙ is_some-heartbeat_time (Dict.get id d.nodes)

-- A test of one key at the time of another that is equal to it.
at_key :
    (f g : String → Bool) (i j : String)
    → ((k : String) → f k ≡ g k)
    → (j == i && f i) ≡ (j == i && g j)
at_key f g i j h = elim (Bool-cases (j == i)) [
  | inl hit ↦ rw hit (h i ∙ ap g (sym (same→eq j i hit)))
  | inr miss ↦ rw miss refl
]

registered-Heard :
    (d0 : FailureDetector) (es : List Event) (d : FailureDetector) (now : ℕ) (j : String)
    → Heard d0 es d
    → Heard d0 (register now j ∷ es) (register_node now j d)
unfolding register_node last_heard
registered-Heard d0 es d now j w = elim (Bool-cases (not (j == d.node_id) && not (has j d.nodes))) [
  | inl new ↦ rw new (
      with_nodes-Heard d0 es (register now j ∷ es) d (Dict.assign j (new_state now j) d.nodes) w
        (λ id.
          ap heartbeat_time (get-assign id j (new_state now j) d.nodes)
          ∙ fresh id (j == id)
          ∙ ap (λ b. if j == id && b then some now else last_heard d0.node_id id es) (sym new)
          ∙ sym (counts id)))
  | inr old ↦ rw old (
      with_nodes-Heard d0 es (register now j ∷ es) d d.nodes w (λ id.
        stale id (j == id)
        ∙ ap (λ b. if j == id && b then some now else last_heard d0.node_id id es) (sym old)
        ∙ sym (counts id)))
]
  where
    agree :
        (id : String)
        → (not (id == d0.node_id) && not (is_some (last_heard d0.node_id id es)))
          ≡ (not (id == d.node_id) && not (has id d.nodes))
    agree id =
        ap (λ o. not (id == o) && not (is_some (last_heard d0.node_id id es))) (sym w.own)
        ∙ ap (λ b. not (id == d.node_id) && not b) (Heard-has d0 es d w id)

    counts :
        (id : String)
        → last_heard d0.node_id id (register now j ∷ es) ≡ (
            if j == id && (not (j == d.node_id) && not (has j d.nodes))
            then some now
            else last_heard d0.node_id id es)
    counts id =
        ap (λ b. if b then some now else last_heard d0.node_id id es)
          (at_key (λ k. not (k == d0.node_id) && not (is_some (last_heard d0.node_id k es)))
            (λ k. not (k == d.node_id) && not (has k d.nodes)) id j agree)

    fresh :
        (id : String) (b : Bool)
        → heartbeat_time (if b then some (new_state now j) else Dict.get id d.nodes)
          ≡ (if b && true then some now else last_heard d0.node_id id es)
    fresh id true = refl
    fresh id false = w.time id

    stale :
        (id : String) (b : Bool)
        → heartbeat_time (Dict.get id d.nodes)
          ≡ (if b && false then some now else last_heard d0.node_id id es)
    stale id true = w.time id
    stale id false = w.time id

unregistered-Heard :
    (d0 : FailureDetector) (es : List Event) (d : FailureDetector) (now : ℕ) (j : String)
    → Heard d0 es d
    → Heard d0 (unregister now j ∷ es) (unregister_node j d)
unfolding unregister_node last_heard
unregistered-Heard d0 es d now j w =
    with_nodes-Heard d0 es (unregister now j ∷ es) d (Dict.remove j d.nodes) w
      (λ id. ap heartbeat_time (get-remove id j d.nodes) ∙ go id (j == id))
  where
    go :
        (id : String) (b : Bool)
        → heartbeat_time (if b then none else Dict.get id d.nodes)
          ≡ (if b then none else last_heard d0.node_id id es)
    go id true = refl
    go id false = w.time id

Heard-step :
    (d0 : FailureDetector) (es : List Event) (d : FailureDetector) (now : ℕ) (j : String)
    → Heard d0 es d
    → Heard d0 (heartbeat now j ∷ es) (record_heartbeat now j d).0
unfolding record_heartbeat refresh last_heard
Heard-step d0 es d now j w = go (Dict.get j d.nodes) refl
  where
    counts :
        (id : String)
        → last_heard d0.node_id id (heartbeat now j ∷ es)
          ≡ (if j == id && has j d.nodes then some now else last_heard d0.node_id id es)
    counts id =
        ap (λ b. if b then some now else last_heard d0.node_id id es)
          (at_key (λ k. is_some (last_heard d0.node_id k es)) (λ k. has k d.nodes) id j
            (Heard-has d0 es d w))

    fresh :
        (id : String) (b : Bool) (s : NodeState)
        → heartbeat_time (
            if b
            then some (record s { status = alive; last_heartbeat = now; missed_heartbeats = 0 })
            else Dict.get id d.nodes)
          ≡ (if b && true then some now else last_heard d0.node_id id es)
    fresh id true s = refl
    fresh id false s = w.time id

    stale :
        (id : String) (b : Bool)
        → heartbeat_time (Dict.get id d.nodes)
          ≡ (if b && false then some now else last_heard d0.node_id id es)
    stale id true = w.time id
    stale id false = w.time id

    go :
        (o : Option NodeState)
        → Dict.get j d.nodes ≡ o
        → Heard d0 (heartbeat now j ∷ es) (refresh now j o d).0
    go none e = with_nodes-Heard d0 es (heartbeat now j ∷ es) d d.nodes w (λ id.
        stale id (j == id)
        ∙ ap (λ o. if j == id && is_some o then some now else last_heard d0.node_id id es) (sym e)
        ∙ sym (counts id))
    go (some s) e =
        with_nodes-Heard d0 es (heartbeat now j ∷ es) d
          (Dict.assign j (record s { status = alive; last_heartbeat = now; missed_heartbeats = 0 })
            d.nodes)
          w
          (λ id.
            ap heartbeat_time (get-assign id j _ d.nodes)
            ∙ fresh id (j == id) s
            ∙ ap (λ o. if j == id && is_some o then some now else last_heard d0.node_id id es)
                (sym e)
            ∙ sym (counts id))

checked-Heard :
    (d0 : FailureDetector) (es : List Event) (d : FailureDetector) (now : ℕ)
    → Heard d0 es d
    → Heard d0 es (check_nodes now d).0
unfolding check_nodes map_state
checked-Heard d0 es d now w = with_nodes-Heard d0 es es d (check_states d now d.nodes).0 w (λ id.
    ap heartbeat_time (get-check_states d now id d.nodes) ∙ go (Dict.get id d.nodes) ∙ w.time id)
  where
    go : (o : Option NodeState) → heartbeat_time (map_state (check_node d now) o) ≡ heartbeat_time o
    go none = refl
    go (some s) = ap some (check_node-last d now s)

Reach-Heard :
    {d0 : FailureDetector} {now : ℕ} {es : List Event} {d : FailureDetector}
    → Reach d0 now es d
    → Heard d0 es d
unfolding Dict.get last_heard
Reach-Heard (start now) = record {
  own = refl;
  interval = refl;
  suspect_at = refl;
  dead_at = refl;
  time = λ id. refl;
}
Reach-Heard (later r t le) = Reach-Heard r
Reach-Heard (registered r id) = registered-Heard _ _ _ _ id (Reach-Heard r)
Reach-Heard (unregistered r id) = unregistered-Heard _ _ _ _ id (Reach-Heard r)
Reach-Heard (heard r id) = Heard-step _ _ _ _ id (Reach-Heard r)
Reach-Heard (checked r) = checked-Heard _ _ _ _ (Reach-Heard r)

-- the status that the time since a node was last heard of stands for; none of a node that is not watched
abbrev pub status_since : FailureDetector → ℕ → Option ℕ → Option NodeStatus
status_since d now none = none
status_since d now (some t) = some (classify d ((now - t) / d.heartbeat_interval))

-- Where the interval and the thresholds are above 0: after a check the nodes with a status are those that
-- are watched, by the registrations and heartbeats before it in any order and at times that do not go
-- back, and the status of each is what the time since its last heartbeat, or since its registration where
-- there was none, stands for: it is dead exactly when that time has the intervals of the dead threshold,
-- else suspected exactly when it has those of the suspect threshold, else alive.
pub check_nodes-classify :
    (d0 : FailureDetector) (now : ℕ) (es : List Event) (d : FailureDetector) (id : String)
    → Settings d0
    → Reach d0 now es d
    → get_node_status id (check_nodes now d).0 ≡ status_since d0 now (last_heard d0.node_id id es)
unfolding check_nodes get_node_status map_state classify
check_nodes-classify d0 now es d id p r =
    ap status_of (get-check_states d now id d.nodes)
    ∙ go (Dict.get id d.nodes) refl
    ∙ ap (status_since d0 now) ((Reach-Heard r).time id)
  where
    same : (n : ℕ) → classify d n ≡ classify d0 n
    same n = rw ((Reach-Heard r).dead_at, (Reach-Heard r).suspect_at) refl

    go :
        (o : Option NodeState)
        → Dict.get id d.nodes ≡ o
        → status_of (map_state (check_node d now) o) ≡ status_since d0 now (heartbeat_time o)
    go none e = refl
    go (some s) e = ap some (
        (check_node-exact d now s ((Reach-Inv p r).tracked id s e)).0
        ∙ same ((now - s.last_heartbeat) / d.heartbeat_interval)
        ∙ ap (λ i. classify d0 ((now - s.last_heartbeat) / i)) (Reach-Heard r).interval)
