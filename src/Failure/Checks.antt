-- ===== src/Failure/Checks.antt =====
-- What the failure detector knows: the status of a node follows from the time since its heartbeat.
use pynchronize.Prelude.{
  if◌then◌else◌, ℕ, ◌-◌, ◌/◌, ◌≤◌, ◌<◌, ◌≡◌, refl, ap, ◌∙◌, sym, not, ◌&&◌, Option, none, some,
  List, [], ◌∷◌, String, string_key, ◌==◌, ltb, arith, Bool-cases, subst, inl, inr,
}
use pynchronize.Prelude.Dict
use pynchronize.Prelude.Dict.{Dict, has, get-assign, get-remove, contains-keys, is_some}
use native.Mathlib.Nat.{le-div_iff_mul-le, div-mul-le_self}
use pynchronize.Failure.{
  NodeStatus, alive, suspected, dead, NodeState, FailureDetector, new_state, register_node,
  unregister_node, refresh, record_heartbeat, missed_at, judge, check_node, check_states,
  check_nodes,
}

-- The status that a number of missed heartbeats stands for.
unfoldable pub classify : FailureDetector → ℕ → NodeStatus
classify d missed =
    if ltb missed d.dead_threshold
    then (if ltb missed d.suspect_threshold then alive else suspected)
    else dead

-- The interval and the thresholds are not 0.
pub record Settings (d : FailureDetector) : Type 0 where
  pub interval_pos : 0 < d.heartbeat_interval
  pub suspect_pos : 0 < d.suspect_threshold
  pub dead_pos : 0 < d.dead_threshold

-- What happened to a detector, each with its time: the calls from outside.
pub data Event : Type 0 where
  register unregister heartbeat : ℕ → String → Event

-- The time at which a node was last heard of, by the events alone, the latest first: none while it is not
-- watched. A registration counts where the node is not watched yet and is not the detector's own, a
-- heartbeat where it is watched.
unfoldable pub last_heard : String → String → List Event → Option ℕ
last_heard own id [] = none
last_heard own id (register t j ∷ es) =
    let before = last_heard own id es in
    if j == id && (not (id == own) && not (is_some before)) then some t else before
last_heard own id (unregister t j ∷ es) =
    let before = last_heard own id es in if j == id then none else before
last_heard own id (heartbeat t j ∷ es) =
    let before = last_heard own id es in if j == id && is_some before then some t else before

-- The states of a detector that was made with `d0`'s settings and without nodes, at the time `now` and
-- behind the events: the operations come in any order, at times that do not go back.
pub data Reach (d0 : FailureDetector) : ℕ → List Event → FailureDetector → Type 0 where
  start : (now : ℕ) → Reach d0 now [] (record d0 { nodes = [] })
  later :
      {now : ℕ} {es : List Event} {d : FailureDetector}
      → Reach d0 now es d
      → (t : ℕ) → now ≤ t
      → Reach d0 t es d
  registered :
      {now : ℕ} {es : List Event} {d : FailureDetector}
      → Reach d0 now es d
      → (id : String) → Reach d0 now (register now id ∷ es) (register_node now id d)
  unregistered :
      {now : ℕ} {es : List Event} {d : FailureDetector}
      → Reach d0 now es d
      → (id : String) → Reach d0 now (unregister now id ∷ es) (unregister_node id d)
  heard :
      {now : ℕ} {es : List Event} {d : FailureDetector}
      → Reach d0 now es d
      → (id : String) → Reach d0 now (heartbeat now id ∷ es) (record_heartbeat now id d).0
  checked :
      {now : ℕ} {es : List Event} {d : FailureDetector}
      → Reach d0 now es d
      → Reach d0 now es (check_nodes now d).0

-- The status stands for the missed heartbeats, and those are not more than the time allows.
pub record Tracked (d : FailureDetector) (now : ℕ) (s : NodeState) : Type 0 where
  pub classified : s.status ≡ classify d s.missed_heartbeats
  pub missed_le : s.missed_heartbeats ≤ missed_at d now s

abbrev pub AllTracked : FailureDetector → ℕ → Dict String NodeState → Type 0
AllTracked d now nodes =
    (id : String) (s : NodeState) → Dict.get id nodes ≡ some s → Tracked d now s

div_mono : (a b k : ℕ) → 0 < k → a ≤ b → a / k ≤ b / k
div_mono a b k p h =
    (le-div_iff_mul-le {k = k} {x = a / k} {y = b} p).1 (omega (arith, div-mul-le_self a k))

Tracked-later :
    (d : FailureDetector) (now t : ℕ) (s : NodeState)
    → Settings d
    → now ≤ t
    → Tracked d now s
    → Tracked d t s
Tracked-later d now t s p h x = record {
  classified = x.classified;
  missed_le = omega (
    arith,
    x.missed_le,
    div_mono (now - s.last_heartbeat) (t - s.last_heartbeat) d.heartbeat_interval p.interval_pos
        (omega arith),
  );
}

classify-zero : (d : FailureDetector) → Settings d → classify d 0 ≡ alive
unfolding classify
classify-zero d p = ground (arith, p.suspect_pos, p.dead_pos)

fresh-Tracked :
    (d : FailureDetector) (now : ℕ) (s : NodeState)
    → Settings d
    → s.status ≡ alive
    → s.missed_heartbeats ≡ 0
    → Tracked d now s
fresh-Tracked d now s p e z = record {
  classified = e ∙ sym (ap (classify d) z ∙ classify-zero d p);
  missed_le = omega (arith, z);
}

-- A check sets the status that the time since the last heartbeat stands for.
pub check_node-exact :
    (d : FailureDetector) (now : ℕ) (s : NodeState)
    → Tracked d now s
    → ((check_node d now s).status ≡ classify d (missed_at d now s))
      × ((check_node d now s).missed_heartbeats ≡ missed_at d now s)
unfolding check_node classify judge
check_node-exact d now s x = elim (Bool-cases (ltb s.missed_heartbeats (missed_at d now s))) [
  | inl more ↦ rw more (ground (arith, x.classified), refl)
  | inr same ↦
      let e : s.missed_heartbeats ≡ missed_at d now s = ground (arith, x.missed_le) in
      rw same (x.classified ∙ ap (classify d) e, e)
]

pub check_node-last :
    (d : FailureDetector) (now : ℕ) (s : NodeState)
    → (check_node d now s).last_heartbeat ≡ s.last_heartbeat
unfolding check_node
check_node-last d now s = elim (Bool-cases (ltb s.missed_heartbeats (missed_at d now s))) [
  | inl h ↦ rw h refl
  | inr h ↦ rw h refl
]

check_node-Tracked :
    (d : FailureDetector) (now : ℕ) (s : NodeState)
    → Tracked d now s
    → Tracked d now (check_node d now s)
check_node-Tracked d now s x =
    let (e, m) = check_node-exact d now s x in
    record {
      classified = e ∙ ap (classify d) (sym m);
      missed_le = rw (m, check_node-last d now s) (omega arith);
    }

unfoldable pub map_state : (NodeState → NodeState) → Option NodeState → Option NodeState
map_state f none = none
map_state f (some s) = some (f s)

pub get-check_states :
    (d : FailureDetector) (now : ℕ) (id : String) (nodes : Dict String NodeState)
    → Dict.get id (check_states d now nodes).0 ≡ map_state (check_node d now) (Dict.get id nodes)
unfolding check_states Dict.get map_state
get-check_states d now id [] = refl
get-check_states d now id ((j, s) ∷ rest) = elim (Bool-cases (j == id)) [
  | inl h ↦ rw h refl
  | inr h ↦ rw h (get-check_states d now id rest)
]

-- A state after a check is the check of a state before it.
checked_from :
    (d : FailureDetector) (now : ℕ) (id : String) (s : NodeState) (o : Option NodeState)
    → map_state (check_node d now) o ≡ some s
    → (s0 : NodeState) × (o ≡ some s0) × (check_node d now s0 ≡ s)
unfolding map_state
checked_from d now id s none h = cc
checked_from d now id s (some s0) h = (s0, refl, cc)

assign-AllTracked :
    (d : FailureDetector) (now : ℕ) (id : String) (x : NodeState) (nodes : Dict String NodeState)
    → Tracked d now x
    → AllTracked d now nodes
    → AllTracked d now (Dict.assign id x nodes)
assign-AllTracked d now id x nodes t a j s h = elim (Bool-cases (id == j)) [
  | inl hit ↦ subst (Tracked d now) (ground (arith, get-assign j id x nodes)) t
  | inr miss ↦ a j s (ground (arith, get-assign j id x nodes))
]

-- The settings never change, and every node is tracked.
pub record Inv (now : ℕ) (d : FailureDetector) : Type 0 where
  pub settings : Settings d
  pub tracked : AllTracked d now d.nodes

-- The same settings, with other nodes.
with_nodes :
    (now : ℕ) (d : FailureDetector) (nodes : Dict String NodeState)
    → Settings d
    → AllTracked d now nodes
    → Inv now (record d { nodes = nodes })
unfolding classify
with_nodes now d nodes p a = record {
  settings = record {
    interval_pos = p.interval_pos;
    suspect_pos = p.suspect_pos;
    dead_pos = p.dead_pos;
  };
  tracked =
      λ id s h. let x = a id s h in record { classified = x.classified; missed_le = x.missed_le };
}

register-Inv :
    (now : ℕ) (id : String) (d : FailureDetector) → Inv now d → Inv now (register_node now id d)
unfolding register_node
register-Inv now id d v = elim (Bool-cases (not (id == d.node_id) && not (has id d.nodes))) [
  | inl new ↦ rw new (
      with_nodes now d (Dict.assign id (new_state now id) d.nodes) v.settings (
        assign-AllTracked d now id (new_state now id) d.nodes
          (fresh-Tracked d now (new_state now id) v.settings refl refl) v.tracked))
  | inr old ↦ rw old v
]

unregister-Inv :
    (now : ℕ) (id : String) (d : FailureDetector) → Inv now d → Inv now (unregister_node id d)
unfolding unregister_node
unregister-Inv now id d v =
    with_nodes now d (Dict.remove id d.nodes) v.settings
      (λ j s h. v.tracked j s (ground (arith, get-remove j id d.nodes)))

heartbeat-Inv :
    (now : ℕ) (id : String) (d : FailureDetector)
    → Inv now d
    → Inv now (record_heartbeat now id d).0
unfolding record_heartbeat refresh
heartbeat-Inv now id d v = go (Dict.get id d.nodes)
  where
    go : (o : Option NodeState) → Inv now (refresh now id o d).0
    go none = v
    go (some s) =
        let x : NodeState = record s {
          status = alive;
          last_heartbeat = now;
          missed_heartbeats = 0;
        } in
        with_nodes now d (Dict.assign id x d.nodes) v.settings (
          assign-AllTracked d now id x d.nodes (fresh-Tracked d now x v.settings refl refl)
            v.tracked)

check-Inv : (now : ℕ) (d : FailureDetector) → Inv now d → Inv now (check_nodes now d).0
unfolding check_nodes
check-Inv now d v = with_nodes now d (check_states d now d.nodes).0 v.settings (λ id s h.
    let (s0, old, new) =
      checked_from d now id s (Dict.get id d.nodes) (sym (get-check_states d now id d.nodes) ∙ h) in
    subst (Tracked d now) new (check_node-Tracked d now s0 (v.tracked id s0 old)))

pub Reach-Inv :
    {d0 : FailureDetector} {now : ℕ} {es : List Event} {d : FailureDetector}
    → Settings d0
    → Reach d0 now es d
    → Inv now d
unfolding Dict.get
Reach-Inv p (start now) = with_nodes now _ [] p (λ id s h. cc)
Reach-Inv p (later {now} {es} {d} r t le) = record {
  settings = (Reach-Inv p r).settings;
  tracked = λ id s h.
      Tracked-later d now t s (Reach-Inv p r).settings le ((Reach-Inv p r).tracked id s h);
}
Reach-Inv p (registered r id) = register-Inv _ id _ (Reach-Inv p r)
Reach-Inv p (unregistered r id) = unregister-Inv _ id _ (Reach-Inv p r)
Reach-Inv p (heard r id) = heartbeat-Inv _ id _ (Reach-Inv p r)
Reach-Inv p (checked r) = check-Inv _ _ (Reach-Inv p r)
