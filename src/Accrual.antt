-- ===== src/Accrual.antt =====
-- src/communication/failure_detector.py: `PhiAccrualFailureDetector`. Times are whole ticks of the clock,
-- `now` its reading, and the clock does not go back. The score behind the guards of `_calculate_phi` is taken
-- with floating-point numbers by the `math` library; it is the parameter `score`, of the history and the time
-- since the last heartbeat.
mod Samples
mod Checks
mod Tests
use pynchronize.Prelude.{
  ℕ, suc, ◌+◌, ◌*◌, ◌-◌, Bool, true, false, not, ◌&&◌, Option, none, some, List, [], ◌∷◌, ◌++◌,
  String, string_key, ◌==◌, leb, ltb, length, if◌then◌else◌,
}
use pynchronize.Prelude.Dict
use pynchronize.Prelude.Dict.{Dict, has}
use pynchronize.Failure.{
  NodeStatus, alive, suspected, dead, NodeState, StatusChange, new_state, report, same_status,
}

-- A value of phi, in the unit of the threshold; `infinite` is `float("inf")`.
pub data Phi : Type 0 where
  finite : ℕ → Phi
  infinite : Phi

pub record PhiAccrualFailureDetector : Type 0 where
  pub node_id : String
  pub threshold : ℕ
  pub min_samples : ℕ
  pub max_samples : ℕ
  pub nodes : Dict String NodeState
  pub heartbeat_history : Dict String (List ℕ)

unfoldable pub register_node : ℕ → String → PhiAccrualFailureDetector → PhiAccrualFailureDetector
register_node now id d =
    if not (id == d.node_id) && not (has id d.nodes)
    then record d {
      nodes = Dict.assign id (new_state now id) d.nodes;
      heartbeat_history = Dict.assign id [] d.heartbeat_history;
    }
    else d

abbrev pub tail_of : List ℕ → List ℕ
tail_of [] = []
tail_of (x ∷ xs) = xs

-- `history.append(interval)`, and the oldest is dropped where there are too many
unfoldable pub add_sample : ℕ → ℕ → List ℕ → List ℕ
add_sample max_samples interval history =
    let h = history ++ interval ∷ [] in if ltb max_samples (length h) then tail_of h else h

-- the history of a node, where it has one
unfoldable pub sample :
    ℕ → ℕ → String → Option (List ℕ) → Dict String (List ℕ) → Option (Dict String (List ℕ))
unfolding add_sample
sample max_samples interval id none d = none
sample max_samples interval id (some history) d =
    some (Dict.assign id (add_sample max_samples interval history) d)

unfoldable pub beat_with :
    ℕ
    → String
    → NodeState
    → PhiAccrualFailureDetector
    → Option (Dict String (List ℕ))
    → Option (PhiAccrualFailureDetector × List StatusChange)
unfolding report
beat_with now id s d none = none
beat_with now id s d (some histories) = some (
  record d {
    heartbeat_history = histories;
    nodes = Dict.assign id (record s { status = alive; last_heartbeat = now }) d.nodes;
  },
  report s alive,
)

-- `record_heartbeat` for a node with a state; none where it has no history, which raises
unfoldable pub refresh :
    ℕ
    → String
    → Option NodeState
    → PhiAccrualFailureDetector
    → Option (PhiAccrualFailureDetector × List StatusChange)
unfolding sample beat_with
refresh now id none d = some (d, [])
refresh now id (some s) d = beat_with now id s d (
    if ltb 0 s.last_heartbeat
    then sample d.max_samples (now - s.last_heartbeat) id (Dict.get id d.heartbeat_history)
        d.heartbeat_history
    else some d.heartbeat_history)

unfoldable pub record_heartbeat :
    ℕ → String → PhiAccrualFailureDetector → Option (PhiAccrualFailureDetector × List StatusChange)
unfolding refresh
record_heartbeat now id d = refresh now id (Dict.get id d.nodes) d

unfoldable pub sum : List ℕ → ℕ
sum [] = 0
sum (x ∷ xs) = x + sum xs

abbrev pub or_nil : Option (List ℕ) → List ℕ
or_nil none = []
or_nil (some xs) = xs

-- `_calculate_phi` behind the first guards, where `elapsed <= mean` is written without the division; none
-- where the mean of no samples raises a ZeroDivisionError
unfoldable pub phi_of_samples : (List ℕ → ℕ → Phi) → ℕ → List ℕ → Option Phi
unfolding sum
phi_of_samples score elapsed [] = none
phi_of_samples score elapsed (x ∷ history) =
    if leb (elapsed * length (x ∷ history)) (sum (x ∷ history))
    then some (finite 0)
    else some (score (x ∷ history) elapsed)

-- `_calculate_phi` of a node with a state
unfoldable pub phi_of : (List ℕ → ℕ → Phi) → ℕ → ℕ → List ℕ → Option Phi
unfolding phi_of_samples
phi_of score min_samples elapsed history =
    if ltb (length history) min_samples
    then some (finite 0)
    else phi_of_samples score elapsed history

-- `_calculate_phi`; none where it raises
unfoldable pub calculate_phi :
    (List ℕ → ℕ → Phi) → ℕ → String → PhiAccrualFailureDetector → Option Phi
unfolding phi_of
calculate_phi score now id d = elim (Dict.get id d.nodes) [
  | none ↦ some infinite
  | some s ↦
      phi_of score d.min_samples (now - s.last_heartbeat) (or_nil (Dict.get id d.heartbeat_history))
]

-- `phi >= threshold`
unfoldable pub reaches : Phi → ℕ → Bool
reaches infinite threshold = true
reaches (finite phi) threshold = leb threshold phi

-- `phi >= threshold * 0.7`
unfoldable pub is_close : Phi → ℕ → Bool
is_close infinite threshold = true
is_close (finite phi) threshold = leb (7 * threshold) (10 * phi)

-- `is_alive`; none where it raises
unfoldable pub is_alive : (List ℕ → ℕ → Phi) → ℕ → String → PhiAccrualFailureDetector → Option Bool
unfolding calculate_phi reaches
is_alive score now id d = elim (calculate_phi score now id d) [
  | none ↦ none
  | some phi ↦ some (not (reaches phi d.threshold))
]

-- the status that `_check_nodes` sets
unfoldable pub judge : Phi → ℕ → NodeStatus → NodeStatus
unfolding reaches is_close
judge phi threshold old =
    if reaches phi threshold then dead else if is_close phi threshold then suspected else old

-- The loop of `_check_nodes`, which ends where it raises: the states as they are then, the calls that were
-- made, and whether it did not raise.
unfoldable pub check_states :
    (String → Option Phi)
    → ℕ
    → Dict String NodeState
    → Dict String NodeState × List StatusChange × Bool
unfolding judge report
check_states phi threshold [] = ([], [], true)
check_states phi threshold ((id, s) ∷ rest) = elim (phi id) [
  | none ↦ ((id, s) ∷ rest, [], false)
  | some p ↦
      let (rest', calls, ended) = check_states phi threshold rest in
      let new = judge p threshold s.status in
      (
        (id, record s { status = new }) ∷ rest',
        report (record s { node_id = id }) new ++ calls,
        ended,
      )
]

-- `_check_nodes`, where nothing else runs between the nodes
unfoldable pub check_nodes :
    (List ℕ → ℕ → Phi)
    → ℕ
    → PhiAccrualFailureDetector
    → PhiAccrualFailureDetector × List StatusChange × Bool
unfolding check_states calculate_phi
check_nodes score now d =
    let (states, calls, ended) =
      check_states (λ id. calculate_phi score now id d) d.threshold d.nodes in
    (record d { nodes = states }, calls, ended)

-- A call of an operation that changes the detector, with the reading of the clock.
pub data Call : Type 0 where
  register : ℕ → String → Call
  heartbeat : ℕ → String → Call
  check : ℕ → Call

unfoldable pub run_call :
    (List ℕ → ℕ → Phi) → Call → PhiAccrualFailureDetector → Option PhiAccrualFailureDetector
run_call score (register now id) d = some (register_node now id d)
run_call score (heartbeat now id) d = elim (record_heartbeat now id d) [
  | none ↦ none
  | some r ↦ some (r.0)
]
run_call score (check now) d =
    let (d', calls, ended) = check_nodes score now d in if ended then some d' else none

-- the calls in their order; none where one of them raises
unfoldable pub run_calls :
    (List ℕ → ℕ → Phi) → List Call → PhiAccrualFailureDetector → Option PhiAccrualFailureDetector
unfolding run_call
run_calls score [] d = some d
run_calls score (c ∷ calls) d = elim (run_call score c d) [
  | none ↦ none
  | some d' ↦ run_calls score calls d'
]
