-- ===== src/Accrual/Tests.antt =====
-- A detector with a window of three samples.
use pynchronize.Prelude.{ℕ, ◌≡◌, refl, true, none, some, List, [], ◌∷◌, string_key, arith}
use pynchronize.Prelude.Dict
use pynchronize.Failure.{alive, NodeState, report, same_status}
use pynchronize.Accrual.{
  check, Phi, finite, PhiAccrualFailureDetector, or_nil, register_node, record_heartbeat, refresh,
  sample, beat_with, add_sample, is_alive, check_nodes, Call, register, heartbeat, run_call,
  run_calls, calculate_phi, phi_of, phi_of_samples, sum, reaches, is_close, judge, check_states,
}
use pynchronize.Accrual.Samples.{IsSampled, run_calls-IsSampled}
use pynchronize.Accrual.Checks.{status_of, check_nodes-silent}

accrual : Unit {0}
unfolding register_node record_heartbeat refresh sample beat_with add_sample is_alive check_nodes
    run_call run_calls calculate_phi phi_of phi_of_samples sum reaches is_close judge check_states
    report same_status Dict.get Dict.assign
accrual = tt

abbrev detector : PhiAccrualFailureDetector
detector = record {
  node_id = "a";
  threshold = 8;
  min_samples = 2;
  max_samples = 3;
  nodes = [];
  heartbeat_history = [];
}

-- the score is the time since the last heartbeat
abbrev score : List ℕ → ℕ → Phi
score history elapsed = finite elapsed

abbrev calls : List Call
calls =
    register 10 "b" ∷ heartbeat 20 "b" ∷ heartbeat 31 "b" ∷ heartbeat 43 "b" ∷ heartbeat 56 "b" ∷ []

-- the first interval is no longer there
run_calls-window :
    elim (run_calls score calls detector) [
      | none ↦ []
      | some d ↦ or_nil (Dict.get "b" d.heartbeat_history)
    ]
    ≡ 11 ∷ 12 ∷ 13 ∷ []
unfolding accrual
run_calls-window = refl

run_calls-IsSampled_example :
    (d : PhiAccrualFailureDetector) × (run_calls score calls detector ≡ some d) × IsSampled d
run_calls-IsSampled_example = run_calls-IsSampled score calls detector refl (omega arith)

abbrev state : NodeState
state = record { node_id = "b"; status = alive; last_heartbeat = 10; missed_heartbeats = 0 }

abbrev silent : PhiAccrualFailureDetector
silent = record detector { nodes = ("b", state) ∷ []; heartbeat_history = ("b", []) ∷ [] }

-- a node that never sent a heartbeat, after a long time
check_nodes-silent_example :
    (is_alive score 100000 "b" silent ≡ some true)
    × (status_of (Dict.get "b" (check_nodes score 100000 silent).0.nodes) ≡ some alive)
unfolding accrual
check_nodes-silent_example =
    check_nodes-silent score 100000 silent "b" state refl (omega arith) (omega arith)

-- with `min_samples` 0 the first check after a registration raises
run_calls-no_samples :
    run_calls score (register 10 "b" ∷ check 20 ∷ []) (record detector { min_samples = 0 }) ≡ none
unfolding accrual
run_calls-no_samples = refl
