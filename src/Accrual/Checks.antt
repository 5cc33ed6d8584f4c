-- ===== src/Accrual/Checks.antt =====
-- src/communication/failure_detector.py: what a round of `_check_nodes` makes of the status of a node.
use pynchronize.Prelude.{
  ℕ, ◌≡◌, refl, ◌<◌, true, not, Bool-cases, inl, inr, Option, none, some, List, [], ◌∷◌, String,
  string_key, ◌==◌, arith, length, ltb, ◌∙◌, ap, same→eq, sym, leb, ◌*◌, ◌-◌,
}
use pynchronize.Prelude.Dict
use pynchronize.Prelude.Dict.{Dict}
use pynchronize.Failure.{NodeStatus, NodeState}
use pynchronize.Accrual.{
  Phi, finite, infinite, sum, phi_of_samples, PhiAccrualFailureDetector, or_nil, phi_of,
  calculate_phi, reaches, is_close, is_alive, judge, check_states, check_nodes,
}

abbrev pub Answers : (String → Option Phi) → Type 0
Answers phi = (id : String) → (p : Phi) × (phi id ≡ some p)

-- the state behind the check of a node
abbrev check_with : Option Phi → ℕ → NodeState → NodeState
check_with none threshold s = s
check_with (some p) threshold s = record s { status = judge p threshold s.status }

abbrev judged : (String → Option Phi) → ℕ → String → Option NodeState → Option NodeState
judged phi threshold id none = none
judged phi threshold id (some s) = some (check_with (phi id) threshold s)

get-check_states :
    (phi : String → Option Phi) (threshold : ℕ) (d : Dict String NodeState) (id : String)
    → Answers phi
    → Dict.get id (check_states phi threshold d).0 ≡ judged phi threshold id (Dict.get id d)
unfolding check_states Dict.get
get-check_states phi threshold [] id a = refl
get-check_states phi threshold ((j, s) ∷ d) id a =
    let (p, e) = a j in
    elim (Bool-cases (j == id)) [
      | inl hit ↦
          rw (check_states, e, hit)
            (ap (λ o. some (check_with o threshold s)) (sym e ∙ ap phi (same→eq j id hit)))
      | inr miss ↦ rw (check_states, e, miss) (get-check_states phi threshold d id a)
    ]

-- Where every score can be taken, the loop comes to its end.
pub check_states-ended :
    (phi : String → Option Phi) (threshold : ℕ) (d : Dict String NodeState)
    → Answers phi
    → (check_states phi threshold d).2 ≡ true
unfolding check_states
check_states-ended phi threshold [] a = refl
check_states-ended phi threshold ((j, s) ∷ d) a =
    let (p, e) = a j in rw (check_states, e) (check_states-ended phi threshold d a)

-- With `min_samples` above 0 every score can be taken.
pub calculate_phi-Answers :
    (score : List ℕ → ℕ → Phi) (now : ℕ) (d : PhiAccrualFailureDetector)
    → 0 < d.min_samples
    → Answers (λ id. calculate_phi score now id d)
unfolding calculate_phi phi_of phi_of_samples
calculate_phi-Answers score now d h id = go (Dict.get id d.nodes)
  where
    samples :
        (elapsed : ℕ) (x : ℕ) (xs : List ℕ)
        → (p : Phi) × (phi_of_samples score elapsed (x ∷ xs) ≡ some p)
    samples elapsed x xs = elim (Bool-cases (leb (elapsed * length (x ∷ xs)) (sum (x ∷ xs)))) [
      | inl early ↦ (finite 0, rw early refl)
      | inr late ↦ (score (x ∷ xs) elapsed, rw late refl)
    ]

    of_history :
        (elapsed : ℕ) (history : List ℕ)
        → (p : Phi) × (phi_of score d.min_samples elapsed history ≡ some p)
    of_history elapsed [] =
        let few : ltb 0 d.min_samples ≡ true = ground (arith, h) in (finite 0, rw few refl)
    of_history elapsed (x ∷ xs) = elim (Bool-cases (ltb (length (x ∷ xs)) d.min_samples)) [
      | inl few ↦ (finite 0, rw few refl)
      | inr enough ↦ let (p, e) = samples elapsed x xs in (p, rw enough e)
    ]

    go :
        (o : Option NodeState)
        → (p : Phi) × (elim o as (λ o. Option Phi) [
          | none ↦ some infinite
          | some s ↦
              phi_of score d.min_samples
                (now - s.last_heartbeat)
                (or_nil (Dict.get id d.heartbeat_history))
        ]
            ≡ some p)
    go none = (infinite, refl)
    go (some s) = of_history (now - s.last_heartbeat) (or_nil (Dict.get id d.heartbeat_history))

-- the status of a node after a round
abbrev pub status_of : Option NodeState → Option NodeStatus
status_of none = none
status_of (some s) = some s.status

judge-zero :
    (threshold : ℕ) (old : NodeStatus) → 0 < threshold → judge (finite 0) threshold old ≡ old
unfolding judge reaches is_close
judge-zero threshold old h = ground arith

zero-reaches : (threshold : ℕ) → 0 < threshold → not (reaches (finite 0) threshold) ≡ true
unfolding reaches
zero-reaches threshold h = ground arith

calculate_phi-few :
    (score : List ℕ → ℕ → Phi) (now : ℕ) (id : String) (d : PhiAccrualFailureDetector)
    (s : NodeState)
    → Dict.get id d.nodes ≡ some s
    → length (or_nil (Dict.get id d.heartbeat_history)) < d.min_samples
    → calculate_phi score now id d ≡ some (finite 0)
unfolding calculate_phi phi_of
calculate_phi-few score now id d s e k =
    let few : ltb (length (or_nil (Dict.get id d.heartbeat_history))) d.min_samples ≡ true =
      ground (arith, k) in
    rw (calculate_phi, e, few) refl

-- A watched node of which there are not yet `min_samples` samples is held for alive, and a round of
-- `_check_nodes` leaves its status as it was, however long it has been silent; the threshold is not 0.
pub check_nodes-silent :
    (score : List ℕ → ℕ → Phi) (now : ℕ) (d : PhiAccrualFailureDetector) (id : String)
    (s : NodeState)
    → Dict.get id d.nodes ≡ some s
    → 0 < d.threshold
    → length (or_nil (Dict.get id d.heartbeat_history)) < d.min_samples
    → (is_alive score now id d ≡ some true)
      × (status_of (Dict.get id (check_nodes score now d).0.nodes) ≡ some s.status)
unfolding is_alive check_nodes
check_nodes-silent score now d id s e h k =
    let zero : calculate_phi score now id d ≡ some (finite 0) =
      calculate_phi-few score now id d s e k in
    (
      rw (is_alive, zero) (ap some (zero-reaches d.threshold h)),
      ap status_of (
            get-check_states (λ i. calculate_phi score now i d) d.threshold d.nodes id
              (calculate_phi-Answers score now d (omega (arith, k)))
            ∙ ap (judged (λ i. calculate_phi score now i d) d.threshold id) e
            ∙ ap (λ o. some (check_with o d.threshold s)) zero)
          ∙ ap some (judge-zero d.threshold s.status h),
    )
