-- ===== src/Accrual/Samples.antt =====
-- src/communication/failure_detector.py: the histories of a `PhiAccrualFailureDetector`.
use pynchronize.Prelude.{
  ◌<◌, ℕ, suc, ◌-◌, ◌≡◌, refl, ◌≤◌, Bool, true, false, not, ◌&&◌, Bool-cases, inl, inr, Option,
  none, some, List, [], ◌∷◌, ◌++◌, String, string_key, ◌==◌, arith, length, ltb, if◌then◌else◌, ◌∙◌,
  sym, ap, same→eq, subst,
}
use pynchronize.Prelude.Dict
use pynchronize.Prelude.Dict.{Dict, has, is_some, get-assign}
use pynchronize.Failure.{NodeState, StatusChange, new_state, alive}
use pynchronize.Accrual.Checks.{Answers, check_states-ended, calculate_phi-Answers}
use pynchronize.Accrual.{
  Phi, PhiAccrualFailureDetector, register_node, tail_of, add_sample, sample, beat_with, refresh,
  record_heartbeat, check_states, check_nodes, Call, register, heartbeat, check, run_call,
  run_calls,
}

length-append_one : (x : ℕ) (xs : List ℕ) → length (xs ++ x ∷ []) ≡ suc (length xs)
length-append_one x [] = refl
length-append_one x (y ∷ xs) = ap suc (length-append_one x xs)

length-tail_of : (xs : List ℕ) → length (tail_of xs) ≡ length xs - 1
length-tail_of [] = refl
length-tail_of (x ∷ xs) = omega arith

add_sample-le :
    (most interval : ℕ) (history : List ℕ)
    → length history ≤ most
    → length (add_sample most interval history) ≤ most
unfolding add_sample
add_sample-le most x h le = ground (arith, length-append_one x h, length-tail_of (h ++ x ∷ []), le)

-- Every node that is watched has a history, of at most `max_samples` intervals.
abbrev pub IsSampled : PhiAccrualFailureDetector → Type 0
IsSampled d =
    (id : String)
    → has id d.nodes ≡ true
    → (h : List ℕ) × (Dict.get id d.heartbeat_history ≡ some h) × (length h ≤ d.max_samples)

assign-IsSampled :
    (d : PhiAccrualFailureDetector) (j : String) (s : NodeState) (h : List ℕ)
    → length h ≤ d.max_samples
    → IsSampled d
    → IsSampled (record d {
      nodes = Dict.assign j s d.nodes;
      heartbeat_history = Dict.assign j h d.heartbeat_history;
    })
assign-IsSampled d j s h le w id k = elim (Bool-cases (j == id)) [
  | inl hit ↦ (h, get-assign id j h d.heartbeat_history ∙ rw hit refl, le)
  | inr miss ↦
      let (h', e, le') = w id (ground (arith, k, miss, get-assign id j s d.nodes)) in
      (h', get-assign id j h d.heartbeat_history ∙ rw miss e, le')
]

register_node-IsSampled :
    (now : ℕ) (id : String) (d : PhiAccrualFailureDetector)
    → IsSampled d
    → IsSampled (register_node now id d)
unfolding register_node
register_node-IsSampled now id d w = go (id == d.node_id) (has id d.nodes)
  where
    go :
        (b c : Bool)
        → IsSampled (
            if not b && not c
            then record d {
              nodes = Dict.assign id (new_state now id) d.nodes;
              heartbeat_history = Dict.assign id [] d.heartbeat_history;
            }
            else d)
    go true c = w
    go false true = w
    go false false = assign-IsSampled d id (new_state now id) [] (omega arith) w

register_node-min_samples :
    (now : ℕ) (id : String) (d : PhiAccrualFailureDetector)
    → (register_node now id d).min_samples ≡ d.min_samples
unfolding register_node
register_node-min_samples now id d = ground arith

-- A heartbeat raises no KeyError, and leaves the histories as they should be.
record_heartbeat-IsSampled :
    (now : ℕ) (id : String) (d : PhiAccrualFailureDetector)
    → IsSampled d
    → (r : PhiAccrualFailureDetector × List StatusChange) × (record_heartbeat now id d ≡ some r)
      × (r.0.min_samples ≡ d.min_samples)
      × IsSampled r.0
unfolding record_heartbeat refresh beat_with sample
record_heartbeat-IsSampled now id d w = go (Dict.get id d.nodes) refl
  where
    known :
        (s : NodeState)
        → Dict.get id d.nodes ≡ some s
        → (j : String)
        → has j (Dict.assign id (record s { status = alive; last_heartbeat = now }) d.nodes) ≡ true
        → has j d.nodes ≡ true
    known s e j k = elim (Bool-cases (id == j)) [
      | inl hit ↦ subst (λ x. has x d.nodes ≡ true) (same→eq id j hit) (rw e refl)
      | inr miss ↦ ground (
        arith,
        k,
        miss,
        get-assign j id (record s { status = alive; last_heartbeat = now }) d.nodes,
      )
    ]

    beaten :
        (s : NodeState) (h : List ℕ)
        → Dict.get id d.nodes ≡ some s
        → Dict.get id d.heartbeat_history ≡ some h
        → length h ≤ d.max_samples
        → (b : Bool)
        → (r : PhiAccrualFailureDetector × List StatusChange) × (beat_with now id s d (
              if b
              then sample d.max_samples
                  (now - s.last_heartbeat)
                  id
                  (Dict.get id d.heartbeat_history)
                  d.heartbeat_history
              else some d.heartbeat_history)
            ≡ some r)
          × (r.0.min_samples ≡ d.min_samples)
          × IsSampled r.0
    beaten s h e f le true = rw f (
      _,
      refl,
      refl,
      assign-IsSampled d id (record s { status = alive; last_heartbeat = now })
          (add_sample d.max_samples (now - s.last_heartbeat) h)
          (add_sample-le d.max_samples (now - s.last_heartbeat) h le) w,
    )
    beaten s h e f le false = (_, refl, refl, λ j k. w j (known s e j k))

    go :
        (o : Option NodeState)
        → Dict.get id d.nodes ≡ o
        → (r : PhiAccrualFailureDetector × List StatusChange) × (refresh now id o d ≡ some r)
          × (r.0.min_samples ≡ d.min_samples)
          × IsSampled r.0
    go none e = ((d, []), refl, refl, w)
    go (some s) e = let (h, f, le) = w id (rw e refl) in beaten s h e f le (ltb 0 s.last_heartbeat)

has-check_states :
    (phi : String → Option Phi) (threshold : ℕ) (d : Dict String NodeState) (id : String)
    → Answers phi
    → has id (check_states phi threshold d).0 ≡ has id d
unfolding check_states Dict.get
has-check_states phi threshold [] id a = refl
has-check_states phi threshold ((j, s) ∷ d) id a =
    let (p, e) = a j in
    elim (Bool-cases (j == id)) [
      | inl hit ↦ rw (check_states, e, hit) refl
      | inr miss ↦ rw (check_states, e, miss) (has-check_states phi threshold d id a)
    ]

-- What the operations keep: the histories, and that a mean can be taken.
record Runs (d : PhiAccrualFailureDetector) : Type 0 where
  sampled : IsSampled d
  some_samples : 0 < d.min_samples

check_nodes-Runs :
    (score : List ℕ → ℕ → Phi) (now : ℕ) (d : PhiAccrualFailureDetector)
    → Runs d
    → ((check_nodes score now d).2 ≡ true) × Runs (check_nodes score now d).0
unfolding check_nodes
check_nodes-Runs score now d w =
    let a = calculate_phi-Answers score now d w.some_samples in
    (
      check_states-ended _ d.threshold d.nodes a,
      record {
        sampled = λ id k. w.sampled id (sym (has-check_states _ d.threshold d.nodes id a) ∙ k);
        some_samples = w.some_samples;
      },
    )

run_call-Runs :
    (score : List ℕ → ℕ → Phi) (c : Call) (d : PhiAccrualFailureDetector)
    → Runs d
    → (d' : PhiAccrualFailureDetector) × (run_call score c d ≡ some d') × Runs d'
unfolding run_call
run_call-Runs score (register now id) d w = (
  register_node now id d,
  refl,
  record {
    sampled = register_node-IsSampled now id d w.sampled;
    some_samples = rw (register_node-min_samples now id d) w.some_samples;
  },
)
run_call-Runs score (heartbeat now id) d w =
    let (r, e, same, sampled) = record_heartbeat-IsSampled now id d w.sampled in
    (
      r.0,
      rw (run_call, e) refl,
      record { sampled = sampled; some_samples = rw same w.some_samples },
    )
run_call-Runs score (check now) d w =
    let (ended, w') = check_nodes-Runs score now d w in
    ((check_nodes score now d).0, rw (run_call, ended) refl, w')

-- Whatever operations are called on a detector that watches no node yet and has a `min_samples` of at
-- least 1, none of them raises, and then every node that it watches has a history of at most `max_samples`
-- intervals.
pub run_calls-IsSampled :
    (score : List ℕ → ℕ → Phi) (calls : List Call) (d : PhiAccrualFailureDetector)
    → d.nodes ≡ []
    → 0 < d.min_samples
    → (d' : PhiAccrualFailureDetector) × (run_calls score calls d ≡ some d') × IsSampled d'
unfolding run_calls Dict.get
run_calls-IsSampled score calls d e h =
    let (d', f, w) = run_all calls d (record {
      sampled = λ id k. absurd (nothing (subst (λ x. has id x ≡ true) e k));
      some_samples = h;
    }) in
    (d', f, w.sampled)
  where
    nothing : false ≡ true → ⊥
    nothing k = cc

    run_all :
        (cs : List Call) (x : PhiAccrualFailureDetector)
        → Runs x
        → (d' : PhiAccrualFailureDetector) × (run_calls score cs x ≡ some d') × Runs d'
    run_all [] x w = (x, refl, w)
    run_all (c ∷ cs) x w =
        let (y, e, w') = run_call-Runs score c x w in
        let (d', f, w'') = run_all cs y w' in (d', rw (run_calls, e) f, w'')
