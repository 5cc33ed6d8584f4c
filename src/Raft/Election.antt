-- ===== src/Raft/Election.antt =====
-- Election safety: at most one leader in a term.
use pynchronize.Prelude.{
  ℕ, ◌+◌, ◌/◌, ◌≤◌, ◌≡◌, ◌⊎◌, inl, inr, refl, sym, ◌∙◌, ap, fun_ext, subst, Bool, true, Option,
  none, some, List, [], ◌∷◌, ◌==◌, String, string_key, contains, Distinct, Bool-cases, same→eq,
  same_refl, arith, length, length-map,
}
use mathlib.Core.Option.{some-injective}
use pynchronize.Prelude.Dict
use pynchronize.Prelude.Dict.{Dict, keys, UniqueKeys, assign-UniqueKeys, contains-keys, get-assign}
use pynchronize.Prelude.Count.{majorities_meet}
use pynchronize.Config.{Cluster}
use pynchronize.Raft.Node.{
  Node, RequestVote, Response, new_node, restart, follower, candidate, leader, observe_term,
  step_down, save_state,
}
use pynchronize.Raft.Votes.{
  handle_request_vote, start_election, finish_election, count_vote, count_votes, cast_vote, grants,
  become_leader_now,
}
use pynchronize.Raft.Steps.{
  Calm, VoteSaved, handle_request_vote-Calm, handle_append_entries-Calm, end_exchange-Calm,
  try_commit-Calm, append_command-Calm, Calm-refl,
}
use pynchronize.Raft.Cluster.{
  Ballot, In, System, update, node_ids, Honest, start_system, with_node, after_vote, after_ask,
  after_count, Step, Reach,
}

abbrev ballot : String → ℕ → String → Ballot
ballot v t c = record { voter = v; term = t; candidate_id = c }

update_twice :
    {A : Type 0} (f : String → A) (v : String) (x y : A) → update (update f v x) v y ≡ update f v y
update_twice f v x y = fun_ext λ j. elim (Bool-cases (v == j)) [ inl p ↦ rw p | inr p ↦ rw p ]

contains-assign :
    (a b : String) (d : Dict String Bool)
    → contains b (keys (Dict.assign a true d)) ≡ true
    → ((a == b) ≡ true) ⊎ (contains b (keys d) ≡ true)
contains-assign a b d h =
    ground (arith, contains-keys b (Dict.assign a true d), contains-keys b d, get-assign b a true d)

module _ {C : Type 0} (cluster : Cluster) where
  -- More than half of the cluster voted for `id` in its term.
  pub record Elected (s : System C) (id : String) : Type 0 where
    pub voters : List String
    pub distinct : Distinct voters
    pub members : (v : String) → contains v voters ≡ true → contains v (node_ids cluster) ≡ true
    pub enough : length cluster / 2 + 1 ≤ length voters
    pub voted :
        (v : String)
        → contains v voters ≡ true
        → In (ballot v (s.node id).current_term id) s.ballots

  -- The votes that a node has counted in the election that it runs.
  pub record Counted (s : System C) (id : String) (t : ℕ) : Type 0 where
    pub unique : UniqueKeys (s.node id).votes_received
    pub known :
        (v : String)
        → contains v (keys (s.node id).votes_received) ≡ true
        → contains v (node_ids cluster) ≡ true
    pub given :
        (v : String)
        → contains v (keys (s.node id).votes_received) ≡ true
        → In (ballot v t id) s.ballots

  pub record Inv (s : System C) : Type 0 where
    pub named : (id : String) → ((s.node id).node_id ≡ id) × ((s.node id).cluster ≡ cluster)
    pub saved : (id : String) → VoteSaved (s.node id)
    pub kept :
        (v : String) (t : ℕ) (c : String)
        → In (ballot v t c) s.ballots
        → (t ≤ (s.node v).current_term)
          × ((s.node v).current_term ≡ t → (s.node v).voted_for ≡ some c)
    pub once :
        (v : String) (t : ℕ) (c d : String)
        → In (ballot v t c) s.ballots
        → In (ballot v t d) s.ballots
        → c ≡ d
    pub asked :
        (id : String) (t : ℕ)
        → s.asking id ≡ some t
        → (s.node id).state ≡ candidate
        → (s.node id).current_term ≡ t
    pub counted : (id : String) (t : ℕ) → s.asking id ≡ some t → Counted s id t
    pub won : (id : String) → (s.node id).state ≡ leader → Elected s id

  -- Two leaders of one term are one node.
  Inv-safe :
      (s : System C)
      → Inv s
      → (a b : String) → (s.node a).state ≡ leader
      → (s.node b).state ≡ leader
      → (s.node a).current_term ≡ (s.node b).current_term
      → a ≡ b
  Inv-safe s inv a b la lb e =
      let p = inv.won a la in
      let q = inv.won b lb in
      let (v, vp, vq) =
        majorities_meet p.voters q.voters (node_ids cluster) p.distinct q.distinct p.members
          q.members (omega (arith, p.enough, q.enough, length-map_ids)) in
      inv.once v (s.node b).current_term a b (rw e at (p.voted v vp)) (q.voted v vq)
    where
      length-map_ids : length (node_ids cluster) ≡ length cluster
      length-map_ids = length-map cluster (λ n. n.node_id)

  -- What every step does to a node.
  record Moved (n n' : Node C) : Type 0 where
    same_id : n'.node_id ≡ n.node_id
    same_cluster : n'.cluster ≡ n.cluster
    saves : VoteSaved n → VoteSaved n'
    term_le : n.current_term ≤ n'.current_term
    vote_kept :
        (c : String)
        → n'.current_term ≡ n.current_term
        → n.voted_for ≡ some c
        → n'.voted_for ≡ some c

  -- What every step but a won election does to a node.
  record Forward (n n' : Node C) : Type 0 where
    moved : Moved n n'
    leader_kept : n'.state ≡ leader → (n.state ≡ leader) × (n'.current_term ≡ n.current_term)

  Calm-Forward : {n n' : Node C} → Calm n n' → Forward n n'
  Calm-Forward c = record {
    moved = record {
      same_id = c.same_id;
      same_cluster = c.same_cluster;
      saves = c.saves;
      term_le = c.term_le;
      vote_kept = c.vote_kept;
    };
    leader_kept = c.leader_kept;
  }

  -- More than half of the cluster voted for `id` also after a step that keeps its term and the ballots.
  Elected-move :
      (s s' : System C) (id : String)
      → (s'.node id).current_term ≡ (s.node id).current_term
      → s'.ballots ≡ s.ballots
      → Elected s id
      → Elected s' id
  Elected-move s s' id same e w = record {
    voters = w.voters;
    distinct = w.distinct;
    members = w.members;
    enough = w.enough;
    voted = rw (same, e) w.voted;
  }

  -- A step that adds no ballot, in which the nodes that still wait for a broadcast stay calm.
  move-Inv :
      (s s' : System C)
      → Inv s
      → ((id : String) → Moved (s.node id) (s'.node id))
      → s'.ballots ≡ s.ballots
      → ((id : String) (t : ℕ)
          → s'.asking id ≡ some t
          → (s.asking id ≡ some t) × Calm (s.node id) (s'.node id))
      → ((id : String) → (s'.node id).state ≡ leader → Elected s' id)
      → Inv s'
  move-Inv s s' inv f e still lead = record {
    named = λ id. ((f id).same_id ∙ (inv.named id).0, (f id).same_cluster ∙ (inv.named id).1);
    saved = λ id. (f id).saves (inv.saved id);
    kept = λ v t c m.
        let (le, vote) = inv.kept v t c (rw e at m) in
        let up = (f v).term_le in
        (
          omega arith,
          λ q.
              let same : (s'.node v).current_term ≡ (s.node v).current_term = omega arith in
              (f v).vote_kept c same (vote (omega arith)),
        );
    once = λ v t c d m m'. inv.once v t c d (rw e at m) (rw e at m');
    asked = λ id t q st.
        let (q', calm) = still id t q in
        let (st', same) = calm.candidate_kept st in same ∙ inv.asked id t q' st';
    counted = λ id t q.
        let (q', calm) = still id t q in
        let k = inv.counted id t q' in
        record {
          unique = rw calm.same_votes k.unique;
          known = rw calm.same_votes k.known;
          given = rw (calm.same_votes, e) k.given;
        };
    won = lead;
  }

  Forward-Inv :
      (s s' : System C)
      → Inv s
      → ((id : String) → Forward (s.node id) (s'.node id))
      → s'.ballots ≡ s.ballots
      → ((id : String) (t : ℕ)
          → s'.asking id ≡ some t
          → (s.asking id ≡ some t) × Calm (s.node id) (s'.node id))
      → Inv s'
  Forward-Inv s s' inv f e still =
      move-Inv s s' inv (λ id. (f id).moved) e still
        (λ id st.
          let (st', same) = (f id).leader_kept st in Elected-move s s' id same e (inv.won id st'))

  -- What the ballots say of the votes, with one more that is the node's own term and vote.
  abbrev KeptAt : System C → String → ℕ → String → Type 0
  KeptAt s v t c =
      (t ≤ (s.node v).current_term) × ((s.node v).current_term ≡ t → (s.node v).voted_for ≡ some c)

  extend-kept :
      (s : System C) (v : String) (t : ℕ) (c : String)
      → Inv s
      → (s.node v).current_term ≡ t
      → (s.node v).voted_for ≡ some c
      → (v' : String) (t' : ℕ) (c' : String) → In (ballot v' t' c') (ballot v t c ∷ s.ballots)
      → KeptAt s v' t' c'
  extend-kept s v t c inv et ec v' t' c' m = elim m [
    | inl q ↦
        let qv : v ≡ v' = ap (λ (b : Ballot). b.voter) q in
        let qt : t ≡ t' = ap (λ (b : Ballot). b.term) q in
        let qc : c ≡ c' = ap (λ (b : Ballot). b.candidate_id) q in
        rw (← qv, ← qt, ← qc) (omega arith, λ _. ec)
    | inr old ↦ inv.kept v' t' c' old
  ]

  -- Two ballots of the term that their voter is in name its one vote.
  one_vote :
      (s : System C) (v : String) (t : ℕ) (c d : String)
      → (s.node v).current_term ≡ t
      → KeptAt s v t c
      → KeptAt s v t d
      → c ≡ d
  one_vote s v t c d e k k' = some-injective c d (sym (k.1 e) ∙ k'.1 e)

  -- A ballot of the node's own term and vote.
  extend-Inv :
      (s : System C) (v : String) (t : ℕ) (c : String)
      → Inv s
      → (s.node v).current_term ≡ t
      → (s.node v).voted_for ≡ some c
      → Inv (record s { ballots = ballot v t c ∷ s.ballots })
  extend-Inv s v t c inv et ec = record {
    named = inv.named;
    saved = inv.saved;
    kept = extend-kept s v t c inv et ec;
    once = λ v' t' c' d' m m'.
        once_more v' t' c' d' m m' (extend-kept s v t c inv et ec v' t' c' m)
          (extend-kept s v t c inv et ec v' t' d' m');
    asked = inv.asked;
    counted = λ id t' q.
        let k = inv.counted id t' q in
        record { unique = k.unique; known = k.known; given = λ a h. inr (k.given a h) };
    won = λ id st.
        let w = inv.won id st in
        record {
          voters = w.voters;
          distinct = w.distinct;
          members = w.members;
          enough = w.enough;
          voted = λ a h. inr (w.voted a h);
        };
  }
    where
      term_at :
          (v' : String) (t' : ℕ) (c' : String)
          → ballot v t c ≡ ballot v' t' c'
          → (s.node v').current_term ≡ t'
      term_at v' t' c' q =
          let qv : v ≡ v' = ap (λ (b : Ballot). b.voter) q in
          let qt : t ≡ t' = ap (λ (b : Ballot). b.term) q in rw (← qv, ← qt) et

      once_more :
          (v' : String) (t' : ℕ) (c' d' : String)
          → In (ballot v' t' c') (ballot v t c ∷ s.ballots)
          → In (ballot v' t' d') (ballot v t c ∷ s.ballots)
          → KeptAt s v' t' c'
          → KeptAt s v' t' d'
          → c' ≡ d'
      once_more v' t' c' d' (inl q) m' k k' = one_vote s v' t' c' d' (term_at v' t' c' q) k k'
      once_more v' t' c' d' (inr o) (inl q) k k' = one_vote s v' t' c' d' (term_at v' t' d' q) k k'
      once_more v' t' c' d' (inr o) (inr o') k k' = inv.once v' t' c' d' o o'

  -- A node that is a candidate only of term `t` begins to wait for its broadcast.
  arm-Inv :
      (s : System C) (v : String) (t : ℕ)
      → Inv s
      → (s.node v).current_term ≡ t
      → Counted s v t
      → Inv (record s { asking = update s.asking v (some t) })
  arm-Inv s v t inv e k = record {
    named = inv.named;
    saved = inv.saved;
    kept = inv.kept;
    once = inv.once;
    asked = λ id t' q st. elim (Bool-cases (v == id)) [
      | inl p ↦ let pt : t ≡ t' = some-injective t t' (rw p at q) in rw (← same→eq v id p, ← pt) e
      | inr p ↦ inv.asked id t' (rw p at q) st
    ];
    counted = λ id t' q. elim (Bool-cases (v == id)) [
      | inl p ↦
          let pt : t ≡ t' = some-injective t t' (rw p at q) in
          rw (← same→eq v id p, ← pt)
            (record { unique = k.unique; known = k.known; given = k.given })
      | inr p ↦
          let k' = inv.counted id t' (rw p at q) in
          record { unique = k'.unique; known = k'.known; given = k'.given }
    ];
    won = λ id st.
        let w = inv.won id st in
        record {
          voters = w.voters;
          distinct = w.distinct;
          members = w.members;
          enough = w.enough;
          voted = w.voted;
        };
  }

  -- Steps of one node that is calm.
  update-Calm :
      (s : System C) (v : String) (n : Node C)
      → Calm (s.node v) n
      → (id : String) → Calm (s.node id) (update s.node v n id)
  update-Calm s v n c id = elim (Bool-cases (v == id)) [
    | inl p ↦ rw (p, ← same→eq v id p) c
    | inr p ↦ rw p (Calm-refl (s.node id))
  ]

  Calm-Inv :
      (s : System C) (v : String) (n : Node C) → Inv s → Calm (s.node v) n → Inv (with_node s v n)
  Calm-Inv s v n inv c =
      Forward-Inv s (with_node s v n) inv (λ id. Calm-Forward (update-Calm s v n c id)) refl
        (λ id t q. (q, update-Calm s v n c id))

  update-Forward :
      (s : System C) (v : String) (n : Node C)
      → Forward (s.node v) n
      → (id : String) → Forward (s.node id) (update s.node v n id)
  update-Forward s v n c id = elim (Bool-cases (v == id)) [
    | inl p ↦ rw (p, ← same→eq v id p) c
    | inr p ↦ rw p (Calm-Forward (Calm-refl (s.node id)))
  ]

  -- A step of a node that waits for no broadcast after it.
  unasked-Inv :
      (s : System C) (v : String) (n : Node C)
      → Inv s
      → Forward (s.node v) n
      → Inv (record s { node = update s.node v n; asking = update s.asking v none })
  unasked-Inv s v n inv f = Forward-Inv s _ inv (update-Forward s v n f) refl (λ id t q.
      elim (Bool-cases (v == id)) [
        | inl p ↦ cc (rw p at q)
        | inr p ↦ (rw p at q, rw p (Calm-refl (s.node id)))
      ])

  -- A vote that is granted is the node's vote of the term that was asked for.
  granted_vote :
      (now : ℕ) (m : RequestVote) (n : Node C)
      → (handle_request_vote now m n).1.granted ≡ true
      → ((handle_request_vote now m n).0.current_term ≡ m.term)
        × ((handle_request_vote now m n).0.voted_for ≡ some m.candidate_id)
  unfolding handle_request_vote cast_vote grants observe_term step_down
  granted_vote now m n g = ground arith

  vote-Inv :
      (s : System C) (v : String) (now : ℕ) (m : RequestVote) → Inv s → Inv (after_vote s v now m)
  vote-Inv s v now m inv =
      let n = (handle_request_vote now m (s.node v)).0 in
      let moved = Calm-Inv s v n inv (handle_request_vote-Calm now m (s.node v)) in
      elim (Bool-cases (handle_request_vote now m (s.node v)).1.granted) [
        | inr refused ↦ rw refused moved
        | inl granted ↦
            let (e, c) = granted_vote now m (s.node v) granted in
            rw granted (
              extend-Inv (with_node s v n) v m.term m.candidate_id moved (rw (same_refl v) e)
                (rw (same_refl v) c))
      ]

  start_election-Forward : (n : Node C) → Forward n (start_election n).0
  unfolding start_election save_state
  start_election-Forward n = record {
    moved = record {
      same_id = refl;
      same_cluster = refl;
      saves = λ h. record { term_saved = refl; vote_saved = refl };
      term_le = omega arith;
      vote_kept = λ c e v. absurd (omega arith);
    };
    leader_kept = λ e. cc;
  }

  own_vote :
      (s : System C) (v : String) (t : ℕ)
      → contains v (node_ids cluster) ≡ true
      → (s.node v).votes_received ≡ (v, true) ∷ []
      → In (ballot v t v) s.ballots
      → Counted s v t
  unfolding contains
  own_vote s v t member e own = record {
    unique = rw e (refl, tt);
    known = λ a h. let p : v ≡ a = same→eq v a (ground arith) in rw (← p) member;
    given = λ a h. let p : v ≡ a = same→eq v a (ground arith) in rw (← p) own;
  }

  ask-Inv :
      (s : System C) (v : String)
      → contains v (node_ids cluster) ≡ true
      → Inv s
      → Inv (after_ask s v)
  unfolding start_election save_state
  ask-Inv s v member inv =
      let n = (start_election (s.node v)).0 in
      let t : ℕ = (s.node v).current_term + 1 in
      let name = (inv.named v).0 in
      let s1 = record s { node = update s.node v n; asking = update s.asking v none } in
      let inv1 = unasked-Inv s v n inv (start_election-Forward (s.node v)) in
      let inv2 =
        extend-Inv s1 v t v inv1 (rw (same_refl v) refl) (rw (same_refl v) (ap some name)) in
      let s2 = record s1 { ballots = ballot v t v ∷ s.ballots } in
      let votes : (s2.node v).votes_received ≡ (v, true) ∷ [] =
        rw (same_refl v) (ap (λ (i : String). (i, true) ∷ []) name) in
      let mine = own_vote s2 v t member votes (inl refl) in
      subst (λ f. Inv (record s2 { asking = f })) (update_twice s.asking v none (some t))
        (arm-Inv s2 v t inv2 (rw (same_refl v) refl) mine)

  -- What is known of votes that are being counted.
  abbrev Fair : System C → String → ℕ → Dict String Bool → Type 0
  Fair s id t votes =
      UniqueKeys votes
      × ((v : String)
          → contains v (keys votes) ≡ true
          → (contains v (node_ids cluster) ≡ true) × In (ballot v t id) s.ballots)

  count_votes-Fair :
      (s : System C) (id : String) (t : ℕ) (rs : Dict String (Option Response))
      (votes : Dict String Bool)
      → Honest s.ballots t id rs
      → ((a : String) → contains a (keys rs) ≡ true → contains a (node_ids cluster) ≡ true)
      → Fair s id t votes
      → Fair s id t (count_votes rs votes)
  unfolding count_votes contains
  count_votes-Fair s id t [] votes h known f = f
  count_votes-Fair s id t ((a, none) ∷ rs) votes h known f =
      count_votes-Fair s id t rs votes h (λ b m. known b (ground arith)) f
  count_votes-Fair s id t ((a, some r) ∷ rs) votes h known f =
      count_votes-Fair s id t rs (count_vote a (some r) votes) h.1 (λ b m. known b (ground arith))
        (elim (Bool-cases r.granted) [
          | inr refused ↦ simp refused f
          | inl granted ↦ simp granted (
            assign-UniqueKeys a true votes f.0,
            λ b m. elim (contains-assign a b votes m) [
              | inl p ↦
                  let q : a ≡ b = same→eq a b p in
                  rw (← q) (known a (ground (arith, same_refl a)), h.0 granted)
              | inr old ↦ f.1 b old
            ],
          )
        ])

  -- A majority of fair votes elects.
  Fair-wins :
      (s : System C) (id : String) (votes : Dict String Bool)
      → Fair s id (s.node id).current_term votes
      → length cluster / 2 + 1 ≤ length votes
      → Elected s id
  Fair-wins s id votes f enough = record {
    voters = keys votes;
    distinct = f.0;
    members = λ v h. (f.1 v h).0;
    enough = omega (arith, length-map votes (λ (e : String × Bool). e.0));
    voted = λ v h. (f.1 v h).1;
  }

  with_votes : Node C → Dict String Bool → Node C
  with_votes n votes = record n { votes_received = votes }

  with_votes-Moved : (n : Node C) (votes : Dict String Bool) → Moved n (with_votes n votes)
  unfolding with_votes
  with_votes-Moved n votes = record {
    same_id = refl;
    same_cluster = refl;
    saves = λ h. record { term_saved = h.term_saved; vote_saved = h.vote_saved };
    term_le = omega arith;
    vote_kept = λ c e v. v;
  }

  become_leader_now-Moved :
      (n : Node C) (votes : Dict String Bool) → Moved n (become_leader_now (with_votes n votes))
  unfolding with_votes become_leader_now
  become_leader_now-Moved n votes = record {
    same_id = refl;
    same_cluster = refl;
    saves = λ h. record { term_saved = h.term_saved; vote_saved = h.vote_saved };
    term_le = omega arith;
    vote_kept = λ c e v. v;
  }

  -- The election is won, or nothing but the votes has changed.
  finish_election_cases :
      (n : Node C) (rs : Dict String (Option Response))
      → let votes = count_votes rs n.votes_received in
        ((finish_election rs n ≡ become_leader_now (with_votes n votes))
          × (length n.cluster / 2 + 1 ≤ length votes)
          × (n.state ≡ candidate))
        ⊎ (finish_election rs n ≡ with_votes n votes)
  unfolding finish_election with_votes
  finish_election_cases n rs = ground arith

  finish_election-term :
      (n : Node C) (rs : Dict String (Option Response))
      → (finish_election rs n).current_term ≡ n.current_term
  unfolding finish_election
  finish_election-term n rs = ground arith

  with_votes-state :
      (n : Node C) (votes : Dict String Bool)
      → (with_votes n votes).state ≡ leader
      → n.state ≡ leader
  unfolding with_votes
  with_votes-state n votes h = h

  -- A node that gets a new state and waits for no broadcast after it; if it leads, it is elected.
  settle-Inv :
      (s : System C) (v : String) (n : Node C)
      → Inv s
      → Moved (s.node v) n
      → (n.state ≡ leader
          → Elected (record s { node = update s.node v n; asking = update s.asking v none }) v)
      → Inv (record s { node = update s.node v n; asking = update s.asking v none })
  settle-Inv s v n inv m lead = move-Inv s s' inv moved refl still won
    where
      s' : System C
      s' = record s { node = update s.node v n; asking = update s.asking v none }

      moved : (id : String) → Moved (s.node id) (s'.node id)
      moved id = elim (Bool-cases (v == id)) [
        | inl p ↦ rw (p, ← same→eq v id p) m
        | inr p ↦ rw p (Calm-Forward (Calm-refl (s.node id))).moved
      ]

      still :
          (id : String) (t : ℕ)
          → s'.asking id ≡ some t
          → (s.asking id ≡ some t) × Calm (s.node id) (s'.node id)
      still id t q = elim (Bool-cases (v == id)) [
        | inl p ↦ cc (rw p at q)
        | inr p ↦ (rw p at q, rw p (Calm-refl (s.node id)))
      ]

      won : (id : String) → (s'.node id).state ≡ leader → Elected s' id
      won id st = elim (Bool-cases (v == id)) [
        | inl p ↦ let e : v ≡ id = same→eq v id p in subst (λ i. Elected s' i) e (lead (rw p at st))
        | inr p ↦ Elected-move s s' id (rw p refl) refl (inv.won id (rw p at st))
      ]

  count-Inv :
      (s : System C) (v : String) (t : ℕ) (rs : Dict String (Option Response))
      → s.asking v ≡ some t
      → Honest s.ballots t v rs
      → ((a : String) → contains a (keys rs) ≡ true → contains a (node_ids cluster) ≡ true)
      → Inv s
      → Inv (after_count s v rs)
  count-Inv s v t rs q honest known inv = settle-Inv s v (finish_election rs n) inv moved lead
    where
      n : Node C
      n = s.node v

      votes : Dict String Bool
      votes = count_votes rs n.votes_received

      fair : Fair s v t votes
      fair =
          let k = inv.counted v t q in
          count_votes-Fair s v t rs n.votes_received honest known
            (k.unique, λ a h. (k.known a h, k.given a h))

      moved : Moved n (finish_election rs n)
      moved = elim (finish_election_cases n rs) [
        | inl (e, enough, cand) ↦ rw e (become_leader_now-Moved n votes)
        | inr e ↦ rw e (with_votes-Moved n votes)
      ]

      elected : (finish_election rs n).state ≡ leader → Elected s v
      elected st = elim (finish_election_cases n rs) [
        | inl (e, enough, cand) ↦
            Fair-wins s v votes (rw (inv.asked v t q cand) fair) (rw (inv.named v).1 at enough)
        | inr e ↦ inv.won v (with_votes-state n votes (rw e at st))
      ]

      lead :
          (finish_election rs n).state ≡ leader
          → Elected
              (record s {
                node = update s.node v (finish_election rs n);
                asking = update s.asking v none;
              })
              v
      lead st = Elected-move s _ v (rw (same_refl v) (finish_election-term n rs)) refl (elected st)

  crash-Forward : (n : Node C) → VoteSaved n → Forward n (restart n)
  unfolding restart
  crash-Forward n h = record {
    moved = record {
      same_id = refl;
      same_cluster = refl;
      saves = λ _. record { term_saved = refl; vote_saved = refl };
      term_le = omega (arith, h.term_saved);
      vote_kept = λ c e v. h.vote_saved ∙ v;
    };
    leader_kept = λ e. cc;
  }

  -- Every step of the cluster keeps the invariant.
  pub Step-Inv : {s t : System C} → Inv s → Step cluster s t → Inv t
  Step-Inv {s} inv (Step.vote v now m) = vote-Inv s v now m inv
  Step-Inv {s} inv (Step.receive v now m) =
      Calm-Inv s v _ inv (handle_append_entries-Calm now m (s.node v))
  Step-Inv {s} inv (Step.ask v member) = ask-Inv s v member inv
  Step-Inv {s} inv (Step.count v t rs q honest known) = count-Inv s v t rs q honest known inv
  Step-Inv {s} inv (Step.command v c) = Calm-Inv s v _ inv (append_command-Calm c (s.node v))
  Step-Inv {s} inv (Step.reply v x r) = Calm-Inv s v _ inv (end_exchange-Calm x r (s.node v))
  Step-Inv {s} inv (Step.commit v) = Calm-Inv s v _ inv (try_commit-Calm (s.node v))
  Step-Inv {s} inv (Step.crash v) = unasked-Inv s v _ inv (crash-Forward (s.node v) (inv.saved v))

  -- No step takes a term back.
  pub Step-term_le :
      {s t : System C}
      → Inv s
      → Step cluster s t
      → (id : String) → (s.node id).current_term ≤ (t.node id).current_term
  Step-term_le {s} inv (Step.vote v now m) id =
      (update-Calm s v _ (handle_request_vote-Calm now m (s.node v)) id).term_le
  Step-term_le {s} inv (Step.receive v now m) id =
      (update-Calm s v _ (handle_append_entries-Calm now m (s.node v)) id).term_le
  Step-term_le {s} inv (Step.ask v member) id =
      (update-Forward s v _ (start_election-Forward (s.node v)) id).moved.term_le
  Step-term_le {s} inv (Step.count v t rs q honest known) id = elim (Bool-cases (v == id)) [
    | inl p ↦ rw (p, ← same→eq v id p) (omega (arith, finish_election-term (s.node v) rs))
    | inr p ↦ rw p (omega arith)
  ]
  Step-term_le {s} inv (Step.command v c) id =
      (update-Calm s v _ (append_command-Calm c (s.node v)) id).term_le
  Step-term_le {s} inv (Step.reply v x r) id =
      (update-Calm s v _ (end_exchange-Calm x r (s.node v)) id).term_le
  Step-term_le {s} inv (Step.commit v) id =
      (update-Calm s v _ (try_commit-Calm (s.node v)) id).term_le
  Step-term_le {s} inv (Step.crash v) id =
      (update-Forward s v _ (crash-Forward (s.node v) (inv.saved v)) id).moved.term_le

  -- No step takes a vote back.
  pub Step-ballots :
      {s t : System C} → Step cluster s t → (b : Ballot) → In b s.ballots → In b t.ballots
  Step-ballots {s} (Step.vote v now m) b i =
      elim (Bool-cases (handle_request_vote now m (s.node v)).1.granted) [
        | inl granted ↦ rw granted (inr i)
        | inr refused ↦ rw refused i
      ]
  Step-ballots (Step.receive v now m) b i = i
  Step-ballots (Step.ask v member) b i = inr i
  Step-ballots (Step.count v t rs q honest known) b i = i
  Step-ballots (Step.command v c) b i = i
  Step-ballots (Step.reply v x r) b i = i
  Step-ballots (Step.commit v) b i = i
  Step-ballots (Step.crash v) b i = i

  pub start-Inv : Inv (start_system cluster)
  unfolding new_node
  start-Inv = record {
    named = λ id. (refl, refl);
    saved = λ id. record { term_saved = refl; vote_saved = refl };
    kept = λ v t c m. absurd m;
    once = λ v t c d m m'. absurd m;
    asked = λ id t q st. cc;
    counted = λ id t q. absurd (none_ne q);
    won = λ id st. absurd (follower_ne st);
  }
    where
      none_ne : {t : ℕ} → none ≡ some t → ⊥
      none_ne q = cc

      follower_ne : follower ≡ leader → ⊥
      follower_ne q = cc

  pub Reach-Inv : {s : System C} → Reach cluster s → Inv s
  Reach-Inv Reach.start = start-Inv
  Reach-Inv (Reach.next r st) = Step-Inv (Reach-Inv r) st

  -- Election safety: in every state that the cluster can reach, by handlers, elections, lost and late
  -- messages and restarts in any order, two leaders of one term are the same node.
  pub election_safety :
      (s : System C)
      → Reach cluster s
      → (a b : String) → (s.node a).state ≡ leader
      → (s.node b).state ≡ leader
      → (s.node a).current_term ≡ (s.node b).current_term
      → a ≡ b
  election_safety s r = Inv-safe s (Reach-Inv r)

  -- In every state that the cluster can reach, a node has granted at most one vote in a term.
  pub one_vote_per_term :
      (s : System C)
      → Reach cluster s
      → (v : String) (t : ℕ) (c d : String) → In (ballot v t c) s.ballots
      → In (ballot v t d) s.ballots
      → c ≡ d
  one_vote_per_term s r = (Reach-Inv r).once
