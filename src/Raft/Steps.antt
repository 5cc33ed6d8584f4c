-- ===== src/Raft/Steps.antt =====
-- What a node keeps outside its own elections: terms, votes and roles, and the file.
use pynchronize.Prelude.{
  ℕ, zero, suc, ◌+◌, ◌-◌, ◌≤◌, ◌<◌, ◌≡◌, refl, ◌∙◌, ap, sym, true, false, Option, none, some, List,
  [], ◌∷◌, String, string_key, arith, Bool-cases, inl, inr, ltb, length, ◌⊎◌, if◌then◌else◌,
}
use pynchronize.Prelude.Dict.{Dict}
use pynchronize.Raft.Node.{
  candidate, leader, LogEntry, LeaderState, Node, RequestVote, AppendEntries, Response, is_state,
  restart, step_down, observe_term, apply_rounds, apply_committed,
}
use pynchronize.Raft.Votes.{grants, cast_vote, handle_request_vote}
use pynchronize.Raft.Entries.{
  store_entries, follow_commit, save_if_any, accept_entries, recognise_leader, reject_entries,
  check_entries, handle_append_entries, prev_matches,
}
use pynchronize.Raft.Leader.{
  Exchange, with_leader_state, advance, back_off, end_exchange, commit_round, commit_rounds,
  commit_with, try_commit, append_command, is_nil,
}

module _ {C : Type 0} where
  -- The file has the term and the vote of the node.
  pub record VoteSaved (n : Node C) : Type 0 where
    pub term_saved : n.saved.current_term ≡ n.current_term
    pub vote_saved : n.saved.voted_for ≡ n.voted_for

  -- From `n` to `n'` no term falls, no vote of the term is taken back, and the node does not become a
  -- candidate or a leader: if it is one, it was one, of the same term.
  pub record Calm (n n' : Node C) : Type 0 where
    pub same_id : n'.node_id ≡ n.node_id
    pub same_cluster : n'.cluster ≡ n.cluster
    pub same_votes : n'.votes_received ≡ n.votes_received
    pub term_le : n.current_term ≤ n'.current_term
    pub vote_kept :
        (c : String)
        → n'.current_term ≡ n.current_term
        → n.voted_for ≡ some c
        → n'.voted_for ≡ some c
    pub candidate_kept :
        n'.state ≡ candidate → (n.state ≡ candidate) × (n'.current_term ≡ n.current_term)
    pub saves : VoteSaved n → VoteSaved n'
    pub leader_kept : n'.state ≡ leader → (n.state ≡ leader) × (n'.current_term ≡ n.current_term)

  -- Only the log, the indexes, the callbacks, the file or the clock differ.
  pub record Alike (n n' : Node C) : Type 0 where
    pub same_id : n'.node_id ≡ n.node_id
    pub same_cluster : n'.cluster ≡ n.cluster
    pub same_votes : n'.votes_received ≡ n.votes_received
    pub same_term : n'.current_term ≡ n.current_term
    pub same_vote : n'.voted_for ≡ n.voted_for
    pub same_state : n'.state ≡ n.state
    pub saves : VoteSaved n → VoteSaved n'

  Alike-Calm : {n n' : Node C} → Alike n n' → Calm n n'
  Alike-Calm a = record {
    same_id = a.same_id;
    same_cluster = a.same_cluster;
    same_votes = a.same_votes;
    term_le = omega (arith, a.same_term);
    vote_kept = λ c e v. a.same_vote ∙ v;
    candidate_kept = λ e. (ground (arith, a.same_state), a.same_term);
    saves = a.saves;
    leader_kept = λ e. (ground (arith, a.same_state), a.same_term);
  }

  Alike-trans : {n n' n'' : Node C} → Alike n n' → Alike n' n'' → Alike n n''
  Alike-trans a b = record {
    same_id = b.same_id ∙ a.same_id;
    same_cluster = b.same_cluster ∙ a.same_cluster;
    same_votes = b.same_votes ∙ a.same_votes;
    same_term = b.same_term ∙ a.same_term;
    same_vote = b.same_vote ∙ a.same_vote;
    same_state = b.same_state ∙ a.same_state;
    saves = λ h. b.saves (a.saves h);
  }

  pub Calm-trans : {n n' n'' : Node C} → Calm n n' → Calm n' n'' → Calm n n''
  Calm-trans {n} {n'} {n''} a b = record {
    same_id = b.same_id ∙ a.same_id;
    same_cluster = b.same_cluster ∙ a.same_cluster;
    same_votes = b.same_votes ∙ a.same_votes;
    term_le = omega (arith, a.term_le, b.term_le);
    vote_kept = λ c e v.
        let mid : n'.current_term ≡ n.current_term = omega (arith, a.term_le, b.term_le) in
        b.vote_kept c (e ∙ sym mid) (a.vote_kept c mid v);
    candidate_kept =
        λ e. let (s, t) = b.candidate_kept e in let (s', t') = a.candidate_kept s in (s', t ∙ t');
    saves = λ h. b.saves (a.saves h);
    leader_kept =
        λ e. let (s, t) = b.leader_kept e in let (s', t') = a.leader_kept s in (s', t ∙ t');
  }

  Alike-refl : (n : Node C) → Alike n n
  Alike-refl n = record {
    same_id = refl;
    same_cluster = refl;
    same_votes = refl;
    same_term = refl;
    same_vote = refl;
    same_state = refl;
    saves = λ h. record { term_saved = h.term_saved; vote_saved = h.vote_saved };
  }

  pub Calm-refl : (n : Node C) → Calm n n
  Calm-refl n = Alike-Calm (Alike-refl n)

  -- A term that is higher than the node's own.
  step_down-Calm : (t : ℕ) (n : Node C) → n.current_term < t → Calm n (step_down t n)
  unfolding step_down
  step_down-Calm t n h = record {
    same_id = refl;
    same_cluster = refl;
    same_votes = refl;
    term_le = omega arith;
    vote_kept = λ c e v. absurd (omega arith);
    candidate_kept = λ e. cc;
    saves = λ h. record { term_saved = refl; vote_saved = refl };
    leader_kept = λ e. cc;
  }

  pub observe_term-Calm : (t : ℕ) (n : Node C) → Calm n (observe_term t n)
  unfolding observe_term
  observe_term-Calm t n = elim (Bool-cases (ltb n.current_term t)) [
    | inl higher ↦ rw (higher, observe_term) (step_down-Calm t n (ground arith))
    | inr not_higher ↦ rw (not_higher, observe_term) (Calm-refl n)
  ]

  -- A vote that is granted goes to the candidate that has it already, if any has.
  granted_again :
      (m : RequestVote) (n : Node C) (c : String)
      → grants m n ≡ true
      → n.voted_for ≡ some c
      → c ≡ m.candidate_id
  unfolding grants
  granted_again m n c g v = ground (arith, string_key.same_iff c m.candidate_id)

  cast_vote-Calm : (now : ℕ) (m : RequestVote) (n : Node C) → Calm n (cast_vote now m n).0
  unfolding cast_vote
  cast_vote-Calm now m n = elim (Bool-cases (grants m n)) [
    | inr refused ↦ rw (refused, cast_vote) (Calm-refl n)
    | inl granted ↦
        rw (granted, cast_vote)
          (record {
            same_id = refl;
            same_cluster = refl;
            same_votes = refl;
            term_le = omega arith;
            vote_kept = λ c e v. ap some (sym (granted_again m n c granted v));
            candidate_kept = λ e. (e, refl);
            saves = λ h. record { term_saved = refl; vote_saved = refl };
            leader_kept = λ e. (e, refl);
          })
  ]

  pub handle_request_vote-Calm :
      (now : ℕ) (m : RequestVote) (n : Node C) → Calm n (handle_request_vote now m n).0
  unfolding handle_request_vote
  handle_request_vote-Calm now m n =
      Calm-trans (observe_term-Calm m.term n) (cast_vote-Calm now m (observe_term m.term n))

  apply_rounds-Alike : (k : ℕ) (n : Node C) → Alike n (apply_rounds k n)
  unfolding apply_rounds
  apply_rounds-Alike zero n = Alike-refl n
  apply_rounds-Alike (suc k) n =
      Alike-trans {n' = record n { last_applied = _; calls = _ }}
        (record {
          same_id = refl;
          same_cluster = refl;
          same_votes = refl;
          same_term = refl;
          same_vote = refl;
          same_state = refl;
          saves = λ h. record { term_saved = h.term_saved; vote_saved = h.vote_saved };
        })
        (apply_rounds-Alike k _)

  pub apply_committed-Alike : (n : Node C) → Alike n (apply_committed n)
  unfolding apply_committed
  apply_committed-Alike n = apply_rounds-Alike (n.commit_index - n.last_applied) n

  follow_commit-Alike : (c : ℕ) (n : Node C) → Alike n (follow_commit c n)
  unfolding follow_commit
  follow_commit-Alike c n = elim (Bool-cases (ltb n.commit_index c)) [
    | inl more ↦
        rw (more, follow_commit)
          (Alike-trans {n' = record n { commit_index = _ }}
            (record {
              same_id = refl;
              same_cluster = refl;
              same_votes = refl;
              same_term = refl;
              same_vote = refl;
              same_state = refl;
              saves = λ h. record { term_saved = h.term_saved; vote_saved = h.vote_saved };
            })
            (apply_committed-Alike _))
    | inr same ↦ rw (same, follow_commit) (Alike-refl n)
  ]

  save_if_any-Alike : (es : List (LogEntry C)) (n : Node C) → Alike n (save_if_any es n)
  unfolding save_if_any
  save_if_any-Alike [] n = Alike-refl n
  save_if_any-Alike (e ∷ es) n = record {
    same_id = refl;
    same_cluster = refl;
    same_votes = refl;
    same_term = refl;
    same_vote = refl;
    same_state = refl;
    saves = λ h. record { term_saved = refl; vote_saved = refl };
  }

  with_log-Alike :
      (l : List (LogEntry C)) (n : Node C)
      → Alike n (record n { persistent = record n.persistent { log = l } })
  with_log-Alike l n = record {
    same_id = refl;
    same_cluster = refl;
    same_votes = refl;
    same_term = refl;
    same_vote = refl;
    same_state = refl;
    saves = λ h. record { term_saved = h.term_saved; vote_saved = h.vote_saved };
  }

  accept_entries-Alike : (m : AppendEntries C) (n : Node C) → Alike n (accept_entries m n).0
  unfolding accept_entries
  accept_entries-Alike m n = elim (Bool-cases (store_entries m.entries n.log).1) [
    | inl done ↦
        rw (done, accept_entries)
          (Alike-trans (with_log-Alike (store_entries m.entries n.log).0 n)
            (Alike-trans (save_if_any-Alike m.entries _) (follow_commit-Alike m.leader_commit _)))
    | inr raised ↦ rw (raised, accept_entries) (with_log-Alike (store_entries m.entries n.log).0 n)
  ]

  recognise_leader-Calm : (l : String) (n : Node C) → Calm n (recognise_leader l n)
  unfolding recognise_leader
  recognise_leader-Calm l n = record {
    same_id = refl;
    same_cluster = refl;
    same_votes = refl;
    term_le = omega arith;
    vote_kept = λ c e v. v;
    candidate_kept = λ e. (ground arith, refl);
    saves = λ h. record { term_saved = h.term_saved; vote_saved = h.vote_saved };
    leader_kept = λ e. (ground arith, refl);
  }

  pub check_entries-Calm : (m : AppendEntries C) (n : Node C) → Calm n (check_entries m n).0
  unfolding check_entries
  check_entries-Calm m n = elim (Bool-cases (ltb m.term n.current_term)) [
    | inl stale ↦ rw (stale, check_entries) (Calm-refl n)
    | inr current ↦ rw (current, check_entries) (go (Bool-cases (prev_matches m n'.log)))
  ]
    where
      n' : Node C
      n' = recognise_leader m.leader_id n

      go :
          (prev_matches m n'.log ≡ true) ⊎ (prev_matches m n'.log ≡ false)
          → Calm n (if prev_matches m n'.log then accept_entries m n' else reject_entries n').0
      go (inl ok) = rw ok (
          Calm-trans (recognise_leader-Calm m.leader_id n) (Alike-Calm (accept_entries-Alike m n')))
      go (inr bad) = rw bad (recognise_leader-Calm m.leader_id n)

  pub handle_append_entries-Calm :
      (now : ℕ) (m : AppendEntries C) (n : Node C) → Calm n (handle_append_entries now m n).0
  unfolding handle_append_entries
  handle_append_entries-Calm now m n = Calm-trans (observe_term-Calm m.term n) (
      Calm-trans {n' = record (observe_term m.term n) { last_heartbeat = now }}
        (Alike-Calm (record {
          same_id = refl;
          same_cluster = refl;
          same_votes = refl;
          same_term = refl;
          same_vote = refl;
          same_state = refl;
          saves = λ h. record { term_saved = h.term_saved; vote_saved = h.vote_saved };
        }))
        (check_entries-Calm m _))

  with_leader_state-Alike :
      (f : LeaderState → LeaderState) (n : Node C) → Alike n (with_leader_state f n).0
  unfolding with_leader_state
  with_leader_state-Alike f n = ground arith

  pub end_exchange-Calm :
      (x : Exchange C) (r : Option Response) (n : Node C) → Calm n (end_exchange x r n).0
  unfolding end_exchange
  end_exchange-Calm x none n = Calm-refl n
  end_exchange-Calm x (some r) n = elim (Bool-cases r.granted) [
    | inl yes_vote ↦ elim (Bool-cases (is_nil x.message.entries)) [
      | inl empty ↦ simp (yes_vote, empty) (Calm-refl n)
      | inr full ↦ simp (yes_vote, full) (Alike-Calm (with_leader_state-Alike (advance x) n))
    ]
    | inr no_vote ↦ elim (Bool-cases (ltb n.current_term r.term)) [
      | inl higher ↦ simp (no_vote, higher) (step_down-Calm r.term n (ground arith))
      | inr lower ↦ simp (no_vote, lower) (Alike-Calm (with_leader_state-Alike (back_off x) n))
    ]
  ]

  commit_round-Alike : (ms : Dict String ℕ) (i : ℕ) (n : Node C) → Alike n (commit_round ms i n)
  unfolding commit_round
  commit_round-Alike ms i n = ground arith

  commit_rounds-Alike :
      (ms : Dict String ℕ) (k i : ℕ) (n : Node C) → Alike n (commit_rounds ms k i n)
  unfolding commit_rounds
  commit_rounds-Alike ms zero i n = Alike-refl n
  commit_rounds-Alike ms (suc k) i n =
      Alike-trans (commit_round-Alike ms i n)
        (commit_rounds-Alike ms k (i + 1) (commit_round ms i n))

  commit_with-Alike : (o : Option LeaderState) (n : Node C) → Alike n (commit_with o n)
  unfolding commit_with
  commit_with-Alike none n = Alike-refl n
  commit_with-Alike (some s) n = elim (Bool-cases (is_state n.state leader)) [
    | inl lead ↦
        rw (lead, commit_with)
          (Alike-trans
            (commit_rounds-Alike s.match_index (length n.log - n.commit_index) (n.commit_index + 1)
              n)
            (apply_committed-Alike _))
    | inr follow ↦ rw (follow, commit_with) (Alike-refl n)
  ]

  pub try_commit-Calm : (n : Node C) → Calm n (try_commit n)
  unfolding try_commit
  try_commit-Calm n = Alike-Calm (commit_with-Alike n.leader_state n)

  pub append_command-Calm : (c : C) (n : Node C) → Calm n (append_command c n)
  unfolding append_command
  append_command-Calm c n = Alike-Calm (record {
    same_id = refl;
    same_cluster = refl;
    same_votes = refl;
    same_term = refl;
    same_vote = refl;
    same_state = refl;
    saves = λ h. record { term_saved = refl; vote_saved = refl };
  })

  -- A restart reads the term and the vote from the file.
  pub restart-Calm :
      (n : Node C)
      → VoteSaved n
      → ((restart n).current_term ≡ n.current_term)
        × ((restart n).voted_for ≡ n.voted_for)
        × VoteSaved (restart n)
  unfolding restart
  restart-Calm n h = (h.term_saved, h.vote_saved, record { term_saved = refl; vote_saved = refl })
