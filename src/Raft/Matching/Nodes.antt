-- ===== src/Raft/Matching/Nodes.antt =====
-- src/consensus/raft.py: what each operation of a node does to its log and to the log in its file.
use pynchronize.Prelude.{
  ℕ, zero, suc, ◌+◌, ◌-◌, ◌≤◌, ◌≡◌, ◌≢◌, ◌⊎◌, inl, inr, refl, sym, ◌∙◌, true, false, Bool,
  Bool-cases, Option, none, some, List, [], ◌∷◌, String, string_key, arith, length, ltb, leb, eqb,
  subst, ◌&&◌, if◌then◌else◌,
}
use pynchronize.Prelude.Dict.{Dict}
use pynchronize.Raft.Node.{
  candidate, leader, LogEntry, LeaderState, Node, RequestVote, AppendEntries, Response, is_state,
  get_majority, get_log_entry, save_state, step_down, observe_term, apply_rounds, apply_committed,
}
use pynchronize.Raft.Votes.{
  grants, cast_vote, handle_request_vote, start_election, finish_election, count_votes,
  become_leader_now,
}
use pynchronize.Raft.Entries.{
  store_entries, follow_commit, save_if_any, accept_entries, recognise_leader, reject_entries,
  check_entries, handle_append_entries, prev_matches,
}
use pynchronize.Raft.Steps.{observe_term-Calm, check_entries-Calm}
use pynchronize.Raft.Leader.{
  Exchange, with_leader_state, advance, back_off, end_exchange, count_matches, commit_round,
  commit_rounds, commit_with, try_commit, is_nil,
}

module _ {C : Type 0} where
  -- Only a leader has a leader's indexes.
  abbrev pub Leads : Node C → Type 0
  Leads n = (x : LeaderState) → n.leader_state ≡ some x → n.state ≡ leader

  -- From `n` to `n'` the log is the same, and the file has the log that it had or that of `n`.
  pub record Kept (n n' : Node C) : Type 0 where
    pub same_log : n'.log ≡ n.log
    pub saved_log : (n'.saved.log ≡ n.saved.log) ⊎ (n'.saved.log ≡ n.log)
    pub leads : Leads n → Leads n'

  -- From `n` to `n'` the log becomes `l`, and the file has the log that it had, that of `n`, or `l`.
  pub record Received (n n' : Node C) (l : List (LogEntry C)) : Type 0 where
    pub new_log : n'.log ≡ l
    pub saved_log : (n'.saved.log ≡ n.saved.log) ⊎ ((n'.saved.log ≡ n.log) ⊎ (n'.saved.log ≡ l))
    pub leads : Leads n → Leads n'

  pub Kept-refl : (n : Node C) → Kept n n
  Kept-refl n = record { same_log = refl; saved_log = inl refl; leads = λ h. h }

  pub Kept-trans : {n n' n'' : Node C} → Kept n n' → Kept n' n'' → Kept n n''
  Kept-trans a b = record {
    same_log = b.same_log ∙ a.same_log;
    saved_log = elim b.saved_log [
      | inr e ↦ inr (e ∙ a.same_log)
      | inl e ↦ elim a.saved_log [ inl f ↦ inl (e ∙ f) | inr f ↦ inr (e ∙ f) ]
    ];
    leads = λ h. b.leads (a.leads h);
  }

  Received-after :
      {n n' n'' : Node C} {l : List (LogEntry C)} → Kept n n' → Received n' n'' l → Received n n'' l
  Received-after a b = record {
    new_log = b.new_log;
    saved_log = elim b.saved_log [
      | inr (inr e) ↦ inr (inr e)
      | inr (inl e) ↦ inr (inl (e ∙ a.same_log))
      | inl e ↦ elim a.saved_log [ inl f ↦ inl (e ∙ f) | inr f ↦ inr (inl (e ∙ f)) ]
    ];
    leads = λ h. b.leads (a.leads h);
  }

  Received-before :
      {n n' n'' : Node C} {l : List (LogEntry C)} → Received n n' l → Kept n' n'' → Received n n'' l
  Received-before a b = record {
    new_log = b.same_log ∙ a.new_log;
    saved_log = elim b.saved_log [
      | inr e ↦ inr (inr (e ∙ a.new_log))
      | inl e ↦ elim a.saved_log [
        | inl f ↦ inl (e ∙ f)
        | inr (inl f) ↦ inr (inl (e ∙ f))
        | inr (inr f) ↦ inr (inr (e ∙ f))
      ]
    ];
    leads = λ h. b.leads (a.leads h);
  }

  step_down-Kept : (t : ℕ) (n : Node C) → Kept n (step_down t n)
  unfolding step_down save_state
  step_down-Kept t n = record { same_log = refl; saved_log = inr refl; leads = λ h x e. cc }

  observe_term-Kept : (t : ℕ) (n : Node C) → Kept n (observe_term t n)
  unfolding observe_term
  observe_term-Kept t n = elim (Bool-cases (ltb n.current_term t)) [
    | inl higher ↦ rw (higher, observe_term) (step_down-Kept t n)
    | inr not_higher ↦ rw (not_higher, observe_term) (Kept-refl n)
  ]

  cast_vote-Kept : (now : ℕ) (m : RequestVote) (n : Node C) → Kept n (cast_vote now m n).0
  unfolding cast_vote save_state
  cast_vote-Kept now m n = elim (Bool-cases (grants m n)) [
    | inl vote ↦
        rw (vote, cast_vote)
          (record { same_log = refl; saved_log = inr refl; leads = λ h x e. h x e })
    | inr vote ↦ rw (vote, cast_vote) (Kept-refl n)
  ]

  pub handle_request_vote-Kept :
      (now : ℕ) (m : RequestVote) (n : Node C) → Kept n (handle_request_vote now m n).0
  unfolding handle_request_vote
  handle_request_vote-Kept now m n =
      Kept-trans (observe_term-Kept m.term n) (cast_vote-Kept now m (observe_term m.term n))

  -- `_election_loop` does not begin an election while it leads.
  pub start_election-Kept : (n : Node C) → n.state ≢ leader → Kept n (start_election n).0
  unfolding start_election save_state
  start_election-Kept n h = record {
    same_log = refl;
    saved_log = inr refl;
    leads = λ k x e. absurd (h (k x e));
  }

  pub finish_election-Kept :
      (rs : Dict String (Option Response)) (n : Node C) → Kept n (finish_election rs n)
  unfolding finish_election become_leader_now get_majority
  finish_election-Kept rs n =
      elim (Bool-cases (
        leb (get_majority n) (length (count_votes rs n.votes_received))
        && is_state n.state candidate)) [
          | inl won ↦
              rw (won, finish_election)
                (record { same_log = refl; saved_log = inl refl; leads = λ h x e. refl })
          | inr lost ↦
              rw (lost, finish_election)
                (record { same_log = refl; saved_log = inl refl; leads = λ h x e. h x e })
        ]

  apply_rounds-Kept : (k : ℕ) (n : Node C) → Kept n (apply_rounds k n)
  unfolding apply_rounds
  apply_rounds-Kept zero n = Kept-refl n
  apply_rounds-Kept (suc k) n =
      Kept-trans {n' = record n { last_applied = _; calls = _ }}
        (record { same_log = refl; saved_log = inl refl; leads = λ h x e. h x e })
        (apply_rounds-Kept k _)

  apply_committed-Kept : (n : Node C) → Kept n (apply_committed n)
  unfolding apply_committed
  apply_committed-Kept n = apply_rounds-Kept (n.commit_index - n.last_applied) n

  commit_to-Kept : (i : ℕ) (n : Node C) → Kept n (record n { commit_index = i })
  commit_to-Kept i n = record { same_log = refl; saved_log = inl refl; leads = λ h x e. h x e }

  follow_commit-Kept : (c : ℕ) (n : Node C) → Kept n (follow_commit c n)
  unfolding follow_commit
  follow_commit-Kept c n = elim (Bool-cases (ltb n.commit_index c)) [
    | inl more ↦
        rw (more, follow_commit)
          (Kept-trans (commit_to-Kept _ n) (apply_committed-Kept (record n { commit_index = _ })))
    | inr same ↦ rw (same, follow_commit) (Kept-refl n)
  ]

  save_if_any-Kept : (es : List (LogEntry C)) (n : Node C) → Kept n (save_if_any es n)
  unfolding save_if_any save_state
  save_if_any-Kept [] n = Kept-refl n
  save_if_any-Kept (e ∷ es) n = record {
    same_log = refl;
    saved_log = inr refl;
    leads = λ h x e. h x e;
  }

  with_log-Received :
      (l : List (LogEntry C)) (n : Node C)
      → Received n (record n { persistent = record n.persistent { log = l } }) l
  with_log-Received l n = record { new_log = refl; saved_log = inl refl; leads = λ h x e. h x e }

  accept_entries-Received :
      (m : AppendEntries C) (n : Node C)
      → Received n (accept_entries m n).0 (store_entries m.entries n.log).0
  unfolding accept_entries
  accept_entries-Received m n = elim (Bool-cases (store_entries m.entries n.log).1) [
    | inl done ↦
        rw (done, accept_entries)
          (Received-before (with_log-Received (store_entries m.entries n.log).0 n)
            (Kept-trans (save_if_any-Kept m.entries _) (follow_commit-Kept m.leader_commit _)))
    | inr raised ↦
        rw (raised, accept_entries) (with_log-Received (store_entries m.entries n.log).0 n)
  ]

  recognise_leader-Kept : (l : String) (n : Node C) → Kept n (recognise_leader l n)
  unfolding recognise_leader is_state
  recognise_leader-Kept l n = record {
    same_log = refl;
    saved_log = inl refl;
    leads = λ h x e. rw (h x e) refl;
  }

  -- What `_handle_append_entries` does to the log: nothing, or the loop over the entries, where the
  -- message is not of an older term and its previous entry is the log's.
  abbrev pub AppendCases : AppendEntries C → Node C → Node C → Type 0
  AppendCases m n n' =
      Kept n n'
      ⊎ (Received n n' (store_entries m.entries n.log).0
          × (prev_matches m n.log ≡ true)
          × (n.current_term ≤ m.term))

  check_entries-cases : (m : AppendEntries C) (n : Node C) → AppendCases m n (check_entries m n).0
  unfolding check_entries reject_entries
  check_entries-cases m n = elim (Bool-cases (ltb m.term n.current_term)) [
    | inl stale ↦ rw (stale, check_entries) (inl (Kept-refl n))
    | inr current ↦
        rw (current, check_entries) (go (ground arith) (Bool-cases (prev_matches m n'.log)))
  ]
    where
      n' : Node C
      n' = recognise_leader m.leader_id n

      same : n'.log ≡ n.log
      same = (recognise_leader-Kept m.leader_id n).same_log

      go :
          n.current_term ≤ m.term
          → (prev_matches m n'.log ≡ true) ⊎ (prev_matches m n'.log ≡ false)
          → AppendCases m n
              (if prev_matches m n'.log then accept_entries m n' else reject_entries n').0
      go le (inl ok) = rw ok (
          inr (
            Received-after (recognise_leader-Kept m.leader_id n) (
                subst (λ l. Received n' (accept_entries m n').0 (store_entries m.entries l).0) same
                  (accept_entries-Received m n')),
            refl,
            le,
          ))
      go le (inr bad) = rw bad (inl (recognise_leader-Kept m.leader_id n))

  pub handle_append_entries-cases :
      (now : ℕ) (m : AppendEntries C) (n : Node C)
      → AppendCases m n (handle_append_entries now m n).0
  unfolding handle_append_entries
  handle_append_entries-cases now m n = go (check_entries-cases m n2)
    where
      n2 : Node C
      n2 = record (observe_term m.term n) { last_heartbeat = now }

      first : Kept n n2
      first =
          Kept-trans (observe_term-Kept m.term n)
            (record { same_log = refl; saved_log = inl refl; leads = λ h x e. h x e })

      go : AppendCases m n2 (check_entries m n2).0 → AppendCases m n (check_entries m n2).0
      go (inl k) = inl (Kept-trans first k)
      go (inr (r, prev, le)) = inr (
        Received-after first (
            subst (λ l. Received n2 (check_entries m n2).0 (store_entries m.entries l).0)
              first.same_log r),
        subst (λ l. prev_matches m l ≡ true) first.same_log prev,
        omega (arith, le, (observe_term-Calm m.term n).term_le),
      )

  with_leader_state-Kept :
      (f : LeaderState → LeaderState) (n : Node C) → Kept n (with_leader_state f n).0
  unfolding with_leader_state
  with_leader_state-Kept f n = go n.leader_state refl
    where
      go :
          (o : Option LeaderState)
          → n.leader_state ≡ o
          → Kept n
              (elim o as (λ o. Node C × Bool) [
                | none ↦ (n, false)
                | some s ↦ (record n { leader_state = some (f s) }, true)
              ]).0
      go none e = Kept-refl n
      go (some s) e = record { same_log = refl; saved_log = inl refl; leads = λ h x q. h s e }

  pub end_exchange-Kept :
      (x : Exchange C) (r : Option Response) (n : Node C) → Kept n (end_exchange x r n).0
  unfolding end_exchange
  end_exchange-Kept x none n = Kept-refl n
  end_exchange-Kept x (some r) n = elim (Bool-cases r.granted) [
    | inl success ↦ elim (Bool-cases (is_nil x.message.entries)) [
      | inl empty ↦ simp (success, empty) (Kept-refl n)
      | inr full ↦ simp (success, full) (with_leader_state-Kept (advance x) n)
    ]
    | inr failure ↦ elim (Bool-cases (ltb n.current_term r.term)) [
      | inl higher ↦ simp (failure, higher) (step_down-Kept r.term n)
      | inr lower ↦ simp (failure, lower) (with_leader_state-Kept (back_off x) n)
    ]
  ]

  commit_round-Kept : (ms : Dict String ℕ) (i : ℕ) (n : Node C) → Kept n (commit_round ms i n)
  unfolding commit_round get_majority
  commit_round-Kept ms i n = go (get_log_entry n.log i) refl
    where
      go : (o : Option (LogEntry C)) → get_log_entry n.log i ≡ o → Kept n (commit_round ms i n)
      go none e = rw (e, commit_round) (Kept-refl n)
      go (some x) e =
          rw (e, commit_round)
            (elim (Bool-cases
              (eqb x.term n.current_term && leb (get_majority n) (1 + count_matches i ms))) [
                | inl enough ↦ rw enough (commit_to-Kept i n)
                | inr few ↦ rw few (Kept-refl n)
              ])

  commit_rounds-Kept : (ms : Dict String ℕ) (k i : ℕ) (n : Node C) → Kept n (commit_rounds ms k i n)
  unfolding commit_rounds
  commit_rounds-Kept ms zero i n = Kept-refl n
  commit_rounds-Kept ms (suc k) i n =
      Kept-trans (commit_round-Kept ms i n) (commit_rounds-Kept ms k (i + 1) (commit_round ms i n))

  commit_with-Kept : (o : Option LeaderState) (n : Node C) → Kept n (commit_with o n)
  unfolding commit_with
  commit_with-Kept none n = Kept-refl n
  commit_with-Kept (some s) n = elim (Bool-cases (is_state n.state leader)) [
    | inl lead ↦
        rw (lead, commit_with)
          (Kept-trans
            (commit_rounds-Kept s.match_index (length n.log - n.commit_index) (n.commit_index + 1)
              n)
            (apply_committed-Kept _))
    | inr follow ↦ rw (follow, commit_with) (Kept-refl n)
  ]

  pub try_commit-Kept : (n : Node C) → Kept n (try_commit n)
  unfolding try_commit
  try_commit-Kept n = commit_with-Kept n.leader_state n

  -- Only a leader or a candidate comes out of an election as the leader, and the term stays.
  pub finish_election-state :
      (rs : Dict String (Option Response)) (n : Node C)
      → ((finish_election rs n).current_term ≡ n.current_term)
        × ((finish_election rs n).state ≡ leader → (n.state ≡ leader) ⊎ (n.state ≡ candidate))
  unfolding finish_election become_leader_now is_state
  finish_election-state rs n = (ground arith, λ e. ground arith)

  observe_term-term : (t : ℕ) (n : Node C) → t ≤ (observe_term t n).current_term
  unfolding observe_term step_down save_state
  observe_term-term t n = ground arith

  -- The term after `_handle_append_entries` is not below the message's.
  pub handle_append_entries-term :
      (now : ℕ) (m : AppendEntries C) (n : Node C)
      → m.term ≤ (handle_append_entries now m n).0.current_term
  unfolding handle_append_entries
  handle_append_entries-term now m n =
      let n2 : Node C = record (observe_term m.term n) { last_heartbeat = now } in
      omega (arith, observe_term-term m.term n, (check_entries-Calm m n2).term_le)

  accept_entries-answers :
      (m : AppendEntries C) (n : Node C)
      → (store_entries m.entries n.log).1 ≡ true
      → (r : Response) × ((accept_entries m n).1 ≡ some r)
  unfolding accept_entries
  accept_entries-answers m n done = (record { term = n.current_term; granted = true }, rw done refl)

  check_entries-answers :
      (m : AppendEntries C) (n : Node C)
      → (prev_matches m n.log ≡ true → (store_entries m.entries n.log).1 ≡ true)
      → (r : Response) × ((check_entries m n).1 ≡ some r)
  unfolding check_entries reject_entries
  check_entries-answers m n h = elim (Bool-cases (ltb m.term n.current_term)) [
    | inl stale ↦ (record { term = n.current_term; granted = false }, rw stale refl)
    | inr current ↦ elim (Bool-cases (prev_matches m n'.log)) [
      | inr bad ↦ (record { term = n'.current_term; granted = false }, rw (current, bad) refl)
      | inl ok ↦ let (r, e) = accept_entries-answers m n' (done ok) in (r, rw (current, ok) e)
    ]
  ]
    where
      n' : Node C
      n' = recognise_leader m.leader_id n

      same : n.log ≡ n'.log
      same = sym (recognise_leader-Kept m.leader_id n).same_log

      done : prev_matches m n'.log ≡ true → (store_entries m.entries n'.log).1 ≡ true
      done = subst (λ l. prev_matches m l ≡ true → (store_entries m.entries l).1 ≡ true) same h

  -- The handler raises nothing where the loop over the entries does not.
  pub handle_append_entries-answers :
      (now : ℕ) (m : AppendEntries C) (n : Node C)
      → (prev_matches m n.log ≡ true → (store_entries m.entries n.log).1 ≡ true)
      → (r : Response) × ((handle_append_entries now m n).1 ≡ some r)
  unfolding handle_append_entries
  handle_append_entries-answers now m n h =
      check_entries-answers m (record (observe_term m.term n) { last_heartbeat = now })
        (subst (λ l. prev_matches m l ≡ true → (store_entries m.entries l).1 ≡ true)
          (sym (observe_term-Kept m.term n).same_log) h)
