-- ===== src/Raft/Matching/Owners.antt =====
-- Who made an entry of a term: the node that was elected in that term.
use pynchronize.Prelude.{
  ℕ, suc, ◌+◌, ◌/◌, ◌≤◌, ◌<◌, ◌≡◌, ◌≢◌, inl, inr, refl, sym, ◌∙◌, subst, true, Option, none, some,
  List, String, string_key, contains, Distinct, arith, length, length-map,
}
use pynchronize.Prelude.Dict.{Dict}
use pynchronize.Prelude.Count.{majorities_meet}
use pynchronize.Config.{Cluster}
use pynchronize.Raft.Node.{leader, candidate, Node, Response}
use pynchronize.Raft.Votes.{finish_election, start_election}
use pynchronize.Raft.Cluster.{Ballot, In, System, node_ids}
use pynchronize.Raft.Steps.{Calm}
use pynchronize.Raft.Election.{Inv, Elected}
use pynchronize.Raft.Matching.System.{Creation}
use pynchronize.Raft.Matching.Nodes.{Kept, finish_election-state}

module _ (cluster : Cluster) where
  -- More than half of the cluster has voted for `id` in the term `t`.
  pub record Won (ballots : List Ballot) (id : String) (t : ℕ) : Type 0 where
    pub voters : List String
    pub distinct : Distinct voters
    pub members : (v : String) → contains v voters ≡ true → contains v (node_ids cluster) ≡ true
    pub enough : length cluster / 2 + 1 ≤ length voters
    pub voted :
        (v : String)
        → contains v voters ≡ true
        → In (record { voter = v; term = t; candidate_id = id }) ballots

  pub Won-more :
      {bs bs' : List Ballot} {id : String} {t : ℕ}
      → ((b : Ballot) → In b bs → In b bs')
      → Won bs id t
      → Won bs' id t
  Won-more more w = record {
    voters = w.voters;
    distinct = w.distinct;
    members = w.members;
    enough = w.enough;
    voted = λ v h. more _ (w.voted v h);
  }

  pub Elected-Won :
      {C : Type 0} (s : System C) (id : String)
      → Elected cluster s id
      → Won s.ballots id (s.node id).current_term
  Elected-Won s id w = record {
    voters = w.voters;
    distinct = w.distinct;
    members = w.members;
    enough = w.enough;
    voted = w.voted;
  }

  -- Two nodes that have won one term are one node.
  pub Won-unique :
      {C : Type 0} (s : System C)
      → Inv cluster s
      → (a b : String) (t : ℕ) → Won s.ballots a t
      → Won s.ballots b t
      → a ≡ b
  Won-unique s inv a b t p q =
      let (v, vp, vq) =
        majorities_meet p.voters q.voters (node_ids cluster) p.distinct q.distinct p.members
          q.members (omega (arith, p.enough, q.enough, length-map cluster (λ n. n.node_id))) in
      inv.once v t a b (p.voted v vp) (q.voted v vq)

module _ {C : Type 0} where
  -- Where the creator of an entry stands: its term is not older; an election that it runs is of a later
  -- term; and while it leads in the entry's term, its log is long enough to hold the entry.
  pub record Owned (c : Creation C) (n : Node C) (asking : Option ℕ) : Type 0 where
    pub term_le : c.entry.term ≤ n.current_term
    pub later : (t : ℕ) → asking ≡ some t → c.entry.term < t
    pub holds :
        n.state ≡ leader → n.current_term ≡ c.entry.term → suc (length c.before) ≤ length n.log

  -- A node that keeps its log and takes no election.
  pub Owned-Calm :
      (c : Creation C) (n n' : Node C) (asking : Option ℕ)
      → Calm n n'
      → Kept n n'
      → Owned c n asking
      → Owned c n' asking
  Owned-Calm c n n' asking calm kept o = record {
    term_le = omega (arith, o.term_le, calm.term_le);
    later = o.later;
    holds = λ l e.
        let (l', e') = calm.leader_kept l in
        subst (λ g. suc (length c.before) ≤ length g) (sym kept.same_log) (o.holds l' (sym e' ∙ e));
  }

  -- A node that is no leader any more, and waits for no votes.
  pub Owned-idle :
      (c : Creation C) (n n' : Node C) (asking : Option ℕ)
      → n.current_term ≤ n'.current_term
      → n'.state ≢ leader
      → Owned c n asking
      → Owned c n' none
  Owned-idle c n n' asking le idle o = record {
    term_le = omega (arith, o.term_le);
    later = λ t q. absurd (none_ne q);
    holds = λ l e. absurd (idle l);
  }
    where
      none_ne : {t : ℕ} → none ≡ some t → ⊥
      none_ne q = cc

  -- A candidate of a new term.
  pub Owned-ask :
      (c : Creation C) (n : Node C) (asking : Option ℕ)
      → Owned c n asking
      → Owned c (start_election n).0 (some (start_election n).1.term)
  unfolding start_election
  Owned-ask c n asking o = record {
    term_le = omega (arith, o.term_le);
    later = λ t q. ground (arith, o.term_le, q);
    holds = λ l e. cc;
  }

  -- An election of a later term, lost or won.
  pub Owned-count :
      (c : Creation C) (n : Node C) (t : ℕ) (rs : Dict String (Option Response))
      → (n.state ≡ leader → none ≡ some t)
      → (n.state ≡ candidate → n.current_term ≡ t)
      → Owned c n (some t)
      → Owned c (finish_election rs n) none
  Owned-count c n t rs idle asked o =
      let (same, from) = finish_election-state rs n in
      record {
        term_le = omega (arith, o.term_le, same);
        later = λ t' q. absurd (none_ne q);
        holds = λ l e. elim (from l) [
          | inl lead ↦ absurd (none_ne (idle lead))
          | inr cand ↦ absurd (omega (arith, o.later t refl, asked cand, same, e))
        ];
      }
    where
      none_ne : {t : ℕ} → none ≡ some t → ⊥
      none_ne q = cc
