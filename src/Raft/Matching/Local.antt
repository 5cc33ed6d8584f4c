-- ===== src/Raft/Matching/Local.antt =====
-- What one node keeps of its log and its entries, whatever it does.
use pynchronize.Prelude.{
  ℕ, zero, suc, ◌-◌, ◌≤◌, ◌≡◌, inl, inr, refl, sym, subst, true, false, Option, none, some, List,
  [], ◌∷◌, String, string_key, arith, length, drop, leb, ◌==◌, Bool-cases, same→eq,
}
use mathlib.Core.Option.{some-injective}
use pynchronize.Prelude.Dict
use pynchronize.Prelude.Dict.{Dict}
use pynchronize.Config.{NodeConfig}
use pynchronize.Raft.Node.{leader, LogEntry, LeaderState, Node, restart, new_node, save_state}
use pynchronize.Raft.Votes.{start_election}
use pynchronize.Raft.Leader.{Exchange, begin_exchange, exchange, or_one}
use pynchronize.Raft.Cluster.{In, System, update}
use pynchronize.Raft.Steps.{Calm}
use pynchronize.Raft.Matching.System.{Creation}
use pynchronize.Raft.Matching.Records.{Recorded, Tells}
use pynchronize.Raft.Matching.Owners.{Owned, Owned-Calm, Owned-idle}
use pynchronize.Raft.Matching.Nodes.{Leads, Kept}

pub none_ne-some : {A : Type 0} {x : A} → none ≡ some x → ⊥
none_ne-some q = cc

pub true_ne-false : true ≡ false → ⊥
true_ne-false q = cc

module _ {C : Type 0} where
  -- One node: while it leads it waits for no votes, only a leader has a leader's indexes, every entry
  -- of its log and of its file is recorded, and so it stands to the entries that it made.
  pub record NodeOk (cs : List (Creation C)) (id : String) (n : Node C) (asking : Option ℕ)
      : Type 0 where
    pub idle : n.state ≡ leader → asking ≡ none
    pub leads : Leads n
    pub recorded : Recorded cs n.log
    pub recorded_saved : Recorded cs n.saved.log
    pub owned : (c : Creation C) → In c cs → c.creator ≡ id → Owned c n asking

  pub Kept-NodeOk :
      (cs : List (Creation C)) (id : String) (n n' : Node C) (asking : Option ℕ)
      → Calm n n'
      → Kept n n'
      → NodeOk cs id n asking
      → NodeOk cs id n' asking
  Kept-NodeOk cs id n n' asking calm kept ok = record {
    idle = λ l. ok.idle (calm.leader_kept l).0;
    leads = kept.leads ok.leads;
    recorded = subst (Recorded cs) (sym kept.same_log) ok.recorded;
    recorded_saved = elim kept.saved_log [
      | inl e ↦ subst (Recorded cs) (sym e) ok.recorded_saved
      | inr e ↦ subst (Recorded cs) (sym e) ok.recorded
    ];
    owned = λ c i e. Owned-Calm c n n' asking calm kept (ok.owned c i e);
  }

  -- A node that takes part in an election keeps its log.
  pub elect-NodeOk :
      (cs : List (Creation C)) (id : String) (n n' : Node C) (asking asking' : Option ℕ)
      → Kept n n'
      → (n'.state ≡ leader → asking' ≡ none)
      → ((c : Creation C) → Owned c n asking → Owned c n' asking')
      → NodeOk cs id n asking
      → NodeOk cs id n' asking'
  elect-NodeOk cs id n n' asking asking' kept idle owned ok = record {
    idle = idle;
    leads = kept.leads ok.leads;
    recorded = subst (Recorded cs) (sym kept.same_log) ok.recorded;
    recorded_saved = elim kept.saved_log [
      | inl e ↦ subst (Recorded cs) (sym e) ok.recorded_saved
      | inr e ↦ subst (Recorded cs) (sym e) ok.recorded
    ];
    owned = λ c i e. owned c (ok.owned c i e);
  }

  pub restart-NodeOk :
      (cs : List (Creation C)) (id : String) (n : Node C) (asking : Option ℕ)
      → n.current_term ≤ n.saved.current_term
      → NodeOk cs id n asking
      → NodeOk cs id (restart n) none
  unfolding restart new_node
  restart-NodeOk cs id n asking le ok = record {
    idle = λ l. refl;
    leads = λ x e. absurd (none_ne-some e);
    recorded = ok.recorded_saved;
    recorded_saved = ok.recorded_saved;
    owned = λ c i e. Owned-idle c n (restart n) asking le (λ l. cc) (ok.owned c i e);
  }

  pub update-NodeOk :
      (cs : List (Creation C)) (s : System C) (v : String) (n : Node C) (asking : Option ℕ)
      → ((id : String) → NodeOk cs id (s.node id) (s.asking id))
      → NodeOk cs v n asking
      → (id : String) → NodeOk cs id (update s.node v n id) (update s.asking v asking id)
  update-NodeOk cs s v n asking all ok id = elim (Bool-cases (v == id)) [
    | inl p ↦ rw p (subst (λ i. NodeOk cs i n asking) (same→eq v id p) ok)
    | inr p ↦ rw p (all id)
  ]

  pub with_node-NodeOk :
      (cs : List (Creation C)) (s : System C) (v : String) (n : Node C)
      → ((id : String) → NodeOk cs id (s.node id) (s.asking id))
      → NodeOk cs v n (s.asking v)
      → (id : String) → NodeOk cs id (update s.node v n id) (s.asking id)
  with_node-NodeOk cs s v n all ok id = elim (Bool-cases (v == id)) [
    | inl p ↦ rw p (subst (λ i. NodeOk cs i n (s.asking i)) (same→eq v id p) ok)
    | inr p ↦ rw p (all id)
  ]

  exchange-term :
      (p : NodeConfig) (n : Node C) (s : LeaderState)
      → (exchange n p s).message.term ≡ n.current_term
  unfolding exchange
  exchange-term p n s = refl

  exchange-leader :
      (p : NodeConfig) (n : Node C) (s : LeaderState)
      → (exchange n p s).message.leader_id ≡ n.node_id
  unfolding exchange
  exchange-leader p n s = refl

  pub start_election-idle :
      (n : Node C) → (start_election n).0.state ≡ leader → some (start_election n).1.term ≡ none
  unfolding start_election save_state
  start_election-idle n l = cc

  drop_nil : (k : ℕ) → ◌≡◌ {A = List (LogEntry C)} (drop k []) []
  drop_nil zero = refl
  drop_nil (suc k) = refl

  exchange-Tells :
      (p : NodeConfig) (n : Node C) (s : LeaderState) → Tells (exchange n p s).message n.log
  unfolding exchange
  exchange-Tells p n s = elim (Bool-cases (leb next (length n.log))) [
    | inr past ↦ inl (rw past refl)
    | inl within ↦ elim (Bool-cases (leb (suc (next - 1)) (length n.log))) [
      | inl full ↦ inr (ground (arith, full), rw within refl, refl)
      | inr empty ↦ inl (rw within (nothing n.log (ground (arith, within, empty))))
    ]
  ]
    where
      next : ℕ
      next = or_one (Dict.get p.node_id s.next_index)

      nothing : (l : List (LogEntry C)) → length l ≡ 0 → drop (next - 1) l ≡ []
      nothing [] h = drop_nil (next - 1)
      nothing (x ∷ l) h = absurd (omega arith)

  pub begin_exchange-Tells :
      (p : NodeConfig) (n : Node C) (x : Exchange C)
      → begin_exchange p n ≡ some x
      → Leads n
      → (n.state ≡ leader)
        × (x.message.term ≡ n.current_term)
        × (x.message.leader_id ≡ n.node_id)
        × Tells x.message n.log
  unfolding begin_exchange
  begin_exchange-Tells p n x e leads = go n.leader_state refl e
    where
      go :
          (o : Option LeaderState)
          → n.leader_state ≡ o
          → ◌≡◌ {A = Option (Exchange C)}
              (elim o [ none ↦ none | some s ↦ some (exchange n p s) ])
              (some x)
          → (n.state ≡ leader)
            × (x.message.term ≡ n.current_term)
            × (x.message.leader_id ≡ n.node_id)
            × Tells x.message n.log
      go none q h = absurd (none_ne-some h)
      go (some s) q h =
          subst
            (λ (y : Exchange C).
              (n.state ≡ leader)
              × (y.message.term ≡ n.current_term)
              × (y.message.leader_id ≡ n.node_id)
              × Tells y.message n.log)
            (some-injective (exchange n p s) x h)
            (leads s q, exchange-term p n s, exchange-leader p n s, exchange-Tells p n s)
