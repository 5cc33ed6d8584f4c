-- ===== src/Raft/Matching/Invariant.antt =====
-- The invariant of the logs of a Raft cluster, and that logs with an equal entry agree up to it.
use pynchronize.Prelude.{
  ℕ, zero, suc, ◌≤◌, ◌≡◌, inl, inr, refl, sym, ap, ◌∙◌, subst, false, Option, some, List, [], ◌∷◌,
  String, string_key, arith, length, length-append, take, ◌==◌, Bool-cases, same→eq, same_refl,
}
use pynchronize.Config.{Cluster, NodeConfig}
use pynchronize.Raft.Node.{
  leader, LogEntry, Node, Response, AppendEntries, new_node, get_log_entry, save_state,
}
use pynchronize.Raft.Entries.{handle_append_entries, store_entries}
use pynchronize.Raft.Leader.{Exchange, begin_exchange, append_command}
use pynchronize.Raft.Cluster.{In, System, Step, with_node, start_system}
use pynchronize.Raft.Steps.{
  handle_request_vote-Calm, handle_append_entries-Calm, end_exchange-Calm, try_commit-Calm,
}
use pynchronize.Raft.Election.{Inv, Step-Inv, Step-ballots, start-Inv}
use pynchronize.Raft.Matching.System.{Creation, LogSystem, creation, IsQuiet, LogStep, LogReach}
use pynchronize.Raft.Matching.Records.{
  Recorded, Unique, Places, Tells, Recorded-more, Recorded-nil, Recorded-append, Recorded-Matched,
  store_entries-Recorded, Recorded-Indexed,
}
use pynchronize.Raft.Matching.Owners.{
  Won, Won-more, Won-unique, Elected-Won, Owned, Owned-ask, Owned-count,
}
use pynchronize.Raft.Matching.Nodes.{
  AppendCases, handle_request_vote-Kept, start_election-Kept, finish_election-Kept,
  handle_append_entries-cases, handle_append_entries-term, handle_append_entries-answers,
  end_exchange-Kept, try_commit-Kept,
}
use pynchronize.Raft.Matching.Local.{
  none_ne-some, true_ne-false, Kept-NodeOk, elect-NodeOk, restart-NodeOk, update-NodeOk,
  with_node-NodeOk, start_election-idle, begin_exchange-Tells, NodeOk,
}

module _ {C : Type 0} (cluster : Cluster) where
  pub record LogInv (s : LogSystem C) : Type 0 where
    pub inv : Inv cluster s.base
    pub nodes : (id : String) → NodeOk s.created id (s.base.node id) (s.base.asking id)
    pub elected :
        (c : Creation C) → In c s.created → Won cluster s.base.ballots c.creator c.entry.term
    pub places : Places s.created
    pub unique : Unique s.created
    pub told :
        (m : AppendEntries C)
        → In m s.sent
        → Won cluster s.base.ballots m.leader_id m.term
          × ((l : List (LogEntry C)) × Recorded s.created l × Tells m l)

  -- A step of the cluster that makes no entry and sends none.
  rebuild :
      (s : LogSystem C) (t : System C)
      → LogInv s
      → Step cluster s.base t
      → ((id : String) → NodeOk s.created id (t.node id) (t.asking id))
      → LogInv (record s { base = t })
  rebuild s t i st nodes = record {
    inv = Step-Inv cluster i.inv st;
    nodes = nodes;
    elected = λ c j. Won-more cluster (Step-ballots cluster st) (i.elected c j);
    places = i.places;
    unique = i.unique;
    told = λ m j. let (w, l) = i.told m j in (Won-more cluster (Step-ballots cluster st) w, l);
  }

  other-LogInv :
      (s : LogSystem C) (t : System C) (st : Step cluster s.base t)
      → IsQuiet cluster st
      → LogInv s
      → LogInv (record s { base = t })
  other-LogInv s _ (Step.vote v now m) q i = rebuild s _ i (Step.vote v now m) (
      with_node-NodeOk s.created s.base v _ i.nodes (
        Kept-NodeOk s.created v _ _ (s.base.asking v)
          (handle_request_vote-Calm now m (s.base.node v))
          (handle_request_vote-Kept now m (s.base.node v)) (i.nodes v)))
  other-LogInv s _ (Step.receive v now m) q i = absurd q
  other-LogInv s _ (Step.command v c) q i = absurd q
  other-LogInv s _ (Step.reply v x r) q i = rebuild s _ i (Step.reply v x r) (
      with_node-NodeOk s.created s.base v _ i.nodes (
        Kept-NodeOk s.created v _ _ (s.base.asking v) (end_exchange-Calm x r (s.base.node v))
          (end_exchange-Kept x r (s.base.node v)) (i.nodes v)))
  other-LogInv s _ (Step.commit v) q i = rebuild s _ i (Step.commit v) (
      with_node-NodeOk s.created s.base v _ i.nodes (
        Kept-NodeOk s.created v _ _ (s.base.asking v) (try_commit-Calm (s.base.node v))
          (try_commit-Kept (s.base.node v)) (i.nodes v)))
  other-LogInv s _ (Step.ask v member) q i = rebuild s _ i (Step.ask v member) (
      update-NodeOk s.created s.base v _ _ i.nodes (
        elect-NodeOk s.created v (s.base.node v) _ (s.base.asking v) _
          (start_election-Kept (s.base.node v) q) (start_election-idle (s.base.node v))
          (λ c. Owned-ask c (s.base.node v) (s.base.asking v)) (i.nodes v)))
  other-LogInv s _ (Step.count v t rs a honest known) q i =
      rebuild s _ i (Step.count v t rs a honest known) (
        update-NodeOk s.created s.base v _ _ i.nodes (
          elect-NodeOk s.created v (s.base.node v) _ (s.base.asking v) _
            (finish_election-Kept rs (s.base.node v)) (λ l. refl)
            (λ c o.
              Owned-count c (s.base.node v) t rs (λ l. sym ((i.nodes v).idle l) ∙ a)
                (i.inv.asked v t a) (subst (Owned c (s.base.node v)) a o))
            (i.nodes v)))
  other-LogInv s _ (Step.crash v) q i = rebuild s _ i (Step.crash v) (
      update-NodeOk s.created s.base v _ _ i.nodes (
        restart-NodeOk s.created v (s.base.node v) (s.base.asking v)
          (omega (arith, (i.inv.saved v).term_saved)) (i.nodes v)))

  -- A node that leads does not take entries of its own term from another node.
  no_rival :
      (s : LogSystem C) (v : String) (now : ℕ) (m : AppendEntries C)
      → LogInv s
      → In m s.sent
      → (m.leader_id == v) ≡ false
      → (handle_append_entries now m (s.base.node v)).0.state ≡ leader
      → (s.base.node v).current_term ≤ m.term
      → ⊥
  no_rival s v now m i j away l le =
      let calm = handle_append_entries-Calm now m (s.base.node v) in
      let (lead, same) = calm.leader_kept l in
      let e : m.term ≡ (s.base.node v).current_term =
        omega (arith, handle_append_entries-term now m (s.base.node v), same) in
      let mine = Elected-Won cluster s.base v (i.inv.won v lead) in
      let theirs = subst (Won cluster s.base.ballots m.leader_id) e (i.told m j).0 in
      let q : m.leader_id ≡ v = Won-unique cluster s.base i.inv m.leader_id v _ theirs mine in
      absurd (true_ne-false (sym (same_refl v) ∙ rw q at away))

  receive-NodeOk :
      (s : LogSystem C) (v : String) (now : ℕ) (m : AppendEntries C)
      → LogInv s
      → In m s.sent
      → (m.leader_id == v) ≡ false
      → AppendCases m (s.base.node v) (handle_append_entries now m (s.base.node v)).0
      → NodeOk s.created v (handle_append_entries now m (s.base.node v)).0 (s.base.asking v)
  receive-NodeOk s v now m i j away (inl kept) =
      Kept-NodeOk s.created v _ _ (s.base.asking v)
        (handle_append_entries-Calm now m (s.base.node v)) kept (i.nodes v)
  receive-NodeOk s v now m i j away (inr (received, prev, le)) =
      let ok = i.nodes v in
      let calm = handle_append_entries-Calm now m (s.base.node v) in
      let (w, (l, rl, tells)) = i.told m j in
      let (g', store, rg') =
        store_entries-Recorded s.created m (s.base.node v).log l ok.recorded rl i.unique i.places
          tells prev in
      let stored : Recorded s.created (store_entries m.entries (s.base.node v).log).0 =
        subst (Recorded s.created) (sym (ap (λ r. r.0) store)) rg' in
      record {
        idle = λ l. ok.idle (calm.leader_kept l).0;
        leads = received.leads ok.leads;
        recorded = subst (Recorded s.created) (sym received.new_log) stored;
        recorded_saved = elim received.saved_log [
          | inl e ↦ subst (Recorded s.created) (sym e) ok.recorded_saved
          | inr (inl e) ↦ subst (Recorded s.created) (sym e) ok.recorded
          | inr (inr e) ↦ subst (Recorded s.created) (sym e) stored
        ];
        owned = λ c k e.
            let o = ok.owned c k e in
            record {
              term_le = omega (arith, o.term_le, calm.term_le);
              later = o.later;
              holds = λ l q. absurd (no_rival s v now m i j away l le);
            };
      }

  receive-LogInv :
      (s : LogSystem C) (v : String) (now : ℕ) (m : AppendEntries C)
      → LogInv s
      → In m s.sent
      → (m.leader_id == v) ≡ false
      → LogInv
          (record s { base = with_node s.base v (handle_append_entries now m (s.base.node v)).0 })
  receive-LogInv s v now m i j away = rebuild s _ i (Step.receive v now m) (
      with_node-NodeOk s.created s.base v _ i.nodes
        (receive-NodeOk s v now m i j away (handle_append_entries-cases now m (s.base.node v))))

  send-LogInv :
      (s : LogSystem C) (v : String) (p : NodeConfig) (x : Exchange C)
      → begin_exchange p (s.base.node v) ≡ some x
      → LogInv s
      → LogInv (record s { sent = x.message ∷ s.sent })
  send-LogInv s v p x e i = record {
    inv = i.inv;
    nodes = i.nodes;
    elected = i.elected;
    places = i.places;
    unique = i.unique;
    told = λ m j. elim j [
      | inr old ↦ i.told m old
      | inl new ↦
          let (lead, t, id, tells) = begin_exchange-Tells p (s.base.node v) x e (i.nodes v).leads in
          let w = Elected-Won cluster s.base v (i.inv.won v lead) in
          subst
            (λ (m : AppendEntries C).
              Won cluster s.base.ballots m.leader_id m.term
              × ((l : List (LogEntry C)) × Recorded s.created l × Tells m l))
            new
            (rw (t, id, (i.inv.named v).0) w, ((s.base.node v).log, (i.nodes v).recorded, tells))
    ];
  }

  -- The records with a new one.
  more-NodeOk :
      (c : Creation C) (cs : List (Creation C)) (id : String) (n : Node C) (asking : Option ℕ)
      → (c.creator == id) ≡ false
      → NodeOk cs id n asking
      → NodeOk (c ∷ cs) id n asking
  more-NodeOk c cs id n asking away ok = record {
    idle = ok.idle;
    leads = ok.leads;
    recorded = Recorded-more c cs n.log ok.recorded;
    recorded_saved = Recorded-more c cs n.saved.log ok.recorded_saved;
    owned = λ d i e. elim i [
      | inr old ↦ ok.owned d old e
      | inl new ↦ absurd (
          true_ne-false
            (sym (same_refl id) ∙ rw (ap (λ (x : Creation C). x.creator) new ∙ e) at away))
    ];
  }

  -- The node that made an entry.
  command-NodeOk :
      (cs : List (Creation C)) (v : String) (command : C) (n : Node C) (asking : Option ℕ)
      → n.state ≡ leader
      → NodeOk cs v n asking
      → NodeOk (creation v command n ∷ cs) v (append_command command n) asking
  unfolding append_command save_state
  command-NodeOk cs v command n asking lead ok = record {
    idle = ok.idle;
    leads = ok.leads;
    recorded = Recorded-append (creation v command n) cs ok.recorded;
    recorded_saved = Recorded-append (creation v command n) cs ok.recorded;
    owned = λ d i e. elim i [
      | inl new ↦
          subst (λ x. Owned x (append_command command n) asking) new
            (record {
              term_le = omega arith;
              later = λ t q. absurd (none_ne-some (sym (ok.idle lead) ∙ q));
              holds = λ l q. omega (arith, length-append n.log ((creation v command n).entry ∷ []));
            })
      | inr old ↦
          let o = ok.owned d old e in
          record {
            term_le = o.term_le;
            later = o.later;
            holds = λ l q.
                omega (arith, o.holds l q, length-append n.log ((creation v command n).entry ∷ []));
          }
    ];
  }

  -- No entry of the leader's term stands yet where it puts the new one.
  fresh_place :
      (s : LogSystem C) (v : String) (command : C) (d : Creation C)
      → LogInv s
      → (s.base.node v).state ≡ leader
      → In d s.created
      → d.entry.term ≡ (s.base.node v).current_term
      → length d.before ≡ length (s.base.node v).log
      → ⊥
  fresh_place s v command d i lead j t e =
      let mine = Elected-Won cluster s.base v (i.inv.won v lead) in
      let theirs = subst (Won cluster s.base.ballots d.creator) t (i.elected d j) in
      let q : d.creator ≡ v = Won-unique cluster s.base i.inv d.creator v _ theirs mine in
      absurd (omega (arith, ((i.nodes v).owned d j q).holds lead (sym t), e))

  command-LogInv :
      (s : LogSystem C) (v : String) (command : C)
      → LogInv s
      → (s.base.node v).state ≡ leader
      → LogInv (record s {
        base = with_node s.base v (append_command command (s.base.node v));
        created = creation v command (s.base.node v) ∷ s.created;
      })
  command-LogInv s v command i lead = record {
    inv = Step-Inv cluster i.inv (Step.command v command);
    nodes = λ id. elim (Bool-cases (v == id)) [
      | inl p ↦ rw p (
          subst (λ j. NodeOk (c ∷ s.created) j (append_command command n) (s.base.asking j))
            (same→eq v id p)
            (command-NodeOk s.created v command n (s.base.asking v) lead (i.nodes v)))
      | inr p ↦ rw p (more-NodeOk c s.created id (s.base.node id) (s.base.asking id) p (i.nodes id))
    ];
    elected = λ d j. elim j [
      | inl new ↦
          subst (λ (x : Creation C). Won cluster s.base.ballots x.creator x.entry.term) new
            (Elected-Won cluster s.base v (i.inv.won v lead))
      | inr old ↦ i.elected d old
    ];
    places = λ d j. elim j [
      | inl new ↦
          subst (λ (x : Creation C). x.entry.index ≡ suc (length x.before)) new (omega arith)
      | inr old ↦ i.places d old
    ];
    unique = λ d e j k t len. elim j [
      | inl new ↦ elim k [
        | inl new' ↦ sym new ∙ new'
        | inr old' ↦ absurd (
            fresh_place s v command e i lead old'
              (sym t ∙ sym (ap (λ (x : Creation C). x.entry.term) new))
              (sym len ∙ sym (ap (λ (x : Creation C). length x.before) new)))
      ]
      | inr old ↦ elim k [
        | inl new' ↦ absurd (
            fresh_place s v command d i lead old
              (t ∙ sym (ap (λ (x : Creation C). x.entry.term) new'))
              (len ∙ sym (ap (λ (x : Creation C). length x.before) new')))
        | inr old' ↦ i.unique d e old old' t len
      ]
    ];
    told = λ m j.
        let (w, (l, r, tells)) = i.told m j in (w, (l, Recorded-more c s.created l r, tells));
  }
    where
      n : Node C
      n = s.base.node v

      c : Creation C
      c = creation v command n

  pub LogStep-LogInv : {s t : LogSystem C} → LogInv s → LogStep cluster s t → LogInv t
  LogStep-LogInv {s} i (LogStep.other t st q) = other-LogInv s t st q i
  LogStep-LogInv {s} i (LogStep.send v p x e) = send-LogInv s v p x e i
  LogStep-LogInv {s} i (LogStep.receive v now m j away) = receive-LogInv s v now m i j away
  LogStep-LogInv {s} i (LogStep.command v c lead) = command-LogInv s v c i lead

  start-LogInv : LogInv (record { base = start_system cluster; created = []; sent = [] })
  unfolding new_node
  start-LogInv = record {
    inv = start-Inv cluster;
    nodes = λ id. record {
      idle = λ l. refl;
      leads = λ x e. absurd (none_ne-some e);
      recorded = Recorded-nil [];
      recorded_saved = Recorded-nil [];
      owned = λ c j e. absurd j;
    };
    elected = λ c j. absurd j;
    places = λ c j. absurd j;
    unique = λ c d j k t l. absurd j;
    told = λ m j. absurd j;
  }

  pub LogReach-LogInv : {s : LogSystem C} → LogReach cluster s → LogInv s
  LogReach-LogInv LogReach.start = start-LogInv
  LogReach-LogInv (LogReach.next r st) = LogStep-LogInv (LogReach-LogInv r) st

  -- Log matching: in every state that the cluster can reach, where the logs of two nodes have an entry of
  -- one term at one index, they are equal up to that index; and each entry stands at its own index.
  -- Messages may be lost, doubled and late, and nodes may stop and start again from their files.
  pub log_matching :
      (s : LogSystem C)
      → LogReach cluster s
      → (a b : String) (k : ℕ) (e f : LogEntry C) → get_log_entry (s.base.node a).log k ≡ some e
      → get_log_entry (s.base.node b).log k ≡ some f
      → e.term ≡ f.term
      → (take k (s.base.node a).log ≡ take k (s.base.node b).log) × (e.index ≡ k)
  unfolding get_log_entry
  log_matching s r a b zero e f p q t = absurd (none_ne-some p)
  log_matching s r a b (suc k) e f p q t =
      let i = LogReach-LogInv r in
      (
        Recorded-Matched s.created (s.base.node a).log (s.base.node b).log (i.nodes a).recorded
            (i.nodes b).recorded i.unique k e f p q t,
        Recorded-Indexed s.created (s.base.node a).log (i.nodes a).recorded i.places k e p,
      )

  -- In every state that the cluster can reach, `_handle_append_entries` raises no IndexError on a message
  -- that some leader has sent: it gives a response.
  pub handle_append_entries_answers :
      (s : LogSystem C)
      → LogReach cluster s
      → (v : String) (now : ℕ) (m : AppendEntries C) → In m s.sent
      → (r : Response) × ((handle_append_entries now m (s.base.node v)).1 ≡ some r)
  handle_append_entries_answers s r v now m j =
      let i = LogReach-LogInv r in
      let (w, (l, rl, tells)) = i.told m j in
      handle_append_entries-answers now m (s.base.node v) (λ ok.
        let (g', store, rg') =
          store_entries-Recorded s.created m (s.base.node v).log l (i.nodes v).recorded rl i.unique
            i.places tells ok in
        ap (λ x. x.1) store)
