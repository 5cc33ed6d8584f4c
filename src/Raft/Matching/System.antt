-- ===== src/Raft/Matching/System.antt =====
-- The cluster of Raft nodes with its AppendEntries messages: a node receives only what some leader has
-- sent, though late, twice, or never. `created` remembers every entry that `propose` made, and the log
-- that it was appended to.
use pynchronize.Prelude.{
  ℕ, ◌≡◌, ◌≢◌, ◌+◌, false, some, List, [], ◌∷◌, ◌==◌, String, string_key, length,
}
use pynchronize.Config.{NodeConfig, Cluster}
use pynchronize.Raft.Node.{leader, LogEntry, AppendEntries, Node}
use pynchronize.Raft.Entries.{handle_append_entries}
use pynchronize.Raft.Leader.{Exchange, begin_exchange, append_command}
use pynchronize.Raft.Cluster.{System, In, Step, start_system, with_node}

-- `creator` made `entry` and appended it to the log `before`.
pub record Creation (C : Type 0) : Type 0 where
  pub creator : String
  pub before : List (LogEntry C)
  pub entry : LogEntry C

pub record LogSystem (C : Type 0) : Type 0 where
  pub base : System C
  pub created : List (Creation C)
  pub sent : List (AppendEntries C)

module _ {C : Type 0} where
  -- the entry that `append_command` makes
  abbrev pub creation : String → C → Node C → Creation C
  creation v command n = record {
    creator = v;
    before = n.log;
    entry = record { term = n.current_term; index = length n.log + 1; command = command };
  }

module _ {C : Type 0} (cluster : Cluster) where
  -- The steps that neither read nor make entries. `_election_loop` begins no election while the node
  -- leads.
  abbrev pub IsQuiet : {s t : System C} → Step cluster s t → Type 0
  IsQuiet {s} (Step.ask v member) = (s.node v).state ≢ leader
  IsQuiet (Step.receive v now m) = ⊥
  IsQuiet (Step.command v c) = ⊥
  IsQuiet (Step.vote v now m) = Unit {0}
  IsQuiet (Step.count v t rs q honest known) = Unit {0}
  IsQuiet (Step.reply v x r) = Unit {0}
  IsQuiet (Step.commit v) = Unit {0}
  IsQuiet (Step.crash v) = Unit {0}

  pub data LogStep (s : LogSystem C) : LogSystem C → Type 0 where
    other :
        (t : System C) (st : Step cluster s.base t) → IsQuiet st → LogStep s (record s { base = t })
    -- one round of the loop of `_send_append_entries`, up to the wait
    send :
        (v : String) (p : NodeConfig) (x : Exchange C)
        → begin_exchange p (s.base.node v) ≡ some x
        → LogStep s (record s { sent = x.message ∷ s.sent })
    -- `_send_append_entries` sends to the other nodes only
    receive :
        (v : String) (now : ℕ) (m : AppendEntries C)
        → In m s.sent
        → (m.leader_id == v) ≡ false
        → LogStep s
            (record s { base = with_node s.base v (handle_append_entries now m (s.base.node v)).0 })
    -- `propose` up to the exchanges, where the node leads
    command :
        (v : String) (c : C)
        → (s.base.node v).state ≡ leader
        → LogStep s (record s {
          base = with_node s.base v (append_command c (s.base.node v));
          created = creation v c (s.base.node v) ∷ s.created;
        })

  pub data LogReach : LogSystem C → Type 0 where
    start : LogReach (record { base = start_system cluster; created = []; sent = [] })
    next : {s t : LogSystem C} → LogReach s → LogStep s t → LogReach t
