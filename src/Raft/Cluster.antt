-- ===== src/Raft/Cluster.antt =====
-- A cluster of Raft nodes as a step relation. A step is one handler, or one part of a coroutine between
-- two waits; steps of different nodes, and of the coroutines of one node, come in any order. A message
-- may be anything, may come late or never. Of the network it is assumed only that a granted vote that a
-- candidate reads was granted by that node to that request.
use pynchronize.Prelude.{
  ℕ, ◌≡◌, ◌⊎◌, true, Option, none, some, List, [], ◌∷◌, ◌==◌, String, string_key, contains,
  if◌then◌else◌, map,
}
use pynchronize.Prelude.Dict.{Dict, keys}
use pynchronize.Config.{Cluster}
use pynchronize.Raft.Node.{Node, RequestVote, AppendEntries, Response, new_node, restart}
use pynchronize.Raft.Votes.{handle_request_vote, start_election, finish_election}
use pynchronize.Raft.Entries.{handle_append_entries}
use pynchronize.Raft.Leader.{Exchange, end_exchange, try_commit, append_command}

-- `voter` granted its vote of `term` to `candidate_id`.
pub record Ballot : Type 0 where
  pub voter : String
  pub term : ℕ
  pub candidate_id : String

abbrev pub In : {A : Type 0} → A → List A → Type 0
In a [] = ⊥
In a (x ∷ xs) = (x ≡ a) ⊎ In a xs

-- The nodes by their ids, the term of the election whose broadcast a node waits for, and all votes
-- granted so far.
pub record System (C : Type 0) : Type 0 where
  pub node : String → Node C
  pub asking : String → Option ℕ
  pub ballots : List Ballot

abbrev pub update : {A : Type 0} → (String → A) → String → A → String → A
update f i a j = if i == j then a else f j

abbrev pub node_ids : Cluster → List String
node_ids = map (λ n. n.node_id)

-- Where a response grants the vote, the vote was granted to that request.
abbrev pub Honest : List Ballot → ℕ → String → Dict String (Option Response) → Type 0
Honest ballots term candidate_id [] = Unit {0}
Honest ballots term candidate_id ((v, none) ∷ rs) = Honest ballots term candidate_id rs
Honest ballots term candidate_id ((v, some r) ∷ rs) =
    (r.granted ≡ true → In (record { voter = v; term = term; candidate_id = candidate_id }) ballots)
    × Honest ballots term candidate_id rs

abbrev pub record_vote : String → RequestVote → Response → List Ballot → List Ballot
record_vote v m r ballots =
    if r.granted
    then record { voter = v; term = m.term; candidate_id = m.candidate_id } ∷ ballots
    else ballots

module _ {C : Type 0} where
  abbrev pub with_node : System C → String → Node C → System C
  with_node s v n = record s { node = update s.node v n }

  -- `_handle_request_vote`
  abbrev pub after_vote : System C → String → ℕ → RequestVote → System C
  after_vote s v now m =
      let (n, r) = handle_request_vote now m (s.node v) in
      record s { node = update s.node v n; ballots = record_vote v m r s.ballots }

  -- `_start_election` up to the broadcast: the node votes for itself
  abbrev pub after_ask : System C → String → System C
  after_ask s v =
      let (n, m) = start_election (s.node v) in
      record {
        node = update s.node v n;
        asking = update s.asking v (some m.term);
        ballots = record { voter = v; term = m.term; candidate_id = v } ∷ s.ballots;
      }

  -- `_start_election` behind the broadcast
  abbrev pub after_count : System C → String → Dict String (Option Response) → System C
  after_count s v responses = record s {
    node = update s.node v (finish_election responses (s.node v));
    asking = update s.asking v none;
  }

  -- the process ends and is started again
  abbrev pub after_crash : System C → String → System C
  after_crash s v = record s {
    node = update s.node v (restart (s.node v));
    asking = update s.asking v none;
  }

module _ {C : Type 0} (cluster : Cluster) where
  abbrev pub start_system : System C
  start_system = record { node = λ id. new_node cluster id; asking = λ id. none; ballots = [] }

  pub data Step (s : System C) : System C → Type 0 where
    vote : (v : String) (now : ℕ) (m : RequestVote) → Step s (after_vote s v now m)
    receive :
        (v : String) (now : ℕ) (m : AppendEntries C)
        → Step s (with_node s v (handle_append_entries now m (s.node v)).0)
    ask : (v : String) → contains v (node_ids cluster) ≡ true → Step s (after_ask s v)
    count :
        (v : String) (term : ℕ) (responses : Dict String (Option Response))
        → s.asking v ≡ some term
        → Honest s.ballots term v responses
        → ((a : String) → contains a (keys responses) ≡ true → contains a (node_ids cluster) ≡ true)
        → Step s (after_count s v responses)
    -- `propose` up to the exchanges
    command : (v : String) (c : C) → Step s (with_node s v (append_command c (s.node v)))
    -- the end of an exchange with a follower
    reply :
        (v : String) (x : Exchange C) (r : Option Response)
        → Step s (with_node s v (end_exchange x r (s.node v)).0)
    -- `_try_commit`
    commit : (v : String) → Step s (with_node s v (try_commit (s.node v)))
    crash : (v : String) → Step s (after_crash s v)

  pub data Reach : System C → Type 0 where
    start : Reach start_system
    next : {s t : System C} → Reach s → Step s t → Reach t
