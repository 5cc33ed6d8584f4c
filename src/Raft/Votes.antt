-- ===== src/Raft/Votes.antt =====
-- src/consensus/raft.py: `_handle_request_vote`, `_start_election` and `_become_leader`. The coroutine
-- of an election is cut where it waits for the broadcast.
use pynchronize.Prelude.{
  ℕ, ◌+◌, Bool, true, false, ◌&&◌, ◌||◌, Option, none, some, List, [], ◌∷◌, ◌++◌, ◌==◌, String,
  string_key, eqb, ltb, leb, if◌then◌else◌, length,
}
use pynchronize.Prelude.Dict
use pynchronize.Prelude.Dict.{Dict}
use pynchronize.Config.{NodeConfig, get_other_nodes}
use pynchronize.Raft.Node.{
  candidate, leader, LogEntry, LeaderState, become_leader, Node, RequestVote, Response, is_state,
  save_state, get_majority, get_last_log_index, get_last_log_term, observe_term,
}

-- `self.persistent.voted_for is None or self.persistent.voted_for == candidate_id`
unfoldable pub may_vote : Option String → String → Bool
may_vote none candidate_id = true
may_vote (some v) candidate_id = v == candidate_id

module _ {C : Type 0} where
  unfoldable pub log_ok : RequestVote → List (LogEntry C) → Bool
  log_ok m log =
      ltb (get_last_log_term log) m.last_log_term
      || (eqb m.last_log_term (get_last_log_term log)
          && leb (get_last_log_index log) m.last_log_index)

  -- the test that grants the vote, after the term has been observed
  unfoldable pub grants : RequestVote → Node C → Bool
  unfolding may_vote log_ok
  grants m n = leb n.current_term m.term && (may_vote n.voted_for m.candidate_id && log_ok m n.log)

  unfoldable pub cast_vote : ℕ → RequestVote → Node C → Node C × Response
  unfolding grants save_state
  cast_vote now m n =
      if grants m n
      then (
        record (save_state
            (record n { persistent = record n.persistent { voted_for = some m.candidate_id } })) {
              last_heartbeat = now;
            },
        record { term = n.current_term; granted = true },
      )
      else (n, record { term = n.current_term; granted = false })

  -- `_handle_request_vote`, at the time `now`
  unfoldable pub handle_request_vote : ℕ → RequestVote → Node C → Node C × Response
  unfolding observe_term cast_vote
  handle_request_vote now m n = cast_vote now m (observe_term m.term n)

-- one round of the loop over the responses
unfoldable pub count_vote : String → Option Response → Dict String Bool → Dict String Bool
count_vote node_id none votes = votes
count_vote node_id (some r) votes = if r.granted then Dict.assign node_id true votes else votes

unfoldable pub count_votes : Dict String (Option Response) → Dict String Bool → Dict String Bool
unfolding count_vote
count_votes [] votes = votes
count_votes ((node_id, r) ∷ rs) votes = count_votes rs (count_vote node_id r votes)

unfoldable pub start_indexes : ℕ → List NodeConfig → LeaderState → LeaderState
start_indexes last [] s = s
start_indexes last (p ∷ ps) s = start_indexes last ps (record s {
  next_index = Dict.assign p.node_id (last + 1) s.next_index;
  match_index = Dict.assign p.node_id 0 s.match_index;
})

module _ {C : Type 0} where
  -- `_start_election` up to the broadcast
  unfoldable pub start_election : Node C → Node C × RequestVote
  unfolding save_state
  start_election n =
      let n' = save_state (record n {
        state = candidate;
        persistent = record n.persistent {
          current_term = n.current_term + 1;
          voted_for = some n.node_id;
        };
        votes_received = (n.node_id, true) ∷ [];
      }) in
      (
        n',
        record {
          term = n'.current_term;
          candidate_id = n'.node_id;
          last_log_index = get_last_log_index n'.log;
          last_log_term = get_last_log_term n'.log;
        },
      )

  -- `_become_leader`
  unfoldable pub become_leader_now : Node C → Node C
  unfolding start_indexes
  become_leader_now n = record n {
    state = leader;
    current_leader = some n.node_id;
    leader_state = some (
        start_indexes (get_last_log_index n.log) (get_other_nodes n.cluster n.node_id)
          (record { next_index = []; match_index = [] }));
    calls = n.calls ++ become_leader ∷ [];
  }

  -- `_start_election` behind the broadcast, with its responses
  unfoldable pub finish_election : Dict String (Option Response) → Node C → Node C
  unfolding become_leader_now is_state get_majority
  finish_election responses n =
      let n' = record n { votes_received = count_votes responses n.votes_received } in
      if leb (get_majority n') (length n'.votes_received) && is_state n'.state candidate
      then become_leader_now n'
      else n'
