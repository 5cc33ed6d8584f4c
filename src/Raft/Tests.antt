-- ===== src/Raft/Tests.antt =====
-- A cluster of three nodes elects a leader.
use pynchronize.Prelude.{
  take, ℕ, ◌≡◌, refl, inl, true, Option, none, some, [], ◌∷◌, String, string_key, contains, arith,
}
use pynchronize.Prelude.Dict
use pynchronize.Prelude.Dict.{Dict, keys}
use pynchronize.Config.{NodeConfig, Cluster, get_other_nodes}
use pynchronize.Raft.Node.{
  LogEntry, AppendEntries, get_log_entry, apply_rounds, apply_committed, apply_call, RequestVote,
  Response, new_node, save_state, get_majority, get_last_log_index, get_last_log_term, step_down,
  observe_term, is_state,
}
use pynchronize.Raft.Votes.{
  become_leader_now, start_indexes, may_vote, log_ok, grants, cast_vote, handle_request_vote,
  start_election, count_votes, finish_election,
}
use pynchronize.Raft.Cluster.{
  with_node, System, node_ids, start_system, after_ask, after_vote, after_count, Step, Reach,
}
use pynchronize.Raft.Entries.{
  entry_at, log_before, replace_conflict, store_entry, store_entries, prev_ok, prev_matches,
  follow_commit, save_if_any, accept_entries, recognise_leader, reject_entries, check_entries,
  handle_append_entries,
}
use pynchronize.Raft.Leader.{exchange, begin_exchange, append_command, term_or_zero}
use pynchronize.Raft.Matching.System.{LogSystem, LogStep, LogReach, creation}
use pynchronize.Raft.Matching.Invariant.{log_matching, handle_append_entries_answers}
use pynchronize.Raft.Election.{election_safety, one_vote_per_term}

raft : Unit {0}
unfolding get_other_nodes new_node save_state get_majority get_last_log_index get_last_log_term
    step_down observe_term is_state may_vote log_ok grants cast_vote handle_request_vote
    start_election count_votes finish_election contains Dict.assign Dict.get
raft = tt

abbrev peer : String → ℕ → NodeConfig
peer id port = record { node_id = id; host = id; port = port }

abbrev cluster : Cluster
cluster = peer "node1" 8000 ∷ peer "node2" 8001 ∷ peer "node3" 8002 ∷ []

abbrev first_request : RequestVote
first_request = record { term = 1; candidate_id = "node1"; last_log_index = 0; last_log_term = 0 }

abbrev responses : Dict String (Option Response)
responses = ("node2", some (record { term = 1; granted = true })) ∷ ("node3", none) ∷ []

abbrev asked : System ℕ
asked = after_ask (start_system cluster) "node1"

abbrev voted : System ℕ
voted = after_vote asked "node2" 7 first_request

abbrev elected : System ℕ
elected = after_count voted "node1" responses

responses_known :
    (a : String) → contains a (keys responses) ≡ true → contains a (node_ids cluster) ≡ true
unfolding contains
responses_known a h = ground (
  arith,
  string_key.same_iff "node1" a,
  string_key.same_iff "node2" a,
  string_key.same_iff "node3" a,
)

elected_reached : Reach cluster elected
unfolding raft
elected_reached =
    Reach.next
      (Reach.next (Reach.next Reach.start (Step.ask "node1" refl))
        (Step.vote "node2" 7 first_request))
      (Step.count "node1" 1 responses refl ((λ _. inl refl), tt) responses_known)

election_safety_example : ◌≡◌ {A = String} "node1" "node1"
unfolding raft
election_safety_example =
    election_safety cluster elected elected_reached "node1" "node1" refl refl refl

one_vote_per_term_example : ◌≡◌ {A = String} "node1" "node1"
unfolding raft
one_vote_per_term_example =
    one_vote_per_term cluster elected elected_reached "node2" 1 "node1" "node1" (inl refl)
      (inl refl)

leading : Unit {0}
unfolding raft become_leader_now start_indexes append_command exchange begin_exchange term_or_zero
    get_log_entry entry_at log_before replace_conflict store_entry store_entries prev_ok
    prev_matches follow_commit save_if_any accept_entries recognise_leader reject_entries
    check_entries handle_append_entries apply_rounds apply_committed apply_call
leading = tt

-- the elected node appends the command 7 and sends it to the second node
abbrev proposed : LogSystem ℕ
proposed = record {
  base = with_node elected "node1" (append_command 7 (elected.node "node1"));
  created = creation "node1" 7 (elected.node "node1") ∷ [];
  sent = [];
}

abbrev entry : LogEntry ℕ
entry = record { term = 1; index = 1; command = 7 }

abbrev message : AppendEntries ℕ
message = record {
  term = 1;
  leader_id = "node1";
  prev_log_index = 0;
  prev_log_term = 0;
  entries = entry ∷ [];
  leader_commit = 0;
}

abbrev received : LogSystem ℕ
received = record {
  base =
      with_node proposed.base "node2"
        (handle_append_entries 9 message (proposed.base.node "node2")).0;
  created = proposed.created;
  sent = message ∷ [];
}

received_reached : LogReach cluster received
unfolding leading
received_reached =
    LogReach.next
      (LogReach.next
        (LogReach.next
          (LogReach.next
            (LogReach.next
              (LogReach.next LogReach.start (LogStep.other asked (Step.ask "node1" refl) (λ e. cc)))
              (LogStep.other voted (Step.vote "node2" 7 first_request) tt))
            (LogStep.other elected
              (Step.count "node1" 1 responses refl ((λ _. inl refl), tt) responses_known) tt))
          (LogStep.command "node1" 7 refl))
        (LogStep.send "node1" (peer "node2" 8001)
          (record { peer = peer "node2" 8001; next_idx = 1; message = message }) refl))
      (LogStep.receive "node2" 9 message (inl refl) refl)

log_matching_example :
    (take 1 (received.base.node "node1").log ≡ take 1 (received.base.node "node2").log)
    × (◌≡◌ {A = ℕ} 1 1)
unfolding leading
log_matching_example =
    log_matching cluster received received_reached "node1" "node2" 1 entry entry refl refl refl

handle_append_entries_answers_example :
    (r : Response) × ((handle_append_entries 11 message (received.base.node "node3")).1 ≡ some r)
handle_append_entries_answers_example =
    handle_append_entries_answers cluster received received_reached "node3" 11 message (inl refl)
