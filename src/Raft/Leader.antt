-- ===== src/Raft/Leader.antt =====
-- src/consensus/raft.py: what a leader does: `_send_append_entries`, `_try_commit` and `propose`. Each
-- exchange with a follower is cut where it waits for the response.
use pynchronize.Prelude.{
  ℕ, zero, suc, ◌+◌, ◌-◌, max, Bool, true, false, not, ◌&&◌, Option, none, some, List, [], ◌∷◌,
  ◌++◌, String, string_key, eqb, ltb, leb, if◌then◌else◌, length, drop,
}
use pynchronize.Prelude.Dict
use pynchronize.Prelude.Dict.{Dict}
use pynchronize.Config.{NodeConfig, get_other_nodes}
use pynchronize.Raft.Node.{
  leader, LogEntry, LeaderState, Node, AppendEntries, Response, is_state, save_state, get_majority,
  get_log_entry, step_down, apply_committed,
}

abbrev pub or_one : Option ℕ → ℕ
or_one none = 1
or_one (some i) = i

abbrev pub is_nil {ℓ} : {A : Type ℓ} → List A → Bool
is_nil [] = true
is_nil (x ∷ xs) = false

abbrev pub is_none {ℓ} : {A : Type ℓ} → Option A → Bool
is_none none = true
is_none (some x) = false

-- how many of the followers have at least `i` entries
unfoldable pub count_matches : ℕ → Dict String ℕ → ℕ
count_matches i [] = 0
count_matches i ((node_id, m) ∷ ms) =
    let rest = count_matches i ms in if leb i m then rest + 1 else rest

-- The message for the follower `p`, and the local variables `next_idx` and `entries`. No index in
-- `next_index` is 0, so `next_idx - 1` needs no sign.
pub record Exchange (C : Type 0) : Type 0 where
  pub peer : NodeConfig
  pub next_idx : ℕ
  pub message : AppendEntries C

module _ {C : Type 0} where
  unfoldable pub term_or_zero : Option (LogEntry C) → ℕ
  term_or_zero none = 0
  term_or_zero (some e) = e.term

  unfoldable pub exchange : Node C → NodeConfig → LeaderState → Exchange C
  unfolding term_or_zero get_log_entry
  exchange n p s =
      let next_idx = or_one (Dict.get p.node_id s.next_index) in
      record {
        peer = p;
        next_idx = next_idx;
        message = record {
          term = n.current_term;
          leader_id = n.node_id;
          prev_log_index = next_idx - 1;
          prev_log_term = term_or_zero (get_log_entry n.log (next_idx - 1));
          entries = if leb next_idx (length n.log) then drop (next_idx - 1) n.log else [];
          leader_commit = n.commit_index;
        };
      }

  -- `self.leader_state` is read here: `none` is the AttributeError on None
  unfoldable pub begin_exchange : NodeConfig → Node C → Option (Exchange C)
  unfolding exchange
  begin_exchange p n = elim n.leader_state [ none ↦ none | some s ↦ some (exchange n p s) ]

  unfoldable pub advance : Exchange C → LeaderState → LeaderState
  advance x s =
      let matched = x.message.prev_log_index + length x.message.entries in
      record {
        next_index = Dict.assign x.peer.node_id (matched + 1) s.next_index;
        match_index = Dict.assign x.peer.node_id matched s.match_index;
      }

  unfoldable pub back_off : Exchange C → LeaderState → LeaderState
  back_off x s = record s {
    next_index = Dict.assign x.peer.node_id (max 1 (x.next_idx - 1)) s.next_index;
  }

  -- A write to `self.leader_state`; `false` is the AttributeError on None.
  unfoldable pub with_leader_state : (LeaderState → LeaderState) → Node C → Node C × Bool
  with_leader_state f n = elim n.leader_state [
    | none ↦ (n, false)
    | some s ↦ (record n { leader_state = some (f s) }, true)
  ]

  -- The lines behind the wait for the response; `false` means that an exception was raised.
  unfoldable pub end_exchange : Exchange C → Option Response → Node C → Node C × Bool
  unfolding with_leader_state advance back_off
  end_exchange x none n = (n, true)
  end_exchange x (some r) n =
      if r.granted
      then (if is_nil x.message.entries then (n, true) else with_leader_state (advance x) n)
      else if ltb n.current_term r.term
      then (step_down r.term n, true)
      else with_leader_state (back_off x) n

  -- The loop over the followers, where nothing else runs between the exchanges.
  module _ (answers : NodeConfig → AppendEntries C → Option Response) where
    unfoldable pub send_one : NodeConfig → Node C → Node C × Bool
    unfolding begin_exchange end_exchange
    send_one p n = elim (begin_exchange p n) [
      | none ↦ (n, false)
      | some x ↦ end_exchange x (answers p x.message) n
    ]

    unfoldable pub send_all : List NodeConfig → Node C → Node C × Bool
    unfolding send_one
    send_all [] n = (n, true)
    send_all (p ∷ ps) n =
        let (n', done) = send_one p n in
        let rest = send_all ps n' in if done then rest else (n', false)

  -- one round of the loop of `_try_commit`
  unfoldable pub commit_round : Dict String ℕ → ℕ → Node C → Node C
  unfolding term_or_zero get_log_entry count_matches get_majority
  commit_round match_index i n = elim (get_log_entry n.log i) [
    | none ↦ n
    | some e ↦
        if eqb e.term n.current_term && leb (get_majority n) (1 + count_matches i match_index)
        then record n { commit_index = i }
        else n
  ]

  unfoldable pub commit_rounds : Dict String ℕ → ℕ → ℕ → Node C → Node C
  unfolding commit_round
  commit_rounds match_index zero i n = n
  commit_rounds match_index (suc k) i n =
      commit_rounds match_index k (i + 1) (commit_round match_index i n)

  unfoldable pub commit_with : Option LeaderState → Node C → Node C
  unfolding commit_rounds
  commit_with none n = n
  commit_with (some s) n =
      if is_state n.state leader
      then apply_committed
          (commit_rounds s.match_index (length n.log - n.commit_index) (n.commit_index + 1) n)
      else n

  -- `_try_commit`
  unfoldable pub try_commit : Node C → Node C
  unfolding commit_with
  try_commit n = commit_with n.leader_state n

  -- `_send_append_entries`
  unfoldable pub send_append_entries :
      (NodeConfig → AppendEntries C → Option Response) → Node C → Node C × Bool
  unfolding send_all try_commit is_state
  send_append_entries answers n =
      if is_state n.state leader && not (is_none n.leader_state)
      then (let (n', done) = send_all answers (get_other_nodes n.cluster n.node_id) n in
          if done then (try_commit n', true) else (n', false))
      else (n, true)

  -- `propose` up to the exchanges
  unfoldable pub append_command : C → Node C → Node C
  unfolding save_state
  append_command command n = save_state (record n {
    persistent = record n.persistent {
      log =
          n.log
          ++ record { term = n.current_term; index = length n.log + 1; command = command } ∷ [];
    };
  })

  -- `propose`: the Boolean that it returns, or none where it raises
  unfoldable pub propose :
      (NodeConfig → AppendEntries C → Option Response) → C → Node C → Node C × Option Bool
  unfolding append_command send_append_entries is_state
  propose answers command n =
      if is_state n.state leader
      then (let (n', done) = send_append_entries answers (append_command command n) in
          (n', if done then some true else none))
      else (n, some false)
