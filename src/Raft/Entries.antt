-- ===== src/Raft/Entries.antt =====
-- src/consensus/raft.py: `_handle_append_entries`.
use pynchronize.Prelude.{
  ℕ, zero, suc, ◌-◌, min, Bool, true, false, ◌||◌, Option, none, some, List, [], ◌∷◌, ◌++◌, String,
  string_key, eqb, ltb, leb, if◌then◌else◌, length, get_elem?, take, last?,
}
use pynchronize.Raft.Node.{
  follower, candidate, LogEntry, Node, AppendEntries, Response, is_state, save_state,
  get_last_log_index, get_log_entry, observe_term, apply_committed,
}

module _ {C : Type 0} where
  -- `self.persistent.log[entry.index - 1]`, where index 0 reads the last entry; `none` is an
  -- IndexError
  unfoldable pub entry_at : List (LogEntry C) → ℕ → Option (LogEntry C)
  entry_at log zero = last? log
  entry_at log (suc i) = get_elem? log i

  -- `self.persistent.log[:entry.index - 1]`, where index 0 drops the last entry
  unfoldable pub log_before : List (LogEntry C) → ℕ → List (LogEntry C)
  log_before log zero = take (length log - 1) log
  log_before log (suc i) = take i log

  -- the entry that stands at the index already is kept if it has the same term
  unfoldable pub replace_conflict :
      LogEntry C → Option (LogEntry C) → List (LogEntry C) → Option (List (LogEntry C))
  unfolding log_before
  replace_conflict entry none log = none
  replace_conflict entry (some existing) log =
      if eqb existing.term entry.term
      then some log
      else some (log_before log entry.index ++ entry ∷ [])

  -- one round of the loop over the entries
  unfoldable pub store_entry : LogEntry C → List (LogEntry C) → Option (List (LogEntry C))
  unfolding entry_at replace_conflict
  store_entry entry log =
      if leb entry.index (length log)
      then replace_conflict entry (entry_at log entry.index) log
      else some (log ++ entry ∷ [])

  -- The loop: the log, and whether the loop came to its end without an IndexError.
  unfoldable pub store_entries : List (LogEntry C) → List (LogEntry C) → List (LogEntry C) × Bool
  store_entries [] log = (log, true)
  store_entries (e ∷ es) log = elim (store_entry e log) [
    | none ↦ (log, false)
    | some log' ↦ store_entries es log'
  ]

  -- `not prev_entry or prev_entry.term != prev_log_term`, where `prev_log_index > 0`
  unfoldable pub prev_ok : Option (LogEntry C) → ℕ → Bool
  prev_ok none prev_log_term = false
  prev_ok (some e) prev_log_term = eqb e.term prev_log_term

  unfoldable pub prev_matches : AppendEntries C → List (LogEntry C) → Bool
  unfolding prev_ok get_log_entry
  prev_matches m log =
      eqb m.prev_log_index 0 || prev_ok (get_log_entry log m.prev_log_index) m.prev_log_term

  -- `if leader_commit > self.volatile.commit_index: …`
  unfoldable pub follow_commit : ℕ → Node C → Node C
  unfolding get_last_log_index
  follow_commit leader_commit n =
      if ltb n.commit_index leader_commit
      then apply_committed
          (record n { commit_index = min leader_commit (get_last_log_index n.log) })
      else n

  -- `if entries: self._save_state()`
  unfoldable pub save_if_any : List (LogEntry C) → Node C → Node C
  unfolding save_state
  save_if_any [] n = n
  save_if_any (e ∷ es) n = save_state n

  -- the part of the handler behind the test of the previous entry; no response where it raised
  unfoldable pub accept_entries : AppendEntries C → Node C → Node C × Option Response
  unfolding save_if_any follow_commit
  accept_entries m n =
      let (log', done) = store_entries m.entries n.log in
      let n' = record n { persistent = record n.persistent { log = log' } } in
      if done
      then (
        follow_commit m.leader_commit (save_if_any m.entries n'),
        some (record { term = n.current_term; granted = true }),
      )
      else (n', none)

  unfoldable pub recognise_leader : String → Node C → Node C
  unfolding is_state
  recognise_leader leader_id n = record n {
    current_leader = some leader_id;
    state = if is_state n.state candidate then follower else n.state;
  }

  unfoldable pub reject_entries : Node C → Node C × Option Response
  reject_entries n = (n, some (record { term = n.current_term; granted = false }))

  unfoldable pub check_entries : AppendEntries C → Node C → Node C × Option Response
  unfolding prev_matches accept_entries reject_entries recognise_leader
  check_entries m n =
      if ltb m.term n.current_term
      then reject_entries n
      else (let n' = recognise_leader m.leader_id n in
          if prev_matches m n'.log then accept_entries m n' else reject_entries n')

  -- `_handle_append_entries`, at the time `now`
  unfoldable pub handle_append_entries : ℕ → AppendEntries C → Node C → Node C × Option Response
  unfolding observe_term check_entries
  handle_append_entries now m n =
      check_entries m (record (observe_term m.term n) { last_heartbeat = now })
