-- ===== src/Archipelago/Check.antt =====
-- `check_stable_point_index` of hotstuff/src/hotstuff.cpp, and the handlers around it.
use archipelago_hotstuff.Base.{
  ℕ, ◌-◌, ◌%◌, ◌^◌, Bool, false, ◌&&◌, none, some, List, ◌∷◌, ltb, leb, ◌==◌, if◌then◌else◌, length,
  member, nth,
}
use archipelago_hotstuff.Archipelago.State.{
  Consensus, Entry, Outcome, Replica, aborted, done, ignore, undefined,
}
use archipelago_hotstuff.Archipelago.Order.{sort_from}

-- The test of `check_stable_point_index`.
unfoldable pub splits : (stable_timestamp stable_idx : ℕ) → List Entry → Bool
splits limit idx es =
    ltb idx (length es % 2 ^ 32)
    && elim (nth es idx) [ none ↦ false | some e ↦ ltb limit e.timestamp ]
    && ltb 0 idx
    && elim (nth es (idx - 1)) [ none ↦ false | some e ↦ leb e.timestamp limit ]

unfoldable pub log_error : (stable_timestamp stable_idx : ℕ) → Replica → Replica
unfolding splits
log_error limit idx s =
    if splits limit idx s.commit_set
    then s
    else record s { stable_point_errors = (limit, idx) ∷ s.stable_point_errors }

unfoldable pub check_stable_point_index :
    (List Entry → List Entry) → (stable_timestamp stable_idx : ℕ) → Replica → Outcome
unfolding sort_from log_error
check_stable_point_index sort limit idx s =
    if ltb s.stable_point_idx idx
    then elim (sort_from sort s.stable_point_idx s.commit_set) [
      | none ↦ undefined
      | some es ↦ done (log_error limit idx (record s { commit_set = es; stable_point_idx = idx }))
    ]
    else done (log_error limit idx s)

-- The end of `server_consensus_request_cmd_handler`.
unfoldable pub exec_placed : Consensus → Outcome → Outcome
exec_placed msg (done s) = done (record s {
  cmd_pending =
      (msg.place_holder4, ignore)
      ∷ (msg.place_holder3, ignore)
      ∷ (msg.place_holder2, ignore)
      ∷ (msg.commit_set_hash, ignore)
      ∷ s.cmd_pending;
})
exec_placed msg aborted = aborted
exec_placed msg undefined = undefined

-- `server_consensus_request_cmd_handler`
unfoldable pub on_consensus_request : (List Entry → List Entry) → Consensus → Replica → Outcome
unfolding check_stable_point_index exec_placed
on_consensus_request sort msg s =
    if s.id == 1
    then done s
    else exec_placed msg (check_stable_point_index sort msg.stable_timestamp msg.stable_idx s)

-- `server_consensus_reponse_cmd_handler`
unfoldable pub on_consensus_response : (commit_set_hash : ℕ) → Replica → Replica
on_consensus_response h s =
    if s.id == 1
    then if member h s.leader_propose then s else record s { leader_propose = h ∷ s.leader_propose }
    else s
