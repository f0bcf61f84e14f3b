-- ===== src/Archipelago/Execute.antt =====
-- The callback of a batch in hotstuff/examples/archipelago_app.cpp.
use archipelago_hotstuff.Base.{
  ℕ, zero, suc, ◌+◌, ◌-◌, Option, none, some, List, ◌∷◌, ltb, if◌then◌else◌, lookup, assign, nth,
}
use archipelago_hotstuff.Archipelago.State.{Entry, Outcome, Replica, done, undefined}

-- The replies of an executed batch: `n` entries from index `i`.
unfoldable pub reply_from : (n i : ℕ) → List Entry → List (ℕ × ℕ) → Option (List (ℕ × ℕ))
reply_from zero i es out = some out
reply_from (suc n) i es out = elim (nth es i) [
  | none ↦ none
  | some e ↦ reply_from n (i + 1) es ((e.cmd_hash, e.addr) ∷ out)
]

unfoldable pub reply_batch : (commit_set_hash start end_idx : ℕ) → Replica → Outcome
unfolding reply_from
reply_batch h start end_idx s =
    elim (reply_from (end_idx - start) start s.commit_set s.client_replies) [
      | none ↦ undefined
      | some out ↦ done (record s {
        exec_client_rsp = assign h (start, end_idx) s.exec_client_rsp;
        client_replies = out;
        exec_count = if ltb s.exec_count end_idx then end_idx else s.exec_count;
      })
    ]

-- The callback of a batch. `exec_client_rsp[commit_set_hash]` makes an entry of zeros if there is none.
unfoldable pub on_executed : (commit_set_hash : ℕ) → Replica → Outcome
unfolding reply_batch
on_executed h s = elim (lookup h s.exec_client_rsp) [
  | none ↦ reply_batch h 0 0 s
  | some p ↦ reply_batch h p.0 p.1 s
]
