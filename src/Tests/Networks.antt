-- ===== src/Tests/Networks.antt =====
-- The theorems on HotStuffBase at concrete inputs.
use archipelago_hotstuff.Base.{
  ◌≤◌, true, false, length, ℕ, ◌+◌, ◌-◌, ◌<◌, ◌≡◌, ◌≢◌, refl, List, [], ◌∷◌, arith, lookup,
  lookup-here, Unique,
}
use archipelago_hotstuff.Crypto.{QuorumCert}
use archipelago_hotstuff.Core.State.{Finality}
use archipelago_hotstuff.Network.{Commands, ReplicaAddr, on_cmd_pending, do_decide, start_base}
use archipelago_hotstuff.Network.Queue.{Drained, on_cmd_pending-Drained}
use archipelago_hotstuff.Network.Decide.{do_decide-once}
use archipelago_hotstuff.Network.Start.{start_base-nmajority, majority, count_set, count_honest}

-- The proposer of blocks of two commands, with three commands in its queue.
abbrev queued : Commands
queued = record {
  id = 1;
  blk_size = 2;
  cmd_pending = (11, 101) ∷ (12, 102) ∷ (13, 103) ∷ [];
  cmd_pending_buffer = 10 ∷ [];
  decision_waiting = (10, 100) ∷ [];
  part_decided = 0;
  called = [];
  executed = [];
  beats = [];
  proposals = [];
}

on_cmd_pending-Drained_example :
    Drained queued.cmd_pending queued (on_cmd_pending 1 queued).0 (on_cmd_pending 1 queued).1
on_cmd_pending-Drained_example = on_cmd_pending-Drained queued (omega arith)

abbrev decision : ℕ → Finality
decision idx = record {
  rid = 1;
  decision = 1;
  cmd_idx = idx;
  cmd_height = 3;
  cmd_hash = 10;
  blk_hash = 77;
}

do_decide-once_example :
    let t = do_decide (decision 0) queued in
    (t.called ≡ (100, decision 0) ∷ [])
    × (t.executed ≡ decision 0 ∷ [])
    × Unique t.decision_waiting
    × ((do_decide (decision 1) t).called ≡ t.called)
    × ((do_decide (decision 1) t).executed ≡ decision 1 ∷ t.executed)
    × ((h : ℕ) → 10 ≢ h → lookup h t.decision_waiting ≡ lookup h queued.decision_waiting)
unfolding lookup
do_decide-once_example =
    do_decide-once (decision 0) (decision 1) 100 queued (refl, tt) (lookup-here 10 100 []) refl

abbrev at_addr : ℕ → ReplicaAddr
at_addr n = record { addr = n; pubkey = 1000 + n; cert_hash = 2000 + n }

abbrev four : List ReplicaAddr
four = at_addr 1 ∷ at_addr 2 ∷ at_addr 3 ∷ at_addr 4 ∷ []

abbrev no_cert : QuorumCert
no_cert = record { obj_hash = 0; rids = []; sigs = [] }

start_base-nmajority_example :
    (majority 2 1 5 9 (0, no_cert) four
      ≤ length four - count_set (false ∷ true ∷ false ∷ false ∷ []))
    × (0
        < count_honest
            (true ∷ true ∷ true ∷ false ∷ [])
            (false ∷ true ∷ true ∷ true ∷ [])
            (false ∷ true ∷ false ∷ false ∷ []))
unfolding start_base
start_base-nmajority_example =
    start_base-nmajority 2 1 5 9 (0, no_cert) four (true ∷ true ∷ true ∷ false ∷ [])
      (false ∷ true ∷ true ∷ true ∷ []) (false ∷ true ∷ false ∷ false ∷ []) refl (omega arith) refl
      refl refl (omega arith) (omega arith) (omega arith)
