-- ===== src/Network.antt =====
-- HotStuffBase: hotstuff/src/hotstuff.cpp. The commands that wait for a decision, the votes and
-- proposals that go to the peers, and the start. Callbacks are numbers.
pub mod Queue
pub mod Decide
pub mod Start
use archipelago_hotstuff.Base.{
  ℕ, zero, suc, ◌+◌, ◌-◌, ◌/◌, ◌%◌, ◌^◌, Bool, true, false, Option, none, some, List, [], ◌∷◌, ◌++◌,
  ltb, leb, ◌==◌, if◌then◌else◌, ◌||◌, lookup, length, member, remove, take, drop,
}
use archipelago_hotstuff.Crypto.{QuorumCert}
use archipelago_hotstuff.Entity.{Ptr, ReplicaInfo, ReplicaConfig, get_info}
use archipelago_hotstuff.Core.State.{HotStuffCore, Finality, Proposal, Vote}
use archipelago_hotstuff.Core.Handlers.Init.{start_core}

-- The commands of a replica. `cmd_pending` and `cmd_pending_buffer` are oldest first. What the
-- replica did is newest first: the callbacks it called, the finalities it executed, the commands it
-- gave to a beat of the pace maker, and those that it proposed.
pub record Commands : Type 0 where
  pub id : ℕ
  pub blk_size : ℕ
  pub cmd_pending : List (ℕ × ℕ)
  pub cmd_pending_buffer : List ℕ
  pub decision_waiting : List (ℕ × ℕ)
  pub part_decided : ℕ
  pub called : List (ℕ × Finality)
  pub executed : List Finality
  pub beats : List (List ℕ)
  pub proposals : List (List ℕ)

-- `cmd_pending.enqueue`
unfoldable pub exec_command : (cmd_hash callback : ℕ) → Commands → Commands
exec_command h cb s = record s { cmd_pending = s.cmd_pending ++ (h, cb) ∷ [] }

-- `Finality(id, 0, 0, 0, cmd_hash, uint256_t())`
abbrev pub no_decision : ℕ → ℕ → Finality
no_decision id h = record {
  rid = id;
  decision = 0;
  cmd_idx = 0;
  cmd_height = 0;
  cmd_hash = h;
  blk_hash = 0;
}

-- A command starts to wait for its decision; the callback of one that waits is called at once.
unfoldable pub wait_decision : (cmd_hash callback : ℕ) → Commands → Commands
wait_decision h cb s = elim (lookup h s.decision_waiting) [
  | none ↦ record s { decision_waiting = (h, cb) ∷ s.decision_waiting }
  | some _ ↦ record s { called = (cb, no_decision s.id h) ∷ s.called }
]

abbrev pub beat : List ℕ → Commands → Commands
beat cmds s = record s { beats = cmds ∷ s.beats }

-- The continuation of a beat.
unfoldable pub on_beat : (proposer : ℕ) → List ℕ → Commands → Commands
on_beat proposer cmds s =
    if proposer == s.id then record s { proposals = cmds ∷ s.proposals } else s

unfoldable pub exec_single_command : (proposer cmd_hash callback : ℕ) → Commands → Commands
unfolding wait_decision
exec_single_command proposer h cb s =
    let t = wait_decision h cb s in if proposer == s.id then beat (h ∷ []) t else t

unfoldable pub exec_command_noresp : (proposer cmd_hash : ℕ) → Commands → Commands
exec_command_noresp proposer h s = if proposer == s.id then beat (h ∷ []) s else s

-- The handler of `cmd_pending` on the entries of the queue: it stops behind a full block, with `true`.
-- `proposer` is the pace maker's, which no step of the loop changes.
unfoldable pub drain : (proposer : ℕ) → List (ℕ × ℕ) → Commands → Commands × Bool
unfolding wait_decision
drain proposer [] s = (record s { cmd_pending = [] }, false)
drain proposer ((h, cb) ∷ q) s =
    let t = wait_decision h cb s in
    let buffer = t.cmd_pending_buffer ++ h ∷ [] in
    let skipped = drain proposer q t in
    let pushed = drain proposer q (record t { cmd_pending_buffer = buffer }) in
    if proposer == s.id
    then if leb s.blk_size (length buffer)
      then (
        beat (take s.blk_size buffer)
            (record t { cmd_pending = q; cmd_pending_buffer = drop s.blk_size buffer }),
        true,
      )
      else pushed
    else skipped

unfoldable pub on_cmd_pending : (proposer : ℕ) → Commands → Commands × Bool
unfolding drain
on_cmd_pending proposer s = drain proposer s.cmd_pending s

unfoldable pub do_decide : Finality → Commands → Commands
do_decide fin s =
    let t : Commands = record s {
      part_decided = (s.part_decided + 1) % 2 ^ 32;
      executed = fin ∷ s.executed;
    } in
    elim (lookup fin.cmd_hash s.decision_waiting) [
      | none ↦ t
      | some cb ↦ record t {
        called = (cb, fin) ∷ s.called;
        decision_waiting = remove fin.cmd_hash s.decision_waiting;
      }
    ]

-- How a vote leaves: `unreachable_line` is an exception of `do_vote`, `no_peer` one of `get_peer_id`.
pub data VoteSent : Type 0 where
  unreachable_line no_peer : VoteSent
  sent_to : (peer_id : ℕ) → Vote → VoteSent

-- `do_vote`, once the pace maker names the next proposer.
unfoldable pub do_vote : (proposer : ℕ) → Vote → (id : ℕ) → ReplicaConfig → VoteSent
unfolding get_info
do_vote proposer vote id config =
    if proposer == id
    then unreachable_line
    else elim (get_info config proposer) [ none ↦ no_peer | some i ↦ sent_to i.peer_id vote ]

-- `conn_handler`: a certificate is that of a replica, if there is one.
unfoldable pub conn_handler :
    (valid_tls_certs : List ℕ) → (peer_cert : Option ℕ) → (connected : Bool) → Bool
conn_handler certs cert false = true
conn_handler certs none true = true
conn_handler certs (some h) true = member h certs

-- A replica as the configuration names it: its address, key and the hash of its certificate.
pub record ReplicaAddr : Type 0 where
  pub addr : ℕ
  pub pubkey : ℕ
  pub cert_hash : ℕ

-- The loop of `start`: the replicas for the core from index `i`, and the peers but for the replica
-- itself.
unfoldable pub infos_from : ℕ → List ReplicaAddr → List ReplicaInfo
infos_from i [] = []
infos_from i (r ∷ rs) =
    record { id = i % 2 ^ 16; peer_id = r.cert_hash; pubkey = r.pubkey } ∷ infos_from (i + 1) rs

unfoldable pub peers_of : (listen_addr : ℕ) → List ReplicaAddr → List ℕ
peers_of listen_addr [] = []
peers_of listen_addr (r ∷ rs) =
    let rest = peers_of listen_addr rs in if r.addr == listen_addr then rest else r.cert_hash ∷ rest

-- `start`, up to the event loop.
unfoldable pub start_base :
    (listen_addr id priv_key genesis_hash : ℕ) (unset : Ptr × QuorumCert)
    → List ReplicaAddr
    → HotStuffCore
unfolding infos_from peers_of start_core
start_base listen_addr id priv_key genesis_hash unset rs =
    start_core id priv_key genesis_hash unset (infos_from 0 rs)
      ((length (peers_of listen_addr rs) / 3) % 2 ^ 32)
