-- ===== src/Wire/Message.antt =====
-- Votes, proposals, finalities, commands and the messages of Archipelago on the wire:
-- include/hotstuff/consensus.h, hotstuff.h and client.h, src/hotstuff.cpp.
use archipelago_hotstuff.Base.{ℕ, ◌==◌, if◌then◌else◌, Option, none, some, List, length}
use archipelago_hotstuff.Crypto.{Library}
use archipelago_hotstuff.Entity.{Block}
use archipelago_hotstuff.Core.State.{Vote, Finality}
use archipelago_hotstuff.Archipelago.State.{Consensus}
use archipelago_hotstuff.Wire.{Bytes, Reader, ◌>>=◌, pure, Wire}
use archipelago_hotstuff.Wire.Cert.{put_part_cert, get_part_cert}
use archipelago_hotstuff.Wire.Entity.{put_hashes, get_hashes, put_size, put_block, get_block}

-- `Ordering1Finality`
pub record Ordering1Finality : Type 0 where
  pub cmd_hash : ℕ
  pub timestamp : ℕ
  pub timestamp_us : ℕ
  pub sig : ℕ

-- `Ordering2Finality`
pub record Ordering2Finality : Type 0 where
  pub cmd_hash : ℕ
  pub timestamp : ℕ
  pub sig : ℕ

-- `CommandDummy`, without its hash.
pub record Command : Type 0 where
  pub cid : ℕ
  pub n : ℕ

module _ (w : Wire) where
  -- `Vote::serialize` and `unserialize`
  unfoldable pub put_vote : Vote → Bytes → Bytes
  unfolding put_part_cert
  put_vote v rest = w.put_int 2 v.voter (w.put_int 32 v.blk_hash (put_part_cert w v.cert rest))

  unfoldable pub get_vote : Reader Vote
  unfolding get_part_cert
  get_vote = do
    voter ← w.get_int 2
    blk_hash ← w.get_int 32
    cert ← get_part_cert w
    pure (record { voter = voter; blk_hash = blk_hash; cert = cert })

  -- `Proposal::serialize`, and `unserialize` up to the storage of the block.
  unfoldable pub put_proposal : (proposer : ℕ) → Block → Bytes → Option Bytes
  unfolding put_block
  put_proposal proposer blk rest = elim (put_block w blk rest) [
    | none ↦ none
    | some bs ↦ some (w.put_int 2 proposer bs)
  ]

  unfoldable pub get_proposal : Library → Reader (ℕ × Block)
  unfolding get_block
  get_proposal lib = do proposer ← w.get_int 2; blk ← get_block w lib; pure (proposer, blk)

  -- `Finality::serialize`: the block's hash of a decision only.
  unfoldable pub put_finality : Finality → Bytes → Bytes
  put_finality f rest = w.put_int 2 f.rid (
      w.put_int 1 f.decision (
        w.put_int 4 f.cmd_idx (
          w.put_int 4 f.cmd_height (
            w.put_int 32 f.cmd_hash
              (if f.decision == 1 then w.put_int 32 f.blk_hash rest else rest)))))

  -- `Finality::unserialize` into a finality whose block hash is `blk_hash`.
  unfoldable pub get_finality : (blk_hash : ℕ) → Reader Finality
  get_finality blk_hash = do
    rid ← w.get_int 2
    decision ← w.get_int 1
    cmd_idx ← w.get_int 4
    cmd_height ← w.get_int 4
    cmd_hash ← w.get_int 32
    new_hash ← (if decision == 1 then w.get_int 32 else pure blk_hash)
    pure (record {
      rid = rid;
      decision = decision;
      cmd_idx = cmd_idx;
      cmd_height = cmd_height;
      cmd_hash = cmd_hash;
      blk_hash = new_hash;
    })

  unfoldable pub put_ordering1 : Ordering1Finality → Bytes → Bytes
  put_ordering1 f rest =
      w.put_int 32 f.cmd_hash
        (w.put_int 32 f.timestamp (w.put_sig f.sig (w.put_int 8 f.timestamp_us rest)))

  unfoldable pub get_ordering1 : Reader Ordering1Finality
  get_ordering1 = do
    cmd_hash ← w.get_int 32
    timestamp ← w.get_int 32
    sig ← w.get_sig
    timestamp_us ← w.get_int 8
    pure (record {
      cmd_hash = cmd_hash;
      timestamp = timestamp;
      timestamp_us = timestamp_us;
      sig = sig;
    })

  unfoldable pub put_ordering2 : Ordering2Finality → Bytes → Bytes
  put_ordering2 f rest = w.put_int 32 f.cmd_hash (w.put_int 32 f.timestamp (w.put_sig f.sig rest))

  unfoldable pub get_ordering2 : Reader Ordering2Finality
  get_ordering2 = do
    cmd_hash ← w.get_int 32
    timestamp ← w.get_int 32
    sig ← w.get_sig
    pure (record { cmd_hash = cmd_hash; timestamp = timestamp; sig = sig })

  -- `CommandDummy::serialize` and `unserialize`, with an empty payload.
  unfoldable pub put_command : Command → Bytes → Bytes
  put_command c rest = w.put_int 4 c.cid (w.put_int 4 c.n rest)

  unfoldable pub get_command : Reader Command
  get_command = do cid ← w.get_int 4; n ← w.get_int 4; pure (record { cid = cid; n = n })

  -- `MsgReqBlock`
  unfoldable pub put_req_block : List ℕ → Bytes → Bytes
  unfolding put_hashes
  put_req_block blk_hashes rest = put_size w (length blk_hashes) (put_hashes w blk_hashes rest)

  unfoldable pub get_req_block : Reader (List ℕ)
  unfolding get_hashes
  get_req_block = do size ← w.get_int 4; get_hashes w size

  -- `MsgConsensusReqCmd`, with a signature that is not set.
  unfoldable pub put_consensus : (sig : ℕ) → Consensus → Bytes → Bytes
  put_consensus sig c rest = w.put_int 32 c.commit_set_hash (
      w.put_int 8 c.stable_timestamp (
        w.put_int 4 c.stable_idx (
          w.put_int 32 c.place_holder1 (
            w.put_int 32 c.place_holder2
              (w.put_int 32 c.place_holder3 (w.put_int 32 c.place_holder4 (w.put_sig sig rest)))))))

  unfoldable pub get_consensus : Reader Consensus
  get_consensus = do
    commit_set_hash ← w.get_int 32
    stable_timestamp ← w.get_int 8
    stable_idx ← w.get_int 4
    place_holder1 ← w.get_int 32
    place_holder2 ← w.get_int 32
    place_holder3 ← w.get_int 32
    place_holder4 ← w.get_int 32
    _ ← w.get_sig
    pure (record {
      commit_set_hash = commit_set_hash;
      stable_timestamp = stable_timestamp;
      stable_idx = stable_idx;
      place_holder1 = place_holder1;
      place_holder2 = place_holder2;
      place_holder3 = place_holder3;
      place_holder4 = place_holder4;
    })
