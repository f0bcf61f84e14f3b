-- ===== src/Core/Handlers/Proposing.antt =====
-- HotStuffCore::on_propose.
use archipelago_hotstuff.Base.{
  ℕ, ◌+◌, ◌%◌, ◌^◌, false, none, some, List, [], ◌∷◌, leb, if◌then◌else◌, map,
}
use archipelago_hotstuff.Crypto.{Library, new_part_cert, new_quorum_cert}
use archipelago_hotstuff.Entity.{Block, Ptr}
use archipelago_hotstuff.Core.State.{
  HotStuffCore, Proposal, M, throws, ◌>>=◌, ◌>>◌, pure, throw, get, modify, modify_blk, emit,
  height, add_blk, empty_parents, not_above_vheight, broadcast, proposed,
}
use archipelago_hotstuff.Core.Deliver.{on_deliver_blk, erase_tails}
use archipelago_hotstuff.Core.Update.{update_blk}
use archipelago_hotstuff.Core.Handlers.Votes.{on_receive_vote}

-- `new Block(parents, cmds, hqc.second->clone(), extra, parents[0]->height + 1, hqc.first, nullptr)`
unfoldable pub proposed_block : Library → List ℕ → Ptr → List Ptr → List ℕ → HotStuffCore → Block
proposed_block lib cmds p ps extra s = record {
  parent_hashes = hashes;
  cmds = cmds;
  qc = some s.hqc.1;
  extra = extra;
  hash = lib.block_digest hashes cmds s.hqc.1 extra;
  parents = p ∷ ps;
  qc_ref = some s.hqc.0;
  self_qc = none;
  height = (height s p + 1) % 2 ^ 32;
  delivered = false;
  decision = 0;
  voted = [];
}
  where
    hashes : List ℕ
    hashes = map (λ q. (s.blocks q).hash) (p ∷ ps)

-- The self-vote and the broadcast.
unfoldable pub publish : Library → Ptr → M Ptr
unfolding new_part_cert on_receive_vote
publish lib bnew s =
    let h = (s.blocks bnew).hash in
    let prop : Proposal = record { proposer = s.id; blk = bnew } in
    if leb (height s bnew) s.vheight
    then throws not_above_vheight s
    else (do
      modify (λ t. record t { vheight = height s bnew })
      on_receive_vote lib
          (record { voter = s.id; blk_hash = h; cert = new_part_cert lib s.priv_key h })
      emit (proposed prop)
      emit (broadcast prop)
      pure bnew)
        s

-- Storage, delivery and update of the new block.
unfoldable pub install : Block → M Ptr
unfolding add_blk on_deliver_blk update_blk new_quorum_cert
install b = do
  bnew ← add_blk b
  s ← get
  modify_blk bnew (λ c. record c { self_qc = some (new_quorum_cert s.config.nreplicas c.hash) })
  _ ← on_deliver_blk bnew
  update_blk bnew
  pure bnew

unfoldable pub on_propose : Library → List ℕ → List Ptr → List ℕ → M Ptr
unfolding proposed_block erase_tails install publish
on_propose lib cmds [] extra = throw empty_parents
on_propose lib cmds (p ∷ ps) extra = do
  modify (λ s. record s { tails = erase_tails (p ∷ ps) s.tails })
  s ← get
  bnew ← install (proposed_block lib cmds p ps extra s)
  publish lib bnew
