-- ===== src/Core/Handlers/Votes.antt =====
-- HotStuffCore::on_receive_vote, and the promises of certificates.
use archipelago_hotstuff.Base.{
  ℕ, ◌+◌, Bool, true, false, none, some, ◌∷◌, leb, ◌==◌, member, erase, if◌then◌else◌, length,
}
use archipelago_hotstuff.Crypto.{Library, QuorumCert, new_quorum_cert, add_part}
use archipelago_hotstuff.Entity.{Ptr}
use archipelago_hotstuff.Core.State.{
  HotStuffCore, Vote, M, ok, throws, ◌>>=◌, ◌>>◌, modify_blk, set_blk, cert_mismatch, qc_finished,
}
use archipelago_hotstuff.Core.Deliver.{get_delivered_blk}
use archipelago_hotstuff.Core.Update.{update_hqc}

-- Resolves the promise of a waiting pace maker.
unfoldable pub on_qc_finish : Ptr → HotStuffCore → HotStuffCore
on_qc_finish p s =
    if member p s.qc_waiting
    then record s { qc_waiting = erase p s.qc_waiting; outputs = qc_finished p ∷ s.outputs }
    else s

-- `true` for a promise that is resolved at once.
unfoldable pub async_qc_finish : Ptr → HotStuffCore → HotStuffCore × Bool
async_qc_finish p s =
    if leb s.config.nmajority (length (s.blocks p).voted)
    then (s, true)
    else if member p s.qc_waiting
    then (s, false)
    else (record s { qc_waiting = p ∷ s.qc_waiting }, false)

-- The end of `on_receive_vote`: the certificate gets the part, and is complete with the last one.
unfoldable pub count_vote : Library → Ptr → ℕ → Vote → QuorumCert → M (Unit {0})
unfolding update_hqc on_qc_finish
count_vote lib blk qsize vote qc s = elim (add_part lib vote.voter vote.cert qc) [
  | none ↦ throws cert_mismatch s
  | some qc' ↦
      let t = set_blk blk (record (s.blocks blk) { self_qc = some qc' }) s in
      if qsize + 1 == s.config.nmajority
      then ok tt (on_qc_finish blk (update_hqc blk qc' t))
      else ok tt t
]

-- The block's own certificate, created at the first vote if the block is another replica's.
unfoldable pub own_qc : Ptr → M QuorumCert
own_qc blk s = elim ((s.blocks blk).self_qc) [
  | some qc ↦ ok qc s
  | none ↦
      let qc = new_quorum_cert s.config.nreplicas (s.blocks blk).hash in
      ok qc (set_blk blk (record (s.blocks blk) { self_qc = some qc }) s)
]

unfoldable pub accept_vote : Library → Ptr → Vote → M (Unit {0})
unfolding own_qc count_vote
accept_vote lib blk vote s =
    let qsize = length (s.blocks blk).voted in
    if leb s.config.nmajority qsize
    then ok tt s
    else if member vote.voter (s.blocks blk).voted
    then ok tt s
    else (do
      modify_blk blk (λ b. record b { voted = vote.voter ∷ b.voted })
      qc ← own_qc blk
      count_vote lib blk qsize vote qc)
        s

unfoldable pub on_receive_vote : Library → Vote → M (Unit {0})
unfolding get_delivered_blk accept_vote
on_receive_vote lib vote = do blk ← get_delivered_blk vote.blk_hash; accept_vote lib blk vote
