-- ===== src/Core/Handlers/Voting.antt =====
-- HotStuffCore::on_receive_proposal.
use archipelago_hotstuff.Base.{
  ℕ, zero, suc, Bool, true, false, not, Option, none, some, ◌∷◌, ltb, ◌==◌, if◌then◌else◌, ◌&&◌,
}
use archipelago_hotstuff.Crypto.{Library, new_part_cert}
use archipelago_hotstuff.Entity.{Ptr}
use archipelago_hotstuff.Core.State.{
  HotStuffCore, Proposal, M, ok, throws, then_run, ◌>>=◌, ◌>>◌, pure, modify, height, parent_of,
  out_of_fuel, voted, received,
}
use archipelago_hotstuff.Core.Deliver.{sanity_check_delivered}
use archipelago_hotstuff.Core.Update.{update_blk}
use archipelago_hotstuff.Core.Handlers.Votes.{on_qc_finish}

-- The loop of the safety condition: the first block from `b` down that is not above `limit`.
unfoldable pub descend : ℕ → ℕ → Ptr → M Ptr
descend zero limit b s = throws out_of_fuel s
descend (suc fuel) limit b s = elim (ltb limit (height s b)) [
  | true ↦ then_run (parent_of b s) (descend fuel limit)
  | false ↦ ok b s
]

-- `bnew->qc_ref && bnew->qc_ref->height > b_lock->height`
unfoldable pub is_live : HotStuffCore → Option Ptr → Bool
is_live s none = false
is_live s (some q) = ltb (height s s.b_lock) (height s q)

-- The opinion on a proposed block: the liveness condition, or else the safety condition.
unfoldable pub opine : Ptr → M Bool
unfolding descend is_live
opine bnew s =
    if ltb s.vheight (height s bnew)
    then if is_live s (s.blocks bnew).qc_ref
      then ok true (record s { vheight = height s bnew })
      else (do
        b ← descend (suc (height s bnew)) (height s s.b_lock) bnew
        if b == s.b_lock
            then (do modify (λ t. record t { vheight = height s bnew }); pure true)
            else pure false)
          s
    else ok false s

unfoldable pub finish_qc_ref : Option Ptr → HotStuffCore → HotStuffCore
unfolding on_qc_finish
finish_qc_ref none s = s
finish_qc_ref (some q) s = on_qc_finish q s

unfoldable pub cast_vote : Library → Proposal → Bool → HotStuffCore → HotStuffCore
unfolding new_part_cert
cast_vote lib prop opinion s =
    let h = (s.blocks prop.blk).hash in
    record s {
      outputs =
          if opinion && not s.vote_disabled
          then voted prop.proposer
              (record { voter = s.id; blk_hash = h; cert = new_part_cert lib s.priv_key h })
            ∷ s.outputs
          else s.outputs;
    }

-- The end of `on_receive_proposal`: the promises, and the vote.
unfoldable pub answer : Library → Proposal → Bool → HotStuffCore → HotStuffCore
unfolding finish_qc_ref cast_vote
answer lib prop opinion s =
    let t = finish_qc_ref (s.blocks prop.blk).qc_ref s in
    cast_vote lib prop opinion (record t { outputs = received prop ∷ t.outputs })

unfoldable pub on_receive_proposal : Library → Proposal → M (Unit {0})
unfolding sanity_check_delivered update_blk opine answer
on_receive_proposal lib prop = do
  sanity_check_delivered prop.blk
  update_blk prop.blk
  opinion ← opine prop.blk
  modify (answer lib prop opinion)
