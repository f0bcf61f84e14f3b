-- ===== src/Tests/Runs.antt =====
-- Runs of the handlers on a chain of five blocks.
use archipelago_hotstuff.Base.{ℕ, ◌≡◌, refl, List, [], ◌∷◌, lookup, erase, length}
use archipelago_hotstuff.Core.State.{HotStuffCore, Res, ok, throws, parent_of, find_blk, add_blk}
use archipelago_hotstuff.Core.Update.{
  update_hqc, update_hqc_by, collect, decide_cmd, decide_cmds, commit_blk, commit_all, commit_to,
  not_direct, lock, update_commit, update_lock, update_high, update_blk,
}
use archipelago_hotstuff.Crypto.{new_part_cert, new_quorum_cert, insert_sig, add_part, set_bit}
use archipelago_hotstuff.Core.Deliver.{
  sanity_check_delivered, get_delivered_blk, push_parents, set_height, link_qc, erase_tails,
  insert_tail, mark_delivered, deliver_fresh, on_deliver_blk,
}
use archipelago_hotstuff.Core.Handlers.Votes.{
  on_qc_finish, count_vote, own_qc, accept_vote, on_receive_vote,
}
use archipelago_hotstuff.Core.Handlers.Voting.{
  descend, is_live, opine, finish_qc_ref, cast_vote, answer, on_receive_proposal,
}
use archipelago_hotstuff.Core.Handlers.Proposing.{proposed_block, publish, install, on_propose}
use archipelago_hotstuff.Tests.Chain.{plain, chain, next_proposal, vote_by}

-- The state behind a method, or the one before it where it throws.
abbrev after : {A : Type 0} → Res A → HotStuffCore
after (ok _ t) = t
after (throws _ t) = t

abbrev pointers : HotStuffCore → List ℕ
pointers s = s.hqc.0 ∷ s.b_lock ∷ s.b_exec ∷ s.vheight ∷ length s.outputs ∷ []

-- A proposal on top of four certified blocks: block 1 is committed, 2 is locked, 3 is the highest.
proposal_run :
    pointers (after (on_receive_proposal plain next_proposal chain)) ≡ 3 ∷ 2 ∷ 1 ∷ 4 ∷ 6 ∷ []
unfolding on_receive_proposal sanity_check_delivered update_blk update_high update_lock
    update_commit update_hqc update_hqc_by lock not_direct commit_to collect commit_all commit_blk
    decide_cmds decide_cmd parent_of opine descend is_live answer finish_qc_ref cast_vote
    on_qc_finish new_part_cert erase
proposal_run = refl

abbrev two_votes : HotStuffCore
two_votes =
    after
      (on_receive_vote plain (vote_by 1 103) (after (on_receive_vote plain (vote_by 0 103) chain)))

-- The third vote makes block 3 the highest certified block, and its promise is resolved.
vote_run :
    pointers two_votes ∷ pointers (after (on_receive_vote plain (vote_by 2 103) two_votes)) ∷ []
    ≡ (0 ∷ 0 ∷ 0 ∷ 0 ∷ 0 ∷ []) ∷ (3 ∷ 0 ∷ 0 ∷ 0 ∷ 2 ∷ []) ∷ []
unfolding on_receive_vote get_delivered_blk find_blk lookup accept_vote own_qc count_vote add_part
    set_bit insert_sig new_quorum_cert update_hqc on_qc_finish erase
vote_run = refl

-- A new block on top of block 4 is proposed at height 5.
propose_run :
    pointers (after (on_propose plain (8 ∷ 9 ∷ []) (4 ∷ []) [] chain)) ≡ 0 ∷ 0 ∷ 0 ∷ 5 ∷ 2 ∷ []
unfolding on_propose proposed_block erase_tails install publish add_blk find_blk lookup
    on_deliver_blk deliver_fresh push_parents get_delivered_blk set_height parent_of link_qc
    mark_delivered insert_tail update_blk update_high on_receive_vote accept_vote own_qc count_vote
    add_part set_bit insert_sig new_quorum_cert new_part_cert update_hqc on_qc_finish erase
propose_run = refl
