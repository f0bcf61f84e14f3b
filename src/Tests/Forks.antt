-- ===== src/Tests/Forks.antt =====
-- Runs of the handlers where a block's certificate is for a block of another branch.
use archipelago_hotstuff.Base.{ℕ, ◌+◌, ◌≡◌, refl, none, some, List, [], ◌∷◌, erase, true, lookup}
use archipelago_hotstuff.Entity.{Block, Ptr}
use archipelago_hotstuff.Core.State.{
  HotStuffCore, Event, committed, voted, Error, safety_breached, Res, ok, throws, parent_of,
}
use archipelago_hotstuff.Core.Update.{
  update_hqc, update_hqc_by, collect, decide_cmd, decide_cmds, commit_blk, commit_all, commit_to,
  not_direct, lock, update_commit, update_lock, update_high, update_blk,
}
use archipelago_hotstuff.Crypto.{new_part_cert}
use archipelago_hotstuff.Core.Deliver.{sanity_check_delivered}
use archipelago_hotstuff.Core.Handlers.Votes.{on_qc_finish}
use archipelago_hotstuff.Core.Handlers.Voting.{
  descend, is_live, opine, finish_qc_ref, cast_vote, answer, on_receive_proposal,
}
use archipelago_hotstuff.Tests.Chain.{plain, chain, chain_block, no_sigs}

-- A block of the second branch: its height, its parent, and the block that its certificate is for.
abbrev branch_block : ℕ → Ptr → Ptr → ℕ → Block
branch_block h parent certified p = record {
  parent_hashes = (100 + parent) ∷ [];
  cmds = 8 ∷ [];
  qc = some (no_sigs (100 + certified));
  extra = [];
  hash = 100 + p;
  parents = parent ∷ [];
  qc_ref = some certified;
  self_qc = none;
  height = h;
  delivered = true;
  decision = 0;
  voted = [];
}

-- Blocks 0 to 4 are a certified chain. Blocks 5 to 12 are a second branch from the genesis block,
-- where block 9 carries the certificate of block 2 and each later one that of its parent.
abbrev second : List (ℕ × Block)
second =
    (5, branch_block 1 0 0 5)
    ∷ (6, branch_block 2 5 0 6)
    ∷ (7, branch_block 3 6 0 7)
    ∷ (8, branch_block 4 7 0 8)
    ∷ (9, branch_block 5 8 2 9)
    ∷ (10, branch_block 6 9 9 10)
    ∷ (11, branch_block 7 10 10 11)
    ∷ (12, branch_block 8 11 11 12)
    ∷ []

abbrev fork_block : Ptr → Block
fork_block p = elim (lookup p second) [ none ↦ chain_block p | some b ↦ b ]

abbrev fork : HotStuffCore
fork = record chain { blocks = fork_block; next_ptr = 13 }

-- The commits and the votes behind a method, newest first: a vote by the hash of its block.
abbrev told : List Event → List Ptr × List ℕ
told [] = ([], [])
told (committed p ∷ es) = (p ∷ (told es).0, (told es).1)
told (voted _ v ∷ es) = ((told es).0, v.blk_hash ∷ (told es).1)
told (_ ∷ es) = told es

abbrev proposals : List Ptr → HotStuffCore → Res (Unit {0})
proposals [] s = ok tt s
proposals (p ∷ ps) s = elim (on_receive_proposal plain (record { proposer = 1; blk = p }) s) [
  | ok _ t ↦ proposals ps t
  | throws e t ↦ throws e t
]

abbrev outcome : Res (Unit {0}) → List Error × (List Ptr × List ℕ)
outcome (ok _ t) = ([], told t.outputs)
outcome (throws e t) = (e ∷ [], told t.outputs)

-- A replica that did not get block 4 votes for the second branch and commits it.
second_branch :
    outcome (proposals (3 ∷ 9 ∷ 10 ∷ 11 ∷ 12 ∷ []) fork)
    ≡ ([], (9 ∷ 8 ∷ 7 ∷ 6 ∷ 5 ∷ [], 112 ∷ 111 ∷ 110 ∷ 109 ∷ 103 ∷ []))
unfolding lookup on_receive_proposal sanity_check_delivered update_blk update_high update_lock
    update_commit update_hqc update_hqc_by lock not_direct commit_to collect commit_all commit_blk
    decide_cmds decide_cmd parent_of opine descend is_live answer finish_qc_ref cast_vote
    on_qc_finish new_part_cert erase
second_branch = refl

-- A replica that got block 4 committed block 1 and does not vote for block 9, but for the blocks on
-- top of it, and stops with "safety breached" when block 9 is to be committed.
first_branch :
    outcome (proposals (3 ∷ 4 ∷ 9 ∷ 10 ∷ 11 ∷ 12 ∷ []) fork)
    ≡ (safety_breached ∷ [], (1 ∷ [], 111 ∷ 110 ∷ 104 ∷ 103 ∷ []))
unfolding lookup on_receive_proposal sanity_check_delivered update_blk update_high update_lock
    update_commit update_hqc update_hqc_by lock not_direct commit_to collect commit_all commit_blk
    decide_cmds decide_cmd parent_of opine descend is_live answer finish_qc_ref cast_vote
    on_qc_finish new_part_cert erase
first_branch = refl
