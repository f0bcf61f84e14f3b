-- ===== src/Tests/Claims.antt =====
-- The theorems at concrete inputs: a replica in the middle of a chain, and a replica that starts.
use archipelago_hotstuff.Base.{◌≤◌, ◌≡◌, refl, List, [], ◌∷◌, arith}
use archipelago_hotstuff.Base.{true}
use archipelago_hotstuff.Core.Invariant.{IsChild}
use archipelago_hotstuff.Core.Advance.{Advance}
use archipelago_hotstuff.Core.Deliver.{on_deliver_blk}
use archipelago_hotstuff.Core.Deliver.Run.{delivery}
use archipelago_hotstuff.Core.Deliver.Sound.{on_deliver_blk-Sound}
use archipelago_hotstuff.Core.Reach.{Run-Advance}
use archipelago_hotstuff.Tests.Delivery.{longer, longer-Sound, sixth-Ready, begun, ready, first-Run}
use archipelago_hotstuff.Base.{lookup}
use archipelago_hotstuff.Core.State.{find_blk}
use archipelago_hotstuff.Core.Handlers.Proposing.{proposed_block, on_propose}
use archipelago_hotstuff.Core.Handlers.Propose.{Proposed, NotProposed, on_propose-Proposed}
use archipelago_hotstuff.Core.State.{HotStuffCore, throws, undefined_behaviour}
use archipelago_hotstuff.Core.Deliver.Run.{on_deliver_blk-orphan}
use archipelago_hotstuff.Core.Deliver.Fetch.{fetch}
use archipelago_hotstuff.Tests.Delivery.{orphan}
use archipelago_hotstuff.Entity.{Ptr}
use archipelago_hotstuff.Core.State.{ok, height}
use archipelago_hotstuff.Core.Update.{collect}
use archipelago_hotstuff.Core.Update.Chain.{self, child, collect-Climbs, descend-ancestor}
use archipelago_hotstuff.Core.Invariant.{IsLive, Climbs}
use archipelago_hotstuff.Core.Handlers.Voting.{descend}
use archipelago_hotstuff.Tests.Chain.{chain-child}
use archipelago_hotstuff.Core.Invariant.{Sound}
use archipelago_hotstuff.Core.Post.{Post}
use archipelago_hotstuff.Core.Update.{update_blk}
use archipelago_hotstuff.Core.Update.Sound.{Ends, update_blk-Ends}
use archipelago_hotstuff.Core.Handlers.Voting.{on_receive_proposal}
use archipelago_hotstuff.Core.Handlers.Init.{start_core}
use archipelago_hotstuff.Core.Handlers.Opinion.{Opinion, opine-Opinion}
use archipelago_hotstuff.Core.Handlers.Reply.{Answers, on_receive_proposal-Answers}
use archipelago_hotstuff.Core.Handlers.Start.{start_core-Sound}
use archipelago_hotstuff.Tests.Chain.{
  plain, no_sigs, chain, chain-live, chain-Sound, next_proposal, peers,
}

on_receive_proposal-Answers_example :
    Answers 5 plain next_proposal chain (on_receive_proposal plain next_proposal chain)
on_receive_proposal-Answers_example =
    on_receive_proposal-Answers plain next_proposal chain chain-Sound (omega arith)

update_blk-Ends_example : Ends 5 chain (update_blk 4 chain)
update_blk-Ends_example = update_blk-Ends chain-Sound 4 (chain-live 4 (omega arith))

opine-Opinion_example : Opinion chain 4
opine-Opinion_example = opine-Opinion chain-Sound.inv 4 (chain-live 4 (omega arith))

start_core-Sound_example : Sound 0 (start_core 0 5 100 (0, no_sigs 0) peers 1)
start_core-Sound_example = start_core-Sound 0 5 100 (0, no_sigs 0) peers 1

collect-Climbs_example :
    (queue : List Ptr) × (a : Ptr) × (collect 4 0 3 [] chain ≡ ok (queue, a) chain)
    × Climbs chain a queue 3
    × IsLive chain a
    × (height chain a ≤ 0)
collect-Climbs_example =
    collect-Climbs chain-Sound.inv 4 0 3 3 [] (omega arith) (chain-live 3 (omega arith)) refl

descend-ancestor_example : descend 5 2 4 chain ≡ ok 2 chain
descend-ancestor_example =
    descend-ancestor 5 2 4 (omega arith)
      (child (chain-child 3 (omega arith)) (child (chain-child 2 (omega arith)) self))

on_deliver_blk-Sound_example :
    (on_deliver_blk 5 longer ≡ ok true (delivery longer 5 sixth-Ready))
    × Advance 6 longer (delivery longer 5 sixth-Ready)
    × IsChild (delivery longer 5 sixth-Ready) 5 sixth-Ready.parent
on_deliver_blk-Sound_example =
    on_deliver_blk-Sound sixth-Ready longer-Sound (omega arith) (omega arith)

Run-Advance_example : Advance 1 begun ready
Run-Advance_example =
    Run-Advance plain (start_core-Sound 0 5 100 (0, no_sigs 0) peers 1) (omega arith) first-Run

on_propose-Proposed_example :
    Post
      (λ n t. Proposed 5 chain 4 n t)
      (NotProposed 5 chain 4)
      (on_propose plain (8 ∷ 9 ∷ []) (4 ∷ []) [] chain)
unfolding proposed_block find_blk lookup
on_propose-Proposed_example =
    on_propose-Proposed plain (8 ∷ 9 ∷ []) 4 [] [] chain-Sound (chain-live 4 (omega arith), tt) refl
      (omega arith)

-- A block without parents is delivered to the error that the model adds.
orphan_run :
    (t : HotStuffCore) × (on_deliver_blk 5 (fetch orphan chain) ≡ throws undefined_behaviour t)
orphan_run = on_deliver_blk-orphan (fetch orphan chain) 5 refl refl
