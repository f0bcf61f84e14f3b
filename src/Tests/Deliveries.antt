-- ===== src/Tests/Deliveries.antt =====
-- The theorems on the delivery of blocks at concrete inputs.
use archipelago_hotstuff.Base.{ℕ, ◌≤◌, refl, some, [], ◌∷◌, arith, lookup}
use archipelago_hotstuff.Crypto.{new_quorum_cert}
use archipelago_hotstuff.Entity.{config_add_replica, fetched_block, genesis_block}
use archipelago_hotstuff.Core.State.{find_blk, add_blk}
use archipelago_hotstuff.Core.Handlers.Init.{
  new_core, add_replica, add_replicas, on_init, start_core,
}
use archipelago_hotstuff.Core.Handlers.Start.{start_core-Sound}
use archipelago_hotstuff.Core.Reach.{Run}
use archipelago_hotstuff.Delivery.State.{
  when_fetched, when_proposed, HotStuffBase, Ending, new_base,
}
use archipelago_hotstuff.Delivery.Deliver.{on_fetched}
use archipelago_hotstuff.Delivery.Handlers.{propose_handler, fire}
use archipelago_hotstuff.Delivery.Steps.{Step, Steps, Safe, start, then, proposal, calls}
use archipelago_hotstuff.Delivery.Runs.{Steps-Safe}
use archipelago_hotstuff.Delivery.Asking.{Fetched, async_fetch_blk-Fetched}
use archipelago_hotstuff.Tests.Chain.{plain, no_sigs, peers}
use archipelago_hotstuff.Tests.Delivery.{begun, told, first, first-IsBare}

-- A replica that starts hears of the first block from peer 7.
abbrev heard : HotStuffBase
heard = (propose_handler (some 7) 1 first (new_base begun)).0

heard-Steps : Steps plain 0 (new_base begun) 1 heard
heard-Steps = then start (proposal (some 7) 1 first first-IsBare)

-- The callback that finds the block in the storage runs next.
abbrev expanded : Ending
expanded =
    on_fetched plain 0 1 7
      (record heard { callbacks = when_proposed 0 (record { proposer = 1; blk = 1 }) ∷ [] })

expanded-Step : Step plain 0 heard expanded
unfolding propose_handler fire new_base find_blk lookup fetched_block start_core new_core
    add_replicas add_replica config_add_replica on_init new_quorum_cert add_blk genesis_block
expanded-Step =
    calls (when_proposed 0 (record { proposer = 1; blk = 1 }) ∷ []) [] (when_fetched 1 7) refl refl

Steps-Safe_example : (k : ℕ) × (k ≤ 2) × Run plain begun k expanded.0.core × Safe expanded.1
Steps-Safe_example =
    Steps-Safe plain 0 (start_core-Sound 0 5 100 (0, no_sigs 0) peers 1) (omega arith) heard-Steps
      expanded-Step

async_fetch_blk-Fetched_example : Fetched 101 7 (9 ∷ 7 ∷ []) 1 told (new_base begun)
unfolding new_base find_blk lookup fetched_block start_core new_core add_replicas add_replica
    config_add_replica on_init new_quorum_cert add_blk genesis_block
async_fetch_blk-Fetched_example =
    async_fetch_blk-Fetched 101 7 (9 ∷ 7 ∷ []) 1 told (new_base begun) refl refl refl
