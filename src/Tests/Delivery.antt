-- ===== src/Tests/Delivery.antt =====
-- A block that is fetched and delivered, on the chain of five blocks and at a replica that starts.
use archipelago_hotstuff.Base.{some, none, false}
use archipelago_hotstuff.Base.{◌≡◌, ◌<◌, refl, none, [], ◌∷◌, lookup, arith}
use archipelago_hotstuff.Crypto.{new_quorum_cert}
use archipelago_hotstuff.Entity.{Block, config_add_replica, fetched_block, genesis_block}
use archipelago_hotstuff.Core.State.{HotStuffCore, find_blk, add_blk}
use archipelago_hotstuff.Core.Invariant.{Sound}
use archipelago_hotstuff.Core.Deliver.{on_deliver_blk}
use archipelago_hotstuff.Core.Deliver.Run.{Ready, done, next}
use archipelago_hotstuff.Core.Deliver.Fetch.{IsBare, fetched-IsBare, fetch, fetch-Advance}
use archipelago_hotstuff.Core.Handlers.Init.{
  new_core, add_replica, add_replicas, on_init, start_core,
}
use archipelago_hotstuff.Core.Reach.{Run, start, fetches, delivers, left}
use archipelago_hotstuff.Tests.Chain.{plain, no_sigs, chain, chain-Sound, peers}

abbrev pub sixth : Block
unfolding fetched_block
sixth = fetched_block (104 ∷ []) (8 ∷ []) (no_sigs 104) [] 105

pub sixth-IsBare : IsBare sixth
unfolding fetched_block
sixth-IsBare = fetched-IsBare 104 [] (8 ∷ []) (no_sigs 104) [] 105

abbrev pub longer : HotStuffCore
longer = fetch sixth chain

sixth-new : find_blk chain sixth.hash ≡ none
unfolding find_blk lookup sixth fetched_block
sixth-new = refl

pub longer-Sound : Sound 5 longer
longer-Sound = (fetch-Advance sixth sixth-IsBare chain-Sound sixth-new).sound

abbrev pub sixth-Ready : Ready longer 5
unfolding find_blk lookup sixth fetched_block
sixth-Ready = record {
  fresh = refl;
  parent = 4;
  uncles = [];
  parents = next refl (record { in_memory = omega arith; is_delivered = refl }) done;
  cert = no_sigs 104;
  carried = refl;
  ref = 4;
  fetched = refl;
}

abbrev pub begun : HotStuffCore
begun = start_core 0 5 100 (0, no_sigs 0) peers 1

-- The first block of a run.
abbrev pub first : Block
unfolding fetched_block
first = fetched_block (100 ∷ []) (8 ∷ []) (no_sigs 100) [] 101

pub first-IsBare : IsBare first
unfolding fetched_block
first-IsBare = fetched-IsBare 100 [] (8 ∷ []) (no_sigs 100) [] 101

abbrev pub told : HotStuffCore
told = left (add_blk first begun)

first-Ready : Ready told 1
unfolding find_blk lookup fetched_block start_core new_core add_replicas add_replica
    config_add_replica on_init new_quorum_cert add_blk genesis_block
first-Ready = record {
  fresh = refl;
  parent = 0;
  uncles = [];
  parents = next refl (record { in_memory = omega arith; is_delivered = refl }) done;
  cert = no_sigs 100;
  carried = refl;
  ref = 0;
  fetched = refl;
}

told-lt : 1 < told.next_ptr
unfolding find_blk lookup fetched_block start_core new_core add_replicas add_replica
    config_add_replica on_init add_blk genesis_block
told-lt = omega arith

abbrev pub ready : HotStuffCore
ready = left (on_deliver_blk 1 told)

-- A block is fetched and delivered.
pub first-Run : Run plain begun 1 ready
first-Run = delivers (fetches start first first-IsBare) 1 told-lt first-Ready

-- A block that a message can hold: no parents, and a certificate for the genesis block.
abbrev pub orphan : Block
orphan = record {
  parent_hashes = [];
  cmds = 8 ∷ [];
  qc = some (no_sigs 100);
  extra = [];
  hash = 105;
  parents = [];
  qc_ref = none;
  self_qc = none;
  height = 0;
  delivered = false;
  decision = 0;
  voted = [];
}
