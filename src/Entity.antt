-- ===== src/Entity.antt =====
-- Blocks and the replica configuration: include/hotstuff/entity.h.
use archipelago_hotstuff.Base.{ℕ, ◌+◌, Bool, true, false, Option, none, some, List, [], ◌∷◌, lookup}
use archipelago_hotstuff.Crypto.{QuorumCert}

pub record ReplicaInfo : Type 0 where
  pub id : ℕ
  pub peer_id : ℕ
  pub pubkey : ℕ

pub record ReplicaConfig : Type 0 where
  pub replica_map : List (ℕ × ReplicaInfo)
  pub nreplicas : ℕ
  pub nmajority : ℕ

abbrev pub new_config : ReplicaConfig
new_config = record { replica_map = []; nreplicas = 0; nmajority = 0 }

-- `ReplicaConfig::add_replica`: the map keeps an entry that is there, the count grows anyway.
unfoldable pub config_add_replica : ℕ → ReplicaInfo → ReplicaConfig → ReplicaConfig
config_add_replica rid info c = record c {
  replica_map = elim (lookup rid c.replica_map) [
    | none ↦ (rid, info) ∷ c.replica_map
    | some _ ↦ c.replica_map
  ];
  nreplicas = c.nreplicas + 1;
}

-- `ReplicaConfig::get_info`; `none` is the exception `rid not found`.
unfoldable pub get_info : ReplicaConfig → ℕ → Option ReplicaInfo
get_info c rid = lookup rid c.replica_map

-- A `block_t`: the address of a block. Blocks are reference counted, so an address that is held is
-- never dangling; a null `block_t` is `none`.
abbrev pub Ptr : Type 0
Ptr = ℕ

pub record Block : Type 0 where
  pub parent_hashes : List ℕ
  pub cmds : List ℕ
  pub qc : Option QuorumCert
  pub extra : List ℕ
  pub hash : ℕ
  pub parents : List Ptr
  pub qc_ref : Option Ptr
  pub self_qc : Option QuorumCert
  pub height : ℕ
  pub delivered : Bool
  pub decision : ℕ
  pub voted : List ℕ

-- A block as `unserialize` leaves it: what the message holds, and its hash.
unfoldable pub fetched_block : List ℕ → List ℕ → QuorumCert → List ℕ → ℕ → Block
fetched_block parent_hashes cmds qc extra hash = record {
  parent_hashes = parent_hashes;
  cmds = cmds;
  qc = some qc;
  extra = extra;
  hash = hash;
  parents = [];
  qc_ref = none;
  self_qc = none;
  height = 0;
  delivered = false;
  decision = 0;
  voted = [];
}

-- The genesis block: `Block(true, 1)`.
unfoldable pub genesis_block : ℕ → QuorumCert → Block
genesis_block hash dummy = record {
  parent_hashes = [];
  cmds = [];
  qc = some dummy;
  extra = [];
  hash = hash;
  parents = [];
  qc_ref = none;
  self_qc = none;
  height = 0;
  delivered = true;
  decision = 1;
  voted = [];
}
