-- ===== src/Core/Handlers/Init.antt =====
-- The constructor of HotStuffCore, on_init and add_replica.
use archipelago_hotstuff.Base.{
  ℕ, ◌+◌, ◌-◌, ◌%◌, ◌^◌, false, some, List, [], ◌∷◌, member, if◌then◌else◌,
}
use archipelago_hotstuff.Crypto.{QuorumCert, new_quorum_cert}
use archipelago_hotstuff.Entity.{Ptr, ReplicaInfo, new_config, config_add_replica, genesis_block}
use archipelago_hotstuff.Core.State.{HotStuffCore, set_blk}

-- The constructor. `unset` stands for the null pair that `hqc` holds until `on_init`.
unfoldable pub new_core : (id priv_key genesis_hash : ℕ) (unset : Ptr × QuorumCert) → HotStuffCore
unfolding genesis_block
new_core id priv_key genesis_hash unset = record {
  b0 = 0;
  hqc = unset;
  b_lock = 0;
  b_exec = 0;
  vheight = 0;
  priv_key = priv_key;
  tails = 0 ∷ [];
  config = new_config;
  qc_waiting = [];
  vote_disabled = false;
  id = id;
  blk_cache = (genesis_hash, 0) ∷ [];
  blocks = λ _. genesis_block genesis_hash unset.1;
  next_ptr = 1;
  outputs = [];
}

unfoldable pub add_replica : ReplicaInfo → HotStuffCore → HotStuffCore
unfolding config_add_replica
add_replica info s =
    let g = s.blocks s.b0 in
    set_blk s.b0
      (record g { voted = if member info.id g.voted then g.voted else info.id ∷ g.voted })
      (record s { config = config_add_replica info.id info s.config })

unfoldable pub add_replicas : List ReplicaInfo → HotStuffCore → HotStuffCore
unfolding add_replica
add_replicas [] s = s
add_replicas (i ∷ is) s = add_replicas is (add_replica i s)

-- `nreplicas - nfaulty` is unsigned in the code: with more faults than replicas it wraps.
unfoldable pub on_init : ℕ → HotStuffCore → HotStuffCore
unfolding new_quorum_cert
on_init nfaulty s =
    let qc = new_quorum_cert s.config.nreplicas (s.blocks s.b0).hash in
    let g = record (s.blocks s.b0) { qc = some qc; self_qc = some qc; qc_ref = some s.b0 } in
    set_blk s.b0 g (record s {
      config = record s.config { nmajority = (s.config.nreplicas + 2 ^ 64 - nfaulty) % 2 ^ 64 };
      hqc = (s.b0, qc);
    })

-- A replica as it starts to run: constructed, told its peers, initialised.
unfoldable pub start_core :
    (id priv_key genesis_hash : ℕ) (unset : Ptr × QuorumCert) → List ReplicaInfo → ℕ → HotStuffCore
unfolding new_core add_replicas on_init
start_core id priv_key genesis_hash unset infos nfaulty =
    on_init nfaulty (add_replicas infos (new_core id priv_key genesis_hash unset))
