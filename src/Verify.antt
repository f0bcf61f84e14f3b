-- ===== src/Verify.antt =====
-- The verification of certificates, votes and blocks: src/crypto.cpp, `Vote::verify` in
-- include/hotstuff/consensus.h and `Block::verify` in src/entity.cpp.
pub mod Quorum
use archipelago_hotstuff.Base.{
  ℕ, ◌+◌, ◌%◌, ◌^◌, Bool, true, false, ◌&&◌, Option, none, some, List, [], ◌∷◌, ltb, ◌==◌,
  if◌then◌else◌, lookup, length,
}
use archipelago_hotstuff.Crypto.{Library, PartCert, QuorumCert}
use archipelago_hotstuff.Entity.{ReplicaConfig, get_info, Block}
use archipelago_hotstuff.Core.State.{HotStuffCore, Vote}

-- `PartCertSecp256k1::verify`
unfoldable pub verify_part : Library → (pubkey : ℕ) → PartCert → Bool
verify_part lib pubkey pc = lib.ecdsa_verify pc.sig pc.obj_hash pubkey

-- `sigs[i]`, which makes a signature `no_sig` if there is none; the keys are of 16 bits.
unfoldable pub sig_at : (no_sig : ℕ) → ℕ → List (ℕ × ℕ) → ℕ
sig_at no_sig i sigs = elim (lookup (i % 2 ^ 16) sigs) [ none ↦ no_sig | some sig ↦ sig ]

module _ (lib : Library) (no_sig : ℕ) (config : ReplicaConfig) where
  -- The verification of the part at bit `i`, of the replica with the low 16 bits of `i`; `none` is
  -- the exception `rid not found`.
  unfoldable pub verify_at : (obj_hash i : ℕ) → List (ℕ × ℕ) → Option Bool
  unfolding get_info sig_at
  verify_at obj_hash i sigs = elim (get_info config (i % 2 ^ 16)) [
    | none ↦ none
    | some info ↦ some (lib.ecdsa_verify (sig_at no_sig i sigs) obj_hash info.pubkey)
  ]

  -- The loop over the signers from bit `i` on, up to the first part that is not valid.
  unfoldable pub verify_parts : (obj_hash i : ℕ) → List Bool → List (ℕ × ℕ) → Option Bool
  unfolding verify_at
  verify_parts obj_hash i [] sigs = some true
  verify_parts obj_hash i (false ∷ bits) sigs = verify_parts obj_hash (i + 1) bits sigs
  verify_parts obj_hash i (true ∷ bits) sigs = elim (verify_at obj_hash i sigs) [
    | none ↦ none
    | some false ↦ some false
    | some true ↦ verify_parts obj_hash (i + 1) bits sigs
  ]

  -- `QuorumCertSecp256k1::verify`
  unfoldable pub verify_quorum : QuorumCert → Option Bool
  unfolding verify_parts
  verify_quorum qc =
      if ltb (length qc.sigs) config.nmajority
      then some false
      else verify_parts qc.obj_hash 0 qc.rids qc.sigs

  -- The tasks of the verification in the background, one for each signer from bit `i` on, with
  -- their results.
  unfoldable pub task_results : (obj_hash i : ℕ) → List Bool → List (ℕ × ℕ) → Option (List Bool)
  unfolding verify_at
  task_results obj_hash i [] sigs = some []
  task_results obj_hash i (false ∷ bits) sigs = task_results obj_hash (i + 1) bits sigs
  task_results obj_hash i (true ∷ bits) sigs = elim (verify_at obj_hash i sigs) [
    | none ↦ none
    | some b ↦ elim (task_results obj_hash (i + 1) bits sigs) [
      | none ↦ none
      | some bs ↦ some (b ∷ bs)
    ]
  ]

  abbrev pub all_true : List Bool → Bool
  all_true [] = true
  all_true (false ∷ bs) = false
  all_true (true ∷ bs) = all_true bs

  -- `QuorumCertSecp256k1::verify` with a pool of threads: what its promise is resolved with.
  unfoldable pub verify_quorum_async : QuorumCert → Option Bool
  unfolding task_results
  verify_quorum_async qc =
      if ltb (length qc.sigs) config.nmajority
      then some false
      else elim (task_results qc.obj_hash 0 qc.rids qc.sigs) [
        | none ↦ none
        | some bs ↦ some (all_true bs)
      ]

  -- `Vote::verify`
  unfoldable pub verify_vote : Vote → Option Bool
  unfolding get_info verify_part
  verify_vote vote = elim (get_info config vote.voter) [
    | none ↦ none
    | some info ↦
        some (verify_part lib info.pubkey vote.cert && (vote.cert.obj_hash == vote.blk_hash))
  ]

  -- `Block::verify` with a pool of threads.
  unfoldable pub verify_block_async : (genesis_hash : ℕ) → Block → Option Bool
  unfolding verify_quorum_async
  verify_block_async genesis_hash blk = elim (blk.qc) [
    | none ↦ none
    | some qc ↦ if qc.obj_hash == genesis_hash then some true else verify_quorum_async qc
  ]

  -- `Block::verify`; `none` also for a block without a certificate, which the code dereferences.
  unfoldable pub verify_block : (genesis_hash : ℕ) → Block → Option Bool
  unfolding verify_quorum
  verify_block genesis_hash blk = elim (blk.qc) [
    | none ↦ none
    | some qc ↦ if qc.obj_hash == genesis_hash then some true else verify_quorum qc
  ]
