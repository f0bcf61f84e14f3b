-- ===== src/Crypto.antt =====
-- Certificates: include/hotstuff/crypto.h (PartCertSecp256k1, QuorumCertSecp256k1). Keys,
-- signatures and 256-bit hashes are numbers; the functions of the vendored libraries that work on
-- them are the fields of `Library`.
use archipelago_hotstuff.Base.{
  ℕ, zero, suc, Bool, true, false, Option, none, some, List, [], ◌∷◌, ◌==◌, if◌then◌else◌, lookup,
  ltb, length,
}

pub record PartCert : Type 0 where
  pub obj_hash : ℕ
  pub sig : ℕ

-- `rids` is the bit vector of the signers, one bit for each replica.
pub record QuorumCert : Type 0 where
  pub obj_hash : ℕ
  pub rids : List Bool
  pub sigs : List (ℕ × ℕ)

-- What the code calls and this repository does not implement: secp256k1 and salticidae.
pub record Library : Type 0 where
  -- `secp256k1_ecdsa_sign` of a digest by a private key.
  pub sign : ℕ → ℕ → ℕ
  -- `secp256k1_ecdsa_verify`: signature, digest, public key.
  pub ecdsa_verify : ℕ → ℕ → ℕ → Bool
  -- `salticidae::get_hash` of a block with these parents, commands, certificate and extra data.
  pub block_digest : List ℕ → List ℕ → QuorumCert → List ℕ → ℕ
  -- What `salticidae::Bits::set` of a bit beyond its vector leaves of the vector: that is undefined,
  -- so it may be anything.
  pub set_outside : ℕ → List Bool → List Bool

unfoldable pub new_part_cert : Library → ℕ → ℕ → PartCert
new_part_cert lib priv_key obj_hash = record {
  obj_hash = obj_hash;
  sig = lib.sign priv_key obj_hash;
}

abbrev pub clear_bits : ℕ → List Bool
clear_bits zero = []
clear_bits (suc n) = false ∷ clear_bits n

abbrev put_bit : ℕ → List Bool → List Bool
put_bit i [] = []
put_bit zero (b ∷ bs) = true ∷ bs
put_bit (suc i) (b ∷ bs) = b ∷ put_bit i bs

-- `rids.set(i)`
unfoldable pub set_bit : Library → ℕ → List Bool → List Bool
set_bit lib i bits = if ltb i (length bits) then put_bit i bits else lib.set_outside i bits

unfoldable pub new_quorum_cert : ℕ → ℕ → QuorumCert
new_quorum_cert nreplicas obj_hash = record {
  obj_hash = obj_hash;
  rids = clear_bits nreplicas;
  sigs = [];
}

-- `std::unordered_map::insert` keeps the entry that is there.
unfoldable pub insert_sig : ℕ → ℕ → List (ℕ × ℕ) → List (ℕ × ℕ)
insert_sig rid sig sigs = elim (lookup rid sigs) [ none ↦ (rid, sig) ∷ sigs | some _ ↦ sigs ]

-- `none` is the exception `PartCert does match the block hash`.
unfoldable pub add_part : Library → ℕ → PartCert → QuorumCert → Option QuorumCert
unfolding insert_sig set_bit
add_part lib rid pc qc =
    if pc.obj_hash == qc.obj_hash
    then some (record qc { sigs = insert_sig rid pc.sig qc.sigs; rids = set_bit lib rid qc.rids })
    else none
