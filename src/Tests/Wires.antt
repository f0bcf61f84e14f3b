-- ===== src/Tests/Wires.antt =====
-- The theorems on the wire and on verification at concrete inputs, with a stream whose elements hold
-- any number.
use archipelago_hotstuff.Base.{
  ℕ, zero, suc, ◌+◌, ◌≤◌, ◌≡◌, refl, ap, Bool, true, false, if◌then◌else◌, ◌==◌, Option, none, some,
  List, [], ◌∷◌, ◌++◌, arith, length, lookup, assign, Unique, All, ◌<◌, ◌^◌,
}
use archipelago_hotstuff.Crypto.{Library, QuorumCert}
use archipelago_hotstuff.Entity.{Block, ReplicaConfig}
use archipelago_hotstuff.Core.State.{Finality}
use archipelago_hotstuff.Wire.{Bytes, Wire, ReadsBack, ◌>>=◌}
use archipelago_hotstuff.Wire.Cert.{put_quorum_cert, get_quorum_cert, get-put_quorum_cert}
use archipelago_hotstuff.Wire.Replies.{put_resp_block, get_resp_block, AllRead, get-put_resp_block}
use archipelago_hotstuff.Wire.Entity.{put_block, get_block, ReadAs, get-put_block}
use archipelago_hotstuff.Wire.Message.{put_finality, get_finality}
use archipelago_hotstuff.Wire.Reading.{get-put_finality}
use archipelago_hotstuff.Verify.{verify_quorum}
use archipelago_hotstuff.Verify.Quorum.{IsValidPart, verify_quorum-ValidParts}

abbrev first : Bytes → Option (ℕ × Bytes)
first [] = none
first (n ∷ rest) = some (n, rest)

abbrev split : ℕ → Bytes → Option (Bytes × Bytes)
split zero bs = some ([], bs)
split (suc n) [] = none
split (suc n) (b ∷ bs) = elim (split n bs) [ none ↦ none | some r ↦ some (b ∷ r.0, r.1) ]

abbrev put_flags : List Bool → Bytes → Bytes
put_flags [] rest = 2 ∷ rest
put_flags (b ∷ bits) rest = (if b then 1 else 0) ∷ put_flags bits rest

abbrev cons_flag : Bool → Option (List Bool × Bytes) → Option (List Bool × Bytes)
cons_flag b none = none
cons_flag b (some r) = some (b ∷ r.0, r.1)

abbrev flags : Bytes → Option (List Bool × Bytes)
flags [] = none
flags (zero ∷ rest) = cons_flag false (flags rest)
flags (suc zero ∷ rest) = cons_flag true (flags rest)
flags (suc (suc _) ∷ rest) = some ([], rest)

abbrev wide : Wire
wide = record {
  put_int = λ width n rest. n ∷ rest;
  get_int = λ width. first;
  put_sig = λ sig rest. sig ∷ rest;
  get_sig = first;
  put_bits = put_flags;
  get_bits = flags;
  put_data = λ bs rest. bs ++ rest;
  get_data = split;
}

flags-put_flags :
    (bits : List Bool) (rest : Bytes) → flags (put_flags bits rest) ≡ some (bits, rest)
flags-put_flags [] rest = refl
flags-put_flags (true ∷ bits) rest = ap (cons_flag true) (flags-put_flags bits rest)
flags-put_flags (false ∷ bits) rest = ap (cons_flag false) (flags-put_flags bits rest)

split-append : (bs rest : Bytes) → split (length bs) (bs ++ rest) ≡ some (bs, rest)
split-append [] rest = refl
split-append (b ∷ bs) rest =
    ap (λ o. elim o as (λ _. Option (Bytes × Bytes)) [ none ↦ none | some r ↦ some (b ∷ r.0, r.1) ])
      (split-append bs rest)

wide-ReadsBack : ReadsBack wide
wide-ReadsBack = record {
  int = λ width n rest fits. refl;
  sig = λ sig rest. refl;
  bits = flags-put_flags;
  nothing = λ rest. refl;
  raw = split-append;
}

abbrev signed : QuorumCert
signed = record {
  obj_hash = 70;
  rids = true ∷ false ∷ true ∷ true ∷ [];
  sigs = (3, 73) ∷ (0, 70) ∷ (2, 72) ∷ [];
}

abbrev signed_bytes : Bytes
signed_bytes = 70 ∷ 1 ∷ 0 ∷ 1 ∷ 1 ∷ 2 ∷ 70 ∷ 72 ∷ 73 ∷ []

get-put_quorum_cert_example :
    (qc' : QuorumCert) × (get_quorum_cert wide signed_bytes ≡ some (qc', []))
    × (qc'.obj_hash ≡ 70)
    × (qc'.rids ≡ signed.rids)
    × ((more : Bytes) → put_quorum_cert wide qc' more ≡ put_quorum_cert wide signed more)
unfolding put_quorum_cert lookup
get-put_quorum_cert_example =
    get-put_quorum_cert wide wide-ReadsBack signed [] signed_bytes (omega arith) refl

abbrev lib : Library
lib = record {
  sign = λ key h. h + key;
  ecdsa_verify = λ sig h pubkey. sig == h + pubkey;
  block_digest = λ ps cs qc extra. 500;
  set_outside = λ i bits. bits;
}

abbrev sent_block : Block
sent_block = record {
  parent_hashes = 70 ∷ [];
  cmds = 11 ∷ 12 ∷ [];
  qc = some signed;
  extra = [];
  hash = 500;
  parents = 4 ∷ [];
  qc_ref = some 4;
  self_qc = none;
  height = 5;
  delivered = true;
  decision = 0;
  voted = [];
}

abbrev block_bytes : Bytes
block_bytes = 1 ∷ 70 ∷ 2 ∷ 11 ∷ 12 ∷ (signed_bytes ++ 0 ∷ [])

get-put_block_example :
    (b' : Block) × (qc' : QuorumCert) × (get_block wide lib block_bytes ≡ some (b', []))
    × ReadAs wide wide-ReadsBack lib sent_block signed b' qc'
unfolding put_block put_quorum_cert lookup
get-put_block_example =
    get-put_block wide wide-ReadsBack lib sent_block signed [] block_bytes
      (λ ps cs qc qc' extra alike. refl)
      (record {
        parents = (omega arith, (omega arith, tt));
        commands = (omega arith, (omega arith, (omega arith, tt)));
        extras = omega arith;
        certified = (refl, omega arith);
        hashed = refl;
      })
      refl

get-put_resp_block_example :
    (cs : List Block) × (get_resp_block wide lib (1 ∷ block_bytes) ≡ some (cs, []))
    × AllRead wide wide-ReadsBack lib (sent_block ∷ []) cs
unfolding put_resp_block put_block put_quorum_cert lookup
get-put_resp_block_example =
    get-put_resp_block wide wide-ReadsBack lib (sent_block ∷ []) [] (1 ∷ block_bytes)
      (λ ps cs qc qc' extra alike. refl) (omega arith)
      (
        (
          signed,
          record {
            parents = (omega arith, (omega arith, tt));
            commands = (omega arith, (omega arith, (omega arith, tt)));
            extras = omega arith;
            certified = (refl, omega arith);
            hashed = refl;
          },
        ),
        tt,
      )
      refl

abbrev undecided : Finality
undecided = record {
  rid = 1;
  decision = 0;
  cmd_idx = 0;
  cmd_height = 0;
  cmd_hash = 11;
  blk_hash = 0;
}

get-put_finality_example :
    get_finality wide 6 (put_finality wide undecided [])
    ≡ some (record undecided { blk_hash = 6 }, [])
get-put_finality_example = get-put_finality wide wide-ReadsBack undecided 6 [] (record {
  rid = omega arith;
  decision = omega arith;
  cmd_idx = omega arith;
  cmd_height = omega arith;
  hashes = (omega arith, omega arith);
})

abbrev known : ReplicaConfig
known = record {
  replica_map =
      (0, record { id = 0; peer_id = 30; pubkey = 0 })
      ∷ (1, record { id = 1; peer_id = 31; pubkey = 1 })
      ∷ (2, record { id = 2; peer_id = 32; pubkey = 2 })
      ∷ (3, record { id = 3; peer_id = 33; pubkey = 3 })
      ∷ [];
  nreplicas = 4;
  nmajority = 3;
}

-- The certificate as it is read.
abbrev read_cert : QuorumCert
read_cert = record { obj_hash = 70; rids = signed.rids; sigs = (3, 73) ∷ (2, 72) ∷ (0, 70) ∷ [] }

verify_quorum-ValidParts_example :
    (3 ≤ length read_cert.sigs)
    × Unique read_cert.sigs
    × All (λ e. (e.0 < 2 ^ 16) × IsValidPart lib 0 known 70 read_cert.sigs e.0) read_cert.sigs
unfolding get_quorum_cert verify_quorum lookup assign ◌>>=◌
verify_quorum-ValidParts_example =
    verify_quorum-ValidParts wide lib 0 known signed_bytes [] read_cert refl refl
