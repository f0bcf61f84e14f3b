-- ===== src/Wire/Entity.antt =====
-- Blocks on the wire: src/entity.cpp.
use archipelago_hotstuff.Base.{
  ℕ, zero, suc, ◌%◌, ◌^◌, ◌<◌, ◌≡◌, refl, sym, ap, ◌∙◌, subst, Option, none, some, Option-cases,
  inl, inr, List, [], ◌∷◌, arith, length, All,
}
use archipelago_hotstuff.Crypto.{Library, QuorumCert}
use archipelago_hotstuff.Entity.{Block, fetched_block}
use archipelago_hotstuff.Wire.{Bytes, Reader, ◌>>=◌, pure, Wire, ReadsBack, then_read}
use archipelago_hotstuff.Wire.Cert.{put_quorum_cert, get_quorum_cert, get-put_quorum_cert}

module _ (w : Wire) where
  unfoldable pub put_hashes : List ℕ → Bytes → Bytes
  put_hashes [] rest = rest
  put_hashes (h ∷ hs) rest = w.put_int 32 h (put_hashes hs rest)

  -- The loop over a vector that was resized to `n` hashes.
  unfoldable pub get_hashes : ℕ → Reader (List ℕ)
  get_hashes zero = pure []
  get_hashes (suc n) = do h ← w.get_int 32; hs ← get_hashes n; pure (h ∷ hs)

  -- `htole((uint32_t)size)`
  abbrev pub put_size : ℕ → Bytes → Bytes
  put_size n rest = w.put_int 4 (n % 2 ^ 32) rest

  -- `Block::serialize`; `none` for a block without a certificate, and for a certificate without a
  -- signature of one of its signers.
  unfoldable pub put_block : Block → Bytes → Option Bytes
  unfolding put_hashes
  put_block b rest = elim (b.qc) [
    | none ↦ none
    | some qc ↦ elim (put_quorum_cert w qc (put_size (length b.extra) (w.put_data b.extra rest))) [
      | none ↦ none
      | some bs ↦ some (
          put_size (length b.parent_hashes)
            (put_hashes b.parent_hashes (put_size (length b.cmds) (put_hashes b.cmds bs))))
    ]
  ]

  -- The end of `Block::unserialize`.
  unfoldable pub get_extra : ℕ → Reader Bytes
  get_extra zero = pure []
  get_extra (suc n) = w.get_data (suc n)

  -- `Block::unserialize`
  unfoldable pub get_block : Library → Reader Block
  unfolding get_hashes get_extra fetched_block
  get_block lib = do
    n ← w.get_int 4
    parent_hashes ← get_hashes n
    m ← w.get_int 4
    cmds ← get_hashes m
    qc ← get_quorum_cert w
    k ← w.get_int 4
    extra ← get_extra k
    pure (fetched_block parent_hashes cmds qc extra (lib.block_digest parent_hashes cmds qc extra))

  -- The digest of a block is one of its bytes: two certificates that are written alike give the same.
  abbrev pub DigestsBytes : Library → Type 0
  DigestsBytes lib =
      (ps cs : List ℕ) (qc qc' : QuorumCert) (extra : List ℕ)
      → ((more : Bytes) → put_quorum_cert w qc more ≡ put_quorum_cert w qc' more)
      → lib.block_digest ps cs qc extra ≡ lib.block_digest ps cs qc' extra

  -- The vectors have fewer than 2^32 entries, and the hashes 256 bits; the hash of the block is the
  -- digest of what is written. The genesis block has another hash, from before `on_init` gave it its
  -- certificate.
  pub record FitsWire (lib : Library) (b : Block) (qc : QuorumCert) : Type 0 where
    pub parents : (length b.parent_hashes < 2 ^ 32) × All (λ h. h < 256 ^ 32) b.parent_hashes
    pub commands : (length b.cmds < 2 ^ 32) × All (λ h. h < 256 ^ 32) b.cmds
    pub extras : length b.extra < 2 ^ 32
    pub certified : (b.qc ≡ some qc) × (qc.obj_hash < 256 ^ 32)
    pub hashed : b.hash ≡ lib.block_digest b.parent_hashes b.cmds qc b.extra

  module _ (reads : ReadsBack w) where
    pub get-put_hashes :
        (hs : List ℕ) (rest : Bytes)
        → All (λ h. h < 256 ^ 32) hs
        → get_hashes (length hs) (put_hashes hs rest) ≡ some (hs, rest)
    unfolding get_hashes put_hashes
    get-put_hashes [] rest a = refl
    get-put_hashes (h ∷ hs) rest (fits, a) =
        then_read (w.get_int 32) _ (reads.int 32 h (put_hashes hs rest) fits)
          (then_read (get_hashes (length hs)) _ (get-put_hashes hs rest a) refl)

    pub get-put_size :
        (n : ℕ) (rest : Bytes) → n < 2 ^ 32 → w.get_int 4 (put_size n rest) ≡ some (n, rest)
    get-put_size n rest fits =
        let same : n % 2 ^ 32 ≡ n = omega (arith, fits) in
        reads.int 4 (n % 2 ^ 32) rest (omega arith) ∙ ap (λ m. some (m, rest)) same

    get-put_extra : (bs rest : Bytes) → get_extra (length bs) (w.put_data bs rest) ≡ some (bs, rest)
    unfolding get_extra
    get-put_extra [] rest = ap (λ bs. some ([], bs)) (reads.nothing rest)
    get-put_extra (b ∷ bs) rest = reads.raw (b ∷ bs) rest

    -- What stands in front of the certificate.
    abbrev front_of : Block → Option Bytes → Option Bytes
    front_of b none = none
    front_of b (some cs) = some (
        put_size (length b.parent_hashes)
          (put_hashes b.parent_hashes (put_size (length b.cmds) (put_hashes b.cmds cs))))

    certified-put_block :
        (b : Block) (qc : QuorumCert) (rest : Bytes)
        → b.qc ≡ some qc
        → put_block b rest
          ≡ front_of b (put_quorum_cert w qc (put_size (length b.extra) (w.put_data b.extra rest)))
    unfolding put_block
    certified-put_block b qc rest cert = rw (cert, put_block) refl

    -- What a block is read as: its vectors, with a certificate that is written like the block's own.
    pub record ReadAs (lib : Library) (b : Block) (qc : QuorumCert) (b' : Block) (qc' : QuorumCert)
        : Type 0 where
      pub same :
          b'
          ≡ fetched_block b.parent_hashes b.cmds qc' b.extra
              (lib.block_digest b.parent_hashes b.cmds qc b.extra)
      pub hash : b'.hash ≡ b.hash
      pub signers : (qc'.obj_hash ≡ qc.obj_hash) × (qc'.rids ≡ qc.rids)
      pub again : (more : Bytes) → put_block b' more ≡ put_block b more

    -- A block that fits the wire and was written, and whose hash is the digest of its bytes, is
    -- read with its parents, commands and extra data, its hash, and a certificate with the same
    -- hash and signers; it is written again to the same bytes.
    pub get-put_block :
        (lib : Library) (b : Block) (qc : QuorumCert) (rest bs : Bytes)
        → DigestsBytes lib
        → FitsWire lib b qc
        → put_block b rest ≡ some bs
        → (b' : Block) × (qc' : QuorumCert) × (get_block lib bs ≡ some (b', rest))
          × ReadAs lib b qc b' qc'
    unfolding put_block get_block fetched_block
    get-put_block lib b qc rest bs digests fits e =
        let (cert, small) = fits.certified in
        let tail = put_size (length b.extra) (w.put_data b.extra rest) in
        elim (Option-cases (put_quorum_cert w qc tail)) [
          | inl missing ↦ let x : none ≡ some bs = (rw (cert, missing, put_block) at e) in cc
          | inr (cs, written) ↦
              let start =
                put_size (length b.parent_hashes)
                  (put_hashes b.parent_hashes (put_size (length b.cmds) (put_hashes b.cmds cs))) in
              let x : some start ≡ some bs = (rw (cert, written, put_block) at e) in
              let same : start ≡ bs = cc in
              let (qc', r, h, ids, again) = get-put_quorum_cert w reads qc tail cs small written in
              let d = digests b.parent_hashes b.cmds qc' qc b.extra again in
              let b' =
                fetched_block b.parent_hashes b.cmds qc' b.extra
                  (lib.block_digest b.parent_hashes b.cmds qc b.extra) in
              (
                b',
                qc',
                subst (λ z. get_block lib z ≡ some (b', rest)) same
                    (then_read (w.get_int 4) _
                      (get-put_size (length b.parent_hashes) _ fits.parents.0)
                      (then_read (get_hashes (length b.parent_hashes)) _
                        (get-put_hashes b.parent_hashes _ fits.parents.1)
                        (then_read (w.get_int 4) _ (get-put_size (length b.cmds) _ fits.commands.0)
                          (then_read (get_hashes (length b.cmds)) _
                            (get-put_hashes b.cmds _ fits.commands.1)
                            (then_read (get_quorum_cert w) _ r (
                              then_read (w.get_int 4) _
                                (get-put_size (length b.extra) _ fits.extras)
                                (then_read (get_extra (length b.extra)) _
                                  (get-put_extra b.extra rest)
                                  (ap
                                    (λ y.
                                      some
                                        (fetched_block b.parent_hashes b.cmds qc' b.extra y, rest))
                                    d)))))))),
                record {
                  same = refl;
                  hash = sym fits.hashed;
                  signers = (h, ids);
                  again = λ more.
                      ap (front_of b) (again (put_size (length b.extra) (w.put_data b.extra more)))
                      ∙ sym (certified-put_block b qc more cert);
                },
              )
        ]
