-- ===== src/Wire/Replies.antt =====
-- The answers to clients and replicas on the wire: include/hotstuff/client.h and hotstuff.h,
-- src/hotstuff.cpp.
use archipelago_hotstuff.Base.{
  ℕ, zero, suc, ◌^◌, ◌<◌, ◌≡◌, refl, sym, ap, subst, Option, none, some, Option-cases, inl, inr,
  List, [], ◌∷◌, length, All,
}
use archipelago_hotstuff.Crypto.{Library, QuorumCert}
use archipelago_hotstuff.Entity.{Block}
use archipelago_hotstuff.Core.State.{Finality}
use archipelago_hotstuff.Wire.{Bytes, Reader, ◌>>=◌, pure, Wire, ReadsBack, then_read}
use archipelago_hotstuff.Wire.Entity.{
  put_size, put_block, get_block, DigestsBytes, FitsWire, ReadAs, get-put_size, get-put_block,
}
use archipelago_hotstuff.Wire.Message.{put_finality, get_finality, Command, put_command}

-- A command goes to a replica, and its finality comes back.
module _ (w : Wire) where
  unfoldable pub put_req_cmd : Command → Bytes → Bytes
  unfolding put_command
  put_req_cmd cmd rest = put_command w cmd rest

  unfoldable pub put_resp_cmd : Finality → Bytes → Bytes
  unfolding put_finality
  put_resp_cmd fin rest = put_finality w fin rest

  unfoldable pub get_resp_cmd : Reader Finality
  unfolding get_finality
  get_resp_cmd = get_finality w 0

  unfoldable pub put_ordering1_resp : (cmd_hash timestamp timestamp_us sig : ℕ) → Bytes → Bytes
  put_ordering1_resp h timestamp timestamp_us sig rest =
      w.put_int 32 h (w.put_int 32 timestamp (w.put_sig sig (w.put_int 8 timestamp_us rest)))

  unfoldable pub get_ordering1_resp : Reader (ℕ × ℕ × ℕ × ℕ)
  get_ordering1_resp = do
    h ← w.get_int 32
    timestamp ← w.get_int 32
    sig ← w.get_sig
    timestamp_us ← w.get_int 8
    pure (h, timestamp, timestamp_us, sig)

  unfoldable pub put_ordering2_req : (cmd_hash timestamp : ℕ) → Bytes → Bytes
  put_ordering2_req h timestamp rest = w.put_int 32 h (w.put_int 8 timestamp rest)

  unfoldable pub put_ordering2_resp : (cmd_hash timestamp sig : ℕ) → Bytes → Bytes
  put_ordering2_resp h timestamp sig rest =
      w.put_int 32 h (w.put_int 32 timestamp (w.put_sig sig rest))

  unfoldable pub get_ordering2_resp : Reader (ℕ × ℕ × ℕ)
  get_ordering2_resp = do
    h ← w.get_int 32
    timestamp ← w.get_int 32
    sig ← w.get_sig
    pure (h, timestamp, sig)

  unfoldable pub put_resp_client : (cmd_hash sig : ℕ) → Bytes → Bytes
  put_resp_client h sig rest = w.put_int 32 h (w.put_sig sig rest)

  unfoldable pub get_resp_client : Reader (ℕ × ℕ)
  get_resp_client = do h ← w.get_int 32; sig ← w.get_sig; pure (h, sig)

  -- `MsgConsensusRespCmd`: the hash of a batch and four others.
  unfoldable pub put_consensus_resp : (commit_set_hash h1 h2 h3 h4 sig : ℕ) → Bytes → Bytes
  put_consensus_resp h h1 h2 h3 h4 sig rest =
      w.put_int 32 h
        (w.put_int 32 h1 (w.put_int 32 h2 (w.put_int 32 h3 (w.put_int 32 h4 (w.put_sig sig rest)))))

  unfoldable pub get_consensus_resp : Reader (ℕ × ℕ × ℕ × ℕ × ℕ × ℕ)
  get_consensus_resp = do
    h ← w.get_int 32
    h1 ← w.get_int 32
    h2 ← w.get_int 32
    h3 ← w.get_int 32
    h4 ← w.get_int 32
    sig ← w.get_sig
    pure (h, h1, h2, h3, h4, sig)

  -- The loop of `MsgRespBlock::MsgRespBlock`; `none` as for one block.
  unfoldable pub put_blocks : List Block → Bytes → Option Bytes
  unfolding put_block
  put_blocks [] rest = some rest
  put_blocks (b ∷ bs) rest = elim (put_blocks bs rest) [
    | none ↦ none
    | some tail ↦ put_block w b tail
  ]

  unfoldable pub put_resp_block : List Block → Bytes → Option Bytes
  unfolding put_blocks
  put_resp_block bs rest = elim (put_blocks bs rest) [
    | none ↦ none
    | some tail ↦ some (put_size w (length bs) tail)
  ]

  unfoldable pub get_blocks : Library → ℕ → Reader (List Block)
  unfolding get_block
  get_blocks lib zero = pure []
  get_blocks lib (suc n) = do b ← get_block w lib; bs ← get_blocks lib n; pure (b ∷ bs)

  -- `MsgRespBlock::postponed_parse`, but for the storage.
  unfoldable pub get_resp_block : Library → Reader (List Block)
  unfolding get_blocks
  get_resp_block lib = do size ← w.get_int 4; get_blocks lib size

  -- A list of blocks whose values fit the wire.
  abbrev pub FitBlocks : Library → List Block → Type 0
  FitBlocks lib bs = All (λ b. (qc : QuorumCert) × FitsWire w lib b qc) bs

  module _ (reads : ReadsBack w) (lib : Library) where
    -- The blocks are read one by one as they were written.
    pub data AllRead : List Block → List Block → Type 0 where
      done : AllRead [] []
      read :
          {b c : Block} {bs cs : List Block} (qc qc' : QuorumCert)
          → ReadAs w reads lib b qc c qc'
          → AllRead bs cs
          → AllRead (b ∷ bs) (c ∷ cs)

    get-put_blocks :
        (bs : List Block) (rest out : Bytes)
        → DigestsBytes w lib
        → FitBlocks lib bs
        → put_blocks bs rest ≡ some out
        → (cs : List Block) × (get_blocks lib (length bs) out ≡ some (cs, rest)) × AllRead bs cs
    unfolding put_blocks get_blocks
    get-put_blocks [] rest out digests fit e =
        let same : rest ≡ out = cc in ([], ap (λ x. some ([], x)) (sym same), done)
    get-put_blocks (b ∷ bs) rest out digests ((qc, one), fit) e =
        elim (Option-cases (put_blocks bs rest)) [
          | inl f ↦ let x : none ≡ some out = (rw (f, put_blocks) at e) in cc
          | inr (tail, f) ↦
              let x : put_block w b tail ≡ some out = (rw (f, put_blocks) at e) in
              let (c, qc', r, like) = get-put_block w reads lib b qc tail out digests one x in
              let (cs, rs, more) = get-put_blocks bs rest tail digests fit f in
              (
                c ∷ cs,
                then_read (get_block w lib) _ r (then_read (get_blocks lib (length bs)) _ rs refl),
                read qc qc' like more,
              )
        ]

    -- Fewer than 2^32 blocks that fit the wire and were written to an answer, and whose hashes are
    -- the digests of their bytes, are read one by one with their parents, commands and extra data,
    -- their hashes, and certificates with the same hashes and signers.
    pub get-put_resp_block :
        (bs : List Block) (rest out : Bytes)
        → DigestsBytes w lib
        → length bs < 2 ^ 32
        → FitBlocks lib bs
        → put_resp_block bs rest ≡ some out
        → (cs : List Block) × (get_resp_block lib out ≡ some (cs, rest)) × AllRead bs cs
    unfolding put_resp_block get_resp_block
    get-put_resp_block bs rest out digests few fit e = elim (Option-cases (put_blocks bs rest)) [
      | inl f ↦ let x : none ≡ some out = (rw (f, put_resp_block) at e) in cc
      | inr (tail, f) ↦
          let x : some (put_size w (length bs) tail) ≡ some out = (rw (f, put_resp_block) at e) in
          let same : put_size w (length bs) tail ≡ out = cc in
          let (cs, r, all) = get-put_blocks bs rest tail digests fit f in
          (
            cs,
            subst (λ z. get_resp_block lib z ≡ some (cs, rest)) same
                (then_read (w.get_int 4) _ (get-put_size w reads (length bs) tail few) r),
            all,
          )
    ]
