-- ===== src/Wire/Reading.antt =====
-- The messages are read as they were written.
use archipelago_hotstuff.Base.{
  ℕ, ◌^◌, ◌<◌, ◌≡◌, refl, Bool, true, false, ◌==◌, if◌then◌else◌, some, List, length, All,
}
use archipelago_hotstuff.Core.State.{Vote, Finality}
use archipelago_hotstuff.Archipelago.State.{Consensus}
use archipelago_hotstuff.Wire.{Bytes, pure, Wire, ReadsBack, then_read}
use archipelago_hotstuff.Wire.Cert.{get_part_cert, get-put_part_cert}
use archipelago_hotstuff.Wire.Entity.{get-put_hashes, get-put_size}
use archipelago_hotstuff.Wire.Message.{
  put_vote, get_vote, put_finality, get_finality, Ordering1Finality, put_ordering1, get_ordering1,
  put_consensus, get_consensus, put_req_block, get_req_block,
}

-- The values of a finality fit their widths.
pub record FitsFinality (f : Finality) : Type 0 where
  pub rid : f.rid < 256 ^ 2
  pub decision : f.decision < 256 ^ 1
  pub cmd_idx : f.cmd_idx < 256 ^ 4
  pub cmd_height : f.cmd_height < 256 ^ 4
  pub hashes : (f.cmd_hash < 256 ^ 32) × (f.blk_hash < 256 ^ 32)

-- The values of a request for consensus fit their widths.
pub record FitsConsensus (c : Consensus) : Type 0 where
  pub commit_set_hash : c.commit_set_hash < 256 ^ 32
  pub stable : (c.stable_timestamp < 256 ^ 8) × (c.stable_idx < 256 ^ 4)
  pub holders :
      (c.place_holder1 < 256 ^ 32)
      × (c.place_holder2 < 256 ^ 32)
      × (c.place_holder3 < 256 ^ 32)
      × (c.place_holder4 < 256 ^ 32)

module _ (w : Wire) (reads : ReadsBack w) where
  -- A vote whose values fit their widths is read as it was written.
  pub get-put_vote :
      (v : Vote) (rest : Bytes)
      → v.voter < 256 ^ 2
      → v.blk_hash < 256 ^ 32
      → v.cert.obj_hash < 256 ^ 32
      → get_vote w (put_vote w v rest) ≡ some (v, rest)
  unfolding get_vote put_vote
  get-put_vote v rest id hash obj = then_read (w.get_int 2) _ (reads.int 2 v.voter _ id) (
      then_read (w.get_int 32) _ (reads.int 32 v.blk_hash _ hash)
        (then_read (get_part_cert w) _ (get-put_part_cert w reads v.cert rest obj) refl))

  read_hash :
      (b : Bool) (hash old : ℕ) (rest : Bytes)
      → hash < 256 ^ 32
      → (if b then w.get_int 32 else pure old) (if b then w.put_int 32 hash rest else rest)
        ≡ some (if b then hash else old, rest)
  read_hash true hash old rest fits = reads.int 32 hash rest fits
  read_hash false hash old rest fits = refl

  -- A finality whose values fit their widths is read as it was written, but for the hash of the block
  -- when there was no decision: that one stays what it was before.
  pub get-put_finality :
      (f : Finality) (old : ℕ) (rest : Bytes)
      → FitsFinality f
      → get_finality w old (put_finality w f rest)
        ≡ some (record f { blk_hash = if f.decision == 1 then f.blk_hash else old }, rest)
  unfolding get_finality put_finality
  get-put_finality f old rest fits = then_read (w.get_int 2) _ (reads.int 2 f.rid _ fits.rid) (
      then_read (w.get_int 1) _ (reads.int 1 f.decision _ fits.decision) (
        then_read (w.get_int 4) _ (reads.int 4 f.cmd_idx _ fits.cmd_idx) (
          then_read (w.get_int 4) _ (reads.int 4 f.cmd_height _ fits.cmd_height) (
            then_read (w.get_int 32) _ (reads.int 32 f.cmd_hash _ fits.hashes.0) (
              then_read (if f.decision == 1 then w.get_int 32 else pure old) _
                (read_hash (f.decision == 1) f.blk_hash old rest fits.hashes.1) refl)))))

  -- The answer to an ordering request is read as it was written.
  pub get-put_ordering1 :
      (f : Ordering1Finality) (rest : Bytes)
      → f.cmd_hash < 256 ^ 32
      → f.timestamp < 256 ^ 32
      → f.timestamp_us < 256 ^ 8
      → get_ordering1 w (put_ordering1 w f rest) ≡ some (f, rest)
  unfolding get_ordering1 put_ordering1
  get-put_ordering1 f rest hash stamp us =
      then_read (w.get_int 32) _ (reads.int 32 f.cmd_hash _ hash) (
        then_read (w.get_int 32) _ (reads.int 32 f.timestamp _ stamp) (
          then_read w.get_sig _ (reads.sig f.sig _)
            (then_read (w.get_int 8) _ (reads.int 8 f.timestamp_us _ us) refl)))

  -- The hashes of a request for blocks, fewer than 2^32, are read as they were written.
  pub get-put_req_block :
      (hs : List ℕ) (rest : Bytes)
      → length hs < 2 ^ 32
      → All (λ h. h < 256 ^ 32) hs
      → get_req_block w (put_req_block w hs rest) ≡ some (hs, rest)
  unfolding get_req_block put_req_block
  get-put_req_block hs rest few fits =
      then_read (w.get_int 4) _ (get-put_size w reads (length hs) _ few)
        (get-put_hashes w reads hs rest fits)

  -- A request for consensus whose values fit their widths is read as it was written.
  pub get-put_consensus :
      (sig : ℕ) (c : Consensus) (rest : Bytes)
      → FitsConsensus c
      → get_consensus w (put_consensus w sig c rest) ≡ some (c, rest)
  unfolding get_consensus put_consensus
  get-put_consensus sig c rest fits =
      let (h1, h2, h3, h4) = fits.holders in
      then_read (w.get_int 32) _ (reads.int 32 c.commit_set_hash _ fits.commit_set_hash) (
        then_read (w.get_int 8) _ (reads.int 8 c.stable_timestamp _ fits.stable.0) (
          then_read (w.get_int 4) _ (reads.int 4 c.stable_idx _ fits.stable.1) (
            then_read (w.get_int 32) _ (reads.int 32 c.place_holder1 _ h1) (
              then_read (w.get_int 32) _ (reads.int 32 c.place_holder2 _ h2) (
                then_read (w.get_int 32) _ (reads.int 32 c.place_holder3 _ h3) (
                  then_read (w.get_int 32) _ (reads.int 32 c.place_holder4 _ h4)
                    (then_read w.get_sig _ (reads.sig sig rest) refl)))))))
