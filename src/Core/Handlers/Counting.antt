-- ===== src/Core/Handlers/Counting.antt =====
-- `on_receive_vote`: how the votes for a block are counted.
use archipelago_hotstuff.Base.{
  ℕ, ◌+◌, ◌≤◌, ◌<◌, ◌≡◌, ◌≢◌, refl, sym, ap, ◌∙◌, Bool, true, false, some, ◌∷◌, arith, leb, ltb,
  ◌==◌, Bool-cases, Option-cases, inl, inr, if◌then◌else◌, ◌&&◌, member, length, update_self, ◌⊎◌,
}
use archipelago_hotstuff.Crypto.{Library, QuorumCert, add_part}
use archipelago_hotstuff.Entity.{Ptr}
use archipelago_hotstuff.Core.State.{
  HotStuffCore, Vote, Res, ok, throws, then_run, height, set_blk, cert_mismatch,
  block_not_delivered, find_blk,
}
use archipelago_hotstuff.Core.Invariant.{IsLive, Sound}
use archipelago_hotstuff.Core.Frame.{Frame-live}
use archipelago_hotstuff.Core.Update.Laws.{Quiet, Quiet-trans}
use archipelago_hotstuff.Core.Handlers.Votes.{count_vote, own_qc, accept_vote, on_receive_vote}
use archipelago_hotstuff.Core.Deliver.{get_delivered_blk}
use archipelago_hotstuff.Core.Handlers.Certificate.{
  set_blk-Quiet, add_part-cases, own_cert, own_cert_of, own_qc-ok, count_vote-Completes,
}

-- The vote is entered among the votes of `p`.
noted : Ptr → Vote → HotStuffCore → HotStuffCore
noted p vote s = set_blk p (record (s.blocks p) { voted = vote.voter ∷ (s.blocks p).voted }) s

module _ {k : ℕ} {s : HotStuffCore} (p : Ptr) (vote : Vote) where
  noted-Quiet : Sound k s → Quiet k s (noted p vote s)
  unfolding noted
  noted-Quiet v =
      set_blk-Quiet p _
        (record {
          hash = refl;
          parent_hashes = refl;
          parents = refl;
          height = refl;
          delivered = refl;
          qc_ref = refl;
          qc = refl;
          cmds = refl;
          decided = λ d. d;
          own = λ o. o;
        })
        v

noted-block :
    (s : HotStuffCore) (p : Ptr) (vote : Vote)
    → (noted p vote s).blocks p ≡ record (s.blocks p) { voted = vote.voter ∷ (s.blocks p).voted }
unfolding noted
noted-block s p vote = update_self s.blocks p _

noted-hqc : (s : HotStuffCore) (p : Ptr) (vote : Vote) → (noted p vote s).hqc ≡ s.hqc
unfolding noted
noted-hqc s p vote = refl

-- This vote makes the certificate of `p` complete.
abbrev pub is_last : HotStuffCore → Ptr → Bool
is_last s p = length (s.blocks p).voted + 1 == s.config.nmajority

-- What a counted vote leaves: it is entered once, the block has the certificate `qc`, which the last
-- vote makes the highest one if its block is higher, and nobody waits for a complete certificate.
pub record Enters (lib : Library) (k : ℕ) (s : HotStuffCore) (p : Ptr) (vote : Vote)
    (t : HotStuffCore) : Type 0 where
  pub quiet : Quiet k s t
  pub room : length (s.blocks p).voted < s.config.nmajority
  pub fresh : member vote.voter (s.blocks p).voted ≡ false
  pub voted : (t.blocks p).voted ≡ vote.voter ∷ (s.blocks p).voted
  pub qc : QuorumCert
  pub part : add_part lib vote.voter vote.cert (own_cert s p) ≡ some qc
  pub own : (t.blocks p).self_qc ≡ some qc
  pub hqc : t.hqc ≡ (if is_last s p && ltb (height s s.hqc.0) (height s p) then (p, qc) else s.hqc)
  pub told : is_last s p ≡ true → member p t.qc_waiting ≡ false

-- The ways a vote for the delivered block `p` is counted.
pub data Counted (lib : Library) (k : ℕ) (s : HotStuffCore) (p : Ptr) (vote : Vote)
    : Res (Unit {0}) → Type 0 where
  -- The certificate is complete.
  enough : s.config.nmajority ≤ length (s.blocks p).voted → Counted lib k s p vote (ok tt s)
  -- The voter has voted.
  twice : member vote.voter (s.blocks p).voted ≡ true → Counted lib k s p vote (ok tt s)
  -- The certificate of the vote is for another block.
  mismatch :
      {t : HotStuffCore}
      → vote.cert.obj_hash ≢ (s.blocks p).hash
      → Quiet k s t
      → Counted lib k s p vote (throws cert_mismatch t)
  counts : {t : HotStuffCore} → Enters lib k s p vote t → Counted lib k s p vote (ok tt t)

-- The state `u` has the vote entered.
record Entered (k : ℕ) (s : HotStuffCore) (p : Ptr) (vote : Vote) (u : HotStuffCore) : Type 0 where
  quiet : Quiet k s u
  voted : (u.blocks p).voted ≡ vote.voter ∷ (s.blocks p).voted
  hqc : u.hqc ≡ s.hqc

own_cert_noted :
    (s : HotStuffCore) (p : Ptr) (vote : Vote) → own_cert (noted p vote s) p ≡ own_cert s p
unfolding noted
own_cert_noted s p vote = ap (own_cert_of s.config.nreplicas) (noted-block s p vote)

module _ (lib : Library) {k : ℕ} {s : HotStuffCore} (p : Ptr) (vote : Vote) (l : IsLive s p) where
  count-Entered :
      {u : HotStuffCore}
      → length (s.blocks p).voted < s.config.nmajority
      → member vote.voter (s.blocks p).voted ≡ false
      → Entered k s p vote u
      → (own_cert s p).obj_hash ≡ (s.blocks p).hash
      → Counted lib k s p vote (count_vote lib p (length (s.blocks p).voted) vote (own_cert s p) u)
  unfolding count_vote
  count-Entered {u} room fresh en eh =
      let f = en.quiet.still.frame in
      elim (add_part-cases lib vote.voter vote.cert (own_cert s p)) [
        | inl (ne, none_part) ↦
            rw (none_part, count_vote) (mismatch (λ e. ne (e ∙ sym eh)) en.quiet)
        | inr (same, qc, some_part, e) ↦
            let (t, et, c) =
              count_vote-Completes p en.quiet.sound (Frame-live f p l) lib
                (length (s.blocks p).voted) vote (own_cert s p) qc some_part
                (e ∙ eh ∙ sym (f.blocks p).hash) in
            rw et (
              counts (record {
                quiet = Quiet-trans en.quiet c.quiet;
                room = room;
                fresh = fresh;
                voted = c.voted ∙ en.voted;
                qc = qc;
                part = some_part;
                own = c.own;
                hqc =
                    c.hqc
                    ∙ rw
                        (
                          en.hqc,
                          (f.blocks p).height,
                          (f.blocks s.hqc.0).height,
                          en.quiet.still.config,
                        )
                        refl;
                told = λ h. c.told (rw en.quiet.still.config h);
              }))
      ]

  count_fresh :
      Sound k s
      → length (s.blocks p).voted < s.config.nmajority
      → member vote.voter (s.blocks p).voted ≡ false
      → Counted lib k s p vote
          (then_run (own_qc p (noted p vote s)) (count_vote lib p (length (s.blocks p).voted) vote))
  count_fresh v room fresh =
      let q = noted-Quiet p vote v in
      let b = noted-block s p vote in
      let lq = Frame-live q.still.frame p l in
      let (u, eu, pr, eh) = own_qc-ok p lq.in_memory q.sound in
      let (_, _, _, e0) = own_qc-ok p l.in_memory v in
      rw (eu, own_cert_noted s p vote)
        (count-Entered room fresh
          (record {
            quiet = Quiet-trans q pr.quiet;
            voted = pr.voted ∙ ap (λ b. b.voted) b;
            hqc = pr.hqc ∙ noted-hqc s p vote;
          })
          e0)

  pub accept_vote-Counted : Sound k s → Counted lib k s p vote (accept_vote lib p vote s)
  unfolding accept_vote noted
  accept_vote-Counted v = elim (Bool-cases (leb s.config.nmajority (length (s.blocks p).voted))) [
    | inl full ↦ rw full (enough (ground arith))
    | inr room ↦ elim (Bool-cases (member vote.voter (s.blocks p).voted)) [
      | inl voted ↦ rw (room, voted) (twice voted)
      | inr fresh ↦ rw (room, fresh) (count_fresh v (ground arith) fresh)
    ]
  ]

-- A vote for a delivered block with this hash is counted for it; any other vote throws.
pub data Received (lib : Library) (k : ℕ) (s : HotStuffCore) (vote : Vote) (r : Res (Unit {0}))
    : Type 0 where
  unknown :
      ((p : Ptr) → find_blk s vote.blk_hash ≡ some p → (s.blocks p).delivered ≡ false)
      → r ≡ throws block_not_delivered s
      → Received lib k s vote r
  known :
      (p : Ptr)
      → find_blk s vote.blk_hash ≡ some p
      → IsLive s p
      → (s.blocks p).hash ≡ vote.blk_hash
      → Counted lib k s p vote r
      → Received lib k s vote r

get_delivered_blk-cases :
    (h : ℕ) (s : HotStuffCore)
    → (((p : Ptr) → find_blk s h ≡ some p → (s.blocks p).delivered ≡ false)
        × (get_delivered_blk h s ≡ throws block_not_delivered s))
      ⊎ ((p : Ptr) × (get_delivered_blk h s ≡ ok p s)
          × (find_blk s h ≡ some p)
          × ((s.blocks p).delivered ≡ true))
unfolding get_delivered_blk
get_delivered_blk-cases h s = elim (Option-cases (find_blk s h)) [
  | inl e ↦ inl ((λ q f. cc), rw (e, get_delivered_blk) refl)
  | inr (p, e) ↦ elim (Bool-cases (s.blocks p).delivered) [
    | inr d ↦ inl ((λ q f. let same : q ≡ p = cc in rw same d), rw (e, get_delivered_blk, d) refl)
    | inl d ↦ inr (p, rw (e, get_delivered_blk, d) refl, e, d)
  ]
]

module _ (lib : Library) {k : ℕ} {s : HotStuffCore} (vote : Vote) where
  pub on_receive_vote-Received : Sound k s → Received lib k s vote (on_receive_vote lib vote s)
  unfolding on_receive_vote
  on_receive_vote-Received v = elim (get_delivered_blk-cases vote.blk_hash s) [
    | inl (out, e) ↦ rw e (unknown out refl)
    | inr (p, e, f, d) ↦
        let (lt, h) = v.inv.found vote.blk_hash p f in
        let l : IsLive s p = record { in_memory = lt; is_delivered = d } in
        rw e (known p f l h (accept_vote-Counted lib p vote l v))
  ]
