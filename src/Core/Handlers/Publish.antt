-- ===== src/Core/Handlers/Publish.antt =====
-- `on_propose`: the self-vote and the broadcast of the new block.
use archipelago_hotstuff.Base.{
  ℕ, suc, ◌≤◌, ◌<◌, ◌≡◌, refl, sym, ap, ◌∙◌, subst, true, some, List, ◌∷◌, leb, Bool-cases, ◌⊎◌,
  inl, inr, arith, member, length, ==_refl,
}
use archipelago_hotstuff.Crypto.{Library, new_part_cert}
use archipelago_hotstuff.Entity.{Ptr}
use archipelago_hotstuff.Core.State.{
  HotStuffCore, Event, Proposal, Vote, Error, not_above_vheight, Res, height, broadcast, proposed,
  find_blk,
}
use archipelago_hotstuff.Core.Invariant.{IsLive, Sound}
use archipelago_hotstuff.Core.Frame.{Frame-same, Frame-live}
use archipelago_hotstuff.Core.Stable.{Keeps-Falling, Falling-mono}
use archipelago_hotstuff.Core.Advance.{SameCore-Advance, Advance, Advance-trans}
use archipelago_hotstuff.Core.Post.{Post, returns, fails, bind, mono}
use archipelago_hotstuff.Core.Update.Laws.{Quiet, Quiet-refl}
use archipelago_hotstuff.Core.Handlers.Proposing.{publish}
use archipelago_hotstuff.Core.Handlers.Counting.{
  Received, unknown, known, Counted, enough, twice, mismatch, counts, on_receive_vote-Received,
}

-- Replica `r` is among the voters of block `n`, or the block had enough votes without it.
abbrev pub HasVote : HotStuffCore → Ptr → ℕ → Type 0
HasVote t n r =
    (member r (t.blocks n).voted ≡ true) ⊎ (t.config.nmajority ≤ length (t.blocks n).voted)

-- A vote with a certificate for its block is counted for it.
Counted-HasVote :
    {lib : Library} {k : ℕ} {s : HotStuffCore} (n p : Ptr) (vote : Vote) {r : Res (Unit {0})}
    → Sound k s
    → n ≡ p
    → vote.cert.obj_hash ≡ (s.blocks p).hash
    → Counted lib k s p vote r
    → Post (λ _ t. Quiet k s t × HasVote t n vote.voter) (λ _ _. ⊥) r
Counted-HasVote {lib} {k} {s} n p vote v same fits (enough h) =
    returns (Quiet-refl k s v, inr (rw same h))
Counted-HasVote {lib} {k} {s} n p vote v same fits (twice h) =
    returns (Quiet-refl k s v, inl (rw same h))
Counted-HasVote n p vote v same fits (mismatch ne q) = absurd (ne fits)
Counted-HasVote n p vote v same fits (counts {t} e) = returns (
  e.quiet,
  inl (
      ap (λ q. member vote.voter (t.blocks q).voted) same
      ∙ ap (member vote.voter) e.voted
      ∙ rw (==_refl vote.voter) refl),
)

Received-HasVote :
    {lib : Library} {k : ℕ} {s : HotStuffCore} (n : Ptr) (vote : Vote) {r : Res (Unit {0})}
    → Sound k s
    → find_blk s vote.blk_hash ≡ some n
    → IsLive s n
    → vote.cert.obj_hash ≡ vote.blk_hash
    → Received lib k s vote r
    → Post (λ _ t. Quiet k s t × HasVote t n vote.voter) (λ _ _. ⊥) r
Received-HasVote n vote v found l fits (unknown out _) =
    let d = out n found in let e = l.is_delivered in cc
Received-HasVote n vote v found l fits (known p f _ h c) =
    let same : n ≡ p = cc in Counted-HasVote n p vote v same (fits ∙ sym h) c

-- The block `n` is proposed: it is the last one voted for, it has the replica's own vote or enough
-- votes without, and the last calls announce it.
pub record Published (k : ℕ) (s : HotStuffCore) (n : Ptr) (t : HotStuffCore) : Type 0 where
  pub advance : Advance k s t
  pub live : IsLive t n
  pub vheight : t.vheight ≡ height t n
  pub above : s.vheight < height t n
  pub prop : Proposal
  pub proposes : (prop.blk ≡ n) × (prop.proposer ≡ t.id)
  pub voted : HasVote t n t.id
  pub earlier : List Event
  pub outputs : t.outputs ≡ broadcast prop ∷ proposed prop ∷ earlier

module _ {k : ℕ} {s : HotStuffCore} (v : Sound k s) (n : Ptr) (l : IsLive s n)
    (high : s.vheight < height s n) where
  raised : HotStuffCore
  raised = record s { vheight = height s n }

  raised-Advance : Advance k s raised
  unfolding raised
  raised-Advance =
      SameCore-Advance
        (record {
          frame = Frame-same s _ refl refl refl refl;
          b_lock = refl;
          b_exec = refl;
          hqc = refl;
          vheight = omega arith;
          logged = refl;
        })
        v (Falling-mono s (suc s.vheight) (suc (height s n)) s.outputs (omega arith) v.votes)

  raised-live : IsLive raised n
  unfolding raised
  raised-live = record { in_memory = l.in_memory; is_delivered = l.is_delivered }

  own_proposal : Proposal
  own_proposal = record { proposer = s.id; blk = n }

  announced : HotStuffCore → HotStuffCore
  announced w = record w { outputs = broadcast own_proposal ∷ proposed own_proposal ∷ w.outputs }

  announced-Published :
      (w : HotStuffCore) → Quiet k raised w → HasVote w n s.id → Published k s n (announced w)
  unfolding announced raised own_proposal
  announced-Published w q has =
      let lw = Frame-live q.still.frame n raised-live in
      let h : height w n ≡ height s n = (q.still.frame.blocks n).height in
      let falls = Falling-mono w (suc s.vheight) (height w n) w.outputs (omega (arith, h)) (
        q.still.falling w (suc s.vheight) (
          Keeps-Falling q.keeps (suc s.vheight) s.outputs
            (Keeps-Falling raised-Advance.keeps (suc s.vheight) s.outputs v.votes))) in
      let step =
        SameCore-Advance
          (record {
            frame = Frame-same w (announced w) refl refl refl refl;
            b_lock = refl;
            b_exec = refl;
            hqc = refl;
            vheight = omega arith;
            logged = refl;
          })
          q.sound (lw, omega (arith, h, q.still.vheight), falls) in
      let low : Advance k raised w = record { sound = q.sound; keeps = q.keeps } in
      let all = Advance-trans raised-Advance (Advance-trans low step) in
      record {
        advance = all;
        live = record { in_memory = lw.in_memory; is_delivered = lw.is_delivered };
        vheight = q.still.vheight ∙ sym h;
        above = omega (arith, h);
        prop = own_proposal;
        proposes = (refl, sym q.still.id);
        voted = subst (HasVote (announced w) n) (sym q.still.id) has;
        earlier = w.outputs;
        outputs = refl;
      }

-- The block does not stand above all votes so far, and nothing has happened.
pub record TooLow (k : ℕ) (s : HotStuffCore) (n : Ptr) (e : Error) (t : HotStuffCore) : Type 0 where
  pub error : e ≡ not_above_vheight
  pub low : height s n ≤ s.vheight
  pub same : t ≡ s

-- `publish` raises `vheight` to the new block, counts the replica's vote for it and announces it.
-- It throws only where the block is not above `vheight`.
pub publish-Published :
    {k : ℕ} {s : HotStuffCore} (lib : Library) (n : Ptr)
    → Sound k s
    → IsLive s n
    → Post (λ m t. (m ≡ n) × Published k s n t) (TooLow k s n) (publish lib n s)
unfolding publish raised announced own_proposal new_part_cert
publish-Published {k} {s} lib n v l = elim (Bool-cases (leb (height s n) s.vheight)) [
  | inl low ↦ rw low (fails (record { error = refl; low = ground (arith, low); same = refl }))
  | inr up ↦
      let high : s.vheight < height s n = ground (arith, up) in
      let first = raised-Advance v n l high in
      let vote : Vote = record {
        voter = s.id;
        blk_hash = (s.blocks n).hash;
        cert = new_part_cert lib s.priv_key (s.blocks n).hash;
      } in
      let has =
        Received-HasVote n vote first.sound (first.sound.inv.good n l.in_memory).stored
          (raised-live v n l high) refl (on_receive_vote-Received lib vote first.sound) in
      rw up (
        bind (mono has (λ _ t q. q) (λ _ t x. absurd x))
          (λ _ w (q, h). returns (refl, announced-Published v n l high w q h)))
]
