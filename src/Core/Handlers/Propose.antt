-- ===== src/Core/Handlers/Propose.antt =====
-- `on_propose`: a replica's own proposal.
use archipelago_hotstuff.Base.{
  ℕ, suc, ◌+◌, ◌^◌, ◌≤◌, ◌<◌, ◌⊎◌, inl, inr, ◌≡◌, refl, sym, ap, ◌∙◌, subst, none, List, [], ◌∷◌,
  All, map, arith,
}
use archipelago_hotstuff.Crypto.{Library}
use archipelago_hotstuff.Entity.{Ptr}
use archipelago_hotstuff.Core.State.{
  HotStuffCore, Event, Proposal, Error, safety_breached, not_above_vheight, height, find_blk,
  broadcast, proposed,
}
use archipelago_hotstuff.Core.Invariant.{IsLive, Inv, Sound}
use archipelago_hotstuff.Core.Frame.{Frame-same}
use archipelago_hotstuff.Core.Advance.{SameCore-Advance, Advance, Advance-trans}
use archipelago_hotstuff.Core.Post.{Post, bind, mono}
use archipelago_hotstuff.Core.Deliver.{erase_tails}
use archipelago_hotstuff.Core.Deliver.Run.{Parents, done, next}
use archipelago_hotstuff.Core.Handlers.Proposing.{proposed_block, on_propose}
use archipelago_hotstuff.Core.Handlers.Install.{Installed, install-Installed}
use archipelago_hotstuff.Core.Handlers.Publish.{HasVote, TooLow, Published, publish-Published}

All-Parents :
    {k : ℕ} {s : HotStuffCore}
    → Inv k s
    → (ps : List Ptr) → All (IsLive s) ps
    → Parents s (map (λ q. (s.blocks q).hash) ps) ps
All-Parents i [] a = done
All-Parents i (q ∷ ps) (l, ls) = next (i.good q l.in_memory).stored l (All-Parents i ps ls)

-- The state in which `on_propose` builds its block.
abbrev pub untailed : List Ptr → HotStuffCore → HotStuffCore
untailed ps s = record s { tails = erase_tails ps s.tails }

All-untailed :
    (s : HotStuffCore) (qs ps : List Ptr) → All (IsLive s) ps → All (IsLive (untailed qs s)) ps
All-untailed s qs [] a = tt
All-untailed s qs (p ∷ ps) (l, ls) =
    (record { in_memory = l.in_memory; is_delivered = l.is_delivered }, All-untailed s qs ps ls)

-- A block is proposed on top of `p`: one above it and above all votes so far, delivered, with the
-- replica's own vote, and announced.
pub record Proposed (k : ℕ) (s : HotStuffCore) (p n : Ptr) (t : HotStuffCore) : Type 0 where
  pub advance : Advance (suc k) s t
  pub live : IsLive t n
  pub up : height t n ≡ suc (height s p)
  pub above : s.vheight < height t n
  pub vheight : t.vheight ≡ height t n
  pub prop : Proposal
  pub proposes : (prop.blk ≡ n) × (prop.proposer ≡ t.id)
  pub voted : HasVote t n t.id
  pub earlier : List Event
  pub outputs : t.outputs ≡ broadcast prop ∷ proposed prop ∷ earlier

Installed-Proposed :
    {k : ℕ} {s s1 t u : HotStuffCore} {p n : Ptr}
    → Advance k s s1
    → (height s1 p ≡ height s p) × (s1.vheight ≡ s.vheight)
    → Installed k s1 p n t
    → Published (suc k) t n u
    → Proposed k s p n u
Installed-Proposed {n} a (h, vh) q r =
    let hn = (r.advance.keeps.blocks n q.live).height in
    record {
      advance = Advance-trans a (Advance-trans q.advance r.advance);
      live = r.live;
      up = hn ∙ q.up ∙ ap suc h;
      above = omega (arith, r.above, q.vheight, vh);
      vheight = r.vheight;
      prop = r.prop;
      proposes = r.proposes;
      voted = r.voted;
      earlier = r.earlier;
      outputs = r.outputs;
    }

-- A proposal that fails: a breach of safety, or a block that is not above all votes so far.
pub record NotProposed (k : ℕ) (s : HotStuffCore) (p : Ptr) (e : Error) (t : HotStuffCore)
    : Type 0 where
  pub advance : Advance (suc k) s t
  pub reason :
      (e ≡ safety_breached)
      ⊎ ((e ≡ not_above_vheight) × (suc (height s p) ≤ s.vheight) × (t.vheight ≡ s.vheight))

TooLow-NotProposed :
    {k : ℕ} {s s1 t u : HotStuffCore} {p n : Ptr} {e : Error}
    → Advance k s s1
    → (height s1 p ≡ height s p) × (s1.vheight ≡ s.vheight)
    → Installed k s1 p n t
    → TooLow (suc k) t n e u
    → NotProposed k s p e u
TooLow-NotProposed {k} {s} {s1} {t} {u} {p} a (h, vh) q r =
    let b = Advance-trans a q.advance in
    record {
      advance = subst (Advance (suc k) s) (sym r.same) b;
      reason = inr (
        r.error,
        omega (arith, r.low, q.up, q.vheight, h, vh),
        ap (λ x. x.vheight) r.same ∙ q.vheight ∙ vh,
      );
    }

-- A proposal on delivered parents, of a block whose hash is new, with heights so far at most k and
-- k + 1 < 2 ^ 32, builds a block one above the first parent and above all votes so far, delivers
-- it, votes for it unless it has enough votes without, and announces it, and the replica stays
-- sound; it throws only "safety breached", or where the block is not above all votes so far, and
-- the replica is sound then too.
pub on_propose-Proposed :
    {k : ℕ} {s : HotStuffCore} (lib : Library) (cmds : List ℕ) (p : Ptr) (ps : List Ptr)
    (extra : List ℕ)
    → Sound k s
    → All (IsLive s) (p ∷ ps)
    → find_blk s (proposed_block lib cmds p ps extra (untailed (p ∷ ps) s)).hash ≡ none
    → k + 1 < 2 ^ 32
    → Post (λ n t. Proposed k s p n t) (NotProposed k s p) (on_propose lib cmds (p ∷ ps) extra s)
unfolding on_propose proposed_block find_blk
on_propose-Proposed {k} {s} lib cmds p ps extra v live new fits =
    let s1 = untailed (p ∷ ps) s in
    let b = proposed_block lib cmds p ps extra s1 in
    let a1 : Advance k s s1 =
      SameCore-Advance
        (record {
          frame = Frame-same s s1 refl refl refl refl;
          b_lock = refl;
          b_exec = refl;
          hqc = refl;
          vheight = omega arith;
          logged = refl;
        })
        v v.votes in
    let i = a1.sound.inv in
    bind
      (mono
        (install-Installed b p ps s.hqc.1 s.hqc.0 a1.sound new refl
          (All-Parents i (p ∷ ps) (All-untailed s (p ∷ ps) (p ∷ ps) live)) refl
          (ap (find_blk s1) i.pointers.high_cert
            ∙ (i.good s.hqc.0 i.pointers.high.in_memory).stored)
          fits)
        (λ n t q. q) (λ e t q. record { advance = Advance-trans a1 q.1; reason = inl q.0 }))
      (λ n t q.
        mono (publish-Published lib n q.advance.sound q.live)
          (λ m u (e, r).
            subst (λ x. Proposed k s p x u) (sym e) (Installed-Proposed a1 (refl, refl) q r))
          (λ e u r. TooLow-NotProposed a1 (refl, refl) q r))
