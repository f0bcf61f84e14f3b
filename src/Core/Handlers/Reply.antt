-- ===== src/Core/Handlers/Reply.antt =====
-- `on_receive_proposal`: how a replica answers a proposal.
use archipelago_hotstuff.Base.{
  ℕ, suc, ◌≤◌, ◌<◌, ◌≡◌, ◌↔◌, refl, sym, ap, subst, Bool, true, false, not, List, ◌∷◌, arith, ◌&&◌,
  Bool-cases, ◌⊎◌, inl, inr, if◌then◌else◌,
}
use archipelago_hotstuff.Crypto.{Library, new_part_cert}
use archipelago_hotstuff.Entity.{Ptr}
use archipelago_hotstuff.Core.State.{
  HotStuffCore, Event, Proposal, Vote, Error, Res, ok, then_run, ◌>>=◌, modify, height, voted,
  received, block_not_delivered, safety_breached, qc_finished,
}
use archipelago_hotstuff.Core.Invariant.{IsLive, Sound, Falling, log}
use archipelago_hotstuff.Core.Frame.{Frame-same, Frame-live, Keeps-trans}
use archipelago_hotstuff.Core.Stable.{Falling-mono}
use archipelago_hotstuff.Core.Advance.{SameCore, SameCore-trans, SameCore-Advance, Advance}
use archipelago_hotstuff.Core.Handlers.Promise.{Finishes, finish_qc_ref-Finishes}
use archipelago_hotstuff.Core.Post.{Post, returns, fails}
use archipelago_hotstuff.Core.Update.{update_blk}
use archipelago_hotstuff.Core.Update.Laws.{Quiet, Breach}
use archipelago_hotstuff.Core.Update.Sound.{update_blk-Ends}
use archipelago_hotstuff.Core.Deliver.{sanity_check_delivered}
use archipelago_hotstuff.Core.Handlers.Voting.{
  finish_qc_ref, cast_vote, answer, opine, on_receive_proposal,
}
use archipelago_hotstuff.Core.Handlers.Opinion.{MayVote, Opinion, opined, opine-Opinion}

abbrev vote_of : Library → Proposal → HotStuffCore → Event
vote_of lib prop s = voted prop.proposer (record {
  voter = s.id;
  blk_hash = (s.blocks prop.blk).hash;
  cert = new_part_cert lib s.priv_key (s.blocks prop.blk).hash;
})

abbrev pub replies : Library → Proposal → Bool → HotStuffCore → List Event → List Event
replies lib prop b u es =
    if b && not u.vote_disabled then vote_of lib prop u ∷ received prop ∷ es else received prop ∷ es

-- How the state `t` answers `prop`, where `update` has left `u`.
pub record Reply (lib : Library) (prop : Proposal) (u t : HotStuffCore) : Type 0 where
  pub opinion : Bool
  pub rule : (opinion ≡ true) ↔ MayVote u prop.blk
  pub vheight : t.vheight ≡ (if opinion then height u prop.blk else u.vheight)
  pub earlier : List Event
  pub noted : (earlier ≡ u.outputs) ⊎ ((q : Ptr) × (earlier ≡ qc_finished q ∷ u.outputs))
  pub outputs : t.outputs ≡ replies lib prop opinion u earlier

module _ (lib : Library) (prop : Proposal) where
  vote_of_eq :
      (u w : HotStuffCore)
      → w.id ≡ u.id
      → w.priv_key ≡ u.priv_key
      → w.blocks ≡ u.blocks
      → vote_of lib prop w ≡ vote_of lib prop u
  vote_of_eq u w i p b =
      let h : (w.blocks prop.blk).hash ≡ (u.blocks prop.blk).hash = ap (λ f. (f prop.blk).hash) b in
      cc

  replies_eq :
      (b : Bool) (u w : HotStuffCore) (es : List Event)
      → vote_of lib prop w ≡ vote_of lib prop u
      → w.vote_disabled ≡ u.vote_disabled
      → (if b && not w.vote_disabled then vote_of lib prop w ∷ es else es)
        ≡ (if b && not u.vote_disabled then vote_of lib prop u ∷ es else es)
  replies_eq b u w es e d = rw (e, d)

log-reply :
    (c : Bool) (p : ℕ) (w : Vote) (prop : Proposal) (es : List Event)
    → log (if c then voted p w ∷ received prop ∷ es else received prop ∷ es) ≡ log es
log-reply false p w prop es = refl
log-reply true p w prop es = refl

module _ {k : ℕ} (lib : Library) (prop : Proposal) {u : HotStuffCore} (v : Sound k u)
    (l : IsLive u prop.blk) where
  reply-Falling :
      (c : Bool) (es : List Event)
      → u.vheight < height u prop.blk
      → Falling u (suc u.vheight) es
      → Falling u
          (suc (height u prop.blk))
          (if c then vote_of lib prop u ∷ received prop ∷ es else received prop ∷ es)
  reply-Falling false es lt f =
      Falling-mono u (suc u.vheight) (suc (height u prop.blk)) es (omega arith) f
  reply-Falling true es lt f = (
    prop.blk,
    (v.inv.good prop.blk l.in_memory).stored,
    l,
    omega arith,
    Falling-mono u (suc u.vheight) (height u prop.blk) es (omega arith) f,
  )

  -- A vote for a block above all earlier votes keeps the votes falling.
  replies-Falling :
      (b : Bool) (es : List Event)
      → (b ≡ true → u.vheight < height u prop.blk)
      → Falling u (suc u.vheight) es
      → Falling u (suc (if b then height u prop.blk else u.vheight)) (replies lib prop b u es)
  replies-Falling false es above f = f
  replies-Falling true es above f = reply-Falling (not u.vote_disabled) es (above refl) f

  module _ (o : Opinion u prop.blk) where
    open o use {opinion, rule}

    middle : HotStuffCore
    middle = opined opinion prop.blk u

    done : HotStuffCore
    done = finish_qc_ref (u.blocks prop.blk).qc_ref middle

    told : HotStuffCore
    told = record done { outputs = received prop ∷ done.outputs }

    final : HotStuffCore
    final = answer lib prop opinion middle

    finished : Finishes middle done
    unfolding done
    finished = finish_qc_ref-Finishes (u.blocks prop.blk).qc_ref middle

    final-Reply : Reply lib prop u final
    unfolding final middle answer cast_vote done told
    final-Reply = record {
      opinion = opinion;
      rule = rule;
      vheight = finished.vheight;
      earlier = done.outputs;
      noted = finished.noted;
      outputs =
          replies_eq lib prop opinion u told told.outputs
            (vote_of_eq lib prop u told finished.id finished.priv_key finished.blocks)
            finished.vote_disabled;
    }

    vheight-le : u.vheight ≤ (if opinion then height u prop.blk else u.vheight)
    vheight-le = elim (Bool-cases opinion) [
      | inl e ↦ rw e (omega (arith, (rule.0 e).0))
      | inr e ↦ rw e (omega arith)
    ]

    middle-SameCore : SameCore u middle
    unfolding middle
    middle-SameCore = record {
      frame = Frame-same u _ refl refl refl refl;
      b_lock = refl;
      b_exec = refl;
      hqc = refl;
      vheight = vheight-le;
      logged = refl;
    }

    told-SameCore : SameCore done final
    unfolding final middle answer cast_vote done told
    told-SameCore = record {
      frame = Frame-same done _ refl refl refl refl;
      b_lock = refl;
      b_exec = refl;
      hqc = refl;
      vheight = omega arith;
      logged = log-reply (opinion && not done.vote_disabled) _ _ prop done.outputs;
    }

    earlier-Falling : Falling u (suc u.vheight) (final-Reply).earlier
    unfolding middle final-Reply
    earlier-Falling = finished.falling u (suc u.vheight) v.votes

    final-Advance : Advance k u final
    final-Advance =
        let r = final-Reply in
        SameCore-Advance
          (SameCore-trans middle-SameCore (SameCore-trans finished.core told-SameCore)) v
          (subst (λ n. Falling u (suc n) final.outputs) (sym r.vheight)
            (subst (Falling u _) (sym r.outputs)
              (replies-Falling r.opinion r.earlier (λ e. (r.rule.0 e).0) earlier-Falling)))

-- The end of a reply, from `s` through the state `u` that `update` leaves.
pub record Replied (k : ℕ) (lib : Library) (prop : Proposal) (s t : HotStuffCore) : Type 0 where
  pub advance : Advance k s t
  pub updated : HotStuffCore
  pub update : update_blk prop.blk s ≡ ok tt updated
  pub quiet : Quiet k s updated
  pub reply : Reply lib prop updated t

-- The ways `on_receive_proposal` throws.
pub data Refused (k : ℕ) (s : HotStuffCore) (p : Ptr) (e : Error) (t : HotStuffCore) : Type 0 where
  undelivered : (s.blocks p).delivered ≡ false → e ≡ block_not_delivered → t ≡ s → Refused k s p e t
  breached : e ≡ safety_breached → Quiet k s t → Refused k s p e t

-- What `on_receive_proposal` does: on a delivered block it ends in a reply, or in a breach.
abbrev pub Answers : ℕ → Library → Proposal → HotStuffCore → Res (Unit {0}) → Type 0
Answers k lib prop s r = Post (λ _ t. Replied k lib prop s t) (Refused k s prop.blk) r

module _ {k : ℕ} (lib : Library) (prop : Proposal) (s : HotStuffCore) where
  reply_after :
      (r : Res (Unit {0}))
      → update_blk prop.blk s ≡ r
      → IsLive s prop.blk
      → Post (λ _ t. Quiet k s t) (Breach k s) r
      → Answers k lib prop s (then_run r (λ _. opine prop.blk >>= λ b. modify (answer lib prop b)))
  unfolding final middle answer
  reply_after r e l (returns {a} {s = u} q) =
      let lu = Frame-live q.still.frame prop.blk l in
      let o = opine-Opinion q.sound.inv prop.blk lu in
      let adv = final-Advance lib prop q.sound lu o in
      rw (o.result) (
        returns (record {
          advance = record { sound = adv.sound; keeps = Keeps-trans q.keeps adv.keeps };
          updated = u;
          update = e;
          quiet = q;
          reply = final-Reply lib prop q.sound lu o;
        }))
  reply_after r e l (fails b) = fails (breached b.error b.quiet)

  -- On a delivered block, `on_receive_proposal` updates the chain and replies: it raises `vheight`
  -- and votes exactly where the block is above `vheight` and passes the liveness or the safety
  -- condition, and keeps the replica sound. It throws only on an undelivered block, without a
  -- change, or where `update` finds a breach.
  pub on_receive_proposal-Answers :
      Sound k s → prop.blk < s.next_ptr → Answers k lib prop s (on_receive_proposal lib prop s)
  unfolding on_receive_proposal sanity_check_delivered
  on_receive_proposal-Answers v lt = elim (Bool-cases (s.blocks prop.blk).delivered) [
    | inr d ↦ rw d (fails (undelivered d refl refl))
    | inl d ↦
        let l : IsLive s prop.blk = record { in_memory = lt; is_delivered = d } in
        rw d (reply_after (update_blk prop.blk s) refl l (update_blk-Ends v prop.blk l))
  ]
