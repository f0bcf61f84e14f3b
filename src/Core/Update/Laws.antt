-- ===== src/Core/Update/Laws.antt =====
-- What `update` keeps, and how it ends.
use mathlib.Core.List.{reverse_aux}
use archipelago_hotstuff.Base.{
  true, false, ℕ, suc, ◌≤◌, ◌<◌, ◌≡◌, refl, sym, ap, ◌∙◌, subst, List, [], ◌∷◌, arith, ltb, ltb→lt,
  ◌==◌, ==_iff, Bool-cases, inl, inr,
}
use archipelago_hotstuff.Crypto.{QuorumCert}
use archipelago_hotstuff.Entity.{Ptr}
use archipelago_hotstuff.Core.State.{
  HotStuffCore, Error, Res, ok, throws, height, safety_breached, hqc_updated,
}
use archipelago_hotstuff.Core.Invariant.{
  IsLive, Climbs, Executed, Frame, Keeps, Pointers, Still, log, Sound,
}
use archipelago_hotstuff.Core.Frame.{
  Frame-same, Frame-Keeps, Frame-trans, Frame-Inv, Frame-live, Frame-live_at, Keeps-refl,
  Keeps-trans,
}
use archipelago_hotstuff.Core.Stable.{
  Keeps-Executed, Keeps-Climbs, Keeps-Falling, Still-refl, Still-trans,
}
use archipelago_hotstuff.Core.Post.{Post, returns, fails, mono}
use archipelago_hotstuff.Core.Update.{update_hqc, collect, commit_all, commit_to, lock}
use archipelago_hotstuff.Core.Update.Chain.{Extends, collect-Climbs, collect-ancestor}
use archipelago_hotstuff.Core.Update.Commit.{Commits, commit_all-Commits, Executed-Climbs}

-- A step of `update`: sound, and no vote or delivery in it.
pub record Quiet (k : ℕ) (s t : HotStuffCore) : Type 0 where
  pub sound : Sound k t
  pub still : Still s t
  pub keeps : Keeps s t

-- `update` throws only where the chain to commit has left the committed one.
pub record Breach (k : ℕ) (s : HotStuffCore) (e : Error) (t : HotStuffCore) : Type 0 where
  pub error : e ≡ safety_breached
  pub quiet : Quiet k s t

-- The chain from the last executed block to `blk` was committed, and nothing else happened.
pub record CommitsTo (k : ℕ) (s : HotStuffCore) (blk : Ptr) (t : HotStuffCore) : Type 0 where
  pub quiet : Quiet k s t
  pub chain : List Ptr
  pub climbs : Climbs s s.b_exec chain blk
  pub executed : t.b_exec ≡ blk
  pub logged : log t.outputs ≡ reverse_aux chain (log s.outputs)
  pub locked : t.b_lock ≡ s.b_lock
  pub high : t.hqc ≡ s.hqc

-- The block does not descend from the last executed one.
pub record Diverges (k : ℕ) (s : HotStuffCore) (blk : Ptr) (e : Error) (t : HotStuffCore)
    : Type 0 where
  pub error : e ≡ safety_breached
  pub same : t ≡ s
  pub apart : ¬ Extends s s.b_exec blk

pub Quiet-refl : (k : ℕ) (s : HotStuffCore) → Sound k s → Quiet k s s
Quiet-refl k s v = record { sound = v; still = Still-refl s; keeps = Keeps-refl s }

pub Quiet-trans : {k : ℕ} {s t u : HotStuffCore} → Quiet k s t → Quiet k t u → Quiet k s u
Quiet-trans f g = record {
  sound = g.sound;
  still = Still-trans f.still g.still;
  keeps = Keeps-trans f.keeps g.keeps;
}

-- A step that keeps the votes and the log is sound if its pointers are.
Quiet-step :
    (k : ℕ) (s t : HotStuffCore)
    → Sound k s
    → Still s t
    → Keeps s t
    → Pointers t
    → Executed t t.b_exec (log t.outputs)
    → Quiet k s t
Quiet-step k s t v still keeps ptrs exec = record {
  sound = record {
    inv = Frame-Inv still.frame k ptrs v.inv;
    votes =
        simp still.vheight
          (Keeps-Falling keeps (suc s.vheight) t.outputs (still.falling s _ v.votes));
    exec = exec;
  };
  still = still;
  keeps = keeps;
}

module _ {k : ℕ} {s : HotStuffCore} (v : Sound k s) where
  open v use {inv}
  open inv use {pointers}

  raise_hqc : (p : Ptr) (qc : QuorumCert) → HotStuffCore
  raise_hqc p qc = record s { hqc = (p, qc); outputs = hqc_updated ∷ s.outputs }

  raise_hqc-Quiet :
      (p : Ptr) (qc : QuorumCert)
      → IsLive s p
      → qc.obj_hash ≡ (s.blocks p).hash
      → height s s.hqc.0 < height s p
      → Quiet k s (raise_hqc p qc)
  unfolding raise_hqc
  raise_hqc-Quiet p qc l e lt =
      Quiet-step k s (raise_hqc p qc) v still keeps
        (record {
          locked = Frame-live frame _ pointers.locked;
          executed = Frame-live frame _ pointers.executed;
          high = Frame-live frame p l;
          high_cert = e;
        })
        (Keeps-Executed keeps s.b_exec (log s.outputs) v.exec)
    where
      frame : Frame s (raise_hqc p qc)
      frame = Frame-same s _ refl refl refl refl

      still : Still s (raise_hqc p qc)
      still = record {
        frame = frame;
        vheight = refl;
        priv_key = refl;
        id = refl;
        vote_disabled = refl;
        config = refl;
        falling = λ u n f. f;
      }

      keeps : Keeps s (raise_hqc p qc)
      keeps = Frame-Keeps frame (omega arith) (omega arith) (omega arith) (omega arith)

  -- A higher certified block becomes the one with the highest certificate.
  pub update_hqc-Quiet :
      (p : Ptr) (qc : QuorumCert)
      → IsLive s p
      → qc.obj_hash ≡ (s.blocks p).hash
      → Quiet k s (update_hqc p qc s)
  unfolding update_hqc raise_hqc
  update_hqc-Quiet p qc l e = elim (Bool-cases (ltb (height s s.hqc.0) (height s p))) [
    | inr low ↦ rw low (Quiet-refl k s v)
    | inl high ↦ rw high (raise_hqc-Quiet p qc l e (ltb→lt _ _ high))
  ]

  raise_lock : (p : Ptr) → HotStuffCore
  raise_lock p = record s { b_lock = p }

  raise_lock-Quiet :
      (p : Ptr) → IsLive s p → height s s.b_lock < height s p → Quiet k s (raise_lock p)
  unfolding raise_lock
  raise_lock-Quiet p l lt =
      Quiet-step k s (raise_lock p) v still keeps
        (record {
          locked = Frame-live frame p l;
          executed = Frame-live frame _ pointers.executed;
          high = Frame-live frame _ pointers.high;
          high_cert = pointers.high_cert;
        })
        (Keeps-Executed keeps s.b_exec (log s.outputs) v.exec)
    where
      frame : Frame s (raise_lock p)
      frame = Frame-same s _ refl refl refl refl

      still : Still s (raise_lock p)
      still = record {
        frame = frame;
        vheight = refl;
        priv_key = refl;
        id = refl;
        vote_disabled = refl;
        config = refl;
        falling = λ u n f. f;
      }

      keeps : Keeps s (raise_lock p)
      keeps = Frame-Keeps frame (omega arith) (omega arith) (omega arith) (omega arith)

  pub lock-Quiet : (p : Ptr) → IsLive s p → Quiet k s (lock p s)
  unfolding lock raise_lock
  lock-Quiet p l = elim (Bool-cases (ltb (height s s.b_lock) (height s p))) [
    | inr low ↦ rw low (Quiet-refl k s v)
    | inl high ↦ rw high (raise_lock-Quiet p l (ltb→lt _ _ high))
  ]

  -- The commit of blocks that climb from the last executed one, which makes their top the last.
  commit_chain : (queue : List Ptr) (top : Ptr) → HotStuffCore
  commit_chain queue top = record (commit_all queue s) { b_exec = top }

  Climbs-le : (a top : Ptr) (queue : List Ptr) → Climbs s a queue top → height s a ≤ height s top
  Climbs-le a top [] c = omega (arith, ap (height s) c)
  Climbs-le a top (p ∷ ps) c = omega (arith, c.0.step, Climbs-le p top ps c.1)

  commit_chain-Quiet :
      (queue : List Ptr) (top : Ptr)
      → IsLive s top
      → Climbs s s.b_exec queue top
      → Quiet k s (commit_chain queue top)
  unfolding commit_chain
  commit_chain-Quiet queue top l climbs =
      Quiet-step k s (commit_chain queue top) v still keeps
        (record {
          locked = Frame-live_at frame s.b_lock _ same.b_lock pointers.locked;
          executed = Frame-live frame top l;
          high = Frame-live_at frame s.hqc.0 _ (ap (λ h. h.0) same.hqc) pointers.high;
          high_cert =
              subst (λ h. h.1.obj_hash ≡ ((commit_all queue s).blocks h.0).hash) (sym same.hqc)
                (pointers.high_cert ∙ sym (frame.blocks s.hqc.0).hash);
        })
        (subst (Executed (commit_chain queue top) top) (sym done.logged) (
          Executed-Climbs _ s.b_exec top queue (log s.outputs)
            (Keeps-Climbs keeps s.b_exec queue top climbs)
            (Keeps-Executed keeps s.b_exec (log s.outputs) v.exec)))
    where
      done : Commits s (commit_all queue s) queue
      done = commit_all-Commits queue s

      open done use {pointers as same}

      frame : Frame s (commit_chain queue top)
      frame = Frame-trans done.still.frame (Frame-same (commit_all queue s) _ refl refl refl refl)

      still : Still s (commit_chain queue top)
      still = record {
        frame = frame;
        vheight = done.still.vheight;
        priv_key = done.still.priv_key;
        id = done.still.id;
        vote_disabled = done.still.vote_disabled;
        config = done.still.config;
        falling = done.still.falling;
      }

      keeps : Keeps s (commit_chain queue top)
      keeps =
          Frame-Keeps frame (omega (arith, done.still.vheight))
            (omega (arith, ap (height s) same.b_lock))
            (omega (arith, ap (λ h. height s h.0) same.hqc)) (Climbs-le s.b_exec top queue climbs)

  commit_chain-CommitsTo :
      (queue : List Ptr) (blk : Ptr)
      → IsLive s blk
      → Climbs s s.b_exec queue blk
      → CommitsTo k s blk (commit_chain queue blk)
  unfolding commit_chain
  commit_chain-CommitsTo queue blk l climbs =
      let c = commit_all-Commits queue s in
      record {
        quiet = commit_chain-Quiet queue blk l climbs;
        chain = queue;
        climbs = climbs;
        executed = refl;
        logged = c.logged;
        locked = c.pointers.b_lock;
        high = c.pointers.hqc;
      }

  walk_end : Ptr → Res (List Ptr × Ptr) → Ptr
  walk_end p (ok r t) = r.1
  walk_end p (throws e t) = p

  -- A walk that stops elsewhere has left the committed chain.
  left_chain :
      (blk a : Ptr) (queue : List Ptr)
      → collect (suc (height s blk)) (height s s.b_exec) blk [] s ≡ ok (queue, a) s
      → (a == s.b_exec) ≡ false
      → ¬ Extends s s.b_exec blk
  unfolding walk_end
  left_chain blk a queue e off x =
      let (other, f) = collect-ancestor (suc (height s blk)) s.b_exec blk [] (omega arith) x in
      let same : a ≡ s.b_exec = ap (walk_end blk) (sym e ∙ f) in
      let on = (==_iff a s.b_exec).1 same in let z : true ≡ false = sym on ∙ off in cc

  pub commit_to-Post :
      (blk : Ptr)
      → IsLive s blk
      → Post (λ _ t. CommitsTo k s blk t) (Diverges k s blk) (commit_to blk s)
  unfolding commit_to commit_chain
  commit_to-Post blk l =
      let (queue, a, e, climbs, la, low) =
        collect-Climbs inv (suc (height s blk)) (height s s.b_exec) blk blk [] (omega arith) l
          refl in
      rw e (elim (Bool-cases (a == s.b_exec)) [
        | inr off ↦
            rw off
              (fails (record { error = refl; same = refl; apart = left_chain blk a queue e off }))
        | inl on ↦ rw on (
            returns (
              commit_chain-CommitsTo queue blk l
                (subst (λ b. Climbs s b queue blk) ((==_iff a s.b_exec).0 on) climbs)))
      ])

  -- What the commit keeps, whichever way it ends.
  pub commit_to-Ends :
      (blk : Ptr) → IsLive s blk → Post (λ _ t. Quiet k s t) (Breach k s) (commit_to blk s)
  commit_to-Ends blk l =
      mono (commit_to-Post blk l) (λ _ t c. c.quiet)
        (λ er t d. record {
          error = d.error;
          quiet = subst (Quiet k s) (sym d.same) (Quiet-refl k s v);
        })
