-- ===== src/Core/Frame.antt =====
-- Frames and the invariant: what survives a change that adds, fetches and delivers no block.
use archipelago_hotstuff.Base.{
  ℕ, ◌≤◌, ◌≡◌, refl, sym, subst, ◌∙◌, arith, ◌==◌, Bool-cases, inl, inr, ==_iff,
}
use archipelago_hotstuff.Entity.{Block, Ptr}
use archipelago_hotstuff.Core.State.{HotStuffCore, height, find_blk, set_blk}
use archipelago_hotstuff.Core.Invariant.{
  IsLive, Link, root, above, IsRef, IsGood, Pointers, Inv, SameBlock, SameContents, Whole, Frame,
  Keeps,
}

pub SameBlock-refl : (b : Block) → SameBlock b b
SameBlock-refl b = record {
  hash = refl;
  parent_hashes = refl;
  parents = refl;
  height = refl;
  delivered = refl;
  qc_ref = refl;
  qc = refl;
  cmds = refl;
  decided = λ e. e;
  own = λ o. o;
}

pub SameBlock-trans : {a b c : Block} → SameBlock a b → SameBlock b c → SameBlock a c
SameBlock-trans f g = record {
  hash = g.hash ∙ f.hash;
  parent_hashes = g.parent_hashes ∙ f.parent_hashes;
  parents = g.parents ∙ f.parents;
  height = g.height ∙ f.height;
  delivered = g.delivered ∙ f.delivered;
  qc_ref = g.qc_ref ∙ f.qc_ref;
  qc = g.qc ∙ f.qc;
  cmds = g.cmds ∙ f.cmds;
  decided = λ e. g.decided (f.decided e);
  own = λ o. g.own (f.own o);
}

pub SameBlock-SameContents : {b c : Block} → SameBlock b c → SameContents b c
SameBlock-SameContents f = record {
  hash = f.hash;
  parent_hashes = f.parent_hashes;
  qc = f.qc;
  delivered = λ d. f.delivered ∙ d;
}

pub SameContents-refl : (b : Block) → SameContents b b
SameContents-refl b = SameBlock-SameContents (SameBlock-refl b)

pub SameContents-Whole : {b c : Block} → SameContents b c → Whole b → Whole c
SameContents-Whole {b} f w = record {
  cert = w.cert;
  carried = f.qc ∙ w.carried;
  child = λ d. elim (Bool-cases b.delivered) [
    | inl e ↦ let e' = f.delivered e in cc
    | inr e ↦ let (h, hs, same) = w.child e in (h, hs, f.parent_hashes ∙ same)
  ];
}

pub Frame-refl : (s : HotStuffCore) → Frame s s
Frame-refl s = record {
  b0 = refl;
  next_ptr = refl;
  blk_cache = refl;
  blocks = λ p. SameBlock-refl _;
}

-- States with the same blocks and the same storage.
pub Frame-same :
    (s t : HotStuffCore)
    → t.b0 ≡ s.b0
    → t.next_ptr ≡ s.next_ptr
    → t.blk_cache ≡ s.blk_cache
    → t.blocks ≡ s.blocks
    → Frame s t
Frame-same s t e n c b = record {
  b0 = e;
  next_ptr = n;
  blk_cache = c;
  blocks = λ p. subst (λ f. SameBlock (s.blocks p) (f p)) (sym b) (SameBlock-refl (s.blocks p));
}

pub Frame-trans : {s t u : HotStuffCore} → Frame s t → Frame t u → Frame s u
Frame-trans f g = record {
  b0 = g.b0 ∙ f.b0;
  next_ptr = g.next_ptr ∙ f.next_ptr;
  blk_cache = g.blk_cache ∙ f.blk_cache;
  blocks = λ p. SameBlock-trans (f.blocks p) (g.blocks p);
}

-- A write to one block that keeps what matters of it.
pub Frame-set_blk :
    (s : HotStuffCore) (p : Ptr) (b : Block) → SameBlock (s.blocks p) b → Frame s (set_blk p b s)
Frame-set_blk s p b same = record {
  b0 = refl;
  next_ptr = refl;
  blk_cache = refl;
  blocks = λ q. elim (Bool-cases (q == p)) [
    | inl e ↦ rw (e, (==_iff q p).0 e) same
    | inr e ↦ rw e (SameBlock-refl (s.blocks q))
  ];
}

pub Keeps-refl : (s : HotStuffCore) → Keeps s s
Keeps-refl s = record {
  b0 = refl;
  grown = omega arith;
  found = λ h p e. e;
  blocks = λ p l. SameBlock-refl _;
  contents = λ p l. SameContents-refl _;
  vheight = omega arith;
  b_lock = omega arith;
  hqc = omega arith;
  b_exec = omega arith;
}

pub Keeps-live : {s t : HotStuffCore} (p : Ptr) → Keeps s t → IsLive s p → IsLive t p
Keeps-live p k l = ground (arith, k.blocks p l)

pub Keeps-trans : {s t u : HotStuffCore} → Keeps s t → Keeps t u → Keeps s u
Keeps-trans f g = record {
  b0 = g.b0 ∙ f.b0;
  grown = omega arith;
  found = λ h p e. g.found h p (f.found h p e);
  blocks = λ p l. SameBlock-trans (f.blocks p l) (g.blocks p (Keeps-live p f l));
  contents = λ p l.
      let a = f.contents p l in
      let b = g.contents p (omega arith) in
      record {
        hash = b.hash ∙ a.hash;
        parent_hashes = b.parent_hashes ∙ a.parent_hashes;
        qc = b.qc ∙ a.qc;
        delivered = λ d. b.delivered (a.delivered d);
      };
  vheight = omega arith;
  b_lock = omega arith;
  hqc = omega arith;
  b_exec = omega arith;
}

module _ {s t : HotStuffCore} (f : Frame s t) where
  pub Frame-find_blk : (h : ℕ) → find_blk t h ≡ find_blk s h
  unfolding find_blk
  Frame-find_blk h = rw f.blk_cache

  pub Frame-live : (p : Ptr) → IsLive s p → IsLive t p
  Frame-live p l = ground (arith, f.blocks p)

  pub Frame-live_at : (p q : Ptr) → q ≡ p → IsLive s p → IsLive t q
  Frame-live_at p q e l = subst (IsLive t) (sym e) (Frame-live p l)

  pub Frame-Link : (p : Ptr) → Link s p → Link t p
  Frame-Link p (root e) = root (ground arith)
  Frame-Link p (above q rest e l h) =
      above q rest (ground (arith, f.blocks p)) (Frame-live q l)
        (ground (arith, f.blocks p, f.blocks q))

  Frame-IsRef : (p q : Ptr) → IsRef s p q → IsRef t p q
  Frame-IsRef p q r = record {
    target = ground arith;
    cert = r.cert;
    carried = ground (arith, f.blocks p);
    certifies = ground (arith, f.blocks q);
  }

  Frame-IsGood : (k : ℕ) (p : Ptr) → IsGood k s p → IsGood k t p
  Frame-IsGood k p g = record {
    low = ground (arith, f.blocks p);
    stored = Frame-find_blk _ ∙ rw ((f.blocks p).hash) g.stored;
    link = λ d. Frame-Link p (g.link (ground (arith, f.blocks p)));
    bare = λ d. ground (arith, f.blocks p);
    ref = λ q e. Frame-IsRef p q (g.ref q (ground (arith, f.blocks p)));
    own = (f.blocks p).own g.own;
    whole = SameContents-Whole (SameBlock-SameContents (f.blocks p)) g.whole;
  }

  -- The invariant survives, with the pointers checked anew.
  pub Frame-Inv : (k : ℕ) → Pointers t → Inv k s → Inv k t
  Frame-Inv k pointers i = record {
    genesis = record {
      live = simp f.b0 (Frame-live _ i.genesis.live);
      flat = simp f.b0 ((f.blocks s.b0).height ∙ i.genesis.flat);
      final = simp f.b0 ((f.blocks s.b0).decided i.genesis.final);
    };
    good = λ p lt. Frame-IsGood k p (i.good p (rw f.next_ptr at lt));
    found = λ h p e.
        let old = i.found h p (sym (Frame-find_blk h) ∙ e) in
        (rw f.next_ptr old.0, (f.blocks p).hash ∙ old.1);
    pointers = pointers;
  }

  -- A change that also leaves the pointers alone.
  pub Frame-Inv_still :
      (k : ℕ) → t.b_lock ≡ s.b_lock → t.b_exec ≡ s.b_exec → t.hqc ≡ s.hqc → Inv k s → Inv k t
  Frame-Inv_still k el ee eh i =
      Frame-Inv k
        (record {
          locked = simp el (Frame-live _ i.pointers.locked);
          executed = simp ee (Frame-live _ i.pointers.executed);
          high = simp eh (Frame-live _ i.pointers.high);
          high_cert = simp eh (i.pointers.high_cert ∙ sym (f.blocks s.hqc.0).hash);
        })
        i

  pub Frame-height : (p : Ptr) → height t p ≡ height s p
  Frame-height p = (f.blocks p).height

  pub Frame-Keeps :
      s.vheight ≤ t.vheight
      → height s s.b_lock ≤ height s t.b_lock
      → height s s.hqc.0 ≤ height s t.hqc.0
      → height s s.b_exec ≤ height s t.b_exec
      → Keeps s t
  Frame-Keeps v l h e = record {
    b0 = f.b0;
    grown = omega (arith, f.next_ptr);
    found = λ n p q. Frame-find_blk n ∙ q;
    blocks = λ p _. f.blocks p;
    contents = λ p _. SameBlock-SameContents (f.blocks p);
    vheight = v;
    b_lock = omega (arith, Frame-height t.b_lock);
    hqc = omega (arith, Frame-height t.hqc.0);
    b_exec = omega (arith, Frame-height t.b_exec);
  }
