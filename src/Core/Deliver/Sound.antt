-- ===== src/Core/Deliver/Sound.antt =====
-- A delivery keeps a replica sound.
use archipelago_hotstuff.Base.{
  ℕ, suc, ◌+◌, ◌^◌, ◌≤◌, ◌<◌, ◌≡◌, ◌≢◌, refl, sym, ap, ◌∙◌, subst, true, some, ◌==◌, ==_iff,
  Bool-cases, inl, inr, update_self, update_ne, arith,
}
use archipelago_hotstuff.Entity.{Ptr}
use archipelago_hotstuff.Core.State.{HotStuffCore, height, find_blk, ok}
use archipelago_hotstuff.Core.Invariant.{
  IsLive, IsChild, Link, root, above, IsRef, IsGood, OwnCert, Sound, Keeps, SameBlock, SameContents,
  Whole,
}
use archipelago_hotstuff.Core.Frame.{SameBlock-refl, SameContents-refl, SameContents-Whole}
use archipelago_hotstuff.Core.Stable.{Keeps-Executed, Keeps-Falling}
use archipelago_hotstuff.Core.Advance.{Advance}
use archipelago_hotstuff.Core.Deliver.{on_deliver_blk}
use archipelago_hotstuff.Core.Deliver.Run.{
  Ready, delivered_block, delivery, first_live, on_deliver_blk-delivery,
}

module _ {k : ℕ} {s : HotStuffCore} {p : Ptr} (r : Ready s p) (v : Sound k s) (lt : p < s.next_ptr)
    (fits : k + 1 < 2 ^ 32) where
  open v use {inv}

  delivery-here : (delivery s p r).blocks p ≡ delivered_block s p r
  delivery-here = update_self s.blocks p _

  delivery-other : (q : Ptr) → q ≢ p → (delivery s p r).blocks q ≡ s.blocks q
  delivery-other q ne = update_ne s.blocks p _ q ne

  live_ne : (q : Ptr) → IsLive s q → q ≢ p
  live_ne q l e =
      let d = ap (λ x. (s.blocks x).delivered) e in let f = r.fresh in let g = l.is_delivered in cc

  delivery-live : (q : Ptr) → IsLive s q → IsLive (delivery s p r) q
  delivery-live q l = record {
    in_memory = l.in_memory;
    is_delivered = ap (λ b. b.delivered) (delivery-other q (live_ne q l)) ∙ l.is_delivered;
  }

  delivery-height_at : (q : Ptr) → IsLive s q → height (delivery s p r) q ≡ height s q
  delivery-height_at q l = ap (λ b. b.height) (delivery-other q (live_ne q l))

  delivery-hash : (q : Ptr) → ((delivery s p r).blocks q).hash ≡ (s.blocks q).hash
  delivery-hash q = elim (Bool-cases (q == p)) [
    | inl e ↦ rw e (ap (λ x. (s.blocks x).hash) (sym ((==_iff q p).0 e)))
    | inr e ↦ rw e refl
  ]

  delivery-contents : (q : Ptr) → SameContents (s.blocks q) ((delivery s p r).blocks q)
  delivery-contents q = elim (Bool-cases (q == p)) [
    | inr e ↦
        subst (SameContents (s.blocks q)) (sym (delivery-other q (λ x. ground (arith, e, x))))
          (SameContents-refl (s.blocks q))
    | inl e ↦
        subst (λ x. SameContents (s.blocks x) ((delivery s p r).blocks x)) (sym ((==_iff q p).0 e))
          (subst (SameContents (s.blocks p)) (sym delivery-here)
            (record { hash = refl; parent_hashes = refl; qc = refl; delivered = λ _. refl }))
  ]

  delivery-Keeps : Keeps s (delivery s p r)
  unfolding find_blk
  delivery-Keeps = record {
    b0 = refl;
    grown = omega arith;
    found = λ h q e. e;
    blocks = λ q l.
        subst (SameBlock (s.blocks q)) (sym (delivery-other q (live_ne q l)))
          (SameBlock-refl (s.blocks q));
    contents = λ q _. delivery-contents q;
    vheight = omega arith;
    b_lock = omega (arith, delivery-height_at s.b_lock inv.pointers.locked);
    hqc = omega (arith, delivery-height_at s.hqc.0 inv.pointers.high);
    b_exec = omega (arith, delivery-height_at s.b_exec inv.pointers.executed);
  }

  delivery-find_blk : (h : ℕ) → find_blk (delivery s p r) h ≡ find_blk s h
  unfolding find_blk
  delivery-find_blk h = refl

  low_parent : height s r.parent ≤ k
  low_parent = (inv.good r.parent (first_live r.parents).in_memory).low

  delivery-height : height (delivery s p r) p ≡ suc (height s r.parent)
  delivery-height = ap (λ b. b.height) delivery-here ∙ omega (arith, low_parent, fits)

  delivery-Link : (q : Ptr) → q ≢ p → Link s q → Link (delivery s p r) q
  delivery-Link q ne (root e) = root e
  delivery-Link q ne (above x rest e l h) =
      above x rest (ap (λ b. b.parents) (delivery-other q ne) ∙ e) (delivery-live x l)
        (ap (λ b. b.height) (delivery-other q ne) ∙ h ∙ ap suc (sym (delivery-height_at x l)))

  delivery-IsRef : (q x : Ptr) → q ≢ p → IsRef s q x → IsRef (delivery s p r) q x
  delivery-IsRef q x ne f = record {
    target = f.target;
    cert = f.cert;
    carried = ap (λ b. b.qc) (delivery-other q ne) ∙ f.carried;
    certifies = f.certifies ∙ sym (delivery-hash x);
  }

  delivery-IsGood_other : (q : Ptr) → q ≢ p → IsGood k s q → IsGood (suc k) (delivery s p r) q
  delivery-IsGood_other q ne g =
      let same = delivery-other q ne in
      record {
        low = omega (arith, g.low, ap (λ b. b.height) same);
        stored = delivery-find_blk _ ∙ ap (find_blk s) (delivery-hash q) ∙ g.stored;
        link = λ d. delivery-Link q ne (g.link (sym (ap (λ b. b.delivered) same) ∙ d));
        bare = λ d.
            let old = g.bare (sym (ap (λ b. b.delivered) same) ∙ d) in
            (ap (λ b. b.height) same ∙ old.0, ap (λ b. b.qc_ref) same ∙ old.1);
        ref = λ x e. delivery-IsRef q x ne (g.ref x (sym (ap (λ b. b.qc_ref) same) ∙ e));
        own = subst OwnCert (sym same) g.own;
        whole = subst Whole (sym same) g.whole;
      }

  delivery-IsRef_here :
      (x : Ptr) → ((delivery s p r).blocks p).qc_ref ≡ some x → IsRef (delivery s p r) p x
  delivery-IsRef_here x e =
      let f = sym (ap (λ b. b.qc_ref) delivery-here) ∙ e in
      let same : r.ref ≡ x = cc in
      let (inside, h) = inv.found r.cert.obj_hash r.ref r.fetched in
      record {
        target = subst (λ y. y < s.next_ptr) same inside;
        cert = r.cert;
        carried = ap (λ b. b.qc) delivery-here ∙ r.carried;
        certifies = sym h ∙ ap (λ y. (s.blocks y).hash) same ∙ sym (delivery-hash x);
      }

  delivery-IsGood_here : IsGood k s p → IsGood (suc k) (delivery s p r) p
  delivery-IsGood_here g = record {
    low = omega (arith, delivery-height, low_parent);
    stored = delivery-find_blk _ ∙ ap (find_blk s) (delivery-hash p) ∙ g.stored;
    link = λ _.
        above r.parent r.uncles (ap (λ b. b.parents) delivery-here)
          (delivery-live r.parent (first_live r.parents))
          (delivery-height ∙ ap suc (sym (delivery-height_at r.parent (first_live r.parents))));
    bare = λ d. let f = ap (λ b. b.delivered) delivery-here in cc;
    ref = delivery-IsRef_here;
    own = subst OwnCert (sym delivery-here) g.own;
    whole = SameContents-Whole (delivery-contents p) g.whole;
  }

  delivery-IsGood : (q : Ptr) → q < s.next_ptr → IsGood (suc k) (delivery s p r) q
  delivery-IsGood q l = elim (Bool-cases (q == p)) [
    | inl e ↦
        subst (IsGood (suc k) (delivery s p r)) (sym ((==_iff q p).0 e))
          (delivery-IsGood_here (inv.good p lt))
    | inr e ↦ delivery-IsGood_other q (λ x. ground (arith, e, x)) (inv.good q l)
  ]

  pub delivery-Sound : Sound (suc k) (delivery s p r)
  delivery-Sound = record {
    inv = record {
      genesis = record {
        live = delivery-live s.b0 inv.genesis.live;
        flat = delivery-height_at s.b0 inv.genesis.live ∙ inv.genesis.flat;
        final =
            ap (λ b. b.decision) (delivery-other s.b0 (live_ne s.b0 inv.genesis.live))
            ∙ inv.genesis.final;
      };
      good = delivery-IsGood;
      found = λ h q e.
          let old = inv.found h q (sym (delivery-find_blk h) ∙ e) in
          (old.0, delivery-hash q ∙ old.1);
      pointers = record {
        locked = delivery-live s.b_lock inv.pointers.locked;
        executed = delivery-live s.b_exec inv.pointers.executed;
        high = delivery-live s.hqc.0 inv.pointers.high;
        high_cert = inv.pointers.high_cert ∙ sym (delivery-hash s.hqc.0);
      };
    };
    votes = Keeps-Falling delivery-Keeps (suc s.vheight) s.outputs v.votes;
    exec = Keeps-Executed delivery-Keeps s.b_exec _ v.exec;
  }

  delivered_child : IsChild (delivery s p r) p r.parent
  delivered_child = record {
    rest = r.uncles;
    parents = ap (λ b. b.parents) delivery-here;
    live = record { in_memory = lt; is_delivered = ap (λ b. b.delivered) delivery-here };
    parent = delivery-live r.parent (first_live r.parents);
    step = delivery-height ∙ ap suc (sym (delivery-height_at r.parent (first_live r.parents)));
  }

  -- The delivery of a block whose parents are delivered and whose certified block is fetched
  -- succeeds. It keeps the replica sound, with heights up to `k + 1 < 2 ^ 32`, moves no pointer back,
  -- changes no delivered block, and links the block one above its first parent.
  pub on_deliver_blk-Sound :
      (on_deliver_blk p s ≡ ok true (delivery s p r))
      × Advance (suc k) s (delivery s p r)
      × IsChild (delivery s p r) p r.parent
  on_deliver_blk-Sound = (
    on_deliver_blk-delivery s p r,
    record { sound = delivery-Sound; keeps = delivery-Keeps },
    delivered_child,
  )
