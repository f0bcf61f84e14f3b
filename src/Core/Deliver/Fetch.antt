-- ===== src/Core/Deliver/Fetch.antt =====
-- A fetched block in the storage keeps a replica sound.
use archipelago_hotstuff.Base.{
  List, ℕ, suc, ◌+◌, ◌<◌, ◌≡◌, refl, sym, ap, ◌∙◌, subst, false, none, some, ◌∷◌, ◌==◌, ==_iff,
  ==_ne, Bool-cases, Option-cases, ◌⊎◌, inl, inr, update, update_self, update_ne, lookup-here,
  lookup-cons, lookup, arith,
}
use archipelago_hotstuff.Crypto.{QuorumCert}
use archipelago_hotstuff.Entity.{Block, Ptr, fetched_block}
use archipelago_hotstuff.Core.State.{HotStuffCore, height, find_blk, add_blk, ok, Res}
use archipelago_hotstuff.Core.Invariant.{
  IsLive, Link, root, above, IsRef, IsGood, OwnCert, Sound, Keeps, SameBlock, SameContents, Whole,
}
use archipelago_hotstuff.Core.Frame.{SameBlock-refl, SameContents-refl, Keeps-refl}
use archipelago_hotstuff.Core.Stable.{Keeps-Executed, Keeps-Falling}
use archipelago_hotstuff.Core.Advance.{Advance}

-- The state with a new block in the storage.
abbrev pub fetch : Block → HotStuffCore → HotStuffCore
fetch b s = record s {
  blocks = update s.blocks s.next_ptr b;
  blk_cache = (b.hash, s.next_ptr) ∷ s.blk_cache;
  next_ptr = s.next_ptr + 1;
}

-- A block as it comes from the network.
pub record IsBare (b : Block) : Type 0 where
  pub delivered : b.delivered ≡ false
  pub height : b.height ≡ 0
  pub qc_ref : b.qc_ref ≡ none
  pub own : OwnCert b
  pub whole : Whole b

pub fetched-IsBare :
    (h : ℕ) (hs cmds : List ℕ) (qc : QuorumCert) (extra : List ℕ) (hash : ℕ)
    → IsBare (fetched_block (h ∷ hs) cmds qc extra hash)
unfolding fetched_block
fetched-IsBare h hs cmds qc extra hash = record {
  delivered = refl;
  height = refl;
  qc_ref = refl;
  own = λ c e. cc;
  whole = record { cert = qc; carried = refl; child = λ _. (h, hs, refl) };
}

module _ {k : ℕ} {s : HotStuffCore} (b : Block) (bare : IsBare b) (v : Sound k s)
    (new : find_blk s b.hash ≡ none) where
  open v use {inv}

  fetch-here : (fetch b s).blocks s.next_ptr ≡ b
  fetch-here = update_self s.blocks s.next_ptr b

  fetch-other : (q : Ptr) → q < s.next_ptr → (fetch b s).blocks q ≡ s.blocks q
  fetch-other q l = update_ne s.blocks s.next_ptr b q (λ e. omega arith)

  fetch-live : (q : Ptr) → IsLive s q → IsLive (fetch b s) q
  fetch-live q l = record {
    in_memory = omega (arith, l.in_memory);
    is_delivered = ap (λ c. c.delivered) (fetch-other q l.in_memory) ∙ l.is_delivered;
  }

  fetch-height : (q : Ptr) → IsLive s q → height (fetch b s) q ≡ height s q
  fetch-height q l = ap (λ c. c.height) (fetch-other q l.in_memory)

  fetch-find_new : find_blk (fetch b s) b.hash ≡ some s.next_ptr
  unfolding find_blk
  fetch-find_new = lookup-here b.hash s.next_ptr s.blk_cache

  fetch-find_old : (h : ℕ) (q : Ptr) → find_blk s h ≡ some q → find_blk (fetch b s) h ≡ some q
  unfolding find_blk lookup
  fetch-find_old h q e = rw (==_ne b.hash h (λ x. let d = ap (find_blk s) x in cc)) e

  fetch-found :
      (h : ℕ) (q : Ptr)
      → find_blk (fetch b s) h ≡ some q
      → ((b.hash ≡ h) × (s.next_ptr ≡ q)) ⊎ (find_blk s h ≡ some q)
  unfolding find_blk
  fetch-found h q e = lookup-cons b.hash h s.next_ptr q s.blk_cache e

  fetch-Keeps : Keeps s (fetch b s)
  fetch-Keeps = record {
    b0 = refl;
    grown = omega arith;
    found = fetch-find_old;
    blocks = λ q l.
        subst (SameBlock (s.blocks q)) (sym (fetch-other q l.in_memory))
          (SameBlock-refl (s.blocks q));
    contents = λ q l.
        subst (SameContents (s.blocks q)) (sym (fetch-other q l)) (SameContents-refl (s.blocks q));
    vheight = omega arith;
    b_lock = omega (arith, fetch-height s.b_lock inv.pointers.locked);
    hqc = omega (arith, fetch-height s.hqc.0 inv.pointers.high);
    b_exec = omega (arith, fetch-height s.b_exec inv.pointers.executed);
  }

  fetch-Link : (q : Ptr) → q < s.next_ptr → Link s q → Link (fetch b s) q
  fetch-Link q ne (root e) = root e
  fetch-Link q ne (above x rest e l h) =
      above x rest (ap (λ b. b.parents) (fetch-other q ne) ∙ e) (fetch-live x l)
        (ap (λ b. b.height) (fetch-other q ne) ∙ h ∙ ap suc (sym (fetch-height x l)))

  fetch-IsRef : (q x : Ptr) → q < s.next_ptr → IsRef s q x → IsRef (fetch b s) q x
  fetch-IsRef q x ne f = record {
    target = omega (arith, f.target);
    cert = f.cert;
    carried = ap (λ b. b.qc) (fetch-other q ne) ∙ f.carried;
    certifies = f.certifies ∙ sym (ap (λ b. b.hash) (fetch-other x f.target));
  }

  fetch-IsGood_other : (q : Ptr) → q < s.next_ptr → IsGood k s q → IsGood k (fetch b s) q
  fetch-IsGood_other q ne g =
      let same = fetch-other q ne in
      record {
        low = omega (arith, g.low, ap (λ b. b.height) same);
        stored = ap (λ c. find_blk (fetch b s) c.hash) same ∙ fetch-find_old _ q g.stored;
        link = λ d. fetch-Link q ne (g.link (sym (ap (λ b. b.delivered) same) ∙ d));
        bare = λ d.
            let old = g.bare (sym (ap (λ b. b.delivered) same) ∙ d) in
            (ap (λ b. b.height) same ∙ old.0, ap (λ b. b.qc_ref) same ∙ old.1);
        ref = λ x e. fetch-IsRef q x ne (g.ref x (sym (ap (λ b. b.qc_ref) same) ∙ e));
        own = subst OwnCert (sym same) g.own;
        whole = subst Whole (sym same) g.whole;
      }

  fetch-IsGood_here : IsGood k (fetch b s) s.next_ptr
  fetch-IsGood_here = record {
    low = omega (arith, ap (λ c. c.height) fetch-here, bare.height);
    stored = ap (λ c. find_blk (fetch b s) c.hash) fetch-here ∙ fetch-find_new;
    link = λ d. let e = ap (λ c. c.delivered) fetch-here in let f = bare.delivered in cc;
    bare = λ d.
        (ap (λ c. c.height) fetch-here ∙ bare.height, ap (λ c. c.qc_ref) fetch-here ∙ bare.qc_ref);
    ref = λ q e. let f = ap (λ c. c.qc_ref) fetch-here in let g = bare.qc_ref in cc;
    own = subst OwnCert (sym fetch-here) bare.own;
    whole = subst Whole (sym fetch-here) bare.whole;
  }

  fetch-IsGood : (q : Ptr) → q < s.next_ptr + 1 → IsGood k (fetch b s) q
  fetch-IsGood q l = elim (Bool-cases (q == s.next_ptr)) [
    | inl e ↦ subst (IsGood k (fetch b s)) (sym ((==_iff q s.next_ptr).0 e)) fetch-IsGood_here
    | inr e ↦
        let low : q < s.next_ptr = ground (arith, e, l) in fetch-IsGood_other q low (inv.good q low)
  ]

  fetch-hash :
      (h : ℕ) (q : Ptr)
      → find_blk (fetch b s) h ≡ some q
      → (q < s.next_ptr + 1) × (((fetch b s).blocks q).hash ≡ h)
  fetch-hash h q e = elim (fetch-found h q e) [
    | inl (eh, eq) ↦ (
      omega (arith, eq),
      subst (λ x. ((fetch b s).blocks x).hash ≡ h) eq (ap (λ c. c.hash) fetch-here ∙ eh),
    )
    | inr old ↦
        let (lt, hash) = inv.found h q old in
        (omega (arith, lt), ap (λ c. c.hash) (fetch-other q lt) ∙ hash)
  ]

  pub fetch-Advance : Advance k s (fetch b s)
  fetch-Advance = record {
    sound = record {
      inv = record {
        genesis = record {
          live = fetch-live s.b0 inv.genesis.live;
          flat = fetch-height s.b0 inv.genesis.live ∙ inv.genesis.flat;
          final =
              ap (λ b. b.decision) (fetch-other s.b0 inv.genesis.live.in_memory)
              ∙ inv.genesis.final;
        };
        good = fetch-IsGood;
        found = fetch-hash;
        pointers = record {
          locked = fetch-live s.b_lock inv.pointers.locked;
          executed = fetch-live s.b_exec inv.pointers.executed;
          high = fetch-live s.hqc.0 inv.pointers.high;
          high_cert =
              inv.pointers.high_cert
              ∙ sym (ap (λ b. b.hash) (fetch-other s.hqc.0 inv.pointers.high.in_memory));
        };
      };
      votes = Keeps-Falling fetch-Keeps (suc s.vheight) s.outputs v.votes;
      exec = Keeps-Executed fetch-Keeps s.b_exec _ v.exec;
    };
    keeps = fetch-Keeps;
  }

-- The storage holds the block with the hash of `b` at `p`.
pub record Stored (k : ℕ) (b : Block) (s : HotStuffCore) (r : Res Ptr) : Type 0 where
  pub at : Ptr
  pub state : HotStuffCore
  pub result : r ≡ ok at state
  pub advance : Advance k s state
  pub held : find_blk state b.hash ≡ some at
  pub kept : (q : Ptr) → find_blk s b.hash ≡ some q → (at ≡ q) × (state ≡ s)

pub add_blk-Stored :
    {k : ℕ} {s : HotStuffCore} (b : Block) → IsBare b → Sound k s → Stored k b s (add_blk b s)
unfolding add_blk
add_blk-Stored {k} {s} b bare v = elim (Option-cases (find_blk s b.hash)) [
  | inl new ↦ record {
    at = s.next_ptr;
    state = fetch b s;
    result = rw (new, add_blk) refl;
    advance = fetch-Advance b bare v new;
    held = fetch-find_new b bare v new;
    kept = λ q e. cc;
  }
  | inr (q, e) ↦ record {
    at = q;
    state = s;
    result = rw (e, add_blk) refl;
    advance = record { sound = v; keeps = Keeps-refl s };
    held = e;
    kept = λ x f. (cc, refl);
  }
]
