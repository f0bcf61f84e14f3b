-- ===== src/Core/Handlers/Install.antt =====
-- `on_propose`: the storage and the delivery of the new block.
use archipelago_hotstuff.Base.{
  ℕ, suc, ◌+◌, ◌%◌, ◌^◌, ◌<◌, ◌≡◌, refl, sym, ap, ◌∙◌, subst, true, false, none, some, List, [],
  ◌∷◌, lookup, ==_ne, update, update_self, update_ne, update-update, arith,
}
use archipelago_hotstuff.Crypto.{QuorumCert, new_quorum_cert}
use archipelago_hotstuff.Entity.{Block, Ptr}
use archipelago_hotstuff.Core.State.{
  HotStuffCore, height, find_blk, add_blk, set_blk, ok, then_run, pure, safety_breached,
}
use archipelago_hotstuff.Core.Invariant.{Whole, IsLive, OwnCert, Sound}
use archipelago_hotstuff.Core.Frame.{Frame-live}
use archipelago_hotstuff.Core.Advance.{Advance, Advance-trans}
use archipelago_hotstuff.Core.Handlers.Proposing.{install}
use archipelago_hotstuff.Core.Update.{update_blk}
use archipelago_hotstuff.Core.Update.Sound.{update_blk-Ends}
use archipelago_hotstuff.Core.Post.{Post, returns, bind, mono}
use archipelago_hotstuff.Core.Handlers.Certificate.{OwnCert-some}
use archipelago_hotstuff.Core.Deliver.{on_deliver_blk, erase_tails, insert_tail}
use archipelago_hotstuff.Core.Deliver.Run.{
  first_hash, Ready, Parents, done, next, delivery, first_live, on_deliver_blk-delivery,
}
use archipelago_hotstuff.Core.Deliver.Sound.{on_deliver_blk-Sound}
use archipelago_hotstuff.Core.Deliver.Fetch.{IsBare, fetch, fetch-Advance}

-- The state behind the delivery of a block that enters the storage with it.
abbrev shape : HotStuffCore → Block → Ptr → List Ptr → Ptr → HotStuffCore
shape s b p ps q = record s {
  tails = insert_tail s.next_ptr (erase_tails (p ∷ ps) s.tails);
  blocks = update s.blocks s.next_ptr (record b {
    parents = p ∷ ps;
    height = (height s p + 1) % 2 ^ 32;
    qc_ref = some q;
    delivered = true;
  });
  blk_cache = (b.hash, s.next_ptr) ∷ s.blk_cache;
  next_ptr = s.next_ptr + 1;
}

-- The delivered form of `b`.
abbrev linked : Block → ℕ → Ptr → List Ptr → Ptr → Block
linked b h p ps q = record b {
  parents = p ∷ ps;
  height = (h + 1) % 2 ^ 32;
  qc_ref = some q;
  delivered = true;
}

abbrev with_blocks : HotStuffCore → Block → Ptr → List Ptr → (Ptr → Block) → HotStuffCore
with_blocks s b p ps f = record (fetch b s) {
  tails = insert_tail s.next_ptr (erase_tails (p ∷ ps) s.tails);
  blocks = f;
}

delivery-fetch :
    (s : HotStuffCore) (b : Block) (r : Ready (fetch b s) s.next_ptr)
    → r.parent < s.next_ptr
    → delivery (fetch b s) s.next_ptr r ≡ shape s b r.parent r.uncles r.ref
delivery-fetch s b r lt =
    let f : Ptr → Block = update s.blocks s.next_ptr b in
    let low : f r.parent ≡ s.blocks r.parent =
      update_ne s.blocks s.next_ptr b r.parent (λ e. omega (arith, e, lt)) in
    ap
      (λ c.
        with_blocks s b r.parent r.uncles
          (update f s.next_ptr (linked c (f r.parent).height r.parent r.uncles r.ref)))
      (update_self s.blocks s.next_ptr b)
    ∙ ap
        (λ c.
          with_blocks s b r.parent r.uncles
            (update f s.next_ptr (linked b c.height r.parent r.uncles r.ref)))
        low
    ∙ ap (with_blocks s b r.parent r.uncles)
        (update-update s.blocks s.next_ptr b (linked b (height s r.parent) r.parent r.uncles r.ref))

-- The block as it would come from the network.
abbrev bared : Block → Block
bared b = record b { parents = []; qc_ref = none; height = 0 }

module _ (s : HotStuffCore) (b : Block) (new : find_blk s b.hash ≡ none) where
  find_after : (h : ℕ) (q : Ptr) → find_blk s h ≡ some q → find_blk (fetch b s) h ≡ some q
  unfolding find_blk lookup
  find_after h q e = rw (==_ne b.hash h (λ x. let d = ap (find_blk s) x in cc)) e

  live_after : (q : Ptr) → IsLive s q → IsLive (fetch b s) q
  live_after q l = record {
    in_memory = omega (arith, l.in_memory);
    is_delivered =
        ap (λ c. c.delivered)
          (update_ne s.blocks s.next_ptr b q (λ e. let m = l.in_memory in omega arith))
        ∙ l.is_delivered;
  }

  Parents-after : {hs : List ℕ} {qs : List Ptr} → Parents s hs qs → Parents (fetch b s) hs qs
  Parents-after done = done
  Parents-after (next {h} {q} e l more) =
      next (find_after h q e) (live_after q l) (Parents-after more)

  ready_after :
      (p : Ptr) (ps : List Ptr) (cert : QuorumCert) (q : Ptr)
      → Parents s b.parent_hashes (p ∷ ps)
      → b.delivered ≡ false
      → b.qc ≡ some cert
      → find_blk s cert.obj_hash ≡ some q
      → Ready (fetch b s) s.next_ptr
  ready_after p ps cert q parents fresh e f =
      let here : (fetch b s).blocks s.next_ptr ≡ b = update_self s.blocks s.next_ptr b in
      record {
        fresh = ap (λ c. c.delivered) here ∙ fresh;
        parent = p;
        uncles = ps;
        parents =
            subst (λ hs. Parents (fetch b s) hs (p ∷ ps)) (sym (ap (λ c. c.parent_hashes) here))
              (Parents-after parents);
        cert = cert;
        carried = ap (λ c. c.qc) here ∙ e;
        ref = q;
        fetched = find_after cert.obj_hash q f;
      }

module _ {k : ℕ} {s : HotStuffCore} (v : Sound k s) (b : Block) (p : Ptr) (ps : List Ptr)
    (cert : QuorumCert) (q : Ptr) where
  bared-Whole : Parents s b.parent_hashes (p ∷ ps) → b.qc ≡ some cert → Whole (bared b)
  bared-Whole parents e = record { cert = cert; carried = e; child = λ _. first_hash parents }

  bared-IsBare : b.delivered ≡ false → OwnCert b → Whole (bared b) → IsBare (bared b)
  bared-IsBare fresh own whole = record {
    delivered = fresh;
    height = refl;
    qc_ref = refl;
    own = own;
    whole = whole;
  }

  -- A new block of the replica's own enters the storage and is delivered, as a fetched one is.
  pub install-Advance :
      find_blk s b.hash ≡ none
      → OwnCert b
      → b.delivered ≡ false
      → Parents s b.parent_hashes (p ∷ ps)
      → b.qc ≡ some cert
      → find_blk s cert.obj_hash ≡ some q
      → k + 1 < 2 ^ 32
      → (on_deliver_blk s.next_ptr (fetch b s) ≡ ok true (shape s b p ps q))
        × Advance (suc k) s (shape s b p ps q)
        × IsLive (shape s b p ps q) s.next_ptr
        × (height (shape s b p ps q) s.next_ptr ≡ suc (height s p))
  unfolding ready_after
  install-Advance new own fresh parents e f fits =
      let r = ready_after s b new p ps cert q parents fresh e f in
      let rb = ready_after s (bared b) new p ps cert q parents fresh e f in
      let lt : p < s.next_ptr = (first_live parents).in_memory in
      let adv = fetch-Advance (bared b) (bared-IsBare fresh own (bared-Whole parents e)) v new in
      let (_, step, c) = on_deliver_blk-Sound rb adv.sound (omega arith) fits in
      let same = delivery-fetch s (bared b) rb lt in
      let a = subst (Advance (suc k) s) same (Advance-trans adv step) in
      (
        on_deliver_blk-delivery (fetch b s) s.next_ptr r ∙ ap (ok true) (delivery-fetch s b r lt),
        a,
        subst (λ t. IsLive t s.next_ptr) same c.live,
        subst (λ t. height t s.next_ptr ≡ suc (height t p)) same c.step
            ∙ ap suc (a.keeps.blocks p (first_live parents)).height,
      )

add_blk-new :
    (s : HotStuffCore) (b : Block)
    → find_blk s b.hash ≡ none
    → add_blk b s ≡ ok s.next_ptr (fetch b s)
unfolding add_blk
add_blk-new s b new = rw (new, add_blk) refl

-- The block with an empty certificate of its own.
abbrev pub owned : HotStuffCore → Block → Block
owned s b = record b { self_qc = some (new_quorum_cert s.config.nreplicas b.hash) }

store_own :
    (s : HotStuffCore) (b : Block)
    → set_blk s.next_ptr (owned s ((fetch b s).blocks s.next_ptr)) (fetch b s) ≡ fetch (owned s b) s
store_own s b =
    ap (λ c. set_blk s.next_ptr (owned s c) (fetch b s)) (update_self s.blocks s.next_ptr b)
    ∙ ap (λ f. record (fetch b s) { blocks = f }) (update-update s.blocks s.next_ptr b (owned s b))

install-run :
    (s : HotStuffCore) (b : Block) (t : HotStuffCore)
    → find_blk s b.hash ≡ none
    → on_deliver_blk s.next_ptr (fetch (owned s b) s) ≡ ok true t
    → install b s ≡ then_run (update_blk s.next_ptr t) (λ _. pure s.next_ptr)
unfolding install
install-run s b t new e = rw (add_blk-new s b new, store_own s b, e) refl

-- A new block is in the storage, delivered and taken into account by `update`.
pub record Installed (k : ℕ) (s : HotStuffCore) (p n : Ptr) (t : HotStuffCore) : Type 0 where
  pub advance : Advance (suc k) s t
  pub live : IsLive t n
  pub up : height t n ≡ suc (height s p)
  pub vheight : t.vheight ≡ s.vheight

-- A new block whose parents are delivered is installed one above the first of them, or `update`
-- finds a breach.
pub install-Installed :
    {k : ℕ} {s : HotStuffCore} (b : Block) (p : Ptr) (ps : List Ptr) (cert : QuorumCert) (q : Ptr)
    → Sound k s
    → find_blk s b.hash ≡ none
    → b.delivered ≡ false
    → Parents s b.parent_hashes (p ∷ ps)
    → b.qc ≡ some cert
    → find_blk s cert.obj_hash ≡ some q
    → k + 1 < 2 ^ 32
    → Post
        (λ n t. Installed k s p n t)
        (λ e t. (e ≡ safety_breached) × Advance (suc k) s t)
        (install b s)
unfolding new_quorum_cert
install-Installed {k} {s} b p ps cert q v new fresh parents e f fits =
    let (run, adv, l, up) =
      install-Advance v (owned s b) p ps cert q new
        (OwnCert-some b (new_quorum_cert s.config.nreplicas b.hash) refl) fresh parents e f fits in
    rw (install-run s b (shape s (owned s b) p ps q) new run) (
      bind
        (mono (update_blk-Ends adv.sound s.next_ptr l) (λ _ t u. u)
          (λ er t br. (
            br.error,
            Advance-trans adv (record { sound = br.quiet.sound; keeps = br.quiet.keeps }),
          )))
        (λ _ t u. returns (record {
          advance = Advance-trans adv (record { sound = u.sound; keeps = u.keeps });
          live = Frame-live u.still.frame s.next_ptr l;
          up = (u.still.frame.blocks s.next_ptr).height ∙ up;
          vheight = u.still.vheight;
        })))
