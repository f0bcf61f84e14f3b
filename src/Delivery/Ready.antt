-- ===== src/Delivery/Ready.antt =====
-- Where the promises of a block are resolved, its parents are delivered and its certified block is
-- in the storage: the delivery passes its assertion and succeeds.
use archipelago_hotstuff.Base.{
  ℕ, ◌+◌, ◌^◌, ◌<◌, ◌≡◌, refl, sym, ap, ◌∙◌, subst, Bool, true, false, Option, none, some, List, [],
  ◌∷◌, Bool-cases, inl, inr,
}
use archipelago_hotstuff.Entity.{Ptr}
use archipelago_hotstuff.Core.State.{HotStuffCore, find_blk, is_blk_delivered}
use archipelago_hotstuff.Core.Invariant.{IsLive, Sound}
use archipelago_hotstuff.Core.Deliver as Core_Deliver
use archipelago_hotstuff.Core.Deliver.Run.{Parents, done, next, Ready, delivery}
use archipelago_hotstuff.Core.Deliver.Sound.{on_deliver_blk-Sound}
use archipelago_hotstuff.Core.Reach.{left}
use archipelago_hotstuff.Delivery.State.{
  Kind, fetch, delivery as for_delivery, pool, Status, pending, rejected, resolved, verified,
  HotStuffBase, fine,
}
use archipelago_hotstuff.Delivery.Deliver.{are_delivered, settle_delivery, on_deliver_blk}
use archipelago_hotstuff.Delivery.Handlers.{block_of, verdict_of, blocks_of}
use archipelago_hotstuff.Delivery.Promises.{Good, IsPromise, Deliveries, next_parent, Wired}
use archipelago_hotstuff.Delivery.Onward.{Onward, Onward-trans, core-Onward}
use archipelago_hotstuff.Delivery.Parents.{settle_delivery-Waits}

fetched_value :
    (s : HotStuffCore) (h : ℕ) (st : Status) (p : Ptr)
    → Good s fetch h st
    → block_of st ≡ some p
    → find_blk s h ≡ some p
fetched_value s h pending p g e = cc
fetched_value s h rejected p g e = cc
fetched_value s h (verified b) p g e = cc
fetched_value s h (resolved q) p g e = g ∙ e

delivered_value :
    (s : HotStuffCore) (h : ℕ) (st : Status) (p : Ptr)
    → Good s for_delivery h st
    → block_of st ≡ some p
    → (find_blk s h ≡ some p) × IsLive s p
delivered_value s h pending p g e = cc
delivered_value s h rejected p g e = cc
delivered_value s h (verified b) p g e = cc
delivered_value s h (resolved q) p (f, l) e =
    (f ∙ e, let same : q ≡ p = cc in subst (IsLive s) same l)

pool_value :
    (s : HotStuffCore) (h : ℕ) (c : Bool) (st : Status) (b : Bool)
    → Good s (pool c) h st
    → verdict_of st ≡ some b
    → c ≡ b
pool_value s h c pending b g e = cc
pool_value s h c rejected b g e = cc
pool_value s h c (resolved q) b g e = cc
pool_value s h c (verified d) b g e = cc

module _ {n : HotStuffBase} (w : Wired n) where
  Wired-Good :
      (k : Kind) (h i : ℕ)
      → IsPromise n.promises n.next_promise k h i
      → Good n.core k h (n.promises i).status
  Wired-Good k h i p =
      subst (λ j. Good n.core j h (n.promises i).status) p.kind
        (subst (λ a. Good n.core (n.promises i).kind a (n.promises i).status) p.about (w.good i))

  pub fetched_block_found :
      (h i : ℕ) (p : Ptr)
      → IsPromise n.promises n.next_promise fetch h i
      → block_of (n.promises i).status ≡ some p
      → find_blk n.core h ≡ some p
  fetched_block_found h i p q e = fetched_value n.core h _ p (Wired-Good fetch h i q) e

  pub delivered_block_found :
      (h i : ℕ) (p : Ptr)
      → IsPromise n.promises n.next_promise for_delivery h i
      → block_of (n.promises i).status ≡ some p
      → (find_blk n.core h ≡ some p) × IsLive n.core p
  delivered_block_found h i p q e = delivered_value n.core h _ p (Wired-Good for_delivery h i q) e

  pub verdict_found :
      (c b : Bool) (i : ℕ)
      → IsPromise n.promises n.next_promise (pool c) 0 i
      → verdict_of (n.promises i).status ≡ some b
      → c ≡ b
  verdict_found c b i q e = pool_value n.core 0 c _ b (Wired-Good (pool c) 0 i q) e

  cons_blocks :
      (o : Option Ptr) (r : Option (List Ptr)) (ps : List Ptr)
      → (elim o as (λ _. Option (List Ptr)) [
        | none ↦ none
        | some p ↦ elim r as (λ _. Option (List Ptr)) [ none ↦ none | some qs ↦ some (p ∷ qs) ]
      ])
        ≡ some ps
      → (p : Ptr) × (qs : List Ptr) × (o ≡ some p) × (r ≡ some qs) × (p ∷ qs ≡ ps)
  cons_blocks none r ps e = cc
  cons_blocks (some p) none ps e = cc
  cons_blocks (some p) (some qs) ps e = (p, qs, refl, refl, cc)

  pub blocks-Parents :
      {hs is : List ℕ} (ps : List Ptr)
      → Deliveries n.promises n.next_promise hs is
      → blocks_of n is ≡ some ps
      → Parents n.core hs ps
  blocks-Parents ps Deliveries.done e =
      let same : [] ≡ ps = cc in subst (Parents n.core []) same done
  blocks-Parents ps (next_parent {h} {i} {hs} {is} q more) e =
      let (p, qs, ep, eq, same) =
        cons_blocks (block_of (n.promises i).status) (blocks_of n is) ps e in
      let (found, live) = delivered_block_found h i p q ep in
      subst (Parents n.core (h ∷ hs)) same (next found live (blocks-Parents qs more eq))

pub Parents-are_delivered :
    {s : HotStuffCore} {hs : List ℕ} {ps : List Ptr} → Parents s hs ps → are_delivered s hs ≡ true
unfolding are_delivered
Parents-are_delivered done = refl
Parents-are_delivered (next e l more) =
    rw (e, is_blk_delivered, l.is_delivered) (Parents-are_delivered more)

nonempty :
    {s : HotStuffCore} {h : ℕ} {hs : List ℕ} {ps : List Ptr}
    → Parents s (h ∷ hs) ps
    → (p : Ptr) × (qs : List Ptr) × (ps ≡ p ∷ qs)
nonempty (next {q} {qs} e l more) = (q, qs, refl)

-- How a delivery ends: without a failure, in a core that is the old one, or has the block delivered.
pub data Delivers (k : ℕ) (p : Ptr) (n m : HotStuffBase) : Type 0 where
  refused : m.core ≡ n.core → Onward n m → Delivers k p n m
  delivers :
      Ready n.core p
      → m.core ≡ left (Core_Deliver.on_deliver_blk p n.core)
      → Onward n m
      → Delivers k p n m

module _ {k : ℕ} {n : HotStuffBase} (p : Ptr) (w : Wired n) (v : Sound k n.core)
    (lt : p < n.core.next_ptr) where
  deliver_again :
      (n.core.blocks p).delivered ≡ true
      → are_delivered n.core (n.core.blocks p).parent_hashes ≡ true
      → (m : HotStuffBase) × (on_deliver_blk p n ≡ fine m) × Delivers k p n m
  unfolding on_deliver_blk Core_Deliver.on_deliver_blk
  deliver_again d parents =
      let a = settle_delivery-Waits p false n w (λ y. cc) (λ y. cc) in
      (settle_delivery p false n, rw (parents, d) refl, refused a.core a.onward)

  deliver_ready :
      Ready n.core p
      → are_delivered n.core (n.core.blocks p).parent_hashes ≡ true
      → k + 1 < 2 ^ 32
      → (m : HotStuffBase) × (on_deliver_blk p n ≡ fine m) × Delivers k p n m
  unfolding on_deliver_blk
  deliver_ready r parents fits =
      let t = delivery n.core p r in
      let (e, adv, child) = on_deliver_blk-Sound r v lt fits in
      let a = core-Onward n t w adv.keeps in
      let nt : HotStuffBase = record n { core = t } in
      let live : IsLive t p = child.live in
      let b =
        settle_delivery-Waits p true nt a.wired (λ _. (adv.sound.inv.good p live.in_memory).stored)
          (λ _. live) in
      (
        settle_delivery p true nt,
        rw (parents, e) refl,
        delivers r (b.core ∙ ap left (sym e)) (Onward-trans a b.onward),
      )

  -- A block whose parents are delivered and whose certified block is fetched.
  pub deliver_all_there :
      (ps : List Ptr) (q : Ptr)
      → Parents n.core (n.core.blocks p).parent_hashes ps
      → find_blk n.core (v.inv.good p lt).whole.cert.obj_hash ≡ some q
      → k + 1 < 2 ^ 32
      → (m : HotStuffBase) × (on_deliver_blk p n ≡ fine m) × Delivers k p n m
  deliver_all_there ps q parents found fits =
      let whole = (v.inv.good p lt).whole in
      elim (Bool-cases (n.core.blocks p).delivered) [
        | inl d ↦ deliver_again d (Parents-are_delivered parents)
        | inr fresh ↦
            let (h, hs, eh) = whole.child fresh in
            let (x, xs, ex) = nonempty (subst (λ l. Parents n.core l ps) eh parents) in
            deliver_ready
              (record {
                fresh = fresh;
                parent = x;
                uncles = xs;
                parents = subst (Parents n.core (n.core.blocks p).parent_hashes) ex parents;
                cert = whole.cert;
                carried = whole.carried;
                ref = q;
                fetched = found;
              })
              (Parents-are_delivered parents) fits
      ]
