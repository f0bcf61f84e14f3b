-- ===== src/Core/Deliver/Run.antt =====
-- What `on_deliver_blk` does to a block whose parents are delivered and whose certified block is
-- fetched.
use archipelago_hotstuff.Core.State.{throws, undefined_behaviour}
use archipelago_hotstuff.Base.{
  ℕ, ◌+◌, ◌%◌, ◌^◌, ◌≡◌, ◌≢◌, refl, sym, ap, ◌∙◌, Bool, true, false, Option, some, List, [], ◌∷◌,
  ◌++◌, update_self, update_ne, update-update,
}
use archipelago_hotstuff.Crypto.{QuorumCert}
use archipelago_hotstuff.Entity.{Block, Ptr}
use archipelago_hotstuff.Core.State.{
  HotStuffCore, Res, ok, set_blk, height, parent_of, find_blk, pure, ◌>>◌,
}
use archipelago_hotstuff.Core.Invariant.{IsLive}
use archipelago_hotstuff.Core.Deliver.{
  get_delivered_blk, push_parents, set_height, link_qc, erase_tails, insert_tail, mark_delivered,
  deliver_fresh, on_deliver_blk,
}

-- The blocks `qs` have the hashes `hs` and are delivered.
pub data Parents (s : HotStuffCore) : List ℕ → List Ptr → Type 0 where
  done : Parents s [] []
  next :
      {h : ℕ} {q : Ptr} {hs : List ℕ} {qs : List Ptr}
      → find_blk s h ≡ some q
      → IsLive s q
      → Parents s hs qs
      → Parents s (h ∷ hs) (q ∷ qs)

pub first_live :
    {s : HotStuffCore} {hs : List ℕ} {q : Ptr} {qs : List Ptr} → Parents s hs (q ∷ qs) → IsLive s q
first_live (next e l more) = l

pub first_hash :
    {s : HotStuffCore} {hs : List ℕ} {q : Ptr} {qs : List Ptr}
    → Parents s hs (q ∷ qs)
    → (h : ℕ) × (more : List ℕ) × (hs ≡ h ∷ more)
first_hash (next {h} {hs} e l parents) = (h, hs, refl)

append_nil : {A : Type 0} (xs : List A) → xs ++ [] ≡ xs
append_nil [] = refl
append_nil (x ∷ xs) = ap (λ ys. x ∷ ys) (append_nil xs)

append_assoc :
    {A : Type 0} (xs : List A) (y : A) (ys : List A) → (xs ++ y ∷ []) ++ ys ≡ xs ++ y ∷ ys
append_assoc [] y ys = refl
append_assoc (x ∷ xs) y ys = ap (λ zs. x ∷ zs) (append_assoc xs y ys)

parent_of-eq :
    (t : HotStuffCore) (p q : Ptr) (rest : List Ptr)
    → (t.blocks p).parents ≡ q ∷ rest
    → parent_of p t ≡ ok q t
unfolding parent_of
parent_of-eq t p q rest e = rw (e, parent_of) refl

module _ (s : HotStuffCore) (p : Ptr) (fresh : (s.blocks p).delivered ≡ false) where
  -- The state `s` with the block `b` at `p`.
  at : Block → HotStuffCore
  at b = set_blk p b s

  at-block : (b : Block) → (at b).blocks p ≡ b
  unfolding at
  at-block b = update_self s.blocks p b

  at-write : (b : Block) (f : Block → Block) → set_blk p (f ((at b).blocks p)) (at b) ≡ at (f b)
  unfolding at
  at-write b f = rw (update_self s.blocks p b, update-update s.blocks p b (f b)) refl

  ne_live : (q : Ptr) → IsLive s q → q ≢ p
  ne_live q l e = let d = ap (λ r. (s.blocks r).delivered) e in cc

  at-other : (b : Block) (q : Ptr) → IsLive s q → (at b).blocks q ≡ s.blocks q
  unfolding at
  at-other b q l = update_ne s.blocks p b q (ne_live q l)

  at-get :
      (b : Block) (h : ℕ) (q : Ptr)
      → find_blk s h ≡ some q
      → IsLive s q
      → get_delivered_blk h (at b) ≡ ok q (at b)
  unfolding get_delivered_blk at find_blk
  at-get b h q e l =
      rw (e, get_delivered_blk, ap (λ c. c.delivered) (at-other b q l) ∙ l.is_delivered) refl

  push-ok :
      (b : Block) {hs : List ℕ} {qs : List Ptr}
      → Parents s hs qs
      → push_parents p hs (at b) ≡ ok tt (at (record b { parents = b.parents ++ qs }))
  unfolding push_parents
  push-ok b done = ap (λ ps. ok tt (at (record b { parents = ps }))) (sym (append_nil b.parents))
  push-ok b (next {h} {q} {hs} {qs} e l more) =
      let c : Block = record b { parents = b.parents ++ q ∷ [] } in
      rw (at-get b h q e l, at-write b (λ c. record c { parents = c.parents ++ q ∷ [] }))
        (push-ok c more
          ∙ ap (λ ps. ok tt (at (record b { parents = ps }))) (append_assoc b.parents q qs))

  height-ok :
      (b : Block) (q : Ptr) (rest : List Ptr)
      → b.parents ≡ q ∷ rest
      → IsLive s q
      → set_height p (at b) ≡ ok tt (at (record b { height = (height s q + 1) % 2 ^ 32 }))
  unfolding set_height
  height-ok b q rest e l =
      rw
        (
          parent_of-eq (at b) p q rest (ap (λ c. c.parents) (at-block b) ∙ e),
          ap (λ c. c.height) (at-other b q l),
          at-write b (λ c. record c { height = (height s q + 1) % 2 ^ 32 }),
        )
        refl

  link-ok :
      (b : Block) (o : Option QuorumCert) (qc : QuorumCert) (r : Ptr)
      → o ≡ some qc
      → find_blk s qc.obj_hash ≡ some r
      → link_qc p o (at b) ≡ ok tt (at (record b { qc_ref = some r }))
  unfolding link_qc at find_blk
  link-ok b o qc r eo e = rw (eo, link_qc, e, at-write b (λ c. record c { qc_ref = some r })) refl

  -- The state behind the delivery.
  delivered_at : Block → HotStuffCore
  delivered_at b =
      set_blk p (record b { delivered = true })
        (record s { tails = insert_tail p (erase_tails b.parents s.tails) })

  mark-ok : (b : Block) → mark_delivered p (at b) ≡ ok tt (delivered_at b)
  unfolding mark_delivered at delivered_at
  mark-ok b =
      rw (update_self s.blocks p b, update-update s.blocks p b (record b { delivered = true })) refl

-- What the caller of `on_deliver_blk` sees to: the parents are delivered, and the block that the
-- certificate is for is fetched.
pub record Ready (s : HotStuffCore) (p : Ptr) : Type 0 where
  pub fresh : (s.blocks p).delivered ≡ false
  pub parent : Ptr
  pub uncles : List Ptr
  pub parents : Parents s (s.blocks p).parent_hashes (parent ∷ uncles)
  pub cert : QuorumCert
  pub carried : (s.blocks p).qc ≡ some cert
  pub ref : Ptr
  pub fetched : find_blk s cert.obj_hash ≡ some ref

-- The block at `p` once it is delivered.
abbrev pub delivered_block : (s : HotStuffCore) (p : Ptr) → Ready s p → Block
delivered_block s p r = record (s.blocks p) {
  parents = r.parent ∷ r.uncles;
  height = (height s r.parent + 1) % 2 ^ 32;
  qc_ref = some r.ref;
  delivered = true;
}

abbrev pub delivery : (s : HotStuffCore) (p : Ptr) → Ready s p → HotStuffCore
delivery s p r =
    set_blk p (delivered_block s p r)
      (record s { tails = insert_tail p (erase_tails (r.parent ∷ r.uncles) s.tails) })

-- `on_deliver_blk` behind the reset of the parents.
deliver_rest : Ptr → HotStuffCore → Res Bool
deliver_rest p t =
    (do
      push_parents p (t.blocks p).parent_hashes
      set_height p
      link_qc p (t.blocks p).qc
      mark_delivered p
      pure true)
      t

cleared : HotStuffCore → Ptr → Block
cleared s p = record (s.blocks p) { parents = [] }

deliver_fresh-rest :
    (s : HotStuffCore) (p : Ptr) (fresh : (s.blocks p).delivered ≡ false)
    → deliver_fresh p s ≡ deliver_rest p (at s p fresh (cleared s p))
unfolding deliver_fresh deliver_rest at cleared
deliver_fresh-rest s p fresh = refl

deliver_once :
    (s : HotStuffCore) (p : Ptr) (d : Bool)
    → d ≡ false
    → elim d as (λ _. Res Bool) [ true ↦ ok false s | false ↦ deliver_fresh p s ]
      ≡ deliver_fresh p s
deliver_once s p true e = cc
deliver_once s p false e = refl

on_deliver_blk-fresh :
    (s : HotStuffCore) (p : Ptr)
    → (s.blocks p).delivered ≡ false
    → on_deliver_blk p s ≡ deliver_fresh p s
unfolding on_deliver_blk
on_deliver_blk-fresh s p fresh = deliver_once s p (s.blocks p).delivered fresh

deliver_rest-ok :
    (s : HotStuffCore) (p : Ptr) (r : Ready s p)
    → deliver_rest p (at s p r.fresh (cleared s p))
      ≡ ok true (
          delivered_at s p r.fresh
            (record (delivered_block s p r) { delivered = (s.blocks p).delivered }))
unfolding deliver_rest cleared
deliver_rest-ok s p r =
    let b : Block = record (s.blocks p) { parents = [] } in
    let b1 : Block = record b { parents = r.parent ∷ r.uncles } in
    let b2 : Block = record b1 { height = (height s r.parent + 1) % 2 ^ 32 } in
    let b3 : Block = record b2 { qc_ref = some r.ref } in
    rw
      (
        at-block s p r.fresh b,
        push-ok s p r.fresh b r.parents,
        height-ok s p r.fresh b1 r.parent r.uncles refl (first_live r.parents),
        link-ok s p r.fresh b2 (s.blocks p).qc r.cert r.ref r.carried r.fetched,
        mark-ok s p r.fresh b3,
      )
      refl

-- A block whose parents are delivered and whose certified block is fetched is delivered: it gets
-- its parents, a height one above the first one's, and the certified block, it replaces its parents
-- among the tails, and nothing else changes.
pub on_deliver_blk-delivery :
    (s : HotStuffCore) (p : Ptr) (r : Ready s p) → on_deliver_blk p s ≡ ok true (delivery s p r)
unfolding delivered_at
on_deliver_blk-delivery s p r =
    on_deliver_blk-fresh s p r.fresh ∙ deliver_fresh-rest s p r.fresh ∙ deliver_rest-ok s p r

cleared-hashes :
    (s : HotStuffCore) (p : Ptr) → (cleared s p).parent_hashes ≡ (s.blocks p).parent_hashes
unfolding cleared
cleared-hashes s p = refl

cleared-parents : (s : HotStuffCore) (p : Ptr) → (cleared s p).parents ≡ []
unfolding cleared
cleared-parents s p = refl

parent_of-none :
    (t : HotStuffCore) (p : Ptr)
    → (t.blocks p).parents ≡ []
    → parent_of p t ≡ throws undefined_behaviour t
unfolding parent_of
parent_of-none t p e = rw (e, parent_of) refl

orphan_rest :
    (s : HotStuffCore) (p : Ptr) (fresh : (s.blocks p).delivered ≡ false)
    → (s.blocks p).parent_hashes ≡ []
    → deliver_rest p (at s p fresh (cleared s p))
      ≡ throws undefined_behaviour (at s p fresh (cleared s p))
unfolding deliver_rest push_parents set_height
orphan_rest s p fresh e =
    let b = at-block s p fresh (cleared s p) in
    rw
      (
        ap (λ c. c.parent_hashes) b ∙ cleared-hashes s p ∙ e,
        push_parents,
        parent_of-none (at s p fresh (cleared s p)) p (ap (λ c. c.parents) b ∙ cleared-parents s p),
      )
      refl

-- The delivery of a block without parent hashes accesses the first element of an empty vector.
pub on_deliver_blk-orphan :
    (s : HotStuffCore) (p : Ptr)
    → (s.blocks p).delivered ≡ false
    → (s.blocks p).parent_hashes ≡ []
    → (t : HotStuffCore) × (on_deliver_blk p s ≡ throws undefined_behaviour t)
on_deliver_blk-orphan s p fresh e = (
  at s p fresh (cleared s p),
  on_deliver_blk-fresh s p fresh ∙ deliver_fresh-rest s p fresh ∙ orphan_rest s p fresh e,
)
