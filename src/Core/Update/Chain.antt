-- ===== src/Core/Update/Chain.antt =====
-- The walks along first parents: they end, and where.
use archipelago_hotstuff.Base.{
  ℕ, zero, suc, ◌≤◌, ◌<◌, ◌≡◌, ap, List, ◌∷◌, arith, ltb, lt→ltb, le→ltb, ltb→lt, ltb→le,
  Bool-cases, inl, inr,
}
use archipelago_hotstuff.Entity.{Ptr}
use archipelago_hotstuff.Core.State.{HotStuffCore, ok, height, parent_of}
use archipelago_hotstuff.Core.Invariant.{IsLive, IsChild, Climbs, Link, root, above, Inv}
use archipelago_hotstuff.Core.Update.{collect}
use archipelago_hotstuff.Core.Handlers.Voting.{descend}

pub IsChild-parent_of : {s : HotStuffCore} {p q : Ptr} → IsChild s p q → parent_of p s ≡ ok q s
unfolding parent_of
IsChild-parent_of c = rw (c.parents, parent_of)

-- `a` is reached from `b` by first parents.
pub data Extends (s : HotStuffCore) (a : Ptr) : Ptr → Type 0 where
  self : Extends s a a
  child : {b q : Ptr} → IsChild s b q → Extends s a q → Extends s a b

pub Extends-le : (s : HotStuffCore) {a b : Ptr} → Extends s a b → height s a ≤ height s b
Extends-le s self = omega arith
Extends-le s (child c x) = omega (arith, c.step, Extends-le s x)

module _ {k : ℕ} {s : HotStuffCore} (i : Inv k s) where
  Link-child :
      (n : ℕ) (p : Ptr) → n < height s p → IsLive s p → Link s p → (q : Ptr) × IsChild s p q
  Link-child n p h l (root e) = absurd (omega (arith, i.genesis.flat, ap (height s) e))
  Link-child n p h l (above q rest e m st) =
      (q, record { rest = rest; parents = e; live = l; parent = m; step = st })

  -- A live block above some height has a direct parent.
  pub has_parent : (n : ℕ) (p : Ptr) → n < height s p → IsLive s p → (q : Ptr) × IsChild s p q
  has_parent n p h l = Link-child n p h l ((i.good p l.in_memory).link l.is_delivered)

  -- The walk of `update` never runs out of rounds and never leaves the chain: the blocks it returns
  -- climb from where it stops, at or below the limit.
  pub collect-Climbs :
      (fuel limit : ℕ) (b top : Ptr) (rest : List Ptr)
      → height s b < fuel
      → IsLive s b
      → Climbs s b rest top
      → (queue : List Ptr) × (a : Ptr) × (collect fuel limit b rest s ≡ ok (queue, a) s)
        × Climbs s a queue top
        × IsLive s a
        × (height s a ≤ limit)
  unfolding collect
  collect-Climbs zero limit b top rest h l c = absurd (omega arith)
  collect-Climbs (suc fuel) limit b top rest h l c = elim (Bool-cases (ltb limit (height s b))) [
    | inl high ↦
        let (q, up) = has_parent limit b (ltb→lt _ _ high) l in
        let (queue, a, e, climbs, above_a, low) =
          collect-Climbs fuel limit q top (b ∷ rest) (omega (arith, up.step)) up.parent (up, c) in
        (queue, a, rw (high, IsChild-parent_of up, collect) e, climbs, above_a, low)
    | inr low ↦ (rest, b, rw (low, collect), c, l, ltb→le _ _ low)
  ]

  -- The walk of the safety condition ends likewise, at an ancestor.
  pub descend-Extends :
      (fuel limit : ℕ) (b : Ptr)
      → height s b < fuel
      → IsLive s b
      → (r : Ptr) × (descend fuel limit b s ≡ ok r s) × Extends s r b × (height s r ≤ limit)
  unfolding descend
  descend-Extends zero limit b h l = absurd (omega arith)
  descend-Extends (suc fuel) limit b h l = elim (Bool-cases (ltb limit (height s b))) [
    | inl high ↦
        let (q, up) = has_parent limit b (ltb→lt _ _ high) l in
        let (r, e, x, low) = descend-Extends fuel limit q (omega (arith, up.step)) up.parent in
        (r, rw (high, IsChild-parent_of up, descend) e, child up x, low)
    | inr low ↦ (b, rw (low, descend), self, ltb→le _ _ low)
  ]

-- With the height of an ancestor for its limit, the walk stops at that ancestor.
pub descend-ancestor :
    {s : HotStuffCore} (fuel : ℕ) (a b : Ptr)
    → height s b < fuel
    → Extends s a b
    → descend fuel (height s a) b s ≡ ok a s
unfolding descend
descend-ancestor zero a b h x = absurd (omega arith)
descend-ancestor {s} (suc fuel) a b h self =
    rw (le→ltb (height s a) (height s a) (omega arith), descend)
descend-ancestor {s} (suc fuel) a b h (child {q} c x) =
    let below : height s a < height s b = omega (arith, c.step, Extends-le s x) in
    let rest : descend fuel (height s a) q s ≡ ok a s =
      descend-ancestor fuel a q (omega (arith, c.step)) x in
    rw (lt→ltb (height s a) (height s b) below, IsChild-parent_of c, descend) rest

-- With the height of an ancestor for its limit, the walk of `update` stops at that ancestor.
pub collect-ancestor :
    {s : HotStuffCore} (fuel : ℕ) (a b : Ptr) (rest : List Ptr)
    → height s b < fuel
    → Extends s a b
    → (queue : List Ptr) × (collect fuel (height s a) b rest s ≡ ok (queue, a) s)
unfolding collect
collect-ancestor zero a b rest h x = absurd (omega arith)
collect-ancestor {s} (suc fuel) a b rest h self =
    (rest, rw (le→ltb (height s a) (height s a) (omega arith), collect))
collect-ancestor {s} (suc fuel) a b rest h (child {q} c x) =
    let below : height s a < height s b = omega (arith, c.step, Extends-le s x) in
    let (queue, e) = collect-ancestor fuel a q (b ∷ rest) (omega (arith, c.step)) x in
    (queue, rw (lt→ltb (height s a) (height s b) below, IsChild-parent_of c, collect) e)
