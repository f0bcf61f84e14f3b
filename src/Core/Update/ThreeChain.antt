-- ===== src/Core/Update/ThreeChain.antt =====
-- The commit rule: three blocks in a chain of direct parents, each certified by the next, and a block
-- that certifies the last of them.
use mathlib.Core.List.{reverse_aux}
use archipelago_hotstuff.Base.{ℕ, ◌≤◌, ◌<◌, ◌≡◌, some, List}
use archipelago_hotstuff.Crypto.{QuorumCert}
use archipelago_hotstuff.Entity.{Ptr}
use archipelago_hotstuff.Core.State.{HotStuffCore, Error, height, safety_breached}
use archipelago_hotstuff.Core.Invariant.{IsLive, IsChild, Climbs, log}
use archipelago_hotstuff.Core.Post.{Post}
use archipelago_hotstuff.Core.Update.Chain.{Extends}
use archipelago_hotstuff.Core.Update.Laws.{Quiet}

-- `top` certifies `p2`, which certifies `p1`, which certifies `p0`, all three undecided.
pub record ThreeChain (s : HotStuffCore) (top p2 p1 p0 : Ptr) : Type 0 where
  pub live : IsLive s top
  pub ref2 : (s.blocks top).qc_ref ≡ some p2
  pub ref1 : (s.blocks p2).qc_ref ≡ some p1
  pub ref0 : (s.blocks p1).qc_ref ≡ some p0
  pub child2 : IsChild s p2 p1
  pub child1 : IsChild s p1 p0
  pub open2 : (s.blocks p2).decision ≡ 0
  pub open1 : (s.blocks p1).decision ≡ 0
  pub open0 : (s.blocks p0).decision ≡ 0

-- What the commit rule does: the lowest of the three blocks is the last executed one, and the chain to
-- it from the one before was committed; the middle block is locked, and the highest one the highest
-- certified one with the certificate `qc`, each unless the one before stands as high.
pub record CommitsChain (k : ℕ) (s : HotStuffCore) (top p2 p1 p0 : Ptr) (t : HotStuffCore)
    : Type 0 where
  pub quiet : Quiet k s t
  pub executed : t.b_exec ≡ p0
  pub chain : List Ptr
  pub climbs : Climbs t s.b_exec chain p0
  pub logged : log t.outputs ≡ reverse_aux chain (log s.outputs)
  pub locks : height s s.b_lock < height s p1 → t.b_lock ≡ p1
  pub locked : height s p1 ≤ height s s.b_lock → t.b_lock ≡ s.b_lock
  pub qc : QuorumCert
  pub carried : (s.blocks top).qc ≡ some qc
  pub certifies : height s s.hqc.0 < height s p2 → t.hqc ≡ (p2, qc)
  pub certified : height s p2 ≤ height s s.hqc.0 → t.hqc ≡ s.hqc

-- Nothing is committed on a block that does not descend from the last executed one.
pub record LeavesChain (k : ℕ) (s : HotStuffCore) (p0 : Ptr) (e : Error) (t : HotStuffCore)
    : Type 0 where
  pub error : e ≡ safety_breached
  pub quiet : Quiet k s t
  pub executed : t.b_exec ≡ s.b_exec
  pub logged : log t.outputs ≡ log s.outputs
  pub apart : ¬ Extends t s.b_exec p0
