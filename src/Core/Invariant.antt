-- ===== src/Core/Invariant.antt =====
-- The well-formedness of a replica's state, and what every method keeps of it.
use archipelago_hotstuff.Base.{ℕ, suc, ◌≤◌, ◌<◌, ◌≡◌, true, false, none, some, List, [], ◌∷◌}
use archipelago_hotstuff.Crypto.{QuorumCert}
use archipelago_hotstuff.Entity.{Block, Ptr}
use archipelago_hotstuff.Core.State.{
  HotStuffCore, Event, broadcast, voted, committed, Error, undefined_behaviour, out_of_fuel, height,
  find_blk,
}

-- `p` is a delivered block in memory.
pub record IsLive (s : HotStuffCore) (p : Ptr) : Type 0 where
  pub in_memory : p < s.next_ptr
  pub is_delivered : (s.blocks p).delivered ≡ true

-- A delivered block is the genesis block, or stands one above its first parent.
pub data Link (s : HotStuffCore) (p : Ptr) : Type 0 where
  root : p ≡ s.b0 → Link s p
  above :
      (q : Ptr) (rest : List Ptr)
      → (s.blocks p).parents ≡ q ∷ rest
      → IsLive s q
      → height s p ≡ suc (height s q)
      → Link s p

-- What a block's reference to a certified block says.
pub record IsRef (s : HotStuffCore) (p q : Ptr) : Type 0 where
  pub target : q < s.next_ptr
  pub cert : QuorumCert
  pub carried : (s.blocks p).qc ≡ some cert
  pub certifies : cert.obj_hash ≡ (s.blocks q).hash

-- The certificate that a block collects votes in is for that block.
abbrev pub OwnCert : Block → Type 0
OwnCert b = (qc : QuorumCert) → b.self_qc ≡ some qc → qc.obj_hash ≡ b.hash

-- A block has a certificate, and a parent unless it is delivered.
pub record Whole (b : Block) : Type 0 where
  pub cert : QuorumCert
  pub carried : b.qc ≡ some cert
  pub child : b.delivered ≡ false → (h : ℕ) × (hs : List ℕ) × (b.parent_hashes ≡ h ∷ hs)

-- A block in memory, where no height exceeds `k`.
pub record IsGood (k : ℕ) (s : HotStuffCore) (p : Ptr) : Type 0 where
  pub low : height s p ≤ k
  pub stored : find_blk s (s.blocks p).hash ≡ some p
  pub link : (s.blocks p).delivered ≡ true → Link s p
  pub bare : (s.blocks p).delivered ≡ false → (height s p ≡ 0) × ((s.blocks p).qc_ref ≡ none)
  pub ref : (q : Ptr) → (s.blocks p).qc_ref ≡ some q → IsRef s p q
  pub own : OwnCert (s.blocks p)
  pub whole : Whole (s.blocks p)

pub record Pointers (s : HotStuffCore) : Type 0 where
  pub locked : IsLive s s.b_lock
  pub executed : IsLive s s.b_exec
  pub high : IsLive s s.hqc.0
  pub high_cert : s.hqc.1.obj_hash ≡ (s.blocks s.hqc.0).hash

pub record Genesis (s : HotStuffCore) : Type 0 where
  pub live : IsLive s s.b0
  pub flat : height s s.b0 ≡ 0
  pub final : (s.blocks s.b0).decision ≡ 1

pub record Inv (k : ℕ) (s : HotStuffCore) : Type 0 where
  pub genesis : Genesis s
  pub good : (p : Ptr) → p < s.next_ptr → IsGood k s p
  pub found : (h : ℕ) (p : Ptr) → find_blk s h ≡ some p → (p < s.next_ptr) × ((s.blocks p).hash ≡ h)
  pub pointers : Pointers s

-- What stays of a block: `c` is `b` later.
pub record SameBlock (b c : Block) : Type 0 where
  pub hash : c.hash ≡ b.hash
  pub parent_hashes : c.parent_hashes ≡ b.parent_hashes
  pub parents : c.parents ≡ b.parents
  pub height : c.height ≡ b.height
  pub delivered : c.delivered ≡ b.delivered
  pub qc_ref : c.qc_ref ≡ b.qc_ref
  pub qc : c.qc ≡ b.qc
  pub cmds : c.cmds ≡ b.cmds
  pub decided : b.decision ≡ 1 → c.decision ≡ 1
  pub own : OwnCert b → OwnCert c

-- No block is added, fetched or delivered.
pub record Frame (s t : HotStuffCore) : Type 0 where
  pub b0 : t.b0 ≡ s.b0
  pub next_ptr : t.next_ptr ≡ s.next_ptr
  pub blk_cache : t.blk_cache ≡ s.blk_cache
  pub blocks : (p : Ptr) → SameBlock (s.blocks p) (t.blocks p)

-- What stays of a block that may be delivered in between.
pub record SameContents (b c : Block) : Type 0 where
  pub hash : c.hash ≡ b.hash
  pub parent_hashes : c.parent_hashes ≡ b.parent_hashes
  pub qc : c.qc ≡ b.qc
  pub delivered : b.delivered ≡ true → c.delivered ≡ true

-- What every method keeps.
pub record Keeps (s t : HotStuffCore) : Type 0 where
  pub b0 : t.b0 ≡ s.b0
  pub grown : s.next_ptr ≤ t.next_ptr
  pub found : (h : ℕ) (p : Ptr) → find_blk s h ≡ some p → find_blk t h ≡ some p
  pub blocks : (p : Ptr) → IsLive s p → SameBlock (s.blocks p) (t.blocks p)
  pub contents : (p : Ptr) → p < s.next_ptr → SameContents (s.blocks p) (t.blocks p)
  pub vheight : s.vheight ≤ t.vheight
  pub b_lock : height s s.b_lock ≤ height t t.b_lock
  pub hqc : height s s.hqc.0 ≤ height t t.hqc.0
  pub b_exec : height s s.b_exec ≤ height t t.b_exec

-- The errors that the code throws, as against the ones that the model adds.
abbrev pub IsException : Error → Type 0
IsException undefined_behaviour = ⊥
IsException out_of_fuel = ⊥
IsException _ = Unit

-- `q` is the direct parent of `p`.
pub record IsChild (s : HotStuffCore) (p q : Ptr) : Type 0 where
  pub rest : List Ptr
  pub parents : (s.blocks p).parents ≡ q ∷ rest
  pub live : IsLive s p
  pub parent : IsLive s q
  pub step : height s p ≡ suc (height s q)

-- The blocks of the list climb from `a`, each a child of the one before, to `top`.
abbrev pub Climbs : HotStuffCore → Ptr → List Ptr → Ptr → Type 0
Climbs s a [] top = a ≡ top
Climbs s a (p ∷ ps) top = IsChild s p a × Climbs s p ps top

-- The committed blocks among the outputs, newest first.
abbrev pub log : List Event → List Ptr
log [] = []
log (committed p ∷ es) = p ∷ log es
log (_ ∷ es) = log es

-- The blocks of the list, newest first, descend from `p` by direct parents to the genesis block.
abbrev pub Executed : HotStuffCore → Ptr → List Ptr → Type 0
Executed s p [] = p ≡ s.b0
Executed s p (x ∷ xs) = (x ≡ p) × (q : Ptr) × IsChild s p q × Executed s q xs

-- The votes among the outputs, newest first: the replica's own proposals and its answers to others.
-- Each is for a delivered block, and their heights fall strictly from below `n`.
abbrev pub Falling : HotStuffCore → ℕ → List Event → Type 0
Falling s n [] = Unit {0}
Falling s n (voted _ v ∷ es) =
    (p : Ptr) × (find_blk s v.blk_hash ≡ some p)
    × IsLive s p
    × (height s p < n)
    × Falling s (height s p) es
Falling s n (broadcast prop ∷ es) =
    IsLive s prop.blk × (height s prop.blk < n) × Falling s (height s prop.blk) es
Falling s n (_ ∷ es) = Falling s n es

-- The three facts about a replica that every method keeps.
pub record Sound (k : ℕ) (s : HotStuffCore) : Type 0 where
  pub inv : Inv k s
  pub votes : Falling s (suc s.vheight) s.outputs
  pub exec : Executed s s.b_exec (log s.outputs)

-- No vote is cast, and nothing is delivered.
pub record Still (s t : HotStuffCore) : Type 0 where
  pub frame : Frame s t
  pub vheight : t.vheight ≡ s.vheight
  pub priv_key : t.priv_key ≡ s.priv_key
  pub id : t.id ≡ s.id
  pub vote_disabled : t.vote_disabled ≡ s.vote_disabled
  pub config : t.config ≡ s.config
  pub falling : (u : HotStuffCore) (n : ℕ) → Falling u n s.outputs → Falling u n t.outputs
