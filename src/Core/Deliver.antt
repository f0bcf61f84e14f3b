-- ===== src/Core/Deliver.antt =====
-- HotStuffCore::get_delivered_blk, sanity_check_delivered and on_deliver_blk.
pub mod Run
pub mod Sound
pub mod Fetch
use archipelago_hotstuff.Base.{
  ℕ, ◌+◌, ◌%◌, ◌^◌, Bool, true, false, Option, none, some, List, [], ◌∷◌, ◌++◌, member, erase,
  if◌then◌else◌,
}
use archipelago_hotstuff.Crypto.{QuorumCert}
use archipelago_hotstuff.Entity.{Ptr}
use archipelago_hotstuff.Core.State.{
  M, ok, throws, ◌>>=◌, ◌>>◌, pure, get, modify, modify_blk, set_blk, height, parent_of, find_blk,
  block_not_delivered, qc_not_fetched,
}

unfoldable pub sanity_check_delivered : Ptr → M (Unit {0})
sanity_check_delivered p s =
    if (s.blocks p).delivered then ok tt s else throws block_not_delivered s

unfoldable pub get_delivered_blk : ℕ → M Ptr
unfolding find_blk
get_delivered_blk h s = elim (find_blk s h) [
  | none ↦ throws block_not_delivered s
  | some p ↦ if (s.blocks p).delivered then ok p s else throws block_not_delivered s
]

-- The loop over `parent_hashes`.
unfoldable pub push_parents : Ptr → List ℕ → M (Unit {0})
push_parents p [] = pure tt
push_parents p (h ∷ hs) = do
  q ← get_delivered_blk h
  modify_blk p (λ b. record b { parents = b.parents ++ q ∷ [] })
  push_parents p hs

-- `blk->height = blk->parents[0]->height + 1`, in 32 bits.
unfoldable pub set_height : Ptr → M (Unit {0})
set_height p = do
  q ← parent_of p
  s ← get
  modify_blk p (λ b. record b { height = (height s q + 1) % 2 ^ 32 })

-- A certificate refers to a block that was fetched.
unfoldable pub link_qc : Ptr → Option QuorumCert → M (Unit {0})
link_qc p none s = ok tt s
link_qc p (some qc) s = elim (find_blk s qc.obj_hash) [
  | none ↦ throws qc_not_fetched s
  | some q ↦ ok tt (set_blk p (record (s.blocks p) { qc_ref = some q }) s)
]

unfoldable pub erase_tails : List Ptr → List Ptr → List Ptr
erase_tails [] tails = tails
erase_tails (p ∷ ps) tails = erase_tails ps (erase p tails)

unfoldable pub insert_tail : Ptr → List Ptr → List Ptr
insert_tail p tails = if member p tails then tails else p ∷ tails

unfoldable pub mark_delivered : Ptr → M (Unit {0})
unfolding erase_tails insert_tail
mark_delivered p = do
  modify (λ s. record s { tails = insert_tail p (erase_tails (s.blocks p).parents s.tails) })
  modify_blk p (λ b. record b { delivered = true })

-- The part of `on_deliver_blk` behind its first test.
unfoldable pub deliver_fresh : Ptr → M Bool
unfolding push_parents set_height link_qc mark_delivered
deliver_fresh p = do
  modify_blk p (λ b. record b { parents = [] })
  s ← get
  push_parents p (s.blocks p).parent_hashes
  set_height p
  link_qc p (s.blocks p).qc
  mark_delivered p
  pure true

unfoldable pub on_deliver_blk : Ptr → M Bool
unfolding deliver_fresh
on_deliver_blk p s = elim ((s.blocks p).delivered) [ true ↦ ok false s | false ↦ deliver_fresh p s ]
