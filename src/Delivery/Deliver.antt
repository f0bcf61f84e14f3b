-- ===== src/Delivery/Deliver.antt =====
-- HotStuffBase::async_deliver_blk and on_deliver_blk.
use archipelago_hotstuff.Base.{
  ℕ, ◌+◌, ◌%◌, ◌^◌, Bool, true, ◌&&◌, Option, none, some, List, [], ◌∷◌, ◌==◌, if◌then◌else◌,
  lookup, remove, length,
}
use archipelago_hotstuff.Crypto.{Library}
use archipelago_hotstuff.Entity.{Ptr}
use archipelago_hotstuff.Core.State.{HotStuffCore, ok, throws, find_blk, is_blk_delivered}
use archipelago_hotstuff.Verify.{verify_block_async}
use archipelago_hotstuff.Core.Deliver as Core_Deliver
use archipelago_hotstuff.Delivery.State.{
  Ending, HotStuffBase, assertion, delivery, exception, fine, pending, pool, rejected, resolved,
  unknown_replica, verified, when_all, when_fetched,
}
use archipelago_hotstuff.Delivery.Fetch.{async_fetch_blk, new_promise, settle}

-- The sanity check of `on_deliver_blk`.
unfoldable pub are_delivered : HotStuffCore → List ℕ → Bool
unfolding is_blk_delivered
are_delivered s [] = true
are_delivered s (h ∷ hs) = is_blk_delivered s h && are_delivered s hs

-- The counters of `on_deliver_blk`, and its waiting promise.
unfoldable pub settle_delivery : Ptr → (valid : Bool) → HotStuffBase → HotStuffBase
unfolding settle
settle_delivery blk valid n =
    let b = n.core.blocks blk in
    let m : HotStuffBase =
      if valid
      then record n {
        part_parent_size = (n.part_parent_size + length b.parent_hashes) % 2 ^ 32;
        part_delivered = (n.part_delivered + 1) % 2 ^ 32;
        delivered = (n.delivered + 1) % 2 ^ 64;
      }
      else n in
    elim (lookup b.hash n.blk_delivery_waiting) [
      | none ↦ m
      | some i ↦
          settle i (if valid then resolved blk else rejected)
            (record m { blk_delivery_waiting = remove b.hash n.blk_delivery_waiting })
    ]

-- `on_deliver_blk`
unfoldable pub on_deliver_blk : Ptr → HotStuffBase → Ending
unfolding are_delivered settle_delivery
on_deliver_blk blk n =
    if are_delivered n.core (n.core.blocks blk).parent_hashes
    then elim (Core_Deliver.on_deliver_blk blk n.core) [
      | ok valid t ↦ fine (settle_delivery blk valid (record n { core = t }))
      | throws e t ↦ (record n { core = t }, some (exception e))
    ]
    else (n, some assertion)

-- `async_deliver_blk` of a block that is not delivered.
unfoldable pub start_delivery : (hash replica : ℕ) → HotStuffBase → HotStuffBase × ℕ
unfolding new_promise async_fetch_blk
start_delivery h replica n = elim (lookup h n.blk_delivery_waiting) [
  | some i ↦ (n, i)
  | none ↦
      let (m, i) = new_promise delivery h pending n in
      let (k, f) =
        async_fetch_blk h (some replica) true
          (record m { blk_delivery_waiting = (h, i) ∷ m.blk_delivery_waiting }) in
      (record k { callbacks = when_fetched f replica ∷ k.callbacks }, i)
]

unfoldable pub async_deliver_blk : (hash replica : ℕ) → HotStuffBase → HotStuffBase × ℕ
unfolding start_delivery find_blk
async_deliver_blk h replica n = elim (find_blk n.core h) [
  | none ↦ start_delivery h replica n
  | some p ↦
      if (n.core.blocks p).delivered
      then new_promise delivery h (resolved p) n
      else start_delivery h replica n
]

-- The loop over the parents.
unfoldable pub deliver_all : List ℕ → (replica : ℕ) → HotStuffBase → HotStuffBase × List ℕ
unfolding async_deliver_blk
deliver_all [] replica n = (n, [])
deliver_all (h ∷ hs) replica n =
    let (m, i) = async_deliver_blk h replica n in
    let (k, is) = deliver_all hs replica m in (k, i ∷ is)

module _ (lib : Library) (no_sig : ℕ) where
  -- `pms[0]`: the verification of a block; `none` for a replica that is not known.
  unfoldable pub verify_later : Ptr → HotStuffBase → Option (HotStuffBase × ℕ)
  unfolding new_promise verify_block_async
  verify_later blk n =
      let s = n.core in
      if blk == s.b0
      then some (new_promise (pool true) 0 (verified true) n)
      else elim (verify_block_async lib no_sig s.config (s.blocks s.b0).hash (s.blocks blk)) [
        | none ↦ none
        | some b ↦
            let (m, i) = new_promise (pool b) 0 pending n in
            some (record m { pool = i ∷ m.pool }, i)
      ]

  -- The callback of `async_fetch_blk` in `async_deliver_blk`.
  unfoldable pub on_fetched : Ptr → (replica : ℕ) → HotStuffBase → Ending
  unfolding verify_later async_fetch_blk deliver_all
  on_fetched blk replica n = elim ((n.core.blocks blk).qc) [
    | none ↦ (n, some assertion)
    | some qc ↦ elim (verify_later blk n) [
      | none ↦ (n, some unknown_replica)
      | some (m, v) ↦
          let (k, f) = async_fetch_blk qc.obj_hash (some replica) true m in
          let (l, ds) = deliver_all (n.core.blocks blk).parent_hashes replica k in
          fine (record l { callbacks = when_all blk v f ds ∷ l.callbacks })
    ]
  ]
