-- ===== src/Delivery/Fetch.antt =====
-- HotStuffBase::async_fetch_blk, on_fetch_blk, and FetchContext.
use archipelago_hotstuff.Base.{
  ℕ, ◌+◌, ◌%◌, ◌^◌, Bool, true, false, ◌&&◌, Option, none, some, List, [], ◌∷◌, if◌then◌else◌,
  lookup, member, remove, write, assign, update,
}
use archipelago_hotstuff.Entity.{Ptr}
use archipelago_hotstuff.Core.State.{find_blk}
use archipelago_hotstuff.Delivery.State.{
  FetchContext, HotStuffBase, Kind, Status, fetch, pending, req_block, resolved,
}

-- A new promise, by its number.
unfoldable pub new_promise : Kind → (about : ℕ) → Status → HotStuffBase → HotStuffBase × ℕ
new_promise kind about status n = (
  record n {
    promises =
        update n.promises n.next_promise (record { kind = kind; about = about; status = status });
    next_promise = n.next_promise + 1;
  },
  n.next_promise,
)

unfoldable pub settle : ℕ → Status → HotStuffBase → HotStuffBase
settle i status n = record n {
  promises = update n.promises i (record (n.promises i) { status = status });
}

-- `FetchContext::send` with a request for one block.
unfoldable pub send_fetch : (replica hash : ℕ) → HotStuffBase → HotStuffBase
send_fetch replica h n =
    let count : ℕ = elim (lookup replica n.part_fetched_replica) as (λ _. ℕ) [
      | none ↦ 0
      | some c ↦ c
    ] in
    record n {
      part_fetched_replica = assign replica ((count + 1) % 2 ^ 32) n.part_fetched_replica;
      sent = (replica, req_block (h ∷ [])) ∷ n.sent;
    }

abbrev pub is_empty : List ℕ → Bool
is_empty [] = true
is_empty (x ∷ xs) = false

-- `FetchContext::add_replica` on the context of the hash.
unfoldable pub add_replica :
    (hash replica : ℕ) (fetch_now : Bool) → FetchContext → HotStuffBase → HotStuffBase
unfolding send_fetch
add_replica h replica now c n =
    let m = if is_empty c.replicas && now then send_fetch replica h n else n in
    record m {
      blk_fetch_waiting =
          write h
            (record c {
              replicas = if member replica c.replicas then c.replicas else replica ∷ c.replicas;
            })
            m.blk_fetch_waiting;
    }

-- The end of `async_fetch_blk`, with the context of the hash.
unfoldable pub join_fetch :
    (hash : ℕ) (replica : Option ℕ) (fetch_now : Bool)
    → FetchContext
    → HotStuffBase
    → HotStuffBase × ℕ
unfolding add_replica
join_fetch h none now c n = (n, c.promise)
join_fetch h (some replica) now c n = (add_replica h replica now c n, c.promise)

-- `async_fetch_blk`; no replica stands for a null pointer.
unfoldable pub async_fetch_blk :
    (hash : ℕ) (replica : Option ℕ) (fetch_now : Bool) → HotStuffBase → HotStuffBase × ℕ
unfolding new_promise join_fetch find_blk
async_fetch_blk h replica now n = elim (find_blk n.core h) [
  | some p ↦ new_promise fetch h (resolved p) n
  | none ↦ elim (lookup h n.blk_fetch_waiting) [
    | some c ↦ join_fetch h replica now c n
    | none ↦
        let (m, i) = new_promise fetch h pending n in
        let c : FetchContext = record { promise = i; replicas = [] } in
        join_fetch h replica now c (record m { blk_fetch_waiting = (h, c) ∷ m.blk_fetch_waiting })
  ]
]

-- `FetchContext::timeout_cb`
unfoldable pub send_all_fetch : (hash : ℕ) → List ℕ → HotStuffBase → HotStuffBase
unfolding send_fetch
send_all_fetch h [] n = n
send_all_fetch h (r ∷ rs) n = send_all_fetch h rs (send_fetch r h n)

unfoldable pub timeout_cb : (hash : ℕ) → HotStuffBase → HotStuffBase
unfolding send_all_fetch
timeout_cb h n = elim (lookup h n.blk_fetch_waiting) [
  | none ↦ n
  | some c ↦ send_all_fetch h c.replicas n
]

unfoldable pub on_fetch_blk : Ptr → HotStuffBase → HotStuffBase
unfolding settle
on_fetch_blk blk n =
    let m : HotStuffBase = record n {
      part_fetched = (n.part_fetched + 1) % 2 ^ 32;
      fetched = (n.fetched + 1) % 2 ^ 64;
    } in
    let h = (n.core.blocks blk).hash in
    elim (lookup h n.blk_fetch_waiting) [
      | none ↦ m
      | some c ↦
          settle c.promise (resolved blk)
            (record m { blk_fetch_waiting = remove h n.blk_fetch_waiting })
    ]
