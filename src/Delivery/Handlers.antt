-- ===== src/Delivery/Handlers.antt =====
-- The handlers of the messages between replicas, and the callbacks: hotstuff/src/hotstuff.cpp.
use archipelago_hotstuff.Base.{
  ℕ, Bool, true, Option, none, some, List, [], ◌∷◌, if◌then◌else◌, member, erase,
}
use archipelago_hotstuff.Crypto.{Library}
use archipelago_hotstuff.Entity.{Block, Ptr}
use archipelago_hotstuff.Core.State.{M, Res, ok, throws, Vote, add_blk}
use archipelago_hotstuff.Core.Handlers.Votes.{on_receive_vote}
use archipelago_hotstuff.Core.Handlers.Voting.{on_receive_proposal}
use archipelago_hotstuff.Verify.{verify_vote}
use archipelago_hotstuff.Delivery.State.{
  Status, pending, resolved, verified, Continuation, when_fetched, when_all, when_proposed,
  when_voted, when_requested, resp_block, unknown_replica, exception, HotStuffBase, Ending, fine,
  pool,
}
use archipelago_hotstuff.Delivery.Fetch.{new_promise, settle, async_fetch_blk, on_fetch_blk}
use archipelago_hotstuff.Delivery.Deliver.{on_deliver_blk, async_deliver_blk, on_fetched}

-- A method of the core.
abbrev pub lifted : {A : Type 0} → Res A → HotStuffBase → Ending
lifted (ok _ t) n = fine (record n { core = t })
lifted (throws e t) n = (record n { core = t }, some (exception e))

abbrev pub lift : {A : Type 0} → M A → HotStuffBase → Ending
lift m n = lifted (m n.core) n

-- `storage->add_blk` of a block that was read, with what follows.
unfoldable pub store : Block → (Ptr → HotStuffBase → Ending) → HotStuffBase → Ending
unfolding add_blk
store b f n = elim (add_blk b n.core) [
  | ok p t ↦ f p (record n { core = t })
  | throws e t ↦ (record n { core = t }, some (exception e))
]

-- The end of `propose_handler`, once the block is in the storage.
unfoldable pub on_stored : (peer proposer hash : ℕ) → Ptr → HotStuffBase → Ending
unfolding async_deliver_blk
on_stored peer proposer h blk n =
    let (m, d) = async_deliver_blk h peer n in
    fine (record m {
      callbacks = when_proposed d (record { proposer = proposer; blk = blk }) ∷ m.callbacks;
    })

-- `propose_handler`; a peer that is not known has no number.
unfoldable pub propose_handler : (peer : Option ℕ) (proposer : ℕ) → Block → HotStuffBase → Ending
unfolding store on_stored
propose_handler none proposer b n = fine n
propose_handler (some peer) proposer b n = store b (on_stored peer proposer b.hash) n

-- `MsgRespBlock::postponed_parse`
unfoldable pub store_all : List Block → (List Ptr → HotStuffBase → Ending) → HotStuffBase → Ending
unfolding store
store_all [] f n = f [] n
store_all (b ∷ bs) f n = store b (λ p. store_all bs (λ ps. f (p ∷ ps))) n

unfoldable pub on_fetch_all : List Ptr → HotStuffBase → HotStuffBase
unfolding on_fetch_blk
on_fetch_all [] n = n
on_fetch_all (p ∷ ps) n = on_fetch_all ps (on_fetch_blk p n)

abbrev pub responded : List Ptr → HotStuffBase → Ending
responded ps n = fine (on_fetch_all ps n)

unfoldable pub resp_blk_handler : List Block → HotStuffBase → Ending
unfolding store_all on_fetch_all
resp_blk_handler bs n = store_all bs responded n

unfoldable pub fetch_all : List ℕ → HotStuffBase → HotStuffBase × List ℕ
unfolding async_fetch_blk
fetch_all [] n = (n, [])
fetch_all (h ∷ hs) n =
    let (m, i) = async_fetch_blk h none true n in let (k, is) = fetch_all hs m in (k, i ∷ is)

unfoldable pub req_blk_handler : (peer : Option ℕ) → List ℕ → HotStuffBase → HotStuffBase
unfolding fetch_all
req_blk_handler none blk_hashes n = n
req_blk_handler (some replica) blk_hashes n =
    let (m, is) = fetch_all blk_hashes n in
    record m { callbacks = when_requested replica is ∷ m.callbacks }

-- A thread of the pool is done.
unfoldable pub pool_done : ℕ → HotStuffBase → HotStuffBase
unfolding settle erase
pool_done i n =
    if member i n.pool
    then elim ((n.promises i).kind) [
      | pool b ↦ settle i (verified b) (record n { pool = erase i n.pool })
      | _ ↦ n
    ]
    else n

-- The value of a resolved promise.
abbrev pub block_of : Status → Option Ptr
block_of (resolved p) = some p
block_of _ = none

abbrev pub verdict_of : Status → Option Bool
verdict_of (verified b) = some b
verdict_of _ = none

abbrev pub blocks_of : HotStuffBase → List ℕ → Option (List Ptr)
blocks_of n [] = some []
blocks_of n (i ∷ is) = elim (block_of (n.promises i).status) [
  | none ↦ none
  | some p ↦ elim (blocks_of n is) [ none ↦ none | some ps ↦ some (p ∷ ps) ]
]

-- `promise::all(pms).then` of a block's verification, certified block and parents.
unfoldable pub on_all :
    Ptr → Option Bool → Option Ptr → Option (List Ptr) → HotStuffBase → Option Ending
unfolding on_deliver_blk
on_all blk (some valid) (some _) (some _) n = some (if valid then on_deliver_blk blk n else fine n)
on_all blk _ _ _ n = none

module _ (lib : Library) (no_sig : ℕ) where
  -- `vote_handler`
  unfoldable pub vote_handler : (peer : Option ℕ) → Vote → HotStuffBase → Ending
  unfolding async_deliver_blk verify_vote new_promise
  vote_handler none vote n = fine n
  vote_handler (some peer) vote n =
      let (m, d) = async_deliver_blk vote.blk_hash peer n in
      elim (verify_vote lib no_sig n.core.config vote) [
        | none ↦ (m, some unknown_replica)
        | some b ↦
            let (k, v) = new_promise (pool b) 0 pending m in
            fine (record k { pool = v ∷ k.pool; callbacks = when_voted d v vote ∷ k.callbacks })
      ]

  -- A callback; `none` while its promises are not resolved.
  unfoldable pub fire : Continuation → HotStuffBase → Option Ending
  unfolding on_fetched on_all on_receive_proposal on_receive_vote
  fire (when_fetched f replica) n = elim (block_of (n.promises f).status) [
    | none ↦ none
    | some blk ↦ some (on_fetched lib no_sig blk replica n)
  ]
  fire (when_all blk v f ds) n =
      on_all blk (verdict_of (n.promises v).status) (block_of (n.promises f).status)
        (blocks_of n ds) n
  fire (when_proposed d prop) n = elim (block_of (n.promises d).status) [
    | none ↦ none
    | some _ ↦ some (lift (on_receive_proposal lib prop) n)
  ]
  fire (when_voted d v vote) n = elim (block_of (n.promises d).status) [
    | none ↦ none
    | some _ ↦ elim (verdict_of (n.promises v).status) [
      | none ↦ none
      | some valid ↦ some (if valid then lift (on_receive_vote lib vote) n else fine n)
    ]
  ]
  fire (when_requested replica fs) n = elim (blocks_of n fs) [
    | none ↦ none
    | some ps ↦ some (fine (record n { sent = (replica, resp_block ps) ∷ n.sent }))
  ]
