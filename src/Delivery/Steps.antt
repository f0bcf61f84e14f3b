-- ===== src/Delivery/Steps.antt =====
-- What happens to the network layer of a replica: messages, timeouts, verifications, callbacks and
-- own proposals, one at a time.
use archipelago_hotstuff.Base.{ℕ, suc, ◌≡◌, Option, some, none, List, ◌∷◌, ◌++◌, All}
use archipelago_hotstuff.Crypto.{Library}
use archipelago_hotstuff.Entity.{Block, Ptr}
use archipelago_hotstuff.Core.State.{Vote, find_blk, safety_breached}
use archipelago_hotstuff.Core.Invariant.{IsLive}
use archipelago_hotstuff.Core.Deliver.Fetch.{IsBare}
use archipelago_hotstuff.Core.Handlers.Proposing.{proposed_block, on_propose}
use archipelago_hotstuff.Core.Handlers.Propose.{untailed}
use archipelago_hotstuff.Delivery.State.{
  Continuation, Failure, unknown_replica, exception, HotStuffBase, Ending, fine,
}
use archipelago_hotstuff.Delivery.Fetch.{timeout_cb}
use archipelago_hotstuff.Delivery.Handlers.{
  lift, propose_handler, vote_handler, req_blk_handler, resp_blk_handler, pool_done, fire,
}

module _ (lib : Library) (no_sig : ℕ) where
  -- A step, with its outcome. The blocks of messages have a parent; the callback that runs is any
  -- one whose promises are resolved.
  pub data Step (n : HotStuffBase) : Ending → Type 0 where
    proposal :
        (peer : Option ℕ) (proposer : ℕ) (b : Block)
        → IsBare b
        → Step n (propose_handler peer proposer b n)
    ballot : (peer : Option ℕ) (vote : Vote) → Step n (vote_handler lib no_sig peer vote n)
    request : (peer : Option ℕ) (hs : List ℕ) → Step n (fine (req_blk_handler peer hs n))
    response : (bs : List Block) → All IsBare bs → Step n (resp_blk_handler bs n)
    timeout : (h : ℕ) → Step n (fine (timeout_cb h n))
    checked : (i : ℕ) → Step n (fine (pool_done i n))
    calls :
        (before after : List Continuation) (c : Continuation) {out : Ending}
        → n.callbacks ≡ before ++ c ∷ after
        → fire lib no_sig c (record n { callbacks = before ++ after }) ≡ some out
        → Step n out

  -- The states that `j` steps and own proposals lead to.
  pub data Steps (n : HotStuffBase) : ℕ → HotStuffBase → Type 0 where
    start : Steps n 0 n
    then :
        {j : ℕ} {m : HotStuffBase} {out : Ending} → Steps n j m → Step m out → Steps n (suc j) out.0
    proposes :
        {j : ℕ} {m : HotStuffBase}
        → Steps n j m
        → (cmds : List ℕ) (p : Ptr) (ps : List Ptr) (extra : List ℕ) → All (IsLive m.core) (p ∷ ps)
        → find_blk m.core (proposed_block lib cmds p ps extra (untailed (p ∷ ps) m.core)).hash
          ≡ none
        → Steps n (suc j) (lift (on_propose lib cmds (p ∷ ps) extra) m).0

-- A step ends well, with a breach of safety that the core finds, or with a replica that is not known.
abbrev pub Safe : Option Failure → Type 0
Safe none = Unit {0}
Safe (some unknown_replica) = Unit {0}
Safe (some (exception safety_breached)) = Unit {0}
Safe (some _) = ⊥
