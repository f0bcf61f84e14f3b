-- ===== src/Core/Reach.antt =====
-- The states that a replica reaches from a sound one by fetching, delivering, and answering messages.
use archipelago_hotstuff.Base.{List, ◌∷◌, All, none, ◌≡◌}
use archipelago_hotstuff.Base.{ℕ, suc, arith, ◌^◌, ◌<◌, sym, subst}
use archipelago_hotstuff.Crypto.{Library}
use archipelago_hotstuff.Entity.{Block, Ptr}
use archipelago_hotstuff.Core.State.{
  HotStuffCore, Proposal, Vote, Error, Res, ok, throws, add_blk, find_blk,
}
use archipelago_hotstuff.Core.Invariant.{Sound, IsLive}
use archipelago_hotstuff.Core.Frame.{Keeps-refl}
use archipelago_hotstuff.Core.Advance.{Advance, Advance-trans}
use archipelago_hotstuff.Core.Post.{Post, returns, fails}
use archipelago_hotstuff.Core.Update.Laws.{Quiet}
use archipelago_hotstuff.Core.Deliver.{on_deliver_blk}
use archipelago_hotstuff.Core.Deliver.Run.{Ready}
use archipelago_hotstuff.Core.Deliver.Sound.{on_deliver_blk-Sound}
use archipelago_hotstuff.Core.Deliver.Fetch.{IsBare, add_blk-Stored}
use archipelago_hotstuff.Core.Handlers.Votes.{on_receive_vote}
use archipelago_hotstuff.Core.Handlers.Voting.{on_receive_proposal}
use archipelago_hotstuff.Core.Handlers.Proposing.{proposed_block, on_propose}
use archipelago_hotstuff.Core.Handlers.Propose.{
  Proposed, NotProposed, untailed, on_propose-Proposed,
}
use archipelago_hotstuff.Core.Handlers.Reply.{
  Answers, Refused, undelivered, breached, on_receive_proposal-Answers,
}
use archipelago_hotstuff.Core.Handlers.Counting.{
  Received, unknown, known, Counted, enough, twice, mismatch, counts, on_receive_vote-Received,
}

-- The state that a method leaves behind, where it throws too.
abbrev pub left : {A : Type 0} → Res A → HotStuffCore
left (ok _ t) = t
left (throws _ t) = t

-- `k` counts the deliveries and the own proposals, and so bounds the heights.
pub data Run (lib : Library) (s : HotStuffCore) : ℕ → HotStuffCore → Type 0 where
  start : Run lib s 0 s
  fetches :
      {k : ℕ} {t : HotStuffCore}
      → Run lib s k t
      → (b : Block) → IsBare b
      → Run lib s k (left (add_blk b t))
  delivers :
      {k : ℕ} {t : HotStuffCore}
      → Run lib s k t
      → (p : Ptr) → p < t.next_ptr
      → Ready t p
      → Run lib s (suc k) (left (on_deliver_blk p t))
  answers :
      {k : ℕ} {t : HotStuffCore}
      → Run lib s k t
      → (prop : Proposal) → prop.blk < t.next_ptr
      → Run lib s k (left (on_receive_proposal lib prop t))
  counts_vote :
      {k : ℕ} {t : HotStuffCore}
      → Run lib s k t
      → (vote : Vote) → Run lib s k (left (on_receive_vote lib vote t))
  proposes :
      {k : ℕ} {t : HotStuffCore}
      → Run lib s k t
      → (cmds : List ℕ) (p : Ptr) (ps : List Ptr) (extra : List ℕ) → All (IsLive t) (p ∷ ps)
      → find_blk t (proposed_block lib cmds p ps extra (untailed (p ∷ ps) t)).hash ≡ none
      → Run lib s (suc k) (left (on_propose lib cmds (p ∷ ps) extra t))

Quiet-Advance : {k : ℕ} {s t : HotStuffCore} → Quiet k s t → Advance k s t
Quiet-Advance q = record { sound = q.sound; keeps = q.keeps }

still_there : {k : ℕ} {s : HotStuffCore} → Sound k s → Advance k s s
still_there {s} v = record { sound = v; keeps = Keeps-refl s }

Refused-Advance :
    {k : ℕ} {s : HotStuffCore} {p : Ptr} {e : Error} {t : HotStuffCore}
    → Sound k s
    → Refused k s p e t
    → Advance k s t
Refused-Advance {k} {s} v (undelivered d e same) = subst (Advance k s) (sym same) (still_there v)
Refused-Advance v (breached e q) = Quiet-Advance q

pub answer-Advance :
    {k : ℕ} {s : HotStuffCore} (lib : Library) (prop : Proposal) {r : Res (Unit {0})}
    → Sound k s
    → Answers k lib prop s r
    → Advance k s (left r)
answer-Advance lib prop v (returns a) = a.advance
answer-Advance lib prop v (fails f) = Refused-Advance v f

count-Advance :
    {lib : Library} {k : ℕ} {s : HotStuffCore} (p : Ptr) (vote : Vote) {r : Res (Unit {0})}
    → Sound k s
    → Counted lib k s p vote r
    → Advance k s (left r)
count-Advance p vote v (enough _) = still_there v
count-Advance p vote v (twice _) = still_there v
count-Advance p vote v (mismatch _ q) = Quiet-Advance q
count-Advance p vote v (counts e) = Quiet-Advance e.quiet

pub receive-Advance :
    {lib : Library} {k : ℕ} {s : HotStuffCore} (vote : Vote) {r : Res (Unit {0})}
    → Sound k s
    → Received lib k s vote r
    → Advance k s (left r)
receive-Advance {lib} {k} {s} vote v (unknown _ e) =
    subst (λ r. Advance k s (left r)) (sym e) (still_there v)
receive-Advance vote v (known p _ _ _ c) = count-Advance p vote v c

pub propose-Advance :
    {k : ℕ} {s : HotStuffCore} {p : Ptr} {r : Res Ptr}
    → Post (λ n t. Proposed k s p n t) (NotProposed k s p) r
    → Advance (suc k) s (left r)
propose-Advance (returns a) = a.advance
propose-Advance (fails f) = f.advance

module _ (lib : Library) {s : HotStuffCore} (v : Sound 0 s) where
  -- After any sequence of calls that fetch a block with a parent hash and a certificate, deliver a
  -- block whose parents are delivered and whose certified block is fetched, propose a block with a
  -- new hash on delivered parents, or take a proposal of a fetched block or a vote, with less than
  -- 2 ^ 32 deliveries and own proposals, a replica that was sound at the start is sound: it has
  -- voted at strictly rising heights, its committed blocks are a chain of direct parents from the
  -- genesis block, and its vheight and the heights of its locked, highest certified and executed
  -- blocks have not gone down since the start; the calls come one after the other: what the
  -- callback of a promise does is a later call.
  pub Run-Advance : {k : ℕ} {t : HotStuffCore} → k < 2 ^ 32 → Run lib s k t → Advance k s t
  Run-Advance fits start = still_there v
  Run-Advance {k} fits (fetches {t} run b bare) =
      let old = Run-Advance fits run in
      let st = add_blk-Stored b bare old.sound in
      Advance-trans old (subst (λ r. Advance k t (left r)) (sym st.result) st.advance)
  Run-Advance fits (delivers {k} {t} run p lt r) =
      let old = Run-Advance (omega arith) run in
      let (e, adv, _) = on_deliver_blk-Sound r old.sound lt (omega arith) in
      Advance-trans old (subst (λ r. Advance (suc k) t (left r)) (sym e) adv)
  Run-Advance fits (answers {t} run prop lt) =
      let old = Run-Advance fits run in
      Advance-trans old
        (answer-Advance lib prop old.sound (on_receive_proposal-Answers lib prop t old.sound lt))
  Run-Advance fits (counts_vote run vote) =
      let old = Run-Advance fits run in
      Advance-trans old
        (receive-Advance vote old.sound (on_receive_vote-Received lib vote old.sound))
  Run-Advance fits (proposes {k} {t} run cmds p ps extra live new) =
      let old = Run-Advance (omega arith) run in
      Advance-trans old
        (propose-Advance (on_propose-Proposed lib cmds p ps extra old.sound live new (omega arith)))
