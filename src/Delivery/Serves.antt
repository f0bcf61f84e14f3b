-- ===== src/Delivery/Serves.antt =====
-- The network layer drives the core within its preconditions.
use archipelago_hotstuff.Base.{ℕ, suc, ◌^◌, ◌≤◌, ◌<◌, ◌≡◌, refl, sym, ◌∙◌, subst, some, arith}
use archipelago_hotstuff.Crypto.{Library}
use archipelago_hotstuff.Entity.{Block, Ptr}
use archipelago_hotstuff.Core.State.{HotStuffCore, Res, ok, throws, find_blk, Proposal, Vote}
use archipelago_hotstuff.Core.Invariant.{IsLive, Sound, Keeps}
use archipelago_hotstuff.Core.Post.{returns, fails}
use archipelago_hotstuff.Core.Deliver.Fetch.{IsBare, add_blk-Stored}
use archipelago_hotstuff.Core.Handlers.Votes.{on_receive_vote}
use archipelago_hotstuff.Core.Handlers.Voting.{on_receive_proposal}
use archipelago_hotstuff.Core.Handlers.Reply.{
  Answers, undelivered, breached, on_receive_proposal-Answers,
}
use archipelago_hotstuff.Core.Handlers.Counting.{
  Received, unknown, known, enough, twice, mismatch, counts, on_receive_vote-Received,
}
use archipelago_hotstuff.Core.Reach.{
  Run, fetches, delivers, answers, counts_vote, left, answer-Advance, receive-Advance, Run-Advance,
}
use archipelago_hotstuff.Delivery.State.{HotStuffBase, Ending, exception}
use archipelago_hotstuff.Delivery.Handlers.{lifted, store}
use archipelago_hotstuff.Delivery.Promises.{Wired}
use archipelago_hotstuff.Delivery.Onward.{core-Onward}
use archipelago_hotstuff.Delivery.Waiting.{Waits, Found}
use archipelago_hotstuff.Delivery.Ready as Delivery_Ready
use archipelago_hotstuff.Delivery.Ready.{Delivers, refused}
use archipelago_hotstuff.Delivery.Steps.{Safe}

-- After at most `j` steps the promises are wired, and the core is one that a run of the core reaches.
pub record Serves (lib : Library) (s : HotStuffCore) (j : ℕ) (n : HotStuffBase) : Type 0 where
  pub wired : Wired n
  pub k : ℕ
  pub few : k ≤ j
  pub run : Run lib s k n.core

-- The outcome of a step.
pub record Served (lib : Library) (s : HotStuffCore) (j : ℕ) (out : Ending) : Type 0 where
  pub serves : Serves lib s j out.0
  pub safe : Safe out.1

module _ {lib : Library} {s : HotStuffCore} where
  pub Serves-later : {j : ℕ} {n : HotStuffBase} → Serves lib s j n → Serves lib s (suc j) n
  Serves-later x = record { wired = x.wired; k = x.k; few = omega (arith, x.few); run = x.run }

  pub Serves-Waits : {j : ℕ} {n m : HotStuffBase} → Serves lib s j n → Waits n m → Serves lib s j m
  Serves-Waits x w = record {
    wired = w.onward.wired;
    k = x.k;
    few = x.few;
    run = subst (Run lib s x.k) (sym w.core) x.run;
  }

vote-Safe :
    {lib : Library} {k : ℕ} {c : HotStuffCore} (n : HotStuffBase) (vote : Vote) (p : Ptr)
    {r : Res (Unit {0})}
    → find_blk c vote.blk_hash ≡ some p
    → IsLive c p
    → vote.cert.obj_hash ≡ vote.blk_hash
    → Received lib k c vote r
    → Safe (lifted r n).1
vote-Safe n vote p e l same (unknown out f) = let d = out p e in let g = l.is_delivered in cc
vote-Safe n vote p e l same (known q _ _ h (enough _)) = tt
vote-Safe n vote p e l same (known q _ _ h (twice _)) = tt
vote-Safe n vote p e l same (known q _ _ h (mismatch ne _)) = absurd (ne (same ∙ sym h))
vote-Safe n vote p e l same (known q _ _ h (counts _)) = tt

module _ {lib : Library} {s : HotStuffCore} (v : Sound 0 s) {j : ℕ} (fits : j < 2 ^ 32) where
  pub Serves-Sound : {n : HotStuffBase} (x : Serves lib s j n) → Sound x.k n.core
  Serves-Sound x = (Run-Advance lib v (omega (arith, fits, x.few)) x.run).sound

  pub Serves-Found : {n : HotStuffBase} → Serves lib s j n → Found n.core
  Serves-Found x h p e = ((Serves-Sound x).inv.found h p e).0

  -- A block from a message enters the storage.
  pub store-Serves :
      {n : HotStuffBase}
      → Serves lib s j n
      → (b : Block) → IsBare b
      → (p : Ptr) × (t : HotStuffCore) × ((f : Ptr → HotStuffBase → Ending)
          → store b f n ≡ f p (record n { core = t }))
        × Serves lib s j (record n { core = t })
        × Keeps n.core t
        × (find_blk t b.hash ≡ some p)
  unfolding store
  store-Serves {n} x b bare =
      let st = add_blk-Stored b bare (Serves-Sound x) in
      let o = core-Onward n st.state x.wired st.advance.keeps in
      (
        st.at,
        st.state,
        (λ f. rw (st.result, store) refl),
        record {
          wired = o.wired;
          k = x.k;
          few = x.few;
          run = subst (λ r. Run lib s x.k (left r)) st.result (fetches x.run b bare);
        },
        st.advance.keeps,
        st.held,
      )

  lifted-Served :
      {A : Type 0} {k : ℕ} {n : HotStuffBase} (r : Res A)
      → Wired n
      → k ≤ j
      → Run lib s k (left r)
      → Keeps n.core (left r)
      → Safe (lifted r n).1
      → Served lib s j (lifted r n)
  lifted-Served {k} {n} (ok a t) w few run keeps safe = record {
    serves = record { wired = (core-Onward n t w keeps).wired; k = k; few = few; run = run };
    safe = safe;
  }
  lifted-Served {k} {n} (throws e t) w few run keeps safe = record {
    serves = record { wired = (core-Onward n t w keeps).wired; k = k; few = few; run = run };
    safe = safe;
  }

  answer-Safe :
      {k : ℕ} {c : HotStuffCore} (n : HotStuffBase) (prop : Proposal) {r : Res (Unit {0})}
      → IsLive c prop.blk
      → Answers k lib prop c r
      → Safe (lifted r n).1
  answer-Safe n prop l (returns a) = tt
  answer-Safe n prop l (fails (undelivered d e same)) = let f = l.is_delivered in cc
  answer-Safe n prop l (fails {s = t} (breached e q)) =
      subst (λ x. Safe (some (exception x))) (sym e) tt

  -- The core hears of a proposal once its block is delivered.
  pub propose-Served :
      {n : HotStuffBase} (x : Serves lib s j n) (prop : Proposal)
      → IsLive n.core prop.blk
      → Served lib s j (lifted (on_receive_proposal lib prop n.core) n)
  propose-Served {n} x prop l =
      let a = on_receive_proposal-Answers lib prop n.core (Serves-Sound x) l.in_memory in
      lifted-Served (on_receive_proposal lib prop n.core) x.wired x.few
        (answers x.run prop l.in_memory) (answer-Advance lib prop (Serves-Sound x) a).keeps
        (answer-Safe n prop l a)

  -- The core hears of a vote once its block is delivered and its certificate is one for the block.
  pub voted-Served :
      {n : HotStuffBase} (x : Serves lib s j n) (vote : Vote) (p : Ptr)
      → find_blk n.core vote.blk_hash ≡ some p
      → IsLive n.core p
      → vote.cert.obj_hash ≡ vote.blk_hash
      → Served lib s j (lifted (on_receive_vote lib vote n.core) n)
  voted-Served {n} x vote p e l same =
      let a = on_receive_vote-Received lib vote (Serves-Sound x) in
      lifted-Served (on_receive_vote lib vote n.core) x.wired x.few (counts_vote x.run vote)
        (receive-Advance vote (Serves-Sound x) a).keeps (vote-Safe n vote p e l same a)

  pub deliver-Serves :
      {n m : HotStuffBase} (x : Serves lib s j n) (p : Ptr)
      → p < n.core.next_ptr
      → Delivers x.k p n m
      → Serves lib s (suc j) m
  deliver-Serves x p lt (refused e o) =
      Serves-later (Serves-Waits x (record { onward = o; core = e }))
  deliver-Serves {n} {m} x p lt (Delivery_Ready.delivers r e o) = record {
    wired = o.wired;
    k = suc x.k;
    few = omega (arith, x.few);
    run = subst (Run lib s (suc x.k)) (sym e) (delivers x.run p lt r);
  }
