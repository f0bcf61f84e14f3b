-- ===== src/Delivery/Runs.antt =====
-- However messages, timeouts, verifications and callbacks alternate, the core is driven as it wants.
use archipelago_hotstuff.Base.{
  ℕ, suc, ◌^◌, ◌≤◌, ◌<◌, ◌≡◌, refl, sym, subst, none, List, [], ◌∷◌, ◌++◌, All, arith,
}
use archipelago_hotstuff.Crypto.{Library}
use archipelago_hotstuff.Entity.{Ptr}
use archipelago_hotstuff.Core.State.{HotStuffCore, Res, ok, throws, find_blk}
use archipelago_hotstuff.Core.Invariant.{IsLive, Sound}
use archipelago_hotstuff.Core.Handlers.Proposing.{on_propose, proposed_block}
use archipelago_hotstuff.Core.Handlers.Propose.{untailed, on_propose-Proposed}
use archipelago_hotstuff.Core.Advance.{Advance}
use archipelago_hotstuff.Core.Reach as Core_Reach
use archipelago_hotstuff.Core.Reach.{Run, left, propose-Advance}
use archipelago_hotstuff.Delivery.State.{HotStuffBase, Ending, new_base}
use archipelago_hotstuff.Delivery.Handlers.{lifted, lift}
use archipelago_hotstuff.Delivery.Promises.{IsServed, Wired}
use archipelago_hotstuff.Delivery.Onward.{core-Onward, lists-Onward}
use archipelago_hotstuff.Delivery.Serves.{Serves, Served, Serves-Waits, Serves-Sound}
use archipelago_hotstuff.Delivery.Steps.{
  Step, Steps, Safe, proposal, ballot, request, response, timeout, checked, calls, start, then,
  proposes,
}
use archipelago_hotstuff.Delivery.Turns.{waited, proposal-Served, vote-Served, response-Served}
use archipelago_hotstuff.Delivery.Pool.{timeout-Waits, pool_done-Waits, req_blk-Waits}
use archipelago_hotstuff.Delivery.Calls.{call-Served}

-- A list without one of its entries.
without {ℓ κ} :
    {A : Type ℓ} (P : A → Type κ) (xs : List A) (y : A) (zs : List A)
    → All P (xs ++ y ∷ zs)
    → P y × All P (xs ++ zs)
without P [] y zs (p, a) = (p, a)
without P (x ∷ xs) y zs (p, a) = let (q, rest) = without P xs y zs a in (q, (p, rest))

module _ (lib : Library) (no_sig : ℕ) {s : HotStuffCore} (v : Sound 0 s) where
  new_base-Wired : Wired (new_base s)
  unfolding new_base
  new_base-Wired = record { good = λ i. tt; fetches = tt; deliveries = tt; served = tt }

  new_base-Serves : Serves lib s 0 (new_base s)
  unfolding new_base
  new_base-Serves = record {
    wired = new_base-Wired;
    k = 0;
    few = omega arith;
    run = Core_Reach.start;
  }

  Step-Served :
      {j : ℕ} {n : HotStuffBase} {out : Ending}
      → suc j < 2 ^ 32
      → Serves lib s j n
      → Step lib no_sig n out
      → Served lib s (suc j) out
  Step-Served fits x (proposal peer proposer b bare) =
      proposal-Served lib no_sig v fits x peer proposer b bare
  Step-Served fits x (ballot peer vote) = vote-Served lib no_sig v fits x peer vote
  Step-Served {n} fits x (request peer hs) =
      waited lib no_sig v fits x (req_blk-Waits peer hs n x.wired)
  Step-Served fits x (response bs bare) = response-Served lib no_sig v fits x bs bare
  Step-Served {n} fits x (timeout h) = waited lib no_sig v fits x (timeout-Waits h n x.wired)
  Step-Served {n} fits x (checked i) = waited lib no_sig v fits x (pool_done-Waits i n x.wired)
  Step-Served {n} fits x (calls before after c e f) =
      let w = x.wired in
      let sv = subst (All (IsServed n.core n.promises n.next_promise)) e w.served in
      let (one, rest) = without (IsServed n.core n.promises n.next_promise) before c after sv in
      let m : HotStuffBase = record n { callbacks = before ++ after } in
      let wm : Wired m = record {
        good = w.good;
        fetches = w.fetches;
        deliveries = w.deliveries;
        served = rest;
      } in
      let y : Serves lib _ _ m =
        Serves-Waits x (record { onward = lists-Onward n m refl refl refl wm; core = refl }) in
      call-Served lib no_sig v fits y c one f

  proposed-Wired :
      {n : HotStuffBase} {k : ℕ} (r : Res Ptr)
      → Wired n
      → Advance k n.core (left r)
      → Wired (lifted r n).0 × ((lifted r n).0.core ≡ left r)
  proposed-Wired {n} (ok p t) w a = ((core-Onward n t w a.keeps).wired, refl)
  proposed-Wired {n} (throws e t) w a = ((core-Onward n t w a.keeps).wired, refl)

  propose-Serves :
      {j : ℕ} {n : HotStuffBase}
      → suc j < 2 ^ 32
      → Serves lib s j n
      → (cmds : List ℕ) (p : Ptr) (ps : List Ptr) (extra : List ℕ) → All (IsLive n.core) (p ∷ ps)
      → find_blk n.core (proposed_block lib cmds p ps extra (untailed (p ∷ ps) n.core)).hash ≡ none
      → Serves lib s (suc j) (lift (on_propose lib cmds (p ∷ ps) extra) n).0
  propose-Serves {j} {n} fits x cmds p ps extra live new =
      let sound = Serves-Sound v (omega (arith, fits)) x in
      let r = on_propose lib cmds (p ∷ ps) extra n.core in
      let a : Advance (suc x.k) n.core (left r) =
        propose-Advance
          (on_propose-Proposed lib cmds p ps extra sound live new (omega (arith, fits, x.few))) in
      let (w, e) = proposed-Wired r x.wired a in
      record {
        wired = w;
        k = suc x.k;
        few = omega (arith, x.few);
        run =
            subst (Run lib s (suc x.k)) (sym e)
              (Core_Reach.proposes x.run cmds p ps extra live new);
      }

  Steps-Serves :
      {j : ℕ} {n : HotStuffBase} → j < 2 ^ 32 → Steps lib no_sig (new_base s) j n → Serves lib s j n
  Steps-Serves fits start = new_base-Serves
  Steps-Serves fits (then steps step) =
      (Step-Served fits (Steps-Serves (omega (arith, fits)) steps) step).serves
  Steps-Serves fits (proposes steps cmds p ps extra live new) =
      propose-Serves fits (Steps-Serves (omega (arith, fits)) steps) cmds p ps extra live new

  -- Whatever messages a replica gets, in any order, where every block has a parent, and whenever
  -- timeouts, verifications and callbacks happen, for less than 2^32 steps from a sound core: its
  -- core does nothing but fetch blocks, deliver blocks whose parents are delivered and whose
  -- certified block is fetched, answer proposals and votes, and propose. A step fails only on a
  -- breach of safety, or on a replica that is not known: no assertion fails, and no proposal or vote
  -- reaches the core before its block is delivered.
  pub Steps-Safe :
      {j : ℕ} {n : HotStuffBase} {out : Ending}
      → suc j < 2 ^ 32
      → Steps lib no_sig (new_base s) j n
      → Step lib no_sig n out
      → (k : ℕ) × (k ≤ suc j) × Run lib s k out.0.core × Safe out.1
  Steps-Safe fits steps step =
      let r = Step-Served fits (Steps-Serves (omega (arith, fits)) steps) step in
      (r.serves.k, r.serves.few, r.serves.run, r.safe)
