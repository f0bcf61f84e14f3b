-- ===== src/Delivery/Calls.antt =====
-- The callbacks of the network layer find their blocks delivered and fetched.
use archipelago_hotstuff.Base.{
  ℕ, suc, ◌^◌, ◌<◌, ◌≡◌, refl, sym, ◌∙◌, subst, Bool, true, false, Option, none, some, List, ◌∷◌,
  arith, Option-cases, inl, inr, if◌then◌else◌,
}
use archipelago_hotstuff.Crypto.{Library}
use archipelago_hotstuff.Entity.{Ptr}
use archipelago_hotstuff.Core.State.{HotStuffCore, find_blk, Vote}
use archipelago_hotstuff.Core.Invariant.{IsLive, Sound}
use archipelago_hotstuff.Core.Handlers.Votes.{on_receive_vote}
use archipelago_hotstuff.Core.Handlers.Voting.{on_receive_proposal}
use archipelago_hotstuff.Delivery.State.{
  Continuation, when_fetched, when_all, when_proposed, when_voted, when_requested, resp_block,
  HotStuffBase, Ending, fine,
}
use archipelago_hotstuff.Delivery.Deliver.{on_deliver_blk, on_fetched}
use archipelago_hotstuff.Delivery.Handlers.{lift, block_of, verdict_of, blocks_of, on_all, fire}
use archipelago_hotstuff.Delivery.Promises.{IsServed}
use archipelago_hotstuff.Delivery.Onward.{lists-Onward}
use archipelago_hotstuff.Delivery.Ready.{
  fetched_block_found, delivered_block_found, verdict_found, blocks-Parents, deliver_all_there,
}
use archipelago_hotstuff.Delivery.Serves.{
  Serves, Served, Serves-later, Serves-Sound, Serves-Found, propose-Served, voted-Served,
  deliver-Serves,
}
use archipelago_hotstuff.Delivery.Turns.{waited, on_fetched-Served}

all_there :
    (blk : Ptr) (o : Option Bool) (f : Option Ptr) (ds : Option (List Ptr)) (n : HotStuffBase)
    {out : Ending}
    → on_all blk o f ds n ≡ some out
    → (b : Bool) × (q : Ptr) × (ps : List Ptr) × (f ≡ some q)
      × (ds ≡ some ps)
      × ((if b then on_deliver_blk blk n else fine n) ≡ out)
unfolding on_all
all_there blk none f ds n e = cc
all_there blk (some b) none ds n e = cc
all_there blk (some b) (some q) none n e = cc
all_there blk (some b) (some q) (some ps) n e = (b, q, ps, refl, refl, cc)

module _ (lib : Library) (no_sig : ℕ) {s : HotStuffCore} (v : Sound 0 s) {j : ℕ}
    (fits : suc j < 2 ^ 32) where
  low : j < 2 ^ 32
  low = omega (arith, fits)

  Served-later : {out : Ending} → Served lib s j out → Served lib s (suc j) out
  Served-later r = record { serves = Serves-later r.serves; safe = r.safe }

  stays : {n : HotStuffBase} → Serves lib s j n → Served lib s (suc j) (fine n)
  stays x = record { serves = Serves-later x; safe = tt }

  module _ {n : HotStuffBase} (x : Serves lib s j n) where
    delivered-Served :
        (b : Bool) (blk : Ptr) (q : Ptr) (ps : List Ptr) (f : ℕ) (ds : List ℕ)
        → IsServed n.core n.promises n.next_promise (when_all blk 0 f ds)
        → block_of (n.promises f).status ≡ some q
        → blocks_of n ds ≡ some ps
        → Served lib s (suc j) (if b then on_deliver_blk blk n else fine n)
    delivered-Served false blk q ps f ds sv ef ed = stays x
    delivered-Served true blk q ps f ds (lt, qc, carried, pf, pds) ef ed =
        let v' = Serves-Sound v low x in
        let whole = (v'.inv.good blk lt).whole in
        let same : qc ≡ whole.cert =
          let z : some qc ≡ some whole.cert = sym carried ∙ whole.carried in cc in
        let found = fetched_block_found x.wired qc.obj_hash f q pf ef in
        let (m, e, d) =
          deliver_all_there blk x.wired v' lt ps q (blocks-Parents x.wired ps pds ed)
            (subst (λ c. find_blk n.core c.obj_hash ≡ some q) same found)
            (omega (arith, fits, x.few)) in
        subst (Served lib s (suc j)) (sym e)
          (record { serves = deliver-Serves v low x blk lt d; safe = tt })

    voted_if :
        (b c : Bool) (vote : Vote) (p : Ptr)
        → c ≡ b
        → (c ≡ true → vote.cert.obj_hash ≡ vote.blk_hash)
        → find_blk n.core vote.blk_hash ≡ some p
        → IsLive n.core p
        → Served lib s (suc j) (if b then lift (on_receive_vote lib vote) n else fine n)
    voted_if false c vote p e same found live = stays x
    voted_if true c vote p e same found live =
        Served-later (voted-Served v low x vote p found live (same e))

    requested-Served :
        (r : ℕ) (ps : List Ptr)
        → Served lib s (suc j) (fine (record n { sent = (r, resp_block ps) ∷ n.sent }))
    requested-Served r ps =
        let w = x.wired in
        waited lib no_sig v fits x (record {
          onward =
              lists-Onward n (record n { sent = (r, resp_block ps) ∷ n.sent }) refl refl refl
                (record {
                  good = w.good;
                  fetches = w.fetches;
                  deliveries = w.deliveries;
                  served = w.served;
                });
          core = refl;
        })

    pub call-Served :
        (c : Continuation) {out : Ending}
        → IsServed n.core n.promises n.next_promise c
        → fire lib no_sig c n ≡ some out
        → Served lib s (suc j) out
    unfolding fire
    call-Served (when_fetched f r) {out} (h, p) e =
        elim (Option-cases (block_of (n.promises f).status)) [
          | inl g ↦ let z : none ≡ some out = (rw (g, fire) at e) in cc
          | inr (blk, g) ↦
              let z : on_fetched lib no_sig blk r n ≡ out = let y = rw (g, fire) at e in cc in
              let lt = Serves-Found v low x h blk (fetched_block_found x.wired h f blk p g) in
              subst (Served lib s (suc j)) z (on_fetched-Served lib no_sig v fits x blk r lt)
        ]
    call-Served (when_all blk i f ds) {out} sv e =
        let (b, q, ps, ef, ed, same) = all_there blk _ _ _ n e in
        subst (Served lib s (suc j)) same (delivered-Served b blk q ps f ds sv ef ed)
    call-Served (when_proposed d prop) {out} (h, p, found) e =
        elim (Option-cases (block_of (n.promises d).status)) [
          | inl g ↦ let z : none ≡ some out = (rw (g, fire) at e) in cc
          | inr (q, g) ↦
              let z : lift (on_receive_proposal lib prop) n ≡ out =
                let y = rw (g, fire) at e in cc in
              let (at, live) = delivered_block_found x.wired h d q p g in
              let same : q ≡ prop.blk = cc in
              subst (Served lib s (suc j)) z
                (Served-later (propose-Served v low x prop (subst (IsLive n.core) same live)))
        ]
    call-Served (when_voted d i vote) {out} (p, b, pb, same) e =
        elim (Option-cases (block_of (n.promises d).status)) [
          | inl g ↦ let z : none ≡ some out = (rw (g, fire) at e) in cc
          | inr (q, g) ↦ elim (Option-cases (verdict_of (n.promises i).status)) [
            | inl k ↦ let z : none ≡ some out = (rw (g, k, fire) at e) in cc
            | inr (c, k) ↦
                let z : (if c then lift (on_receive_vote lib vote) n else fine n) ≡ out =
                  let y = rw (g, k, fire) at e in cc in
                let (found, live) = delivered_block_found x.wired vote.blk_hash d q p g in
                subst (Served lib s (suc j)) z
                  (voted_if c b vote q (verdict_found x.wired b c i pb k) same found live)
          ]
        ]
    call-Served (when_requested r fs) {out} sv e = elim (Option-cases (blocks_of n fs)) [
      | inl g ↦ let z : none ≡ some out = (rw (g, fire) at e) in cc
      | inr (ps, g) ↦
          let z : fine (record n { sent = (r, resp_block ps) ∷ n.sent }) ≡ out =
            let y = rw (g, fire) at e in cc in
          subst (Served lib s (suc j)) z (requested-Served r ps)
    ]
