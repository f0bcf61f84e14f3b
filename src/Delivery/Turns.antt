-- ===== src/Delivery/Turns.antt =====
-- Every step of the network layer serves the core.
use archipelago_hotstuff.Base.{
  ℕ, suc, ◌^◌, ◌<◌, ◌≡◌, refl, sym, ap, ◌∙◌, subst, true, Option, none, some, List, [], ◌∷◌, All,
  arith, Bool-cases, Option-cases, inl, inr, ◌⊎◌, ◌==◌,
}
use archipelago_hotstuff.Crypto.{Library}
use archipelago_hotstuff.Entity.{Block, Ptr}
use archipelago_hotstuff.Core.State.{HotStuffCore, find_blk, Proposal, Vote}
use archipelago_hotstuff.Core.Invariant.{Sound, Keeps}
use archipelago_hotstuff.Core.Frame.{Keeps-refl, Keeps-trans}
use archipelago_hotstuff.Core.Deliver.Fetch.{IsBare}
use archipelago_hotstuff.Verify.{verify_vote, verify_block_async}
use archipelago_hotstuff.Delivery.State.{
  fetch, delivery, pool, pending, verified, when_all, when_proposed, when_voted, HotStuffBase,
  Ending, fine,
}
use archipelago_hotstuff.Delivery.Fetch.{new_promise, on_fetch_blk, async_fetch_blk}
use archipelago_hotstuff.Delivery.Deliver.{async_deliver_blk, deliver_all, verify_later, on_fetched}
use archipelago_hotstuff.Delivery.Handlers.{
  propose_handler, vote_handler, resp_blk_handler, on_stored, responded, store_all, on_fetch_all,
}
use archipelago_hotstuff.Delivery.Promises.{Deliveries, Wired, Grows-IsPromise}
use archipelago_hotstuff.Delivery.Onward.{Onward-refl}
use archipelago_hotstuff.Delivery.Waiting.{
  Waits, Waits-trans, made-Asked, async_fetch_blk-Asked, on_fetch_blk-Waits,
}
use archipelago_hotstuff.Delivery.Parents.{
  call-Waits, async_deliver_blk-Asked, deliver_all-AllAsked,
}
use archipelago_hotstuff.Delivery.Serves.{
  Serves, Served, Serves-later, Serves-Waits, Serves-Sound, Serves-Found, store-Serves,
}
use archipelago_hotstuff.Delivery.Pool.{verify_vote-hash, verifying-Asked}

module _ (lib : Library) (no_sig : ℕ) {s : HotStuffCore} (v : Sound 0 s) {j : ℕ}
    (fits : suc j < 2 ^ 32) where
  low : j < 2 ^ 32
  low = omega (arith, fits)

  pub waited : {n m : HotStuffBase} → Serves lib s j n → Waits n m → Served lib s (suc j) (fine m)
  waited x w = record { serves = Serves-later (Serves-Waits x w); safe = tt }

  pub proposal-Served :
      {n : HotStuffBase} (x : Serves lib s j n) (peer : Option ℕ) (proposer : ℕ) (b : Block)
      → IsBare b
      → Served lib s (suc j) (propose_handler peer proposer b n)
  unfolding propose_handler on_stored
  proposal-Served {n} x none proposer b bare =
      waited x (record { onward = Onward-refl n x.wired; core = refl })
  proposal-Served {n} x (some peer) proposer b bare =
      let (p, t, e, y, keeps, held) = store-Serves v low x b bare in
      let m : HotStuffBase = record n { core = t } in
      let a = async_deliver_blk-Asked b.hash peer m y.wired (Serves-Found v low y) in
      let (k, d) = async_deliver_blk b.hash peer m in
      let prop : Proposal = record { proposer = proposer; blk = p } in
      let c =
        call-Waits (when_proposed d prop) k a.waits.onward.wired
          (b.hash, a.promise, subst (λ r. find_blk r b.hash ≡ some p) (sym a.waits.core) held) in
      subst (Served lib s (suc j)) (sym (e (on_stored peer proposer b.hash)))
        (waited y (Waits-trans a.waits c))

  pub vote-Served :
      {n : HotStuffBase} (x : Serves lib s j n) (peer : Option ℕ) (vote : Vote)
      → Served lib s (suc j) (vote_handler lib no_sig peer vote n)
  unfolding vote_handler
  vote-Served {n} x none vote = waited x (record { onward = Onward-refl n x.wired; core = refl })
  vote-Served {n} x (some peer) vote =
      let a = async_deliver_blk-Asked vote.blk_hash peer n x.wired (Serves-Found v low x) in
      let (m, d) = async_deliver_blk vote.blk_hash peer n in
      elim (Option-cases (verify_vote lib no_sig n.core.config vote)) [
        | inl e ↦
            rw (e, vote_handler)
              (record { serves = Serves-later (Serves-Waits x a.waits); safe = tt })
        | inr (b, e) ↦
            let (q, i) = verifying-Asked b m a.waits.onward.wired in
            let (k, w) = new_promise (pool b) 0 pending m in
            let l : HotStuffBase = record k { pool = w ∷ k.pool } in
            let c = call-Waits (when_voted d w vote) l q.onward.wired (
              Grows-IsPromise q.onward.grows delivery vote.blk_hash d a.promise,
              b,
              i,
              verify_vote-hash lib no_sig n.core.config vote b e,
            ) in
            rw (e, vote_handler) (waited x (Waits-trans a.waits (Waits-trans q c)))
      ]

  on_fetch_all-Waits :
      (ps : List Ptr) {n : HotStuffBase}
      → Serves lib s j n
      → All (λ p. p < n.core.next_ptr) ps
      → Waits n (on_fetch_all ps n)
  unfolding on_fetch_all
  on_fetch_all-Waits [] {n} x held = record { onward = Onward-refl n x.wired; core = refl }
  on_fetch_all-Waits (p ∷ ps) {n} x (lt, held) =
      let a = on_fetch_blk-Waits p n x.wired ((Serves-Sound v low x).inv.good p lt).stored in
      Waits-trans a (
        on_fetch_all-Waits ps {n = on_fetch_blk p n} (Serves-Waits x a)
          (subst (λ c. All (λ p. p < c.next_ptr) ps) (sym a.core) held))

  store_all-Served :
      (bs : List Block) (f : List Ptr → HotStuffBase → Ending) {n : HotStuffBase}
      → Serves lib s j n
      → All IsBare bs
      → ((ps : List Ptr) (m : HotStuffBase)
          → Serves lib s j m
          → Keeps n.core m.core
          → All (λ p. p < m.core.next_ptr) ps
          → Served lib s (suc j) (f ps m))
      → Served lib s (suc j) (store_all bs f n)
  unfolding store_all
  store_all-Served [] f {n} x bare then_serves = then_serves [] n x (Keeps-refl n.core) tt
  store_all-Served (b ∷ bs) f {n} x (bare, more) then_serves =
      let (p, t, e, y, keeps, held) = store-Serves v low x b bare in
      subst (Served lib s (suc j)) (sym (e (λ q. store_all bs (λ ps. f (q ∷ ps))))) (
        store_all-Served bs (λ ps. f (p ∷ ps)) {n = record n { core = t }} y more
          (λ ps m z k lows.
            let lt : p < t.next_ptr = Serves-Found v low y b.hash p held in
            then_serves (p ∷ ps) m z (Keeps-trans keeps k) (omega (arith, lt, k.grown), lows)))

  pub response-Served :
      {n : HotStuffBase} (x : Serves lib s j n) (bs : List Block)
      → All IsBare bs
      → Served lib s (suc j) (resp_blk_handler bs n)
  unfolding resp_blk_handler
  response-Served x bs bare =
      store_all-Served bs responded x bare
        (λ ps m y k lows. waited y (on_fetch_all-Waits ps y lows))

  verify_later-cases :
      (blk : Ptr) (n : HotStuffBase)
      → Wired n
      → (verify_later lib no_sig blk n ≡ none)
        ⊎ ((r : HotStuffBase × ℕ) × (verify_later lib no_sig blk n ≡ some r) × Waits n r.0)
  unfolding verify_later
  verify_later-cases blk n w = elim (Bool-cases (blk == n.core.b0)) [
    | inl e ↦ inr (
      new_promise (pool true) 0 (verified true) n,
      rw (e, verify_later) refl,
      (made-Asked (pool true) 0 (verified true) n w refl).waits,
    )
    | inr e ↦
        elim (Option-cases (
          verify_block_async lib no_sig n.core.config (n.core.blocks n.core.b0).hash
            (n.core.blocks blk))) [
              | inl f ↦ inl (rw (e, f, verify_later) refl)
              | inr (b, f) ↦
                  let (m, i) = new_promise (pool b) 0 pending n in
                  inr (
                    (record m { pool = i ∷ m.pool }, i),
                    rw (e, f, verify_later) refl,
                    (verifying-Asked b n w).0,
                  )
            ]
  ]

  pub on_fetched-Served :
      {n : HotStuffBase} (x : Serves lib s j n) (blk : Ptr) (r : ℕ)
      → blk < n.core.next_ptr
      → Served lib s (suc j) (on_fetched lib no_sig blk r n)
  unfolding on_fetched
  on_fetched-Served {n} x blk r lt =
      let whole = ((Serves-Sound v low x).inv.good blk lt).whole in
      let qc = whole.cert in
      elim (verify_later-cases blk n x.wired) [
        | inl e ↦ rw (whole.carried, e, on_fetched) (record { serves = Serves-later x; safe = tt })
        | inr ((m, i), e, w) ↦
            let y = Serves-Waits x w in
            let a = async_fetch_blk-Asked qc.obj_hash (some r) true m y.wired in
            let (k, f) = async_fetch_blk qc.obj_hash (some r) true m in
            let z = Serves-Waits y a.waits in
            let hs = (n.core.blocks blk).parent_hashes in
            let b = deliver_all-AllAsked hs r k z.wired (Serves-Found v low z) in
            let (l, ds) = deliver_all hs r k in
            let same : l.core ≡ n.core = b.waits.core ∙ a.waits.core ∙ w.core in
            let c = call-Waits (when_all blk i f ds) l b.waits.onward.wired (
              subst (λ c. blk < c.next_ptr) (sym same) lt,
              qc,
              ap (λ c. (c.blocks blk).qc) same ∙ whole.carried,
              Grows-IsPromise b.waits.onward.grows fetch qc.obj_hash f a.promise,
              subst (λ c. Deliveries l.promises l.next_promise (c.blocks blk).parent_hashes ds)
                  (sym same) b.promises,
            ) in
            rw (whole.carried, e, on_fetched)
              (waited x (Waits-trans w (Waits-trans a.waits (Waits-trans b.waits c))))
      ]
