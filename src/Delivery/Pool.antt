-- ===== src/Delivery/Pool.antt =====
-- Timeouts, requests and verifications keep the promises of the network layer wired.
use archipelago_hotstuff.Base.{
  ℕ, ◌≡◌, refl, sym, subst, Bool, true, false, ◌&&◌, Option, none, some, List, [], ◌∷◌, Bool-cases,
  Option-cases, inl, inr, lookup, member, erase, ==_iff, ◌==◌,
}
use archipelago_hotstuff.Crypto.{Library}
use archipelago_hotstuff.Entity.{ReplicaInfo, ReplicaConfig, get_info}
use archipelago_hotstuff.Core.State.{Vote}
use archipelago_hotstuff.Verify.{verify_vote, verify_part}
use archipelago_hotstuff.Delivery.State.{
  Kind, fetch, delivery, pool, pending, verified, when_requested, HotStuffBase,
}
use archipelago_hotstuff.Delivery.Fetch.{
  new_promise, settle, send_fetch, send_all_fetch, timeout_cb, async_fetch_blk,
}
use archipelago_hotstuff.Delivery.Handlers.{req_blk_handler, fetch_all, pool_done}
use archipelago_hotstuff.Delivery.Promises.{Good, IsPromise, Wired}
use archipelago_hotstuff.Delivery.Onward.{Onward-refl, settle-Onward, lists-Onward}
use archipelago_hotstuff.Delivery.Waiting.{
  Waits, Waits-trans, made-Asked, send-Waits, async_fetch_blk-Asked,
}
use archipelago_hotstuff.Delivery.Parents.{call-Waits}

send_all-Waits :
    (h : ℕ) (rs : List ℕ) (n : HotStuffBase) → Wired n → Waits n (send_all_fetch h rs n)
unfolding send_all_fetch
send_all-Waits h [] n w = record { onward = Onward-refl n w; core = refl }
send_all-Waits h (r ∷ rs) n w =
    let a = send-Waits r h n w in
    Waits-trans a (send_all-Waits h rs (send_fetch r h n) a.onward.wired)

pub timeout-Waits : (h : ℕ) (n : HotStuffBase) → Wired n → Waits n (timeout_cb h n)
unfolding timeout_cb
timeout-Waits h n w = elim (Option-cases (lookup h n.blk_fetch_waiting)) [
  | inl e ↦ rw (e, timeout_cb) (record { onward = Onward-refl n w; core = refl })
  | inr (c, e) ↦ rw (e, timeout_cb) (send_all-Waits h c.replicas n w)
]

-- The list of verifications is changed.
pool-Waits : (ps : List ℕ) (n : HotStuffBase) → Wired n → Waits n (record n { pool = ps })
pool-Waits ps n w = record {
  onward =
      lists-Onward n (record n { pool = ps }) refl refl refl
        (record {
          good = w.good;
          fetches = w.fetches;
          deliveries = w.deliveries;
          served = w.served;
        });
  core = refl;
}

-- A promise of the pool is settled with the result that it is for.
settle_pool :
    (k : Kind) (i : ℕ) (n : HotStuffBase)
    → Wired n
    → (n.promises i).kind ≡ k
    → Waits n (elim k as (λ _. HotStuffBase) [
      | pool b ↦ settle i (verified b) (record n { pool = erase i n.pool })
      | fetch ↦ n
      | delivery ↦ n
    ])
unfolding settle
settle_pool fetch i n w e = record { onward = Onward-refl n w; core = refl }
settle_pool delivery i n w e = record { onward = Onward-refl n w; core = refl }
settle_pool (pool b) i n w e =
    let a = pool-Waits (erase i n.pool) n w in
    let m : HotStuffBase = record n { pool = erase i n.pool } in
    Waits-trans a (record {
      onward =
          settle-Onward i (verified b) m a.onward.wired
            (subst (λ k. Good n.core k (n.promises i).about (verified b)) (sym e) refl);
      core = refl;
    })

pub pool_done-Waits : (i : ℕ) (n : HotStuffBase) → Wired n → Waits n (pool_done i n)
unfolding pool_done
pool_done-Waits i n w = elim (Bool-cases (member i n.pool)) [
  | inl e ↦ rw e (settle_pool (n.promises i).kind i n w refl)
  | inr e ↦ rw e (record { onward = Onward-refl n w; core = refl })
]

fetch_all-Waits : (hs : List ℕ) (n : HotStuffBase) → Wired n → Waits n (fetch_all hs n).0
unfolding fetch_all
fetch_all-Waits [] n w = record { onward = Onward-refl n w; core = refl }
fetch_all-Waits (h ∷ hs) n w =
    let a = async_fetch_blk-Asked h none true n w in
    Waits-trans a.waits (fetch_all-Waits hs (async_fetch_blk h none true n).0 a.waits.onward.wired)

pub req_blk-Waits :
    (peer : Option ℕ) (hs : List ℕ) (n : HotStuffBase)
    → Wired n
    → Waits n (req_blk_handler peer hs n)
unfolding req_blk_handler
req_blk-Waits none hs n w = record { onward = Onward-refl n w; core = refl }
req_blk-Waits (some r) hs n w =
    let (m, is) = fetch_all hs n in
    let a = fetch_all-Waits hs n w in
    Waits-trans a (call-Waits (when_requested r is) m a.onward.wired tt)

-- A promise for a verification that the pool works on.
pub verifying-Asked :
    (b : Bool) (n : HotStuffBase)
    → Wired n
    → let (m, i) = new_promise (pool b) 0 pending n in
      Waits n (record m { pool = i ∷ m.pool }) × IsPromise m.promises m.next_promise (pool b) 0 i
verifying-Asked b n w =
    let (m, i) = new_promise (pool b) 0 pending n in
    let a = made-Asked (pool b) 0 pending n w tt in
    (Waits-trans a.waits (pool-Waits (i ∷ m.pool) m a.waits.onward.wired), a.promise)

&&-true : (a b : Bool) → (a && b) ≡ true → b ≡ true
&&-true true b e = e
&&-true false b e = cc

checked_hash :
    (lib : Library) (o : Option ReplicaInfo) (vote : Vote) (b : Bool)
    → (elim o as (λ _. Option Bool) [
      | none ↦ none
      | some info ↦
          some (verify_part lib info.pubkey vote.cert && (vote.cert.obj_hash == vote.blk_hash))
    ])
      ≡ some b
    → b ≡ true
    → vote.cert.obj_hash ≡ vote.blk_hash
checked_hash lib none vote b e y = cc
checked_hash lib (some info) vote b e y =
    let good = verify_part lib info.pubkey vote.cert in
    let same = vote.cert.obj_hash == vote.blk_hash in
    let z : (good && same) ≡ true = cc in
    (==_iff vote.cert.obj_hash vote.blk_hash).0 (&&-true good same z)

pub verify_vote-hash :
    (lib : Library) (no_sig : ℕ) (config : ReplicaConfig) (vote : Vote) (b : Bool)
    → verify_vote lib no_sig config vote ≡ some b
    → b ≡ true
    → vote.cert.obj_hash ≡ vote.blk_hash
unfolding verify_vote
verify_vote-hash lib no_sig config vote b e y =
    checked_hash lib (get_info config vote.voter) vote b e y
