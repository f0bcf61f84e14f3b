-- ===== src/Delivery/Waiting.antt =====
-- Fetching and delivering keep the promises wired, and make promises for what they were asked for.
use archipelago_hotstuff.Base.{
  ℕ, ◌+◌, ◌%◌, ◌^◌, ◌<◌, ◌≡◌, refl, sym, ◌∙◌, subst, Bool, true, false, ◌&&◌, Option, none, some,
  List, [], ◌∷◌, if◌then◌else◌, Option-cases, inl, inr, All, All-lookup, All-remove, All-write,
  lookup, remove, write, member,
}
use archipelago_hotstuff.Entity.{Ptr}
use archipelago_hotstuff.Core.State.{HotStuffCore, find_blk}
use archipelago_hotstuff.Delivery.State.{Kind, fetch, pending, resolved, FetchContext, HotStuffBase}
use archipelago_hotstuff.Delivery.Fetch.{
  new_promise, settle, send_fetch, is_empty, add_replica, join_fetch, async_fetch_blk, on_fetch_blk,
}
use archipelago_hotstuff.Delivery.Promises.{Good, IsPromise, Wired, Grows-IsPromise}
use archipelago_hotstuff.Delivery.Onward.{
  Onward, Onward-refl, Onward-trans, new_promise-Onward, settle-Onward, lists-Onward,
}

-- A step that leaves the core alone.
pub record Waits (n m : HotStuffBase) : Type 0 where
  pub onward : Onward n m
  pub core : m.core ≡ n.core

pub Waits-trans : {n m k : HotStuffBase} → Waits n m → Waits m k → Waits n k
Waits-trans f g = record { onward = Onward-trans f.onward g.onward; core = g.core ∙ f.core }

-- What is found in the storage is in memory.
abbrev pub Found : HotStuffCore → Type 0
Found s = (h : ℕ) (p : Ptr) → find_blk s h ≡ some p → p < s.next_ptr

-- A promise of kind `k` for the hash `h` was made or found.
pub record Asked (k : Kind) (h : ℕ) (n : HotStuffBase) (r : HotStuffBase × ℕ) : Type 0 where
  pub waits : Waits n r.0
  pub promise : IsPromise r.0.promises r.0.next_promise k h r.1

pub send-Waits : (r h : ℕ) (n : HotStuffBase) → Wired n → Waits n (send_fetch r h n)
unfolding send_fetch
send-Waits r h n w = record {
  onward =
      lists-Onward n (send_fetch r h n) refl refl refl (record {
        good = w.good;
        fetches = w.fetches;
        deliveries = w.deliveries;
        served = w.served;
      });
  core = refl;
}

-- The contexts are changed.
contexts-Waits :
    (n : HotStuffBase) (m : List (ℕ × FetchContext))
    → Wired n
    → All (λ e. IsPromise n.promises n.next_promise fetch e.0 e.1.promise) m
    → Waits n (record n { blk_fetch_waiting = m })
contexts-Waits n m w a = record {
  onward =
      lists-Onward n (record n { blk_fetch_waiting = m }) refl refl refl
        (record { good = w.good; fetches = a; deliveries = w.deliveries; served = w.served });
  core = refl;
}

maybe_sent :
    (b : Bool) (r h : ℕ) (n : HotStuffBase) → Wired n → Waits n (if b then send_fetch r h n else n)
maybe_sent true r h n w = send-Waits r h n w
maybe_sent false r h n w = record { onward = Onward-refl n w; core = refl }

add_replica-Waits :
    (h r : ℕ) (now : Bool) (c : FetchContext) (n : HotStuffBase)
    → Wired n
    → IsPromise n.promises n.next_promise fetch h c.promise
    → Waits n (add_replica h r now c n)
unfolding add_replica
add_replica-Waits h r now c n w p =
    let m = if is_empty c.replicas && now then send_fetch r h n else n in
    let s = maybe_sent (is_empty c.replicas && now) r h n w in
    let c' : FetchContext = record c {
      replicas = if member r c.replicas then c.replicas else r ∷ c.replicas;
    } in
    Waits-trans s (
      contexts-Waits m (write h c' m.blk_fetch_waiting) s.onward.wired (
        All-write (λ i x. IsPromise m.promises m.next_promise fetch i x.promise) h c'
          m.blk_fetch_waiting (Grows-IsPromise s.onward.grows fetch h c.promise p)
          s.onward.wired.fetches))

join-Asked :
    (h : ℕ) (r : Option ℕ) (now : Bool) (c : FetchContext) (n : HotStuffBase)
    → Wired n
    → IsPromise n.promises n.next_promise fetch h c.promise
    → Asked fetch h n (join_fetch h r now c n)
unfolding join_fetch
join-Asked h none now c n w p = record {
  waits = record { onward = Onward-refl n w; core = refl };
  promise = p;
}
join-Asked h (some r) now c n w p =
    let s = add_replica-Waits h r now c n w p in
    record { waits = s; promise = Grows-IsPromise s.onward.grows fetch h c.promise p }

new_promise-core :
    (k : Kind) (h : ℕ) (st : _) (n : HotStuffBase) → (new_promise k h st n).0.core ≡ n.core
unfolding new_promise
new_promise-core k h st n = refl

pub made-Asked :
    (k : Kind) (h : ℕ) (st : _) (n : HotStuffBase)
    → Wired n
    → Good n.core k h st
    → Asked k h n (new_promise k h st n)
made-Asked k h st n w g =
    let (o, p) = new_promise-Onward k h st n w g in
    record { waits = record { onward = o; core = new_promise-core k h st n }; promise = p }

pub Asked-after :
    {k : Kind} {h : ℕ} {n m : HotStuffBase} {r : HotStuffBase × ℕ}
    → Waits n m
    → Asked k h m r
    → Asked k h n r
Asked-after f g = record { waits = Waits-trans f g.waits; promise = g.promise }

first-Asked :
    (h : ℕ) (r : Option ℕ) (now : Bool) (n : HotStuffBase)
    → Wired n
    → let (m, i) = new_promise fetch h pending n in
      let c : FetchContext = record { promise = i; replicas = [] } in
      Asked fetch h n
        (join_fetch h r now c (record m { blk_fetch_waiting = (h, c) ∷ m.blk_fetch_waiting }))
first-Asked h r now n w =
    let (m, i) = new_promise fetch h pending n in
    let c : FetchContext = record { promise = i; replicas = [] } in
    let a = made-Asked fetch h pending n w tt in
    let l = m.blk_fetch_waiting in
    let b =
      contexts-Waits m ((h, c) ∷ l) a.waits.onward.wired
        (a.promise, a.waits.onward.wired.fetches) in
    Asked-after (Waits-trans a.waits b)
      (join-Asked h r now c (record m { blk_fetch_waiting = (h, c) ∷ l }) b.onward.wired a.promise)

pub async_fetch_blk-Asked :
    (h : ℕ) (r : Option ℕ) (now : Bool) (n : HotStuffBase)
    → Wired n
    → Asked fetch h n (async_fetch_blk h r now n)
unfolding async_fetch_blk
async_fetch_blk-Asked h r now n w = elim (Option-cases (find_blk n.core h)) [
  | inr (p, e) ↦ rw (e, async_fetch_blk) (made-Asked fetch h (resolved p) n w e)
  | inl e ↦ elim (Option-cases (lookup h n.blk_fetch_waiting)) [
    | inr (c, f) ↦
        rw (e, f, async_fetch_blk)
          (join-Asked h r now c n w (
            All-lookup (λ i x. IsPromise n.promises n.next_promise fetch i x.promise) h c
              n.blk_fetch_waiting w.fetches f))
    | inl f ↦ rw (e, f, async_fetch_blk) (first-Asked h r now n w)
  ]
]

-- A block that is in the storage resolves the promise of its hash.
pub on_fetch_blk-Waits :
    (p : Ptr) (n : HotStuffBase)
    → Wired n
    → find_blk n.core (n.core.blocks p).hash ≡ some p
    → Waits n (on_fetch_blk p n)
unfolding on_fetch_blk
on_fetch_blk-Waits p n w stored =
    let h = (n.core.blocks p).hash in
    let m : HotStuffBase = record n {
      part_fetched = (n.part_fetched + 1) % 2 ^ 32;
      fetched = (n.fetched + 1) % 2 ^ 64;
    } in
    let wm : Wired m = record {
      good = w.good;
      fetches = w.fetches;
      deliveries = w.deliveries;
      served = w.served;
    } in
    let nm : Waits n m = record { onward = lists-Onward n m refl refl refl wm; core = refl } in
    elim (Option-cases (lookup h n.blk_fetch_waiting)) [
      | inl e ↦ rw (e, on_fetch_blk) nm
      | inr (c, e) ↦
          let P =
            λ (i : ℕ) (x : FetchContext). IsPromise n.promises n.next_promise fetch i x.promise in
          let is = All-lookup P h c n.blk_fetch_waiting w.fetches e in
          let left = remove h n.blk_fetch_waiting in
          let a = contexts-Waits m left wm (All-remove P h n.blk_fetch_waiting w.fetches) in
          let k : HotStuffBase = record m { blk_fetch_waiting = left } in
          let good : Good n.core (n.promises c.promise).kind (n.promises c.promise).about
              (resolved p) =
            subst (λ j. Good n.core j (n.promises c.promise).about (resolved p)) (sym is.kind)
              (subst (λ j. find_blk n.core j ≡ some p) (sym is.about) stored) in
          rw (e, on_fetch_blk)
            (Waits-trans nm (Waits-trans a (settled c.promise (resolved p) k a.onward.wired good)))
    ]
  where
    settled :
        (i : ℕ) (st : _) (k : HotStuffBase)
        → Wired k
        → Good k.core (k.promises i).kind (k.promises i).about st
        → Waits k (settle i st k)
    settled i st k x g = record { onward = settle-Onward i st k x g; core = refl }
