-- ===== src/Delivery/Parents.antt =====
-- A delivery asks for its block; the delivery of the parents is asked for one by one.
use archipelago_hotstuff.Base.{
  ℕ, ◌+◌, ◌%◌, ◌^◌, ◌≡◌, refl, sym, subst, Bool, true, false, some, List, [], ◌∷◌, if◌then◌else◌,
  Bool-cases, Option-cases, inl, inr, All, All-lookup, All-remove, lookup, remove, length,
}
use archipelago_hotstuff.Entity.{Ptr}
use archipelago_hotstuff.Core.State.{find_blk}
use archipelago_hotstuff.Core.Invariant.{IsLive}
use archipelago_hotstuff.Delivery.State.{
  delivery, pending, resolved, rejected, Continuation, when_fetched, HotStuffBase,
}
use archipelago_hotstuff.Delivery.Fetch.{new_promise, settle, async_fetch_blk}
use archipelago_hotstuff.Delivery.Deliver.{
  settle_delivery, start_delivery, async_deliver_blk, deliver_all,
}
use archipelago_hotstuff.Delivery.Promises.{
  Good, IsPromise, Deliveries, done, next_parent, IsServed, Wired, Grows-IsPromise,
}
use archipelago_hotstuff.Delivery.Onward.{Onward-refl, settle-Onward, lists-Onward}
use archipelago_hotstuff.Delivery.Waiting.{
  Waits, Waits-trans, Found, Asked, made-Asked, async_fetch_blk-Asked,
}

pub call-Waits :
    (c : Continuation) (n : HotStuffBase)
    → Wired n
    → IsServed n.core n.promises n.next_promise c
    → Waits n (record n { callbacks = c ∷ n.callbacks })
call-Waits c n w x = record {
  onward =
      lists-Onward n (record n { callbacks = c ∷ n.callbacks }) refl refl refl
        (record {
          good = w.good;
          fetches = w.fetches;
          deliveries = w.deliveries;
          served = (x, w.served);
        });
  core = refl;
}

deliveries-Waits :
    (n : HotStuffBase) (m : List (ℕ × ℕ))
    → Wired n
    → All (λ e. IsPromise n.promises n.next_promise delivery e.0 e.1) m
    → Waits n (record n { blk_delivery_waiting = m })
deliveries-Waits n m w a = record {
  onward =
      lists-Onward n (record n { blk_delivery_waiting = m }) refl refl refl
        (record { good = w.good; fetches = w.fetches; deliveries = a; served = w.served });
  core = refl;
}

-- The delivery of a hash that does not wait starts with the fetching of the block.
new_delivery-Asked :
    (h r : ℕ) (n : HotStuffBase)
    → Wired n
    → let (m, i) = new_promise delivery h pending n in
      let (k, f) =
        async_fetch_blk h
          (some r)
          true
          (record m { blk_delivery_waiting = (h, i) ∷ m.blk_delivery_waiting }) in
      Asked delivery h n (record k { callbacks = when_fetched f r ∷ k.callbacks }, i)
new_delivery-Asked h r n w =
    let (m, i) = new_promise delivery h pending n in
    let a = made-Asked delivery h pending n w tt in
    let l = (h, i) ∷ m.blk_delivery_waiting in
    let b =
      deliveries-Waits m l a.waits.onward.wired (a.promise, a.waits.onward.wired.deliveries) in
    let m' : HotStuffBase = record m { blk_delivery_waiting = l } in
    let c = async_fetch_blk-Asked h (some r) true m' b.onward.wired in
    let (k, f) = async_fetch_blk h (some r) true m' in
    let d = call-Waits (when_fetched f r) k c.waits.onward.wired (h, c.promise) in
    record {
      waits = Waits-trans a.waits (Waits-trans b (Waits-trans c.waits d));
      promise = Grows-IsPromise c.waits.onward.grows delivery h i a.promise;
    }

start_delivery-Asked :
    (h r : ℕ) (n : HotStuffBase) → Wired n → Asked delivery h n (start_delivery h r n)
unfolding start_delivery
start_delivery-Asked h r n w = elim (Option-cases (lookup h n.blk_delivery_waiting)) [
  | inl e ↦ rw (e, start_delivery) (new_delivery-Asked h r n w)
  | inr (i, e) ↦
      rw (e, start_delivery)
        (record {
          waits = record { onward = Onward-refl n w; core = refl };
          promise =
              All-lookup (λ j x. IsPromise n.promises n.next_promise delivery j x) h i
                n.blk_delivery_waiting w.deliveries e;
        })
]

pub async_deliver_blk-Asked :
    (h r : ℕ) (n : HotStuffBase)
    → Wired n
    → Found n.core
    → Asked delivery h n (async_deliver_blk h r n)
unfolding async_deliver_blk
async_deliver_blk-Asked h r n w found = elim (Option-cases (find_blk n.core h)) [
  | inl e ↦ rw (e, async_deliver_blk) (start_delivery-Asked h r n w)
  | inr (p, e) ↦ elim (Bool-cases (n.core.blocks p).delivered) [
    | inr d ↦ rw (e, d, async_deliver_blk) (start_delivery-Asked h r n w)
    | inl d ↦
        let live : IsLive n.core p = record { in_memory = found h p e; is_delivered = d } in
        rw (e, d, async_deliver_blk) (made-Asked delivery h (resolved p) n w (e, live))
  ]
]

-- One promise for each parent.
pub record AllAsked (hs : List ℕ) (n : HotStuffBase) (r : HotStuffBase × List ℕ) : Type 0 where
  pub waits : Waits n r.0
  pub promises : Deliveries r.0.promises r.0.next_promise hs r.1

pub deliver_all-AllAsked :
    (hs : List ℕ) (r : ℕ) (n : HotStuffBase)
    → Wired n
    → Found n.core
    → AllAsked hs n (deliver_all hs r n)
unfolding deliver_all
deliver_all-AllAsked [] r n w found = record {
  waits = record { onward = Onward-refl n w; core = refl };
  promises = done;
}
deliver_all-AllAsked (h ∷ hs) r n w found =
    let (m, i) = async_deliver_blk h r n in
    let a = async_deliver_blk-Asked h r n w found in
    let b =
      deliver_all-AllAsked hs r m a.waits.onward.wired (subst Found (sym a.waits.core) found) in
    record {
      waits = Waits-trans a.waits b.waits;
      promises =
          next_parent (Grows-IsPromise b.waits.onward.grows delivery h i a.promise) b.promises;
    }

settled-Waits :
    (i : ℕ) (b : Bool) (p : Ptr) (n : HotStuffBase)
    → Wired n
    → (b ≡ true → Good n.core (n.promises i).kind (n.promises i).about (resolved p))
    → Waits n (settle i (if b then resolved p else rejected) n)
unfolding settle
settled-Waits i true p n w g = record {
  onward = settle-Onward i (resolved p) n w (g refl);
  core = refl;
}
settled-Waits i false p n w g = record { onward = settle-Onward i rejected n w tt; core = refl }

-- The counters of a delivery.
counted : Ptr → Bool → HotStuffBase → HotStuffBase
counted blk valid n =
    if valid
    then record n {
      part_parent_size = (n.part_parent_size + length (n.core.blocks blk).parent_hashes) % 2 ^ 32;
      part_delivered = (n.part_delivered + 1) % 2 ^ 32;
      delivered = (n.delivered + 1) % 2 ^ 64;
    }
    else n

counted-Waits : (p : Ptr) (b : Bool) (n : HotStuffBase) → Wired n → Waits n (counted p b n)
unfolding counted
counted-Waits p true n w = record {
  onward =
      lists-Onward n (counted p true n) refl refl refl (record {
        good = w.good;
        fetches = w.fetches;
        deliveries = w.deliveries;
        served = w.served;
      });
  core = refl;
}
counted-Waits p false n w = record { onward = Onward-refl n w; core = refl }

settle_found-Waits :
    (p : Ptr) (b : Bool) (i : ℕ) (m : HotStuffBase)
    → Wired m
    → lookup (m.core.blocks p).hash m.blk_delivery_waiting ≡ some i
    → (b ≡ true → find_blk m.core (m.core.blocks p).hash ≡ some p)
    → (b ≡ true → IsLive m.core p)
    → Waits m (
        settle i (if b then resolved p else rejected) (record m {
          blk_delivery_waiting = remove (m.core.blocks p).hash m.blk_delivery_waiting;
        }))
settle_found-Waits p b i m w e stored live =
    let h = (m.core.blocks p).hash in
    let P = λ (j x : ℕ). IsPromise m.promises m.next_promise delivery j x in
    let is = All-lookup P h i m.blk_delivery_waiting w.deliveries e in
    let l = remove h m.blk_delivery_waiting in
    let a = deliveries-Waits m l w (All-remove P h m.blk_delivery_waiting w.deliveries) in
    let pr = m.promises i in
    Waits-trans a (
      settled-Waits i b p (record m { blk_delivery_waiting = l }) a.onward.wired
        (λ y.
          subst (λ k. Good m.core k pr.about (resolved p)) (sym is.kind)
            (subst (λ j. find_blk m.core j ≡ some p) (sym is.about) (stored y), live y)))

-- A delivered block resolves the promise of its delivery.
pub settle_delivery-Waits :
    (p : Ptr) (b : Bool) (n : HotStuffBase)
    → Wired n
    → (b ≡ true → find_blk n.core (n.core.blocks p).hash ≡ some p)
    → (b ≡ true → IsLive n.core p)
    → Waits n (settle_delivery p b n)
unfolding settle_delivery counted
settle_delivery-Waits p true n w stored live =
    let a = counted-Waits p true n w in
    elim (Option-cases (lookup (n.core.blocks p).hash n.blk_delivery_waiting)) [
      | inl e ↦ rw (e, settle_delivery) a
      | inr (i, e) ↦
          rw (e, settle_delivery)
            (Waits-trans a
              (settle_found-Waits p true i (counted p true n) a.onward.wired e stored live))
    ]
settle_delivery-Waits p false n w stored live =
    elim (Option-cases (lookup (n.core.blocks p).hash n.blk_delivery_waiting)) [
      | inl e ↦ rw (e, settle_delivery) (record { onward = Onward-refl n w; core = refl })
      | inr (i, e) ↦ rw (e, settle_delivery) (settle_found-Waits p false i n w e stored live)
    ]
