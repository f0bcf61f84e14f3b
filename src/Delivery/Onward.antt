-- ===== src/Delivery/Onward.antt =====
-- What a change of the core, of the promises or of the lists keeps of the network layer.
use archipelago_hotstuff.Base.{
  ℕ, ◌+◌, ◌≡◌, refl, sym, ap, ◌∙◌, subst, ◌==◌, ==_iff, Bool-cases, inl, inr, update, update_self,
  update_ne, arith,
}
use archipelago_hotstuff.Core.State.{HotStuffCore}
use archipelago_hotstuff.Core.Invariant.{Keeps}
use archipelago_hotstuff.Core.Frame.{Keeps-refl, Keeps-trans}
use archipelago_hotstuff.Delivery.State.{Kind, fetch, delivery, Status, Promise, HotStuffBase}
use archipelago_hotstuff.Delivery.Fetch.{new_promise, settle}
use archipelago_hotstuff.Delivery.Promises.{
  map_All, Good, Grows, Grows-IsPromise, Grows-IsServed, IsPromise, Keeps-Good, Wired,
}

-- A step of the network layer that keeps the promises wired.
pub record Onward (n m : HotStuffBase) : Type 0 where
  pub core : Keeps n.core m.core
  pub grows : Grows n.promises n.next_promise m.promises m.next_promise
  pub wired : Wired m

pub Grows-refl : (ps : ℕ → Promise) (next : ℕ) → Grows ps next ps next
Grows-refl ps next = record { grown = omega arith; same = λ i l. (refl, refl) }

pub Grows-trans :
    {ps qs rs : ℕ → Promise} {a b c : ℕ} → Grows ps a qs b → Grows qs b rs c → Grows ps a rs c
Grows-trans f g = record {
  grown = omega (arith, f.grown, g.grown);
  same = λ i l.
      let (k, h) = f.same i l in
      let (k', h') = g.same i (omega (arith, l, f.grown)) in (k' ∙ k, h' ∙ h);
}

pub Onward-refl : (n : HotStuffBase) → Wired n → Onward n n
Onward-refl n w = record {
  core = Keeps-refl n.core;
  grows = Grows-refl n.promises n.next_promise;
  wired = w;
}

pub Onward-trans : {n m k : HotStuffBase} → Onward n m → Onward m k → Onward n k
Onward-trans f g = record {
  core = Keeps-trans f.core g.core;
  grows = Grows-trans f.grows g.grows;
  wired = g.wired;
}

-- The core moves on.
pub core-Onward :
    (n : HotStuffBase) (t : HotStuffCore)
    → Wired n
    → Keeps n.core t
    → Onward n (record n { core = t })
core-Onward n t w k =
    let g = Grows-refl n.promises n.next_promise in
    record {
      core = k;
      grows = g;
      wired = record {
        good = λ i. Keeps-Good _ _ _ k (w.good i);
        fetches = w.fetches;
        deliveries = w.deliveries;
        served = map_All (λ c. Grows-IsServed g c k) n.callbacks w.served;
      };
    }

-- The table of promises moves on.
table-Onward :
    (n : HotStuffBase) (qs : ℕ → Promise) (later : ℕ)
    → Wired n
    → Grows n.promises n.next_promise qs later
    → ((i : ℕ) → Good n.core (qs i).kind (qs i).about (qs i).status)
    → Onward n (record n { promises = qs; next_promise = later })
table-Onward n qs later w g good = record {
  core = Keeps-refl n.core;
  grows = g;
  wired = record {
    good = good;
    fetches = map_All (λ e. Grows-IsPromise g fetch e.0 e.1.promise) n.blk_fetch_waiting w.fetches;
    deliveries =
        map_All (λ e. Grows-IsPromise g delivery e.0 e.1) n.blk_delivery_waiting w.deliveries;
    served = map_All (λ c. Grows-IsServed g c (Keeps-refl n.core)) n.callbacks w.served;
  };
}

pub new_promise-Onward :
    (k : Kind) (h : ℕ) (st : Status) (n : HotStuffBase)
    → Wired n
    → Good n.core k h st
    → let (m, i) = new_promise k h st n in Onward n m × IsPromise m.promises m.next_promise k h i
unfolding new_promise
new_promise-Onward k h st n w g =
    let x : Promise = record { kind = k; about = h; status = st } in
    let qs = update n.promises n.next_promise x in
    let here : qs n.next_promise ≡ x = update_self n.promises n.next_promise x in
    (
      table-Onward n qs (n.next_promise + 1) w
          (record {
            grown = omega arith;
            same = λ i l.
                let e : qs i ≡ n.promises i =
                  update_ne n.promises n.next_promise x i (λ z. omega arith) in
                (ap (λ p. p.kind) e, ap (λ p. p.about) e);
          })
          (λ i. elim (Bool-cases (i == n.next_promise)) [
            | inl e ↦ rw e g
            | inr e ↦ rw e (w.good i)
          ]),
      record { made = omega arith; kind = ap (λ p. p.kind) here; about = ap (λ p. p.about) here },
    )

pub settle-Onward :
    (i : ℕ) (st : Status) (n : HotStuffBase)
    → Wired n
    → Good n.core (n.promises i).kind (n.promises i).about st
    → Onward n (settle i st n)
unfolding settle
settle-Onward i st n w g =
    let x : Promise = record (n.promises i) { status = st } in
    let qs = update n.promises i x in
    table-Onward n qs n.next_promise w
      (record {
        grown = omega arith;
        same = λ j l. elim (Bool-cases (j == i)) [
          | inl e ↦ rw (e, (==_iff j i).0 e) (refl, refl)
          | inr e ↦ rw e (refl, refl)
        ];
      })
      (λ j. elim (Bool-cases (j == i)) [ inl e ↦ rw e g | inr e ↦ rw e (w.good j) ])

-- What waits, and the callbacks, are changed.
pub lists-Onward :
    (n m : HotStuffBase)
    → m.core ≡ n.core
    → m.promises ≡ n.promises
    → m.next_promise ≡ n.next_promise
    → Wired m
    → Onward n m
lists-Onward n m c p e w = record {
  core = subst (Keeps n.core) (sym c) (Keeps-refl n.core);
  grows =
      subst (λ ps. Grows n.promises n.next_promise ps m.next_promise) (sym p)
        (subst (Grows n.promises n.next_promise n.promises) (sym e)
          (Grows-refl n.promises n.next_promise));
  wired = w;
}
