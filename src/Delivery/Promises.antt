-- ===== src/Delivery/Promises.antt =====
-- What the promises of the network layer stand for: a resolved one has the block it is about, in the
-- storage, and delivered if it is one for a delivery.
use archipelago_hotstuff.Base.{
  Bool, true, ℕ, ◌≤◌, ◌<◌, ◌≡◌, sym, ◌∙◌, subst, some, List, [], ◌∷◌, All, arith,
}
use archipelago_hotstuff.Crypto.{QuorumCert}
use archipelago_hotstuff.Core.State.{HotStuffCore, find_blk}
use archipelago_hotstuff.Core.Invariant.{IsLive, Keeps}
use archipelago_hotstuff.Core.Frame.{Keeps-live}
use archipelago_hotstuff.Delivery.State.{
  Kind, fetch, delivery, pool, Status, pending, rejected, resolved, verified, Promise, Continuation,
  when_fetched, when_all, when_proposed, when_voted, when_requested, HotStuffBase,
}

-- What the value of a promise for the hash `h` says.
abbrev pub Good : HotStuffCore → Kind → ℕ → Status → Type 0
Good s k h pending = Unit {0}
Good s k h rejected = Unit {0}
Good s fetch h (verified b) = Unit {0}
Good s delivery h (verified b) = Unit {0}
Good s (pool c) h (verified b) = b ≡ c
Good s fetch h (resolved p) = find_blk s h ≡ some p
Good s delivery h (resolved p) = (find_blk s h ≡ some p) × IsLive s p
Good s (pool c) h (resolved p) = Unit {0}

-- Promise `i` of a table is for the hash `h`.
pub record IsPromise (ps : ℕ → Promise) (next : ℕ) (k : Kind) (h i : ℕ) : Type 0 where
  pub made : i < next
  pub kind : (ps i).kind ≡ k
  pub about : (ps i).about ≡ h

-- The promises `is` are for the deliveries of the hashes.
pub data Deliveries (ps : ℕ → Promise) (next : ℕ) : List ℕ → List ℕ → Type 0 where
  done : Deliveries ps next [] []
  next_parent :
      {h i : ℕ} {hs is : List ℕ}
      → IsPromise ps next delivery h i
      → Deliveries ps next hs is
      → Deliveries ps next (h ∷ hs) (i ∷ is)

-- The promises of a callback are those of its block.
abbrev pub IsServed : HotStuffCore → (ℕ → Promise) → ℕ → Continuation → Type 0
IsServed s ps next (when_fetched f r) = (h : ℕ) × IsPromise ps next fetch h f
IsServed s ps next (when_all p v f ds) =
    (p < s.next_ptr)
    × (qc : QuorumCert) × ((s.blocks p).qc ≡ some qc)
    × IsPromise ps next fetch qc.obj_hash f
    × Deliveries ps next (s.blocks p).parent_hashes ds
IsServed s ps next (when_proposed d prop) =
    (h : ℕ) × IsPromise ps next delivery h d × (find_blk s h ≡ some prop.blk)
IsServed s ps next (when_voted d v vote) =
    IsPromise ps next delivery vote.blk_hash d
    × (b : Bool) × IsPromise ps next (pool b) 0 v
    × (b ≡ true → vote.cert.obj_hash ≡ vote.blk_hash)
IsServed s ps next (when_requested r fs) = Unit {0}

pub record Wired (n : HotStuffBase) : Type 0 where
  pub good : (i : ℕ) → Good n.core (n.promises i).kind (n.promises i).about (n.promises i).status
  pub fetches :
      All (λ e. IsPromise n.promises n.next_promise fetch e.0 e.1.promise) n.blk_fetch_waiting
  pub deliveries :
      All (λ e. IsPromise n.promises n.next_promise delivery e.0 e.1) n.blk_delivery_waiting
  pub served : All (IsServed n.core n.promises n.next_promise) n.callbacks

-- What stays of a table of promises.
pub record Grows (ps : ℕ → Promise) (next : ℕ) (qs : ℕ → Promise) (later : ℕ) : Type 0 where
  pub grown : next ≤ later
  pub same : (i : ℕ) → i < next → ((qs i).kind ≡ (ps i).kind) × ((qs i).about ≡ (ps i).about)

pub map_All {ℓ κ} :
    {A : Type ℓ} {P Q : A → Type κ} (f : (a : A) → P a → Q a) (xs : List A) → All P xs → All Q xs
map_All f [] a = tt
map_All f (x ∷ xs) (a, more) = (f x a, map_All f xs more)

module _ {ps qs : ℕ → Promise} {next later : ℕ} (g : Grows ps next qs later) where
  pub Grows-IsPromise : (k : Kind) (h i : ℕ) → IsPromise ps next k h i → IsPromise qs later k h i
  Grows-IsPromise k h i p = record {
    made = omega (arith, g.grown, p.made);
    kind = (g.same i p.made).0 ∙ p.kind;
    about = (g.same i p.made).1 ∙ p.about;
  }

  pub Grows-Deliveries : {hs is : List ℕ} → Deliveries ps next hs is → Deliveries qs later hs is
  Grows-Deliveries done = done
  Grows-Deliveries (next_parent p ds) = next_parent (Grows-IsPromise _ _ _ p) (Grows-Deliveries ds)

  pub Grows-IsServed :
      {s t : HotStuffCore} (c : Continuation)
      → Keeps s t
      → IsServed s ps next c
      → IsServed t qs later c
  Grows-IsServed (when_fetched f r) k (h, p) = (h, Grows-IsPromise fetch h f p)
  Grows-IsServed (when_all p v f ds) k (lt, qc, e, q, parents) =
      let c = k.contents p lt in
      (
        omega (arith, lt, k.grown),
        qc,
        c.qc ∙ e,
        Grows-IsPromise fetch qc.obj_hash f q,
        subst (λ hs. Deliveries qs later hs ds) (sym c.parent_hashes) (Grows-Deliveries parents),
      )
  Grows-IsServed (when_proposed d prop) k (h, p, e) =
      (h, Grows-IsPromise delivery h d p, k.found h prop.blk e)
  Grows-IsServed (when_voted d v vote) k (p, b, q, e) =
      (Grows-IsPromise delivery vote.blk_hash d p, b, Grows-IsPromise (pool b) 0 v q, e)
  Grows-IsServed (when_requested r fs) k x = tt

pub Keeps-Good :
    {s t : HotStuffCore} (k : Kind) (h : ℕ) (st : Status)
    → Keeps s t
    → Good s k h st
    → Good t k h st
Keeps-Good k h pending x g = tt
Keeps-Good k h rejected x g = tt
Keeps-Good fetch h (verified b) x g = tt
Keeps-Good delivery h (verified b) x g = tt
Keeps-Good (pool c) h (verified b) x g = g
Keeps-Good fetch h (resolved p) x g = x.found h p g
Keeps-Good delivery h (resolved p) x (g, l) = (x.found h p g, Keeps-live p x l)
Keeps-Good (pool c) h (resolved p) x g = tt
