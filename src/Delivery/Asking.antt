-- ===== src/Delivery/Asking.antt =====
-- Whom a replica asks for a block: `async_fetch_blk`, `FetchContext` and `on_fetch_blk`.
use archipelago_hotstuff.Base.{
  ℕ, ◌+◌, ◌≡◌, refl, sym, ap, ◌∙◌, Bool, true, false, ◌||◌, none, some, List, [], ◌∷◌, lookup-here,
  ◌==◌, ==_iff, ==_refl, Bool-cases, inl, inr, if◌then◌else◌, lookup, member, remove, write,
  update_self, Distinct,
}
use archipelago_hotstuff.Entity.{Ptr}
use archipelago_hotstuff.Core.State.{HotStuffCore, find_blk}
use archipelago_hotstuff.Delivery.State.{fetch, pending, resolved, FetchContext, HotStuffBase}
use archipelago_hotstuff.Delivery.Fetch.{
  new_promise, settle, send_fetch, add_replica, join_fetch, async_fetch_blk, send_all_fetch,
  is_empty, timeout_cb, on_fetch_blk,
}
use archipelago_hotstuff.Delivery.Requests.{requests, send_fetch-requests, send_all-requests}

-- The block is fetched for several calls, each of which names a replica.
abbrev pub fetch_from : (hash : ℕ) → List ℕ → HotStuffBase → HotStuffBase
fetch_from h [] n = n
fetch_from h (r ∷ rs) n = fetch_from h rs (async_fetch_blk h (some r) true n).0

-- The block is added to the storage, which makes the core `t`, and is found to have come.
abbrev pub arrives : Ptr → HotStuffCore → HotStuffBase → HotStuffBase
arrives p t n = on_fetch_blk p (record n { core = t })

-- The replica is added to the set.
abbrev with_replica : ℕ → List ℕ → List ℕ
with_replica x rs = if member x rs then rs else x ∷ rs

member-with_replica :
    (z x : ℕ) (rs : List ℕ) → member z (with_replica x rs) ≡ ((x == z) || member z rs)
member-with_replica z x rs = elim (Bool-cases (member x rs)) [
  | inl e ↦ elim (Bool-cases (x == z)) [
    | inl h ↦ rw (e, h) (ap (λ y. member y rs) (sym ((==_iff x z).0 h)) ∙ e)
    | inr h ↦ rw (e, h) refl
  ]
  | inr e ↦ rw e refl
]

with_replica-Distinct : (x : ℕ) (rs : List ℕ) → Distinct rs → Distinct (with_replica x rs)
with_replica-Distinct x rs d = elim (Bool-cases (member x rs)) [
  | inl e ↦ rw e d
  | inr e ↦ rw e (e, d)
]

-- The block is fetched: `c` is the context of its hash.
record Fetching (h : ℕ) (rest : List (ℕ × FetchContext)) (c : FetchContext) (n : HotStuffBase)
    : Type 0 where
  absent : find_blk n.core h ≡ none
  waiting : n.blk_fetch_waiting ≡ (h, c) ∷ rest
  distinct : Distinct c.replicas
  asked : is_empty c.replicas ≡ false

abbrev joined : ℕ → FetchContext → FetchContext
joined x c = record c { replicas = with_replica x c.replicas }

write-here :
    (h : ℕ) (c d : FetchContext) (rest : List (ℕ × FetchContext))
    → write h d ((h, c) ∷ rest) ≡ (h, d) ∷ rest
unfolding write
write-here h c d rest = rw (==_refl h) refl

remove-here :
    (h : ℕ) (c : FetchContext) (rest : List (ℕ × FetchContext)) → remove h ((h, c) ∷ rest) ≡ rest
unfolding remove
remove-here h c rest = rw (==_refl h) refl

still_asked : (x : ℕ) (rs : List ℕ) → is_empty rs ≡ false → is_empty (with_replica x rs) ≡ false
still_asked x rs e = elim (Bool-cases (member x rs)) [ inl h ↦ rw h e | inr h ↦ rw h refl ]

named : (a b : Bool) → (a || (b || false)) ≡ (b || a)
named true true = refl
named true false = refl
named false true = refl
named false false = refl

swap : (a b c : Bool) → (a || (b || c)) ≡ ((b || a) || c)
swap true true c = refl
swap true false c = refl
swap false true c = refl
swap false false c = refl

module _ {h : ℕ} {rest : List (ℕ × FetchContext)} {c : FetchContext} {n : HotStuffBase}
    (f : Fetching h rest c n) where
  found : lookup h n.blk_fetch_waiting ≡ some c
  found = ap (lookup h) f.waiting ∙ lookup-here h c rest

  join-run :
      (x : ℕ)
      → (async_fetch_blk h (some x) true n).0
        ≡ record n { blk_fetch_waiting = (h, joined x c) ∷ rest }
  unfolding async_fetch_blk join_fetch add_replica
  join-run x =
      let at = ap (write h (joined x c)) f.waiting ∙ write-here h c (joined x c) rest in
      rw (f.absent, found, f.asked, async_fetch_blk)
        (ap (λ w. record n { blk_fetch_waiting = w }) at)

  join-Fetching :
      (x : ℕ)
      → let m = (async_fetch_blk h (some x) true n).0 in
        Fetching h rest (joined x c) m × (m.sent ≡ n.sent)
  join-Fetching x = rw (join-run x) (
    record {
      absent = f.absent;
      waiting = refl;
      distinct = with_replica-Distinct x c.replicas f.distinct;
      asked = still_asked x c.replicas f.asked;
    },
    refl,
  )

  timeout-run : timeout_cb h n ≡ send_all_fetch h c.replicas n
  unfolding timeout_cb
  timeout-run = rw (found, timeout_cb) refl

-- What became of the context after further calls that named the replicas `rs`.
record Joined (h : ℕ) (rest : List (ℕ × FetchContext)) (c : FetchContext) (n : HotStuffBase)
    (rs : List ℕ) (m : HotStuffBase) : Type 0 where
  later : FetchContext
  fetching : Fetching h rest later m
  silent : m.sent ≡ n.sent
  same : later.promise ≡ c.promise
  replicas : (z : ℕ) → member z later.replicas ≡ (member z rs || member z c.replicas)

fetch_from-Joined :
    (h : ℕ) {rest : List (ℕ × FetchContext)} (rs : List ℕ) {c : FetchContext} (n : HotStuffBase)
    → Fetching h rest c n
    → Joined h rest c n rs (fetch_from h rs n)
fetch_from-Joined h [] {c} n f = record {
  later = c;
  fetching = f;
  silent = refl;
  same = refl;
  replicas = λ z. refl;
}
fetch_from-Joined h (r ∷ rs) {c} n f =
    let (g, quiet) = join-Fetching f r in
    let j = fetch_from-Joined h rs (async_fetch_blk h (some r) true n).0 g in
    record {
      later = j.later;
      fetching = j.fetching;
      silent = j.silent ∙ quiet;
      same = j.same;
      replicas = λ z.
          j.replicas z
          ∙ ap (λ b. member z rs || b) (member-with_replica z r c.replicas)
          ∙ swap (member z rs) (r == z) (member z c.replicas);
    }

-- The first call makes the promise and asks its replica.
record Begun (h r : ℕ) (n m : HotStuffBase) (i : ℕ) : Type 0 where
  fetching : Fetching h n.blk_fetch_waiting (record { promise = i; replicas = r ∷ [] }) m
  asks_once : (x : ℕ) → requests h x m.sent ≡ (if r == x then 1 else 0) + requests h x n.sent

async_fetch_blk-Begun :
    (h r : ℕ) (n : HotStuffBase)
    → find_blk n.core h ≡ none
    → lookup h n.blk_fetch_waiting ≡ none
    → let (m, i) = async_fetch_blk h (some r) true n in Begun h r n m i
unfolding async_fetch_blk join_fetch add_replica new_promise send_fetch
async_fetch_blk-Begun h r n absent fresh =
    let (m, i) = new_promise fetch h pending n in
    let c : FetchContext = record { promise = i; replicas = [] } in
    let k : HotStuffBase = record m { blk_fetch_waiting = (h, c) ∷ m.blk_fetch_waiting } in
    rw (absent, fresh, async_fetch_blk)
      (record {
        fetching = record {
          absent = absent;
          waiting = write-here h c (record { promise = i; replicas = r ∷ [] }) n.blk_fetch_waiting;
          distinct = (refl, tt);
          asked = refl;
        };
        asks_once = λ x. send_fetch-requests h x r k;
      })

-- What the replica does until block `p` has come.
pub record Fetched (h r : ℕ) (rs : List ℕ) (p : Ptr) (t : HotStuffCore) (n : HotStuffBase)
    : Type 0 where
  pub at_once :
      (x : ℕ)
      → requests h x (fetch_from h (r ∷ rs) n).sent
        ≡ (if r == x then 1 else 0) + requests h x n.sent
  pub at_timeout :
      (x : ℕ)
      → let m = fetch_from h (r ∷ rs) n in
        requests h x (timeout_cb h m).sent
        ≡ (if member x (r ∷ rs) then 1 else 0) + requests h x m.sent
  pub arrived :
      ((arrives p t (fetch_from h (r ∷ rs) n)).promises
        (async_fetch_blk h (some r) true n).1).status
      ≡ resolved p
  pub silent : let m = fetch_from h (r ∷ rs) n in (timeout_cb h (arrives p t m)).sent ≡ m.sent

arrive-Fetched :
    (h : ℕ) {rest : List (ℕ × FetchContext)} {c : FetchContext} (p : Ptr) (t : HotStuffCore)
    (m : HotStuffBase)
    → Fetching h rest c m
    → (t.blocks p).hash ≡ h
    → lookup h rest ≡ none
    → (((arrives p t m).promises c.promise).status ≡ resolved p)
      × ((timeout_cb h (arrives p t m)).sent ≡ m.sent)
unfolding on_fetch_blk settle timeout_cb
arrive-Fetched h {rest} {c} p t m f same fresh =
    let at : lookup (t.blocks p).hash m.blk_fetch_waiting ≡ some c =
      ap (λ k. lookup k m.blk_fetch_waiting) same ∙ found f in
    let out : remove (t.blocks p).hash m.blk_fetch_waiting ≡ rest =
      ap (λ k. remove k m.blk_fetch_waiting) same
      ∙ ap (remove h) f.waiting
      ∙ remove-here h c rest in
    rw (at, out, fresh, on_fetch_blk, timeout_cb)
      (
        ap (λ x. x.status)
            (update_self m.promises c.promise
              (record (m.promises c.promise) { status = resolved p })),
        rw (at, on_fetch_blk) refl,
      )

-- A block that is not in the storage is fetched for several calls, of which the first names replica
-- `r` and the others the replicas `rs`, and then arrives with its hash: replica `r` alone is asked
-- at once, and once; a timeout before the block has come asks each replica that was named exactly
-- once; with the block the promise of the first call is resolved, and a timeout asks nobody.
pub async_fetch_blk-Fetched :
    (h r : ℕ) (rs : List ℕ) (p : Ptr) (t : HotStuffCore) (n : HotStuffBase)
    → find_blk n.core h ≡ none
    → lookup h n.blk_fetch_waiting ≡ none
    → (t.blocks p).hash ≡ h
    → Fetched h r rs p t n
async_fetch_blk-Fetched h r rs p t n absent fresh same =
    let b = async_fetch_blk-Begun h r n absent fresh in
    let j = fetch_from-Joined h rs (async_fetch_blk h (some r) true n).0 b.fetching in
    let m = fetch_from h (r ∷ rs) n in
    let a = arrive-Fetched h p t m j.fetching same fresh in
    record {
      at_once = λ x. ap (requests h x) j.silent ∙ b.asks_once x;
      at_timeout = λ x.
          ap (λ k. requests h x k.sent) (timeout-run j.fetching)
          ∙ send_all-requests h x j.later.replicas m j.fetching.distinct
          ∙ ap (λ b. (if b then 1 else 0) + requests h x m.sent)
              (j.replicas x ∙ named (member x rs) (r == x));
      arrived = ap (λ i. ((arrives p t m).promises i).status) (sym j.same) ∙ a.0;
      silent = a.1;
    }
