-- ===== src/Network/Start.antt =====
-- The start of a replica among its peers.
use archipelago_hotstuff.Base.{
  ◌≤◌, Bool, true, false, ℕ, suc, ◌+◌, ◌-◌, ◌/◌, ◌%◌, ◌^◌, ◌<◌, ◌≡◌, refl, ap, Bool-cases, List, [],
  ◌∷◌, arith, ◌==◌, inl, inr, if◌then◌else◌, length,
}
use archipelago_hotstuff.Crypto.{QuorumCert}
use archipelago_hotstuff.Entity.{Ptr}
use archipelago_hotstuff.Core.Handlers.Start.{start_core-nmajority}
use archipelago_hotstuff.Network.{ReplicaAddr, infos_from, peers_of, start_base}

length-infos_from : (i : ℕ) (rs : List ReplicaAddr) → length (infos_from i rs) ≡ length rs
unfolding infos_from
length-infos_from i [] = refl
length-infos_from i (r ∷ rs) = ap suc (length-infos_from (i + 1) rs)

-- How many of the replicas listen at the address.
abbrev pub count_addr : ℕ → List ReplicaAddr → ℕ
count_addr a [] = 0
count_addr a (r ∷ rs) = (if r.addr == a then 1 else 0) + count_addr a rs

length-peers_of :
    (a : ℕ) (rs : List ReplicaAddr) → length (peers_of a rs) + count_addr a rs ≡ length rs
unfolding peers_of
length-peers_of a [] = refl
length-peers_of a (r ∷ rs) = elim (Bool-cases (r.addr == a)) [
  | inl y ↦ rw y (omega (arith, length-peers_of a rs))
  | inr n ↦ rw n (omega (arith, length-peers_of a rs))
]

-- The replicas whose bit is set.
abbrev pub count_set : List Bool → ℕ
count_set [] = 0
count_set (true ∷ bits) = 1 + count_set bits
count_set (false ∷ bits) = count_set bits

abbrev bit : (voted_a voted_b faulty : Bool) → ℕ
bit true true false = 1
bit true true true = 0
bit true false _ = 0
bit false _ _ = 0

-- The replicas in both sets that are not faulty.
abbrev pub count_honest : (as1 bs faulty : List Bool) → ℕ
count_honest (a ∷ as1) (b ∷ bs) (z ∷ zs) = bit a b z + count_honest as1 bs zs
count_honest [] _ _ = 0
count_honest (_ ∷ _) [] _ = 0
count_honest (_ ∷ _) (_ ∷ _) [] = 0

count_honest-bound :
    (as1 bs zs : List Bool)
    → length bs ≡ length as1
    → length zs ≡ length as1
    → count_set as1 + count_set bs ≤ length as1 + count_set zs + count_honest as1 bs zs
count_honest-bound [] [] [] p q = omega arith
count_honest-bound [] (_ ∷ _) zs p q = absurd (omega (arith, p))
count_honest-bound [] [] (_ ∷ _) p q = absurd (omega (arith, q))
count_honest-bound (a ∷ as1) [] zs p q = absurd (omega (arith, p))
count_honest-bound (a ∷ as1) (b ∷ bs) [] p q = absurd (omega (arith, q))
count_honest-bound (a ∷ as1) (b ∷ bs) (z ∷ zs) p q =
    let more = count_honest-bound as1 bs zs (omega (arith, p)) (omega (arith, q)) in
    one_more a b z more
  where
    one_more :
        (a b z : Bool)
        → count_set as1 + count_set bs ≤ length as1 + count_set zs + count_honest as1 bs zs
        → count_set (a ∷ as1) + count_set (b ∷ bs)
          ≤ suc (length as1) + count_set (z ∷ zs) + (bit a b z + count_honest as1 bs zs)
    one_more true true true more = omega (arith, more)
    one_more true true false more = omega (arith, more)
    one_more true false true more = omega (arith, more)
    one_more true false false more = omega (arith, more)
    one_more false true true more = omega (arith, more)
    one_more false true false more = omega (arith, more)
    one_more false false true more = omega (arith, more)
    one_more false false false more = omega (arith, more)

-- What a replica waits for that starts among these replicas.
abbrev pub majority : (a id priv_key h : ℕ) → Ptr × QuorumCert → List ReplicaAddr → ℕ
majority a id priv_key h unset rs = (start_base a id priv_key h unset rs).config.nmajority

-- A replica that starts among at most 2^16 replicas, of which it alone listens at its address,
-- waits for so many votes that, with at most a third of the others faulty, those that are not
-- faulty are enough, and any two sets of as many replicas share one that is not faulty; sets of
-- replicas are given by a bit for each replica.
pub start_base-nmajority :
    (listen_addr id priv_key genesis_hash : ℕ) (unset : Ptr × QuorumCert) (rs : List ReplicaAddr)
    (voted_a voted_b faulty : List Bool)
    → count_addr listen_addr rs ≡ 1
    → length rs ≤ 2 ^ 16
    → length voted_a ≡ length rs
    → length voted_b ≡ length rs
    → length faulty ≡ length rs
    → count_set faulty ≤ (length rs - 1) / 3
    → majority listen_addr id priv_key genesis_hash unset rs ≤ count_set voted_a
    → majority listen_addr id priv_key genesis_hash unset rs ≤ count_set voted_b
    → (majority listen_addr id priv_key genesis_hash unset rs ≤ length rs - count_set faulty)
      × (0 < count_honest voted_a voted_b faulty)
unfolding start_base
start_base-nmajority a id priv_key h unset rs va vb zs one small la lb lz few ma mb =
    let is = infos_from 0 rs in
    let n = length-infos_from 0 rs in
    let k = length-peers_of a rs in
    let f = (length (peers_of a rs) / 3) % 2 ^ 32 in
    let e =
      start_core-nmajority id priv_key h unset is f (omega (arith, n, k, one, small))
        (omega (arith, n, small)) in
    let shared = count_honest-bound va vb zs (omega (arith, la, lb)) (omega (arith, la, lz)) in
    (
      omega (arith, e, n, k, one, small, few),
      omega (arith, e, n, k, one, small, few, ma, mb, shared, la),
    )
