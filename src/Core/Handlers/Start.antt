-- ===== src/Core/Handlers/Start.antt =====
-- The start of a replica: `HotStuffCore` constructed, told its peers, and initialised.
use archipelago_hotstuff.Base.{
  ℕ, suc, ◌+◌, ◌*◌, ◌^◌, ◌≤◌, ◌<◌, ◌≡◌, refl, sym, ap, ◌∙◌, subst, true, some, List, [], ◌∷◌, arith,
  length, lookup-here, lookup-single,
}
use archipelago_hotstuff.Crypto.{QuorumCert, new_quorum_cert}
use archipelago_hotstuff.Entity.{Ptr, ReplicaInfo, config_add_replica}
use archipelago_hotstuff.Core.State.{HotStuffCore, find_blk}
use archipelago_hotstuff.Core.Invariant.{
  IsLive, root, IsRef, IsGood, OwnCert, Sound, Falling, Executed, log,
}
use archipelago_hotstuff.Core.Handlers.Init.{
  new_core, add_replica, add_replicas, on_init, start_core,
}

-- A replica that holds the genesis block alone.
record IsFresh (h : ℕ) (s : HotStuffCore) : Type 0 where
  b0 : s.b0 ≡ 0
  b_lock : s.b_lock ≡ 0
  b_exec : s.b_exec ≡ 0
  vheight : s.vheight ≡ 0
  next_ptr : s.next_ptr ≡ 1
  blk_cache : s.blk_cache ≡ (h, 0) ∷ []
  outputs : s.outputs ≡ []
  hash : (s.blocks 0).hash ≡ h
  delivered : (s.blocks 0).delivered ≡ true
  height : (s.blocks 0).height ≡ 0
  decision : (s.blocks 0).decision ≡ 1

new_core-IsFresh :
    (id priv_key h : ℕ) (unset : Ptr × QuorumCert) → IsFresh h (new_core id priv_key h unset)
unfolding new_core
new_core-IsFresh id priv_key h unset = record {
  b0 = refl;
  b_lock = refl;
  b_exec = refl;
  vheight = refl;
  next_ptr = refl;
  blk_cache = refl;
  outputs = refl;
  hash = refl;
  delivered = refl;
  height = refl;
  decision = refl;
}

add_replica-IsFresh :
    (h : ℕ) (i : ReplicaInfo) (s : HotStuffCore) → IsFresh h s → IsFresh h (add_replica i s)
unfolding add_replica
add_replica-IsFresh h i s f = record {
  b0 = f.b0;
  b_lock = f.b_lock;
  b_exec = f.b_exec;
  vheight = f.vheight;
  next_ptr = f.next_ptr;
  blk_cache = f.blk_cache;
  outputs = f.outputs;
  hash = rw (f.b0) (f.hash);
  delivered = rw (f.b0) (f.delivered);
  height = rw (f.b0) (f.height);
  decision = rw (f.b0) (f.decision);
}

add_replicas-IsFresh :
    (h : ℕ) (is : List ReplicaInfo) (s : HotStuffCore) → IsFresh h s → IsFresh h (add_replicas is s)
unfolding add_replicas
add_replicas-IsFresh h [] s f = f
add_replicas-IsFresh h (i ∷ is) s f =
    add_replicas-IsFresh h is (add_replica i s) (add_replica-IsFresh h i s f)

-- The state behind `on_init`, with the genesis block certified by an empty certificate.
record IsInitial (h : ℕ) (s : HotStuffCore) : Type 0 where
  fresh : IsFresh h s
  hqc : s.hqc.0 ≡ 0
  cert : s.hqc.1.obj_hash ≡ h
  qc : (s.blocks 0).qc ≡ some s.hqc.1
  self_qc : (s.blocks 0).self_qc ≡ some s.hqc.1
  qc_ref : (s.blocks 0).qc_ref ≡ some 0

on_init-IsInitial :
    (h nfaulty : ℕ) (s : HotStuffCore) → IsFresh h s → IsInitial h (on_init nfaulty s)
unfolding on_init new_quorum_cert
on_init-IsInitial h nfaulty s f = record {
  fresh = record {
    b0 = f.b0;
    b_lock = f.b_lock;
    b_exec = f.b_exec;
    vheight = f.vheight;
    next_ptr = f.next_ptr;
    blk_cache = f.blk_cache;
    outputs = f.outputs;
    hash = rw f.b0 f.hash;
    delivered = rw f.b0 f.delivered;
    height = rw f.b0 f.height;
    decision = rw f.b0 f.decision;
  };
  hqc = f.b0;
  cert = rw f.b0 f.hash;
  qc = rw f.b0 refl;
  self_qc = rw f.b0 refl;
  qc_ref = rw f.b0 refl;
}

module _ {h : ℕ} {s : HotStuffCore} (i : IsInitial h s) where
  open i use {fresh}

  genesis-live : IsLive s 0
  genesis-live = record {
    in_memory = omega (arith, fresh.next_ptr);
    is_delivered = fresh.delivered;
  }

  genesis-at : (p : Ptr) → p ≡ 0 → IsLive s p
  genesis-at p e = subst (IsLive s) (sym e) genesis-live

  genesis-IsRef : (q : Ptr) → (s.blocks 0).qc_ref ≡ some q → IsRef s 0 q
  genesis-IsRef q e =
      let z : q ≡ 0 = cc in
      record {
        target = omega (arith, fresh.next_ptr);
        cert = s.hqc.1;
        carried = i.qc;
        certifies = rw z (i.cert ∙ sym fresh.hash);
      }

  genesis-own : OwnCert (s.blocks 0)
  genesis-own qc e =
      let same : qc ≡ s.hqc.1 = cc in ap (λ c. c.obj_hash) same ∙ i.cert ∙ sym fresh.hash

  genesis-IsGood : IsGood 0 s 0
  unfolding find_blk
  genesis-IsGood = record {
    low = omega (arith, fresh.height);
    stored = rw (fresh.hash, fresh.blk_cache) (lookup-here h 0 []);
    link = λ d. root (sym fresh.b0);
    bare = λ d. cc;
    ref = genesis-IsRef;
    own = genesis-own;
    whole = record { cert = s.hqc.1; carried = i.qc; child = λ d. let e = fresh.delivered in cc };
  }

  IsInitial-IsGood : (p : Ptr) → p < s.next_ptr → IsGood 0 s p
  IsInitial-IsGood p lt = subst (IsGood 0 s) (omega (arith, fresh.next_ptr)) genesis-IsGood

  IsInitial-found :
      (n : ℕ) (p : Ptr) → find_blk s n ≡ some p → (p < s.next_ptr) × ((s.blocks p).hash ≡ n)
  unfolding find_blk
  IsInitial-found n p e =
      let (eh, ep) = lookup-single h n 0 p (rw fresh.blk_cache at e) in
      (omega (arith, fresh.next_ptr), rw (← ep, ← eh) fresh.hash)

  IsInitial-Sound : Sound 0 s
  IsInitial-Sound = record {
    inv = record {
      genesis = record {
        live = genesis-at s.b0 fresh.b0;
        flat = rw fresh.b0 fresh.height;
        final = rw fresh.b0 fresh.decision;
      };
      good = IsInitial-IsGood;
      found = IsInitial-found;
      pointers = record {
        locked = genesis-at s.b_lock fresh.b_lock;
        executed = genesis-at s.b_exec fresh.b_exec;
        high = genesis-at s.hqc.0 i.hqc;
        high_cert = i.cert ∙ sym (ap (λ p. (s.blocks p).hash) i.hqc ∙ fresh.hash);
      };
    };
    votes = subst (Falling s (suc s.vheight)) (sym fresh.outputs) tt;
    exec =
        subst (λ es. Executed s s.b_exec (log es)) (sym fresh.outputs)
          (fresh.b_exec ∙ sym fresh.b0);
  }

-- A replica that is constructed, told any peers and initialised for any number of faults is sound.
pub start_core-Sound :
    (id priv_key h : ℕ) (unset : Ptr × QuorumCert) (infos : List ReplicaInfo) (nfaulty : ℕ)
    → Sound 0 (start_core id priv_key h unset infos nfaulty)
unfolding start_core
start_core-Sound id priv_key h unset infos nfaulty = IsInitial-Sound (
    on_init-IsInitial h nfaulty _
      (add_replicas-IsFresh h infos _ (new_core-IsFresh id priv_key h unset)))

add_replicas-nreplicas :
    (is : List ReplicaInfo) (s : HotStuffCore)
    → (add_replicas is s).config.nreplicas ≡ s.config.nreplicas + length is
unfolding add_replicas add_replica config_add_replica
add_replicas-nreplicas [] s = omega arith
add_replicas-nreplicas (i ∷ is) s = omega (arith, add_replicas-nreplicas is (add_replica i s))

-- A replica that starts among `n` peers with `nfaulty ≤ n` and `n < 2 ^ 64` waits for `n - nfaulty` votes.
pub start_core-nmajority :
    (id priv_key h : ℕ) (unset : Ptr × QuorumCert) (infos : List ReplicaInfo) (nfaulty : ℕ)
    → nfaulty ≤ length infos
    → length infos < 2 ^ 64
    → (start_core id priv_key h unset infos nfaulty).config.nmajority + nfaulty ≡ length infos
unfolding start_core on_init new_core
start_core-nmajority id priv_key h unset infos nfaulty le lt =
    let n = add_replicas-nreplicas infos (new_core id priv_key h unset) in omega (arith, n)

-- Any two sets of `nmajority` replicas share more than `nfaulty`, if at most a third is faulty. Here
-- `shared` counts the replicas in both and `either` those in one or both.
pub quorum-intersection :
    (id priv_key h : ℕ) (unset : Ptr × QuorumCert) (infos : List ReplicaInfo) (nfaulty : ℕ)
    (shared either : ℕ)
    → 3 * nfaulty < length infos
    → length infos < 2 ^ 64
    → let m = (start_core id priv_key h unset infos nfaulty).config.nmajority in
      m + m ≤ shared + either → either ≤ length infos → nfaulty < shared
quorum-intersection id priv_key h unset infos nfaulty shared either third lt both fits =
    let e = start_core-nmajority id priv_key h unset infos nfaulty (omega arith) lt in omega arith
