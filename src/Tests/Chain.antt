-- ===== src/Tests/Chain.antt =====
-- A replica that holds a chain of five blocks, each certified by the next one.
use archipelago_hotstuff.Base.{
  ℕ, zero, suc, ◌+◌, ◌<◌, ◌≡◌, refl, sym, ap, ◌∙◌, true, false, none, some, List, [], ◌∷◌, arith,
  ◌==◌, lookup, lookup-All, length,
}
use archipelago_hotstuff.Crypto.{QuorumCert, Library}
use archipelago_hotstuff.Entity.{Block, Ptr, ReplicaConfig, ReplicaInfo}
use archipelago_hotstuff.Core.State.{HotStuffCore, Proposal, Vote, find_blk}
use archipelago_hotstuff.Core.Invariant.{IsLive, IsChild, Link, root, above, IsRef, IsGood, Sound}
use archipelago_hotstuff.Core.Update.ThreeChain.{ThreeChain}

-- A library whose signatures are sums.
abbrev pub plain : Library
plain = record {
  sign = λ k d. k + d;
  ecdsa_verify = λ sig d pub_key. sig == pub_key + d;
  block_digest = λ hashes cmds qc extra. 1000 + length hashes + length cmds;
  set_outside = λ i bits. bits;
}

abbrev pub no_sigs : ℕ → QuorumCert
no_sigs h = record { obj_hash = h; rids = false ∷ false ∷ false ∷ false ∷ []; sigs = [] }

abbrev pub chain_block : Ptr → Block
chain_block zero = record {
  parent_hashes = [];
  cmds = [];
  qc = some (no_sigs 100);
  extra = [];
  hash = 100;
  parents = [];
  qc_ref = some 0;
  self_qc = some (no_sigs 100);
  height = 0;
  delivered = true;
  decision = 1;
  voted = 3 ∷ 2 ∷ 1 ∷ 0 ∷ [];
}
chain_block (suc p) = record {
  parent_hashes = (100 + p) ∷ [];
  cmds = 7 ∷ [];
  qc = some (no_sigs (100 + p));
  extra = [];
  hash = 101 + p;
  parents = p ∷ [];
  qc_ref = some p;
  self_qc = none;
  height = suc p;
  delivered = true;
  decision = 0;
  voted = [];
}

abbrev pub four : ReplicaConfig
four = record { replica_map = []; nreplicas = 4; nmajority = 3 }

abbrev pub chain_cache : List (ℕ × Ptr)
chain_cache = (104, 4) ∷ (103, 3) ∷ (102, 2) ∷ (101, 1) ∷ (100, 0) ∷ []

abbrev pub chain : HotStuffCore
chain = record {
  b0 = 0;
  hqc = (0, no_sigs 100);
  b_lock = 0;
  b_exec = 0;
  vheight = 0;
  priv_key = 5;
  tails = 4 ∷ [];
  config = four;
  qc_waiting = 3 ∷ [];
  vote_disabled = false;
  id = 0;
  blk_cache = chain_cache;
  blocks = chain_block;
  next_ptr = 5;
  outputs = [];
}

abbrev pub chain-live : (p : Ptr) → p < 5 → IsLive chain p
chain-live zero lt = record { in_memory = lt; is_delivered = refl }
chain-live (suc p) lt = record { in_memory = lt; is_delivered = refl }

chain-stored : (p : Ptr) → p < 5 → find_blk chain (chain_block p).hash ≡ some p
unfolding find_blk lookup
chain-stored zero lt = refl
chain-stored (suc zero) lt = refl
chain-stored (suc (suc zero)) lt = refl
chain-stored (suc (suc (suc zero))) lt = refl
chain-stored (suc (suc (suc (suc zero)))) lt = refl
chain-stored (suc (suc (suc (suc (suc p))))) lt = absurd (omega arith)

pub chain_height : (p : Ptr) → (chain_block p).height ≡ p
chain_height zero = refl
chain_height (suc p) = refl

chain-Link : (p : Ptr) → p < 5 → Link chain p
chain-Link zero lt = root refl
chain-Link (suc p) lt = above p [] refl (chain-live p (omega arith)) (ap suc (sym (chain_height p)))

zero_some : (q : Ptr) → some 0 ≡ some q → 0 ≡ q
zero_some q e = cc

chain_hash : (p : Ptr) → (chain_block p).hash ≡ 100 + p
chain_hash zero = refl
chain_hash (suc p) = omega arith

entry : (p : Ptr) → p < 5 → (p < 5) × ((chain_block p).hash ≡ 100 + p)
entry p lt = (lt, chain_hash p)

chain-IsRef : (p q : Ptr) → p < 5 → (chain_block p).qc_ref ≡ some q → IsRef chain p q
chain-IsRef zero q lt e = record {
  target = omega (arith, zero_some q e);
  cert = no_sigs 100;
  carried = refl;
  certifies = ap (λ p. (chain_block p).hash) (zero_some q e);
}
chain-IsRef (suc p) q lt e =
    let same : p ≡ q = cc in
    record {
      target = omega arith;
      cert = no_sigs (100 + p);
      carried = refl;
      certifies = sym (chain_hash p) ∙ ap (λ p. (chain_block p).hash) same;
    }

chain-IsGood : (p : Ptr) → p < 5 → IsGood 5 chain p
chain-IsGood zero lt = record {
  low = omega arith;
  stored = chain-stored 0 lt;
  link = λ _. chain-Link 0 lt;
  bare = λ d. cc;
  ref = λ q e. chain-IsRef 0 q lt e;
  own = λ qc e. let same : no_sigs 100 ≡ qc = cc in sym (ap (λ c. c.obj_hash) same);
  whole = record { cert = no_sigs 100; carried = refl; child = λ d. cc };
}
chain-IsGood (suc p) lt = record {
  low = omega arith;
  stored = chain-stored (suc p) lt;
  link = λ _. chain-Link (suc p) lt;
  bare = λ d. cc;
  ref = λ q e. chain-IsRef (suc p) q lt e;
  own = λ qc e. cc;
  whole = record { cert = no_sigs (100 + p); carried = refl; child = λ d. cc };
}

pub chain-Sound : Sound 5 chain
unfolding find_blk
chain-Sound = record {
  inv = record {
    genesis = record { live = chain-live 0 (omega arith); flat = refl; final = refl };
    good = chain-IsGood;
    found = λ h p e.
        lookup-All (λ h p. (p < 5) × ((chain_block p).hash ≡ h)) h p chain_cache
          (
            entry 4 (omega arith),
            (
              entry 3 (omega arith),
              (entry 2 (omega arith), (entry 1 (omega arith), (entry 0 (omega arith), tt))),
            ),
          )
          e;
    pointers = record {
      locked = chain-live 0 (omega arith);
      executed = chain-live 0 (omega arith);
      high = chain-live 0 (omega arith);
      high_cert = refl;
    };
  };
  votes = tt;
  exec = refl;
}

abbrev pub next_proposal : Proposal
next_proposal = record { proposer = 1; blk = 4 }

abbrev pub vote_by : ℕ → ℕ → Vote
vote_by voter h = record {
  voter = voter;
  blk_hash = h;
  cert = record { obj_hash = h; sig = 5 + h };
}

abbrev pub peers : List ReplicaInfo
peers =
    record { id = 0; peer_id = 10; pubkey = 5 }
    ∷ record { id = 1; peer_id = 11; pubkey = 6 }
    ∷ record { id = 2; peer_id = 12; pubkey = 7 }
    ∷ record { id = 3; peer_id = 13; pubkey = 8 }
    ∷ []

abbrev pub chain-child : (p : Ptr) → suc p < 5 → IsChild chain (suc p) p
chain-child p lt = record {
  rest = [];
  parents = refl;
  live = chain-live (suc p) lt;
  parent = chain-live p (omega arith);
  step = ap suc (sym (chain_height p));
}

abbrev pub chain-ThreeChain : ThreeChain chain 4 3 2 1
chain-ThreeChain = record {
  live = chain-live 4 (omega arith);
  ref2 = refl;
  ref1 = refl;
  ref0 = refl;
  child2 = chain-child 2 (omega arith);
  child1 = chain-child 1 (omega arith);
  open2 = refl;
  open1 = refl;
  open0 = refl;
}
