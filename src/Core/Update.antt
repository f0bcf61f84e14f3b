-- ===== src/Core/Update.antt =====
-- HotStuffCore::update_hqc and update (the three-step variant), with the commit of a chain.
pub mod Chain
pub mod Commit
pub mod Laws
pub mod Sound
pub mod ThreeChain
use archipelago_hotstuff.Base.{
  ℕ, zero, suc, ◌+◌, ◌%◌, ◌^◌, Bool, true, false, not, Option, none, some, List, [], ◌∷◌, ◌++◌, ltb,
  ◌==◌, member, erase, if◌then◌else◌, ◌||◌,
}
use archipelago_hotstuff.Crypto.{QuorumCert}
use archipelago_hotstuff.Entity.{Block, Ptr}
use archipelago_hotstuff.Core.State.{
  HotStuffCore, Event, Finality, M, Res, ok, throws, then_run, ◌>>=◌, ◌>>◌, pure, throw, get,
  modify, modify_blk, set_blk, emit, height, parent_of, Error, undefined_behaviour, out_of_fuel,
  safety_breached, decided, committed, hqc_updated,
}

unfoldable pub update_hqc : Ptr → QuorumCert → HotStuffCore → HotStuffCore
update_hqc p qc s =
    if ltb (height s s.hqc.0) (height s p)
    then record s { hqc = (p, qc); outputs = hqc_updated ∷ s.outputs }
    else s

-- `update_hqc(blk2, nblk->qc)`, where cloning a null certificate is undefined.
unfoldable pub update_hqc_by : Ptr → Option QuorumCert → M (Unit {0})
unfolding update_hqc
update_hqc_by p none s =
    if ltb (height s s.hqc.0) (height s p) then throws undefined_behaviour s else ok tt s
update_hqc_by p (some qc) s = ok tt (update_hqc p qc s)

-- The walk from `b` towards the genesis block while it is above `limit`: the blocks it passes,
-- lowest first, and the block where it stops.
unfoldable pub collect : ℕ → ℕ → Ptr → List Ptr → M (List Ptr × Ptr)
collect zero limit b queue s = throws out_of_fuel s
collect (suc fuel) limit b queue s = elim (ltb limit (height s b)) [
  | true ↦ then_run (parent_of b s) (λ q. collect fuel limit q (b ∷ queue))
  | false ↦ ok (queue, b) s
]

-- `do_decide` for the command at index `i`.
unfoldable pub decide_cmd : Ptr → ℕ → ℕ → HotStuffCore → HotStuffCore
decide_cmd p i c s = record s {
  outputs =
      decided (record {
        rid = s.id;
        decision = 1;
        cmd_idx = i % 2 ^ 32;
        cmd_height = height s p;
        cmd_hash = c;
        blk_hash = (s.blocks p).hash;
      })
      ∷ s.outputs;
}

-- One `do_decide` for each command, from index `i`.
unfoldable pub decide_cmds : Ptr → ℕ → List ℕ → HotStuffCore → HotStuffCore
unfolding decide_cmd
decide_cmds p i [] s = s
decide_cmds p i (c ∷ cs) s = decide_cmds p (i + 1) cs (decide_cmd p i c s)

unfoldable pub commit_blk : Ptr → HotStuffCore → HotStuffCore
unfolding decide_cmds
commit_blk p s =
    let t = set_blk p (record (s.blocks p) { decision = 1 }) s in
    decide_cmds p 0 (t.blocks p).cmds (record t { outputs = committed p ∷ t.outputs })

unfoldable pub commit_all : List Ptr → HotStuffCore → HotStuffCore
unfolding commit_blk
commit_all [] s = s
commit_all (p ∷ ps) s = commit_all ps (commit_blk p s)

-- The end of `update`, once `blk` heads a chain of three. The walk is given a round for each height.
unfoldable pub commit_to : Ptr → M (Unit {0})
unfolding collect commit_all
commit_to blk = do
  s ← get
  (queue, b) ← collect (suc (height s blk)) (height s s.b_exec) blk []
  if b == s.b_exec
      then modify (λ t. record (commit_all queue t) { b_exec = blk })
      else throw safety_breached

-- `blk2->parents[0] != blk1 || blk1->parents[0] != blk`
unfoldable pub not_direct : Ptr → Ptr → Ptr → M Bool
unfolding parent_of
not_direct blk2 blk1 blk = do
  q2 ← parent_of blk2
  if q2 == blk1 then (do q1 ← parent_of blk1; pure (not (q1 == blk))) else pure true

unfoldable pub lock : Ptr → HotStuffCore → HotStuffCore
lock blk1 s = if ltb (height s s.b_lock) (height s blk1) then record s { b_lock = blk1 } else s

-- The three stages of `update`, each with its early returns.
unfoldable pub update_commit : Ptr → Ptr → Option Ptr → M (Unit {0})
unfolding not_direct commit_to
update_commit blk2 blk1 none s = ok tt s
update_commit blk2 blk1 (some blk) s =
    if (s.blocks blk).decision == 0
    then (do apart ← not_direct blk2 blk1 blk; if apart then pure tt else commit_to blk) s
    else ok tt s

unfoldable pub update_lock : Ptr → Option Ptr → M (Unit {0})
unfolding lock update_commit
update_lock blk2 none s = ok tt s
update_lock blk2 (some blk1) s =
    if (s.blocks blk1).decision == 0
    then update_commit blk2 blk1 (s.blocks blk1).qc_ref (lock blk1 s)
    else ok tt s

unfoldable pub update_high : Ptr → Option Ptr → M (Unit {0})
unfolding update_hqc_by update_lock
update_high nblk none s = ok tt s
update_high nblk (some blk2) s =
    if (s.blocks blk2).decision == 0
    then then_run (update_hqc_by blk2 (s.blocks nblk).qc s)
        (λ _ t. update_lock blk2 (t.blocks blk2).qc_ref t)
    else ok tt s

unfoldable pub update_blk : Ptr → M (Unit {0})
unfolding update_high
update_blk nblk s = update_high nblk (s.blocks nblk).qc_ref s
