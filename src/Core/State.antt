-- ===== src/Core/State.antt =====
-- The state of HotStuffCore, its outputs, and the monad of its methods.
use archipelago_hotstuff.Base.{
  ℕ, ◌+◌, Bool, false, Option, none, some, List, [], ◌∷◌, update, lookup,
}
use archipelago_hotstuff.Crypto.{QuorumCert, PartCert}
use archipelago_hotstuff.Entity.{Block, Ptr, ReplicaConfig}

pub record Proposal : Type 0 where
  pub proposer : ℕ
  pub blk : Ptr

pub record Vote : Type 0 where
  pub voter : ℕ
  pub blk_hash : ℕ
  pub cert : PartCert

pub record Finality : Type 0 where
  pub rid : ℕ
  pub decision : ℕ
  pub cmd_idx : ℕ
  pub cmd_height : ℕ
  pub cmd_hash : ℕ
  pub blk_hash : ℕ

-- The calls of the virtual functions, and the resolution of the promises that a pace maker waits for.
pub data Event : Type 0 where
  decided : Finality → Event
  committed : Ptr → Event
  broadcast : Proposal → Event
  voted : ℕ → Vote → Event
  qc_finished : Ptr → Event
  proposed : Proposal → Event
  received : Proposal → Event
  hqc_updated : Event

pub data Error : Type 0 where
  block_not_delivered qc_not_fetched safety_breached empty_parents not_above_vheight : Error
  cert_mismatch undefined_behaviour out_of_fuel : Error

-- `blocks` and `next_ptr` are the memory that holds the blocks, `blk_cache` is the storage, and
-- `outputs` lists what was called so far, newest first.
pub record HotStuffCore : Type 0 where
  pub b0 : Ptr
  pub hqc : Ptr × QuorumCert
  pub b_lock : Ptr
  pub b_exec : Ptr
  pub vheight : ℕ
  pub priv_key : ℕ
  pub tails : List Ptr
  pub config : ReplicaConfig
  pub qc_waiting : List Ptr
  pub vote_disabled : Bool
  pub id : ℕ
  pub blk_cache : List (ℕ × Ptr)
  pub blocks : Ptr → Block
  pub next_ptr : Ptr
  pub outputs : List Event

-- An exception keeps the state that it leaves behind.
pub data Res (A : Type 0) : Type 0 where
  ok : A → HotStuffCore → Res A
  throws : Error → HotStuffCore → Res A

abbrev pub M : Type 0 → Type 0
M A = HotStuffCore → Res A

abbrev pub then_run : {A B : Type 0} → Res A → (A → M B) → Res B
then_run (ok a s) f = f a s
then_run (throws e s) f = throws e s

infixl 5 ◌>>=◌ ◌>>◌
abbrev pub ◌>>=◌ : {A B : Type 0} → M A → (A → M B) → M B
◌>>=◌ m f s = then_run (m s) f

abbrev pub ◌>>◌ : {B : Type 0} → M (Unit {0}) → M B → M B
m >> k = m >>= λ _. k

abbrev pub pure : {A : Type 0} → A → M A
pure a s = ok a s

abbrev pub throw : {A : Type 0} → Error → M A
throw e s = throws e s

abbrev pub get : M HotStuffCore
get s = ok s s

abbrev pub modify : (HotStuffCore → HotStuffCore) → M (Unit {0})
modify f s = ok tt (f s)

abbrev pub emit : Event → M (Unit {0})
emit e = modify λ s. record s { outputs = e ∷ s.outputs }

-- A write to the fields of one block.
abbrev pub set_blk : Ptr → Block → HotStuffCore → HotStuffCore
set_blk p b s = record s { blocks = update s.blocks p b }

abbrev pub modify_blk : Ptr → (Block → Block) → M (Unit {0})
modify_blk p f = modify λ s. set_blk p (f (s.blocks p)) s

abbrev pub height : HotStuffCore → Ptr → ℕ
height s p = (s.blocks p).height

-- `blk->parents[0]`, which is undefined on an empty vector.
unfoldable pub parent_of : Ptr → M Ptr
parent_of p s = elim ((s.blocks p).parents) [ [] ↦ throws undefined_behaviour s | q ∷ _ ↦ ok q s ]

-- `EntityStorage::find_blk`.
unfoldable pub find_blk : HotStuffCore → ℕ → Option Ptr
find_blk s h = lookup h s.blk_cache

-- `EntityStorage::is_blk_delivered`
unfoldable pub is_blk_delivered : HotStuffCore → ℕ → Bool
unfolding find_blk
is_blk_delivered s h = elim (find_blk s h) [ none ↦ false | some p ↦ (s.blocks p).delivered ]

-- `EntityStorage::add_blk`: a block whose hash is in the storage is dropped.
unfoldable pub add_blk : Block → M Ptr
unfolding find_blk
add_blk b s = elim (find_blk s b.hash) [
  | some p ↦ ok p s
  | none ↦ ok s.next_ptr (record s {
    blocks = update s.blocks s.next_ptr b;
    blk_cache = (b.hash, s.next_ptr) ∷ s.blk_cache;
    next_ptr = s.next_ptr + 1;
  })
]
