-- ===== src/Delivery/State.antt =====
-- The state of HotStuffBase: hotstuff/include/hotstuff/hotstuff.h.
use archipelago_hotstuff.Base.{ℕ, Bool, false, Option, none, List, []}
use archipelago_hotstuff.Entity.{Ptr}
use archipelago_hotstuff.Core.State.{HotStuffCore, Error, Proposal, Vote}

-- What a promise is for: a block, its delivery, or a verification with the result it will have.
pub data Kind : Type 0 where
  fetch delivery : Kind
  pool : (result : Bool) → Kind

pub data Status : Type 0 where
  pending rejected : Status
  resolved : Ptr → Status
  verified : Bool → Status

-- A promise for the block with the hash `about`, which is 0 for a verification.
pub record Promise : Type 0 where
  pub kind : Kind
  pub about : ℕ
  pub status : Status

-- `FetchContext`, without its timer.
pub record FetchContext : Type 0 where
  pub promise : ℕ
  pub replicas : List ℕ

-- The callbacks: of `async_fetch_blk` in `async_deliver_blk`, with the replica; of the promises for
-- the verification, the certified block and the parents of a block; and those of the handlers.
pub data Continuation : Type 0 where
  when_fetched : (fetched replica : ℕ) → Continuation
  when_all : (blk : Ptr) (valid cert_fetched : ℕ) (parents : List ℕ) → Continuation
  when_proposed : (delivered : ℕ) → Proposal → Continuation
  when_voted : (delivered valid : ℕ) → Vote → Continuation
  when_requested : (replica : ℕ) (fetched : List ℕ) → Continuation

pub data Outgoing : Type 0 where
  req_block : List ℕ → Outgoing
  resp_block : List Ptr → Outgoing

-- What ends a callback or a handler early: a failed `assert`, a replica that is not known, or an
-- exception of the core.
pub data Failure : Type 0 where
  assertion unknown_replica : Failure
  exception : Error → Failure

-- `pool` has the promises for the verifications that the threads work on; `sent` the messages with
-- their receivers, newest first.
pub record HotStuffBase : Type 0 where
  pub core : HotStuffCore
  pub promises : ℕ → Promise
  pub next_promise : ℕ
  pub blk_fetch_waiting : List (ℕ × FetchContext)
  pub blk_delivery_waiting : List (ℕ × ℕ)
  pub callbacks : List Continuation
  pub pool : List ℕ
  pub sent : List (ℕ × Outgoing)
  pub fetched : ℕ
  pub delivered : ℕ
  pub part_fetched : ℕ
  pub part_delivered : ℕ
  pub part_parent_size : ℕ
  pub part_fetched_replica : List (ℕ × ℕ)

-- A replica that starts, with its core.
unfoldable pub new_base : HotStuffCore → HotStuffBase
new_base s = record {
  core = s;
  promises = λ _. record { kind = pool false; about = 0; status = pending };
  next_promise = 0;
  blk_fetch_waiting = [];
  blk_delivery_waiting = [];
  callbacks = [];
  pool = [];
  sent = [];
  fetched = 0;
  delivered = 0;
  part_fetched = 0;
  part_delivered = 0;
  part_parent_size = 0;
  part_fetched_replica = [];
}

abbrev pub Ending : Type 0
Ending = HotStuffBase × Option Failure

abbrev pub fine : HotStuffBase → Ending
fine n = (n, none)
