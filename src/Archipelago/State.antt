-- ===== src/Archipelago/State.antt =====
-- The state of HotStuffApp, with that of HotStuffBase for Archipelago, and its constructors.
use archipelago_hotstuff.Base.{ℕ, List, []}

-- An element of `commit_set`.
pub record Entry : Type 0 where
  pub cmd_hash : ℕ
  pub timestamp : ℕ
  pub addr : ℕ

-- What is to be done with a decided command: answer a client, answer the clients of a batch, nothing.
pub data Callback : Type 0 where
  answer : (addr : ℕ) → Callback
  exec_batch : (commit_set_hash : ℕ) → Callback
  ignore : Callback

-- MsgConsensusReqCmd
pub record Consensus : Type 0 where
  pub commit_set_hash : ℕ
  pub stable_timestamp : ℕ
  pub stable_idx : ℕ
  pub place_holder1 : ℕ
  pub place_holder2 : ℕ
  pub place_holder3 : ℕ
  pub place_holder4 : ℕ

-- The fields of HotStuffApp, and those of HotStuffBase for Archipelago. The queues and what was sent
-- are newest first; `client_replies` holds commands with the clients that were told of them.
pub record Replica : Type 0 where
  pub id : ℕ
  pub stable_period : ℕ
  pub clnt_blk_size : ℕ
  pub cmd_cnt : ℕ
  pub exec_count : ℕ
  pub exec_sent : ℕ
  pub exec_last_batch_clock : ℕ
  pub batch_received : List (ℕ × ℕ)
  pub exec_client_rsp : List (ℕ × (ℕ × ℕ))
  pub stable_point : ℕ
  pub stable_point_idx : ℕ
  pub commit_set : List Entry
  pub stable_point_errors : List (ℕ × ℕ)
  pub leader_propose : List ℕ
  pub cmd_pending : List (ℕ × Callback)
  pub ordering1 : List (ℕ × ℕ)
  pub ordering2 : List (ℕ × ℕ)
  pub multicast : List Consensus
  pub client_replies : List (ℕ × ℕ)

-- How a handler ends; `aborted` is the failed assertion.
pub data Outcome : Type 0 where
  done : Replica → Outcome
  aborted undefined : Outcome

-- The constructors.
unfoldable pub new_replica : (id stable_period clnt_blk_size : ℕ) → Replica
new_replica id stable_period clnt_blk_size = record {
  id = id;
  stable_period = stable_period;
  clnt_blk_size = clnt_blk_size;
  cmd_cnt = 0;
  exec_count = 0;
  exec_sent = 0;
  exec_last_batch_clock = 0;
  batch_received = [];
  exec_client_rsp = [];
  stable_point = 0;
  stable_point_idx = 0;
  commit_set = [];
  stable_point_errors = [];
  leader_propose = [];
  cmd_pending = [];
  ordering1 = [];
  ordering2 = [];
  multicast = [];
  client_replies = [];
}
